-- ===== src/Parser/Scan.antt =====
-- lib/perf_script_parser.cpp, the helpers on texts in front of the class, with the parts of the C++
-- library that they call: `std::from_chars`, `find`, `rfind`.
use tracey_mctraceface.Base.{
  ℕ, suc, ◌+◌, ◌-◌, ◌*◌, ◌^◌, ◌%◌, Bool, ◌&&◌, ◌||◌, [], ◌∷◌, reverse, Option, none, some, Bytes,
  codes, starts_with, if◌then◌else◌, leb, ltb, ◌==◌, drop,
}

abbrev pub map_option {ℓ κ} : {A : Type ℓ} {B : Type κ} → (A → B) → Option A → Option B
map_option f none = none
map_option f (some a) = some (f a)

abbrev pub value_or {ℓ} : {A : Type ℓ} → A → Option A → A
value_or d none = d
value_or d (some a) = a

-- `s.find(needle)`
unfoldable pub find_text : Bytes → Bytes → Option ℕ
find_text needle [] = if starts_with [] needle then some 0 else none
find_text needle (c ∷ cs) =
    let rest = find_text needle cs in
    if starts_with (c ∷ cs) needle then some 0 else map_option suc rest

-- `s.rfind(needle)`
unfoldable pub rfind_text : Bytes → Bytes → Option ℕ
rfind_text needle [] = if starts_with [] needle then some 0 else none
rfind_text needle (c ∷ cs) = elim (rfind_text needle cs) [
  | some i ↦ some (suc i)
  | none ↦ if starts_with (c ∷ cs) needle then some 0 else none
]

abbrev pub drop_while : (ℕ → Bool) → Bytes → Bytes
drop_while p [] = []
drop_while p (c ∷ cs) = let rest = drop_while p cs in if p c then rest else c ∷ cs

abbrev pub take_while : (ℕ → Bool) → Bytes → Bytes
take_while p [] = []
take_while p (c ∷ cs) = let rest = take_while p cs in if p c then c ∷ rest else []

abbrev pub is_space : ℕ → Bool
is_space c = c == b' ' || c == 9

abbrev pub is_digit : ℕ → Bool
is_digit c = leb b'0' c && leb c b'9'

abbrev pub is_lower_hex : ℕ → Bool
is_lower_hex c = is_digit c || (leb b'a' c && leb c b'f')

abbrev pub is_hex : ℕ → Bool
is_hex c = is_lower_hex c || (leb b'A' c && leb c b'F')

-- The value of a digit of `std::from_chars`.
abbrev pub decimal_digit : ℕ → Option ℕ
decimal_digit c = if is_digit c then some (c - b'0') else none

abbrev pub hex_digit : ℕ → Option ℕ
hex_digit c =
    if is_digit c
    then some (c - b'0')
    else if leb b'a' c && leb c b'f'
    then some (c - b'a' + 10)
    else if leb b'A' c && leb c b'F'
    then some (c - b'A' + 10)
    else none

-- The digits in front of a text, behind those that make `acc`.
unfoldable pub read_digits : (ℕ → Option ℕ) → ℕ → ℕ → Bytes → ℕ
read_digits digit base acc [] = acc
read_digits digit base acc (c ∷ cs) = elim (digit c) [
  | some d ↦ read_digits digit base (acc * base + d) cs
  | none ↦ acc
]

-- `std::from_chars` for a type of `bound` values without a sign. On both errors, no digit in front
-- and a number out of range, the variable keeps its value: `none`.
unfoldable pub from_chars : (ℕ → Option ℕ) → ℕ → ℕ → Bytes → Option ℕ
from_chars digit base bound [] = none
from_chars digit base bound (c ∷ cs) = elim (digit c) [
  | some d ↦ let n = read_digits digit base d cs in if ltb n bound then some n else none
  | none ↦ none
]

unfoldable pub parse_hex64 : Bytes → ℕ
parse_hex64 s =
    let digits = if starts_with s (codes "0x") || starts_with s (codes "0X") then drop 2 s else s in
    value_or 0 (from_chars hex_digit 16 (2 ^ 64) digits)

unfoldable pub parse_uint32 : Bytes → ℕ
parse_uint32 s = value_or 0 (from_chars decimal_digit 10 (2 ^ 32) s)

-- The 32-bit pattern of the number.
unfoldable pub parse_int32 : Bytes → ℕ
parse_int32 [] = 0
parse_int32 (c ∷ cs) =
    if c == b'-'
    then (2 ^ 32 - value_or 0 (from_chars decimal_digit 10 (2 ^ 31 + 1) cs)) % 2 ^ 32
    else value_or 0 (from_chars decimal_digit 10 (2 ^ 31) (c ∷ cs))

unfoldable pub skip_spaces : Bytes → Bytes
skip_spaces = drop_while is_space

-- The digits, and what `s` is then.
unfoldable pub consume_digits : Bytes → Bytes × Bytes
consume_digits s = (take_while is_digit s, drop_while is_digit s)

unfoldable pub consume_hex : Bytes → Bytes × Bytes
consume_hex s = (take_while is_hex s, drop_while is_hex s)

-- Without the spaces at the end.
unfoldable pub trim_end : Bytes → Bytes
trim_end s = reverse (drop_while (λ c. c == b' ') (reverse s))

abbrev pub ends_with : Bytes → Bytes → Bool
ends_with s suffix = starts_with (reverse s) (reverse suffix)
