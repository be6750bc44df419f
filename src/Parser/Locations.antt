-- ===== src/Parser/Locations.antt =====
-- Symbols with an offset, as `perf script` prints them.
use tracey_mctraceface.Base.{
  ℕ, zero, suc, ◌+◌, ◌-◌, ◌*◌, ◌/◌, ◌%◌, ◌^◌, ◌<◌, ◌≡◌, refl, sym, ap, ◌∙◌, true, false, [], ◌∷◌,
  ◌++◌, All, some, none, Bytes, codes, starts_with, if◌then◌else◌, ltb, ◌==◌, ==_iff, lt→ltb,
  length, take, drop, subst, arith, Bool-cases, inl, inr,
}
use tracey_mctraceface.Parser.Scan.{
  value_or, find_text, rfind_text, hex_digit, read_digits, from_chars, parse_hex64,
}
use tracey_mctraceface.Parser.Branches.{parse_symbol_and_offset}

abbrev Lacks : ℕ → Bytes → Type 0
Lacks c = All (λ d. (d == c) ≡ false)

rfind_text-none :
    (s t : Bytes)
    → Lacks b'+' s
    → rfind_text (codes "+0x") t ≡ none
    → rfind_text (codes "+0x") (s ++ t) ≡ none
unfolding rfind_text starts_with
rfind_text-none [] t h e = e
rfind_text-none (c ∷ s) t h e = rw (rfind_text-none s t h.1 e, h.0) refl

rfind_text-last :
    (s t : Bytes)
    → rfind_text (codes "+0x") t ≡ none
    → rfind_text (codes "+0x") (s ++ (codes "+0x" ++ t)) ≡ some (length s)
unfolding rfind_text starts_with
rfind_text-last [] t h = rw h refl
rfind_text-last (c ∷ s) t h = rw (rfind_text-last s t h) refl

pub find_text-space :
    (s t : Bytes) → Lacks b' ' s → find_text (codes " ") (s ++ (codes " " ++ t)) ≡ some (length s)
unfolding find_text starts_with
find_text-space [] t h = refl
find_text-space (c ∷ s) t h = rw (h.0, find_text-space s t h.1) refl

pub take_front : (s t : Bytes) → take (length s) (s ++ t) ≡ s
take_front [] t = refl
take_front (c ∷ s) t = ap (◌∷◌ c) (take_front s t)

pub drop_front : (s t : Bytes) (c : ℕ) → drop (suc (length s)) (s ++ (c ∷ t)) ≡ t
drop_front [] t c = refl
drop_front (d ∷ s) t c = drop_front s t c

-- A number in hex, in lower case.
abbrev pub hex_char : ℕ → ℕ
hex_char d = if ltb d 10 then b'0' + d else b'a' - 10 + d

abbrev pub hex_onto : ℕ → ℕ → Bytes → Bytes
hex_onto zero n acc = acc
hex_onto (suc fuel) n acc =
    let more = hex_onto fuel (n / 16) (hex_char (n % 16) ∷ acc) in
    if n / 16 == 0 then hex_char (n % 16) ∷ acc else more

-- At most sixteen digits are a 64-bit number.
abbrev pub hex : ℕ → Bytes
hex n = hex_onto 16 n []

hex_char-value : (d : ℕ) → d < 16 → hex_digit (hex_char d) ≡ some d
hex_char-value d h = ground (arith, h)

hex_char-other : (d : ℕ) → d < 16 → ((hex_char d == b' ') ≡ false) × ((hex_char d == b'+') ≡ false)
hex_char-other d h = (ground (arith, h), ground (arith, h))

abbrev read : ℕ → Bytes → ℕ
read = read_digits hex_digit 16

read-step : (a c d : ℕ) (cs : Bytes) → hex_digit c ≡ some d → read a (c ∷ cs) ≡ read (a * 16 + d) cs
unfolding read_digits
read-step a c d cs h = rw (read_digits, h) refl

read-hex_onto :
    (fuel n : ℕ) (acc : Bytes) → n < 16 ^ suc fuel → read 0 (hex_onto (suc fuel) n acc) ≡ read n acc
read-hex_onto zero n acc h =
    let small : (n / 16 == 0) ≡ true = (==_iff (n / 16) 0).1 (omega (arith, h)) in
    rw small (
      read-step 0 (hex_char (n % 16)) (n % 16) acc (hex_char-value (n % 16) (omega arith))
      ∙ ap (λ m. read m acc) (omega (arith, h)))
read-hex_onto (suc fuel) n acc h = elim (Bool-cases (n / 16 == 0)) [
  | inl small ↦ rw small (
      read-step 0 (hex_char (n % 16)) (n % 16) acc (hex_char-value (n % 16) (omega arith))
      ∙ ap (λ m. read m acc) (omega (arith, (==_iff (n / 16) 0).0 small)))
  | inr large ↦ rw large (
      read-hex_onto fuel (n / 16) (hex_char (n % 16) ∷ acc) (omega (arith, h))
      ∙ read-step (n / 16) (hex_char (n % 16)) (n % 16) acc (hex_char-value (n % 16) (omega arith))
      ∙ ap (λ m. read m acc) (omega arith))
]

-- A text that `from_chars` reads as the digits that it begins with.
record IsHex (s : Bytes) : Type 0 where
  digit : ℕ
  first : ℕ
  rest : Bytes
  shape : s ≡ first ∷ rest
  value : hex_digit first ≡ some digit
  no_space : Lacks b' ' s
  no_plus : Lacks b'+' s

hex_char-IsHex :
    (d : ℕ) (acc : Bytes) → d < 16 → Lacks b' ' acc → Lacks b'+' acc → IsHex (hex_char d ∷ acc)
hex_char-IsHex d acc h a b = record {
  digit = d;
  first = hex_char d;
  rest = acc;
  shape = refl;
  value = hex_char-value d h;
  no_space = ((hex_char-other d h).0, a);
  no_plus = ((hex_char-other d h).1, b);
}

hex_onto-IsHex :
    (fuel n : ℕ) (acc : Bytes) → Lacks b' ' acc → Lacks b'+' acc → IsHex (hex_onto (suc fuel) n acc)
hex_onto-IsHex zero n acc a b = elim (Bool-cases (n / 16 == 0)) [
  | inl small ↦ rw small (hex_char-IsHex (n % 16) acc (omega arith) a b)
  | inr large ↦ rw large (hex_char-IsHex (n % 16) acc (omega arith) a b)
]
hex_onto-IsHex (suc fuel) n acc a b = elim (Bool-cases (n / 16 == 0)) [
  | inl small ↦ rw small (hex_char-IsHex (n % 16) acc (omega arith) a b)
  | inr large ↦
      let (x, y) = hex_char-other (n % 16) (omega arith) in
      rw large (hex_onto-IsHex fuel (n / 16) (hex_char (n % 16) ∷ acc) (x, a) (y, b))
]

from_chars-IsHex :
    (s : Bytes) → IsHex s → read 0 s < 2 ^ 64 → from_chars hex_digit 16 (2 ^ 64) s ≡ some (read 0 s)
unfolding from_chars
from_chars-IsHex s h r =
    subst (λ x. from_chars hex_digit 16 (2 ^ 64) x ≡ some (read 0 x)) (sym h.shape)
      (let step =
          read-step 0 h.first h.digit h.rest h.value ∙ ap (λ m. read m h.rest) (omega arith) in
        let bound = ap (read 0) h.shape in
        let in_range : ltb (read h.digit h.rest) (2 ^ 64) ≡ true =
          lt→ltb _ _ (omega (arith, step, bound, r)) in
        rw (from_chars, h.value, in_range) (ap some (sym step)))

hex-IsHex : (n : ℕ) → IsHex (hex n)
hex-IsHex n = hex_onto-IsHex 15 n [] tt tt

read_nothing : (n : ℕ) → read n [] ≡ n
unfolding read_digits
read_nothing n = refl

pub parse_hex64-hex : (n : ℕ) → n < 2 ^ 64 → parse_hex64 (codes "0x" ++ hex n) ≡ n
unfolding parse_hex64 starts_with
parse_hex64-hex n h =
    let e = read-hex_onto 15 n [] (omega (arith, h)) ∙ read_nothing n in
    ap (value_or 0) (from_chars-IsHex (hex n) (hex-IsHex n) (omega (arith, e, h))) ∙ e

-- A symbol with its offset and the object that it stands in is parsed to the symbol and the low 32 bits
-- of the offset, whatever the symbol is (an operator with a "+" too), where no "+0x" stands
-- behind the offset.
pub parse_symbol_and_offset-text :
    (symbol : Bytes) (offset : ℕ) (dso : Bytes)
    → offset < 2 ^ 64
    → rfind_text (codes "+0x") dso ≡ none
    → parse_symbol_and_offset (symbol ++ (codes "+0x" ++ (hex offset ++ (codes " " ++ dso))))
      ≡ (symbol, offset % 2 ^ 32)
unfolding parse_symbol_and_offset
parse_symbol_and_offset-text symbol offset dso small plain =
    let tail = hex offset ++ (codes " " ++ dso) in
    let d = hex-IsHex offset in
    let found = rfind_text-last symbol tail (
      rfind_text-none (hex offset) (codes " " ++ dso) d.no_plus
        (rfind_text-none (codes " ") dso (refl, tt) plain)) in
    let one_on : length symbol + 1 ≡ suc (length symbol) = omega arith in
    let dropped : drop (length symbol + 1) (symbol ++ (codes "+0x" ++ tail)) ≡ codes "0x" ++ tail =
      ap (λ n. drop n (symbol ++ (codes "+0x" ++ tail))) one_on
      ∙ drop_front symbol (codes "0x" ++ tail) b'+' in
    let space = find_text-space (codes "0x" ++ hex offset) dso (refl, (refl, d.no_space)) in
    rw (parse_symbol_and_offset, found, dropped, space)
      (λ i. (
        take_front symbol (codes "+0x" ++ tail) i,
        (ap (λ x. parse_hex64 x % 2 ^ 32) (take_front (codes "0x" ++ hex offset) (codes " " ++ dso))
              ∙ ap (λ n. n % 2 ^ 32) (parse_hex64-hex offset small))
            i,
      ))
