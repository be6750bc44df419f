-- ===== src/Parser/Addresses.antt =====
-- lib/perf_script_parser.cpp: addresses in hex, as `perf script` prints them, and how the address of a
-- branch is found behind its flags.
use tracey_mctraceface.Base.{
  ℕ, zero, suc, ◌/◌, ◌%◌, ◌^◌, ◌<◌, ◌≡◌, refl, sym, ◌∙◌, subst, inl, inr, true, false, ◌||◌, [],
  ◌∷◌, ◌++◌, All, Bytes, codes, is_empty, starts_with, ◌==◌, ==_iff, arith, Bool-cases,
}
use tracey_mctraceface.Parser.Scan.{
  value_or, is_lower_hex, is_hex, hex_digit, from_chars, parse_hex64, consume_hex,
}
use tracey_mctraceface.Parser.Numbers.{take_while-append, drop_while-append}
use tracey_mctraceface.Parser.Locations.{hex_char, hex_onto, hex, parse_hex64-hex}
use tracey_mctraceface.Parser.Branches.{is_address}

abbrev pub LowerHex : Bytes → Type 0
LowerHex = All (λ c. is_lower_hex c ≡ true)

hex_char-lower : (d : ℕ) → d < 16 → is_lower_hex (hex_char d) ≡ true
hex_char-lower d h = ground (arith, h)

hex_onto-LowerHex : (fuel n : ℕ) (acc : Bytes) → LowerHex acc → LowerHex (hex_onto fuel n acc)
hex_onto-LowerHex zero n acc h = h
hex_onto-LowerHex (suc fuel) n acc h =
    let first = hex_char-lower (n % 16) (omega arith) in
    elim (Bool-cases (n / 16 == 0)) [
      | inl small ↦ rw small (first, h)
      | inr large ↦ rw large (hex_onto-LowerHex fuel (n / 16) (hex_char (n % 16) ∷ acc) (first, h))
    ]

pub hex-LowerHex : (n : ℕ) → LowerHex (hex n)
hex-LowerHex n = hex_onto-LowerHex 16 n [] tt

hex_onto-filled : (fuel n c : ℕ) (acc : Bytes) → is_empty (hex_onto fuel n (c ∷ acc)) ≡ false
hex_onto-filled zero n c acc = refl
hex_onto-filled (suc fuel) n c acc = elim (Bool-cases (n / 16 == 0)) [
  | inl small ↦ rw small refl
  | inr large ↦ rw large (hex_onto-filled fuel (n / 16) (hex_char (n % 16)) (c ∷ acc))
]

pub hex-filled : (n : ℕ) → is_empty (hex n) ≡ false
hex-filled n = elim (Bool-cases (n / 16 == 0)) [
  | inl small ↦ rw small refl
  | inr large ↦ rw large (hex_onto-filled 15 (n / 16) (hex_char (n % 16)) [])
]

-- What no digit is: a space, "x", "+", "=".
pub lower_not :
    (c other : ℕ) → is_lower_hex other ≡ false → is_lower_hex c ≡ true → (c == other) ≡ false
lower_not c other h e = elim (Bool-cases (c == other)) [
  | inl same ↦
      let e' : is_lower_hex other ≡ true =
        subst (λ x. is_lower_hex x ≡ true) ((==_iff c other).0 same) e in
      absurd (ground (arith, e', h))
  | inr differ ↦ differ
]

pub LowerHex-lacks :
    (other : ℕ) (s : Bytes)
    → is_lower_hex other ≡ false
    → LowerHex s
    → All (λ c. (c == other) ≡ false) s
LowerHex-lacks other [] h e = tt
LowerHex-lacks other (c ∷ s) h e = (lower_not c other h e.0, LowerHex-lacks other s h e.1)

lower-hex : (c : ℕ) → is_lower_hex c ≡ true → is_hex c ≡ true
lower-hex c h = rw h refl

LowerHex-hex : (s : Bytes) → LowerHex s → All (λ c. is_hex c ≡ true) s
LowerHex-hex [] h = tt
LowerHex-hex (c ∷ s) h = (lower-hex c h.0, LowerHex-hex s h.1)

-- An address with a space behind it.
pub is_address-hex : (n : ℕ) (rest : Bytes) → is_address (hex n ++ (codes " " ++ rest)) ≡ true
unfolding is_address starts_with
is_address-hex n rest =
    rw
      (
        take_while-append is_lower_hex (hex n) (codes " " ++ rest) (hex-LowerHex n) refl,
        drop_while-append is_lower_hex (hex n) (codes " " ++ rest) (hex-LowerHex n) refl,
        hex-filled n,
      )
      refl

pub consume_hex-hex :
    (n : ℕ) (rest : Bytes) → consume_hex (hex n ++ (codes " " ++ rest)) ≡ (hex n, codes " " ++ rest)
unfolding consume_hex
consume_hex-hex n rest = λ i. (
  take_while-append is_hex (hex n) (codes " " ++ rest) (LowerHex-hex (hex n) (hex-LowerHex n)) refl
      i,
  drop_while-append is_hex (hex n) (codes " " ++ rest) (LowerHex-hex (hex n) (hex-LowerHex n)) refl
      i,
)

no_prefix :
    (s : Bytes) → LowerHex s → (starts_with s (codes "0x") || starts_with s (codes "0X")) ≡ false
unfolding starts_with
no_prefix [] h = refl
no_prefix (a ∷ []) h = elim (Bool-cases (a == b'0')) [ inl z ↦ rw z refl | inr o ↦ rw o refl ]
no_prefix (a ∷ b ∷ s) h =
    let x = lower_not b b'x' refl h.1.0 in
    let y = lower_not b b'X' refl h.1.0 in
    elim (Bool-cases (a == b'0')) [ inl z ↦ rw (z, x, y) refl | inr o ↦ rw o refl ]

unprefixed :
    (s : Bytes) → LowerHex s → parse_hex64 s ≡ value_or 0 (from_chars hex_digit 16 (2 ^ 64) s)
unfolding parse_hex64
unprefixed s h = rw (no_prefix s h) refl

prefixed :
    (s : Bytes) → parse_hex64 (codes "0x" ++ s) ≡ value_or 0 (from_chars hex_digit 16 (2 ^ 64) s)
unfolding parse_hex64 starts_with
prefixed s = refl

-- An address is parsed the same with "0x" in front of it and without.
pub parse_hex64-address : (n : ℕ) → n < 2 ^ 64 → parse_hex64 (hex n) ≡ n
parse_hex64-address n h =
    unprefixed (hex n) (hex-LowerHex n) ∙ (sym (prefixed (hex n)) ∙ parse_hex64-hex n h)
