-- ===== src/Parser/Digits.antt =====
-- The scanning of numbers that stand in front of other text.
use tracey_mctraceface.Base.{
  ℕ, zero, suc, ◌+◌, ◌*◌, ◌/◌, ◌%◌, ◌^◌, ◌<◌, ◌≡◌, refl, sym, ap, ◌∙◌, true, false, [], ◌∷◌, ◌++◌,
  some, Bytes, ltb, ◌==◌, arith, Bool-cases, inl, inr, is_empty, length, ◌-◌, lt→ltb,
}
use tracey_mctraceface.Parser.Scan.{
  is_digit, decimal_digit, read_digits, from_chars, parse_uint32, consume_digits, value_or,
}
use tracey_mctraceface.Parser.Branches.{parse_time}
use tracey_mctraceface.Parser.Numbers.{
  Digits, stops, take_while-append, drop_while-append, digit_of, digit_of-is_digit, fixed_onto,
  read, read-fixed_onto, read-decimal_onto, read_digits-step,
}
use tracey_mctraceface.Writer.{decimal_onto, decimal}

decimal_onto-Digits : (fuel n : ℕ) (acc : Bytes) → Digits acc → Digits (decimal_onto fuel n acc)
unfolding decimal_onto
decimal_onto-Digits zero n acc h = h
decimal_onto-Digits (suc fuel) n acc h = elim (Bool-cases (n / 10 == 0)) [
  | inl small ↦ rw small (digit_of-is_digit n, h)
  | inr large ↦
      rw large (decimal_onto-Digits fuel (n / 10) (digit_of n ∷ acc) (digit_of-is_digit n, h))
]

decimal_onto-append :
    (fuel n : ℕ) (xs ys : Bytes) → decimal_onto fuel n (xs ++ ys) ≡ decimal_onto fuel n xs ++ ys
unfolding decimal_onto
decimal_onto-append zero n xs ys = refl
decimal_onto-append (suc fuel) n xs ys = elim (Bool-cases (n / 10 == 0)) [
  | inl small ↦ rw small refl
  | inr large ↦ rw large (decimal_onto-append fuel (n / 10) (digit_of n ∷ xs) ys)
]

fixed_onto-Digits : (w n : ℕ) (acc : Bytes) → Digits acc → Digits (fixed_onto w n acc)
fixed_onto-Digits zero n acc h = h
fixed_onto-Digits (suc w) n acc h =
    fixed_onto-Digits w (n / 10) (digit_of n ∷ acc) (digit_of-is_digit n, h)

fixed_onto-append : (w n : ℕ) (xs ys : Bytes) → fixed_onto w n (xs ++ ys) ≡ fixed_onto w n xs ++ ys
fixed_onto-append zero n xs ys = refl
fixed_onto-append (suc w) n xs ys = fixed_onto-append w (n / 10) (digit_of n ∷ xs) ys

length-fixed_onto : (w n : ℕ) (acc : Bytes) → length (fixed_onto w n acc) ≡ w + length acc
length-fixed_onto zero n acc = omega arith
length-fixed_onto (suc w) n acc = omega (arith, length-fixed_onto w (n / 10) (digit_of n ∷ acc))

-- The nine digits of the nanoseconds.
abbrev pub nine : ℕ → Bytes
nine n = fixed_onto 9 n []

filled : (fuel n c : ℕ) (acc : Bytes) → is_empty (decimal_onto fuel n (c ∷ acc)) ≡ false
unfolding decimal_onto
filled zero n c acc = refl
filled (suc fuel) n c acc = elim (Bool-cases (n / 10 == 0)) [
  | inl small ↦ rw small refl
  | inr large ↦ rw large (filled fuel (n / 10) (digit_of n) (c ∷ acc))
]

pub decimal-filled : (n : ℕ) → is_empty (decimal n) ≡ false
unfolding decimal decimal_onto
decimal-filled n = elim (Bool-cases (n / 10 == 0)) [
  | inl small ↦ rw small refl
  | inr large ↦ rw large (filled 19 (n / 10) (digit_of n) [])
]

is_digit-value : (c : ℕ) → is_digit c ≡ true → decimal_digit c ≡ some (c - b'0')
is_digit-value c h = rw h refl

-- A text of digits is read to its value, in range.
from_chars-Digits :
    (bound : ℕ) (s : Bytes)
    → Digits s
    → is_empty s ≡ false
    → read 0 s < bound
    → from_chars decimal_digit 10 bound s ≡ some (read 0 s)
unfolding from_chars
from_chars-Digits bound [] h e r = ground arith
from_chars-Digits bound (c ∷ cs) h e r =
    let v = is_digit-value c h.0 in
    let step = read_digits-step 0 c (c - b'0') cs v ∙ ap (λ m. read m cs) (omega arith) in
    let in_range : ltb (read (c - b'0') cs) bound ≡ true = lt→ltb _ _ (omega (arith, step, r)) in
    rw (from_chars, v, in_range) (ap some (sym step))

read-stop : (n : ℕ) (s : Bytes) → stops is_digit s ≡ true → read n s ≡ n
unfolding read_digits
read-stop n [] h = refl
read-stop n (c ∷ cs) h = elim (Bool-cases (is_digit c)) [
  | inl hit ↦ absurd (ground (arith, hit, h))
  | inr miss ↦ rw (read_digits, miss) refl
]

pub read-decimal : (n : ℕ) → n < 10 ^ 20 → read 0 (decimal n) ≡ n
unfolding decimal
read-decimal n h = read-decimal_onto 19 n [] h ∙ read-stop n [] refl

read-nine : (n : ℕ) → n < 10 ^ 9 → read 0 (nine n) ≡ n
read-nine n h = read-fixed_onto 9 n [] h ∙ read-stop n [] refl

pub decimal-Digits : (n : ℕ) → Digits (decimal n)
unfolding decimal
decimal-Digits n = decimal_onto-Digits 20 n [] tt

nine-Digits : (n : ℕ) → Digits (nine n)
nine-Digits n = fixed_onto-Digits 9 n [] tt

pub parse_uint32-decimal : (n : ℕ) → n < 2 ^ 32 → parse_uint32 (decimal n) ≡ n
unfolding parse_uint32
parse_uint32-decimal n h =
    let e = read-decimal n (omega (arith, h)) in
    ap (value_or 0) (
      from_chars-Digits (2 ^ 32) (decimal n) (decimal-Digits n) (decimal-filled n)
        (omega (arith, e, h)))
    ∙ e

pub consume-decimal :
    (n : ℕ) (s : Bytes) → stops is_digit s ≡ true → consume_digits (decimal n ++ s) ≡ (decimal n, s)
unfolding consume_digits
consume-decimal n s h = λ i. (
  take_while-append is_digit (decimal n) s (decimal-Digits n) h i,
  drop_while-append is_digit (decimal n) s (decimal-Digits n) h i,
)

pub consume-nine :
    (n : ℕ) (s : Bytes) → stops is_digit s ≡ true → consume_digits (nine n ++ s) ≡ (nine n, s)
unfolding consume_digits
consume-nine n s h = λ i. (
  take_while-append is_digit (nine n) s (nine-Digits n) h i,
  drop_while-append is_digit (nine n) s (nine-Digits n) h i,
)

read-append :
    (a : ℕ) (xs s : Bytes) → Digits xs → stops is_digit s ≡ true → read a (xs ++ s) ≡ read a xs
unfolding read_digits
read-append a [] s h e = read-stop a s e
read-append a (c ∷ xs) s h e =
    let v = is_digit-value c h.0 in
    read_digits-step a c (c - b'0') (xs ++ s) v
    ∙ read-append (a * 10 + (c - b'0')) xs s h.1 e
    ∙ sym (read_digits-step a c (c - b'0') xs v)

-- Digits are read up to the first other byte.
pub from_chars-append :
    (bound : ℕ) (xs s : Bytes)
    → Digits xs
    → is_empty xs ≡ false
    → stops is_digit s ≡ true
    → read 0 xs < bound
    → from_chars decimal_digit 10 bound (xs ++ s) ≡ some (read 0 xs)
unfolding from_chars
from_chars-append bound [] s h e t r = ground arith
from_chars-append bound (c ∷ cs) s h e t r =
    let v = is_digit-value c h.0 in
    let step = read_digits-step 0 c (c - b'0') cs v ∙ ap (λ m. read m cs) (omega arith) in
    let same = read-append (c - b'0') cs s h.1 t in
    let in_range : ltb (read (c - b'0') (cs ++ s)) bound ≡ true =
      lt→ltb _ _ (omega (arith, step, same, r)) in
    rw (from_chars, v, in_range) (ap some (same ∙ sym step))

-- Seconds in decimal and nine digits of nanoseconds are parsed to the time in nanoseconds, where that
-- fits 64 bits.
pub parse_time-decimal :
    (seconds nanoseconds : ℕ)
    → nanoseconds < 10 ^ 9
    → seconds * 10 ^ 9 + nanoseconds < 2 ^ 64
    → parse_time (decimal seconds) (nine nanoseconds) ≡ seconds * 10 ^ 9 + nanoseconds
unfolding parse_time
parse_time-decimal seconds nanoseconds small h =
    let e = read-decimal seconds (omega (arith, h)) in
    let f = read-nine nanoseconds small in
    let a =
      from_chars-Digits (2 ^ 64) (decimal seconds) (decimal-Digits seconds) (decimal-filled seconds)
        (omega (arith, e, h)) in
    let b =
      from_chars-Digits (2 ^ 64) (nine nanoseconds) (nine-Digits nanoseconds) refl
        (omega (arith, f, small)) in
    let p = ap (value_or 0) a ∙ e in
    let q = ap (value_or 0) b ∙ f in (λ i. (p i * 1000000000 + q i) % 2 ^ 64) ∙ omega (arith, h)
