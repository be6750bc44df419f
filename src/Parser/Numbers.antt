-- ===== src/Parser/Numbers.antt =====
-- Numbers in decimal: what `std::to_string` prints is scanned and read back.
use tracey_mctraceface.Base.{
  ℕ, zero, suc, ◌+◌, ◌*◌, ◌/◌, ◌%◌, ◌^◌, ◌<◌, ◌≡◌, refl, ap, ◌∙◌, Bool, true, not, [], ◌∷◌, ◌++◌,
  All, some, Bytes, ◌==◌, ==_iff, arith, Bool-cases, inl, inr,
}
use tracey_mctraceface.Parser.Scan.{take_while, drop_while, is_digit, decimal_digit, read_digits}
use tracey_mctraceface.Writer.{decimal_onto}

abbrev pub Digits : Bytes → Type 0
Digits = All (λ c. is_digit c ≡ true)

-- No byte of `p` stands in front.
abbrev pub stops : (ℕ → Bool) → Bytes → Bool
stops p [] = true
stops p (c ∷ cs) = not (p c)

pub take_while-append :
    (p : ℕ → Bool) (xs ys : Bytes)
    → All (λ c. p c ≡ true) xs
    → stops p ys ≡ true
    → take_while p (xs ++ ys) ≡ xs
take_while-append p [] [] h s = refl
take_while-append p [] (y ∷ ys) h s = elim (Bool-cases (p y)) [
  | inl hit ↦ absurd (ground (arith, hit, s))
  | inr miss ↦ rw miss refl
]
take_while-append p (x ∷ xs) ys h s = rw h.0 (ap (◌∷◌ x) (take_while-append p xs ys h.1 s))

pub drop_while-append :
    (p : ℕ → Bool) (xs ys : Bytes)
    → All (λ c. p c ≡ true) xs
    → stops p ys ≡ true
    → drop_while p (xs ++ ys) ≡ ys
drop_while-append p [] [] h s = refl
drop_while-append p [] (y ∷ ys) h s = elim (Bool-cases (p y)) [
  | inl hit ↦ absurd (ground (arith, hit, s))
  | inr miss ↦ rw miss refl
]
drop_while-append p (x ∷ xs) ys h s = rw h.0 (drop_while-append p xs ys h.1 s)

abbrev pub digit_of : ℕ → ℕ
digit_of n = b'0' + n % 10

pub digit_of-is_digit : (n : ℕ) → is_digit (digit_of n) ≡ true
digit_of-is_digit n = let h : n % 10 < 10 = omega arith in ground (arith, h)

pub digit_of-value : (n : ℕ) → decimal_digit (digit_of n) ≡ some (n % 10)
digit_of-value n = rw (digit_of-is_digit n) (ap some (omega arith))

abbrev pub read : ℕ → Bytes → ℕ
read = read_digits decimal_digit 10

pub read_digits-step :
    (a c d : ℕ) (cs : Bytes) → decimal_digit c ≡ some d → read a (c ∷ cs) ≡ read (a * 10 + d) cs
unfolding read_digits
read_digits-step a c d cs h = rw (read_digits, h) refl

read-digit : (a n : ℕ) (cs : Bytes) → read a (digit_of n ∷ cs) ≡ read (a * 10 + n % 10) cs
read-digit a n cs = read_digits-step a (digit_of n) (n % 10) cs (digit_of-value n)

-- A number of `w` digits, with zeros in front.
abbrev pub fixed_onto : ℕ → ℕ → Bytes → Bytes
fixed_onto zero n acc = acc
fixed_onto (suc w) n acc = fixed_onto w (n / 10) (digit_of n ∷ acc)

pub read-fixed_onto :
    (w n : ℕ) (acc : Bytes) → n < 10 ^ w → read 0 (fixed_onto w n acc) ≡ read n acc
read-fixed_onto zero n acc h = ap (λ m. read m acc) (omega (arith, h))
read-fixed_onto (suc w) n acc h =
    read-fixed_onto w (n / 10) (digit_of n ∷ acc) (omega (arith, h))
    ∙ read-digit (n / 10) n acc
    ∙ ap (λ m. read m acc) (omega arith)

pub read-decimal_onto :
    (fuel n : ℕ) (acc : Bytes)
    → n < 10 ^ suc fuel
    → read 0 (decimal_onto (suc fuel) n acc) ≡ read n acc
unfolding decimal_onto
read-decimal_onto zero n acc h =
    let small : (n / 10 == 0) ≡ true = (==_iff (n / 10) 0).1 (omega (arith, h)) in
    rw small (read-digit 0 n acc ∙ ap (λ m. read m acc) (omega (arith, h)))
read-decimal_onto (suc fuel) n acc h = elim (Bool-cases (n / 10 == 0)) [
  | inl small ↦
      rw small
        (read-digit 0 n acc ∙ ap (λ m. read m acc) (omega (arith, (==_iff (n / 10) 0).0 small)))
  | inr large ↦ rw large (
      read-decimal_onto fuel (n / 10) (digit_of n ∷ acc) (omega (arith, h))
      ∙ read-digit (n / 10) n acc
      ∙ ap (λ m. read m acc) (omega arith))
]
