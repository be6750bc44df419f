-- ===== src/Parser/Arrow.antt =====
-- lib/perf_script_parser.cpp: the arrow between the sides of a branch.
use tracey_mctraceface.Base.{
  ℕ, suc, ◌≡◌, refl, inl, inr, Bool, ◌&&◌, not, is_empty, true, false, [], ◌∷◌, ◌++◌, All, Option,
  some, none, Bytes, codes, starts_with, if◌then◌else◌, ◌==◌, length, arith, Bool-cases,
}
use tracey_mctraceface.Event.{BranchKind, TraceState}
use tracey_mctraceface.Parser.Scan.{map_option, find_text, is_space}
use tracey_mctraceface.Parser.FlagTexts.{every_flags, flags-Plain, spaces-Plain, Plain-lacks}
use tracey_mctraceface.Parser.Headers.{spaces}
use tracey_mctraceface.Parser.Kinds.{flags_text}
use tracey_mctraceface.Parser.Numbers.{stops}
use tracey_mctraceface.Parser.Flags.{gap_text}

-- Nothing that would be taken for the arrow, as far as its ">".
abbrev pub HasNoArrow : Bytes → Type 0
HasNoArrow s = find_text (codes " =>") s ≡ none

pub arrow_cut :
    (c : ℕ) (p y : Bytes)
    → starts_with (c ∷ p) (codes " =>") ≡ false
    → starts_with (c ∷ (p ++ (codes " => " ++ y))) (codes " => ") ≡ false
unfolding starts_with
arrow_cut c [] y h = elim (Bool-cases (c == b' ')) [ inl z ↦ rw z refl | inr o ↦ rw o refl ]
arrow_cut c (d ∷ []) y h = elim (Bool-cases (c == b' ')) [
  | inr o ↦ rw o refl
  | inl z ↦ elim (Bool-cases (d == b'=')) [ inl u ↦ rw (z, u) refl | inr v ↦ rw (z, v) refl ]
]
arrow_cut c (d ∷ e ∷ p) y h = elim (Bool-cases (c == b' ')) [
  | inr o ↦ rw o refl
  | inl z ↦ elim (Bool-cases (d == b'=')) [
    | inr v ↦ rw (z, v) refl
    | inl u ↦ elim (Bool-cases (e == b'>')) [
      | inr w ↦ rw (z, u, w) refl
      | inl w ↦ absurd (ground (arith, z, u, w, h))
    ]
  ]
]

pub found_not :
    (b : Bool) (o : Option ℕ)
    → (if b then some 0 else map_option suc o) ≡ none
    → (b ≡ false) × (o ≡ none)
found_not true o h = absurd (ground arith)
found_not false none h = (refl, refl)
found_not false (some n) h = absurd (ground arith)

-- The arrow is found behind a text that has none.
pub find_text-arrow :
    (p y : Bytes)
    → HasNoArrow p
    → find_text (codes " => ") (p ++ (codes " => " ++ y)) ≡ some (length p)
unfolding find_text
find_text-arrow [] y h = unfold starts_with in refl
find_text-arrow (c ∷ p) y h =
    let (here, later) =
      found_not (starts_with (c ∷ p) (codes " =>")) (find_text (codes " =>") p) h in
    rw (arrow_cut c p y here, find_text-arrow p y later) refl

pub arrow_front :
    (c : ℕ) (q s : Bytes)
    → All (λ d. (d == b'=') ≡ false) q
    → starts_with (c ∷ (q ++ (codes " " ++ s))) (codes " =>") ≡ false
unfolding starts_with
arrow_front c [] s h = elim (Bool-cases (c == b' ')) [ inl z ↦ rw z refl | inr o ↦ rw o refl ]
arrow_front c (d ∷ q) s h = elim (Bool-cases (c == b' ')) [
  | inl z ↦ rw (z, h.0) refl
  | inr o ↦ rw o refl
]

pub HasNoArrow-front :
    (q s : Bytes)
    → All (λ d. (d == b'=') ≡ false) q
    → HasNoArrow (codes " " ++ s)
    → HasNoArrow (q ++ (codes " " ++ s))
unfolding find_text
HasNoArrow-front [] s h e = e
HasNoArrow-front (c ∷ q) s h e = rw (arrow_front c q s h.1, HasNoArrow-front q s h.1 e) refl

pub All-append :
    (xs ys : Bytes)
    → All (λ d. (d == b'=') ≡ false) xs
    → All (λ d. (d == b'=') ≡ false) ys
    → All (λ d. (d == b'=') ≡ false) (xs ++ ys)
All-append [] ys h e = e
All-append (x ∷ xs) ys h e = (h.0, All-append xs ys h.1 e)

pub spaces_even : (n : ℕ) → All (λ d. (d == b'=') ≡ false) (spaces n)
spaces_even n = Plain-lacks b'=' (spaces n) refl (spaces-Plain n)

pub gap_even : (tx : Bool) (g h : ℕ) → All (λ d. (d == b'=') ≡ false) (gap_text tx g h)
gap_even false g h = spaces_even (suc g)
gap_even true g h =
    All-append (spaces (suc g)) (codes "(x)" ++ spaces (suc h)) (spaces_even (suc g))
      (All-append (codes "(x)") (spaces (suc h)) (ground arith) (spaces_even (suc h)))

pub flags_even : (k : BranchKind) (t : TraceState) → All (λ d. (d == b'=') ≡ false) (flags_text k t)
flags_even k t = Plain-lacks b'=' (flags_text k t) refl (flags-Plain k t)

filled_stops :
    (s ys : Bytes) → (not (is_empty s) && stops is_space s) ≡ true → stops is_space (s ++ ys) ≡ true
filled_stops [] ys h = absurd (ground arith)
filled_stops (c ∷ s) ys h = h

pub flags-stops :
    (k : BranchKind) (t : TraceState) (ys : Bytes) → stops is_space (flags_text k t ++ ys) ≡ true
flags-stops k t ys =
    filled_stops (flags_text k t) ys
      (every_flags (λ s. not (is_empty s) && stops is_space s) refl k t)
