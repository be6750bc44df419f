-- ===== src/Parser/Flags.antt =====
-- lib/perf_script_parser.cpp: the flags in front of the address of a branch, with the mark of a
-- transaction.
use tracey_mctraceface.Base.{
  ℕ, zero, suc, ◌+◌, ◌-◌, ◌≡◌, refl, sym, ap, ◌∙◌, Bool, not, true, false, ◌∷◌, ◌++◌, append_assoc,
  reverse, reverse-append, All, Option, some, Bytes, codes, starts_with, starts_with_iff, ◌==◌,
  length, length-append, length-replicate, take, arith,
}
use mathlib.Core.List.{reverse-cons, reverse-reverse}
use tracey_mctraceface.Event.{
  BranchKind, call, return, jump, syscall, sysret, hardware_interrupt, interrupt, iret, async,
  tx_abort, TraceState, unchanged, start, end,
}
use tracey_mctraceface.Parser.Scan.{map_option, drop_while, trim_end, ends_with}
use tracey_mctraceface.Parser.Branches.{is_address, find_address, trim_kind}
use tracey_mctraceface.Parser.FlagTexts.{every_flags}
use tracey_mctraceface.Parser.Headers.{spaces}
use tracey_mctraceface.Parser.Kinds.{flags_text}
use tracey_mctraceface.Parser.Locations.{take_front}
use tracey_mctraceface.Parser.Numbers.{stops, drop_while-append}

-- What stands between the flags and the address: spaces, and the mark in a transaction.
abbrev pub gap_text : Bool → ℕ → ℕ → Bytes
gap_text true g h = spaces (suc g) ++ (codes "(x)" ++ spaces (suc h))
gap_text false g h = spaces (suc g)

abbrev shift : ℕ → Option ℕ → Option ℕ
shift zero o = o
shift (suc n) o = map_option suc (shift n o)

shift-some : (n m : ℕ) → shift n (some m) ≡ some (n + m)
shift-some zero m = ap some (omega arith)
shift-some (suc n) m = ap (map_option suc) (shift-some n m) ∙ ap some (omega arith)

-- No address begins in the flags.
find_address-flags :
    (k : BranchKind) (t : TraceState) (rest : Bytes)
    → find_address (flags_text k t ++ (codes " " ++ rest))
      ≡ shift (length (flags_text k t)) (find_address (codes " " ++ rest))
unfolding find_address is_address starts_with
find_address-flags call unchanged rest = refl
find_address-flags call start rest = refl
find_address-flags call end rest = refl
find_address-flags return unchanged rest = refl
find_address-flags return start rest = refl
find_address-flags return end rest = refl
find_address-flags jump unchanged rest = refl
find_address-flags jump start rest = refl
find_address-flags jump end rest = refl
find_address-flags syscall unchanged rest = refl
find_address-flags syscall start rest = refl
find_address-flags syscall end rest = refl
find_address-flags sysret unchanged rest = refl
find_address-flags sysret start rest = refl
find_address-flags sysret end rest = refl
find_address-flags hardware_interrupt unchanged rest = refl
find_address-flags hardware_interrupt start rest = refl
find_address-flags hardware_interrupt end rest = refl
find_address-flags interrupt unchanged rest = refl
find_address-flags interrupt start rest = refl
find_address-flags interrupt end rest = refl
find_address-flags iret unchanged rest = refl
find_address-flags iret start rest = refl
find_address-flags iret end rest = refl
find_address-flags async unchanged rest = refl
find_address-flags async start rest = refl
find_address-flags async end rest = refl
find_address-flags tx_abort unchanged rest = refl
find_address-flags tx_abort start rest = refl
find_address-flags tx_abort end rest = refl

find_address-spaces :
    (g : ℕ) (rest : Bytes)
    → is_address rest ≡ true
    → find_address (spaces (suc g) ++ rest) ≡ some (suc g)
unfolding find_address is_address
find_address-spaces zero rest h = rw h refl
find_address-spaces (suc g) rest h = ap (map_option suc) (find_address-spaces g rest h)

find_address-mark :
    (g : ℕ) (rest : Bytes)
    → find_address (spaces g ++ (codes "(x)" ++ (codes " " ++ rest)))
      ≡ shift g (shift 3 (find_address (codes " " ++ rest)))
unfolding find_address is_address starts_with
find_address-mark zero rest = refl
find_address-mark (suc zero) rest = refl
find_address-mark (suc (suc g)) rest = ap (map_option suc) (find_address-mark (suc g) rest)

-- A gap begins with a space.
tail_text : Bool → ℕ → ℕ → Bytes
tail_text true g h = spaces g ++ (codes "(x)" ++ spaces (suc h))
tail_text false g h = spaces g

gap-space : (tx : Bool) (g h : ℕ) → gap_text tx g h ≡ codes " " ++ tail_text tx g h
unfolding tail_text
gap-space true g h = refl
gap-space false g h = refl

pub find_address-gap :
    (tx : Bool) (g h : ℕ) (rest : Bytes)
    → is_address rest ≡ true
    → find_address (gap_text tx g h ++ rest) ≡ some (length (gap_text tx g h))
find_address-gap false g h rest a =
    find_address-spaces g rest a ∙ ap some (sym (length-replicate {A = ℕ} (suc g) b' '))
find_address-gap true g h rest a =
    let split = append_assoc (spaces (suc g)) (codes "(x)" ++ spaces (suc h)) rest in
    let size : suc g + (3 + suc h) ≡ length (gap_text true g h) = omega (
      arith,
      length-append (spaces (suc g)) (codes "(x)" ++ spaces (suc h)),
      length-replicate {A = ℕ} (suc g) b' ',
      length-replicate {A = ℕ} h b' ',
    ) in
    ap find_address split
    ∙ (find_address-mark (suc g) (spaces h ++ rest)
        ∙ (ap (λ o. shift (suc g) (shift 3 o)) (find_address-spaces h rest a)
            ∙ (ap (shift (suc g)) (shift-some 3 (suc h))
                ∙ (shift-some (suc g) (3 + suc h) ∙ ap some size))))

-- The address behind the flags and the gap.
pub find_address-text :
    (k : BranchKind) (t : TraceState) (tx : Bool) (g h : ℕ) (rest : Bytes)
    → is_address rest ≡ true
    → find_address (flags_text k t ++ (gap_text tx g h ++ rest))
      ≡ some (length (flags_text k t ++ gap_text tx g h))
find_address-text k t tx g h rest a =
    let flags = flags_text k t in
    let size : length flags + length (gap_text tx g h) ≡ length (flags ++ gap_text tx g h) =
      sym (length-append flags (gap_text tx g h)) in
    ap (λ x. find_address (flags ++ (x ++ rest))) (gap-space tx g h)
    ∙ (find_address-flags k t (tail_text tx g h ++ rest)
        ∙ (ap (λ x. shift (length flags) (find_address (x ++ rest))) (sym (gap-space tx g h))
            ∙ (ap (shift (length flags)) (find_address-gap tx g h rest a)
                ∙ (shift-some (length flags) (length (gap_text tx g h)) ∙ ap some size))))

flags-end :
    (k : BranchKind) (t : TraceState) → stops (λ c. c == b' ') (reverse (flags_text k t)) ≡ true
flags-end = every_flags (λ s. stops (λ c. c == b' ') (reverse s)) refl

negated : (b : Bool) → not b ≡ true → b ≡ false
negated true h = absurd (ground arith)
negated false h = refl

flags-unmarked :
    (k : BranchKind) (t : TraceState) → ends_with (flags_text k t) (codes "(x)") ≡ false
flags-unmarked k t =
    negated (ends_with (flags_text k t) (codes "(x)"))
      (every_flags (λ s. not (ends_with s (codes "(x)"))) (unfold starts_with in refl) k t)

spaces-snoc : (n : ℕ) → spaces n ++ codes " " ≡ spaces (suc n)
spaces-snoc zero = refl
spaces-snoc (suc n) = ap (◌∷◌ b' ') (spaces-snoc n)

reverse-spaces : (n : ℕ) → reverse (spaces n) ≡ spaces n
reverse-spaces zero = refl
reverse-spaces (suc n) =
    reverse-cons b' ' (spaces n) ∙ (ap (λ x. x ++ codes " ") (reverse-spaces n) ∙ spaces-snoc n)

spaces-All : (n : ℕ) → All (λ c. (c == b' ') ≡ true) (spaces n)
spaces-All zero = tt
spaces-All (suc n) = (refl, spaces-All n)

-- What ends in no space is left of it and spaces.
trim_end-spaces :
    (s : Bytes) (n : ℕ) → stops (λ c. c == b' ') (reverse s) ≡ true → trim_end (s ++ spaces n) ≡ s
unfolding trim_end
trim_end-spaces s n h =
    ap (λ x. reverse (drop_while (λ c. c == b' ') x))
      (reverse-append s (spaces n) ∙ ap (λ x. x ++ reverse s) (reverse-spaces n))
    ∙ (ap reverse (drop_while-append (λ c. c == b' ') (spaces n) (reverse s) (spaces-All n) h)
        ∙ reverse-reverse s)

mark-end : (s : Bytes) → stops (λ c. c == b' ') (reverse (s ++ codes "(x)")) ≡ true
mark-end s = ap (stops (λ c. c == b' ')) (reverse-append s (codes "(x)"))

ends_with-append : (s suffix : Bytes) → ends_with (s ++ suffix) suffix ≡ true
ends_with-append s suffix =
    ap (λ x. starts_with x (reverse suffix)) (reverse-append s suffix)
    ∙ (starts_with_iff (reverse suffix ++ reverse s) (reverse suffix)).1 (reverse s, refl)

-- The kind is what is left when the spaces and the mark are taken away.
pub trim_kind-flags :
    (k : BranchKind) (t : TraceState) (tx : Bool) (g h : ℕ)
    → trim_kind (flags_text k t ++ gap_text tx g h) ≡ flags_text k t
unfolding trim_kind
trim_kind-flags k t false g h =
    rw (trim_end-spaces (flags_text k t) (suc g) (flags-end k t), flags-unmarked k t) refl
trim_kind-flags k t true g h =
    let flags = flags_text k t in
    let kept = flags ++ spaces (suc g) in
    let split : flags ++ gap_text true g h ≡ (kept ++ codes "(x)") ++ spaces (suc h) =
      sym (append_assoc flags (spaces (suc g)) (codes "(x)" ++ spaces (suc h)))
      ∙ sym (append_assoc kept (codes "(x)") (spaces (suc h))) in
    let trimmed =
      ap trim_end split ∙ trim_end-spaces (kept ++ codes "(x)") (suc h) (mark-end kept) in
    let size : length (kept ++ codes "(x)") - 3 ≡ length kept =
      omega (arith, length-append kept (codes "(x)")) in
    let front = ap (λ n. take n (kept ++ codes "(x)")) size ∙ take_front kept (codes "(x)") in
    rw (trimmed, ends_with-append kept (codes "(x)"), front)
      (trim_end-spaces flags (suc g) (flags-end k t))
