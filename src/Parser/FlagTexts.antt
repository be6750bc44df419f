-- ===== src/Parser/FlagTexts.antt =====
-- lib/perf_script_parser.cpp: what holds of all the flags that `perf script` prints.
use tracey_mctraceface.Base.{
  ℕ, zero, suc, ◌≡◌, refl, inl, inr, Bool, true, false, ◌&&◌, ◌||◌, List, [], ◌∷◌, All, Bytes, ◌==◌,
  ==_iff, leb, Bool-cases, arith, subst,
}
use tracey_mctraceface.Event.{
  BranchKind, call, return, jump, syscall, sysret, hardware_interrupt, interrupt, iret, async,
  tx_abort, TraceState, unchanged, start, end,
}
use tracey_mctraceface.Parser.Headers.{spaces}
use tracey_mctraceface.Parser.Kinds.{flags_text}

abbrev pub every : {A : Type 0} → (A → Bool) → List A → Bool
every p [] = true
every p (x ∷ xs) = p x && every p xs

pub every-All :
    {A : Type 0} → (p : A → Bool) (xs : List A) → every p xs ≡ true → All (λ x. p x ≡ true) xs
every-All p [] h = tt
every-All p (x ∷ xs) h = elim (Bool-cases (p x)) [
  | inl hit ↦ (hit, every-All p xs (ground (arith, hit, h)))
  | inr miss ↦ absurd (ground (arith, miss, h))
]

abbrev kinds : List BranchKind
kinds =
    call ∷ return ∷ jump ∷ syscall ∷ sysret ∷ hardware_interrupt ∷ interrupt ∷ iret ∷ async
    ∷ tx_abort ∷ []

every_kind : (P : BranchKind → Type 0) → All P kinds → (k : BranchKind) → P k
every_kind P h call = h.0
every_kind P h return = h.1.0
every_kind P h jump = h.1.1.0
every_kind P h syscall = h.1.1.1.0
every_kind P h sysret = h.1.1.1.1.0
every_kind P h hardware_interrupt = h.1.1.1.1.1.0
every_kind P h interrupt = h.1.1.1.1.1.1.0
every_kind P h iret = h.1.1.1.1.1.1.1.0
every_kind P h async = h.1.1.1.1.1.1.1.1.0
every_kind P h tx_abort = h.1.1.1.1.1.1.1.1.1.0

abbrev states : List TraceState
states = unchanged ∷ start ∷ end ∷ []

every_state : (P : TraceState → Type 0) → All P states → (t : TraceState) → P t
every_state P h unchanged = h.0
every_state P h start = h.1.0
every_state P h end = h.1.1.0

abbrev pass : (Bytes → Bool) → BranchKind → Bool
pass test k = every (λ t. test (flags_text k t)) states

-- What a test says of each of the texts, it says of all.
pub every_flags :
    (test : Bytes → Bool)
    → every (pass test) kinds ≡ true
    → (k : BranchKind) (t : TraceState) → test (flags_text k t) ≡ true
every_flags test h k t =
    let of_kind = every_kind (λ k. pass test k ≡ true) (every-All (pass test) kinds h) k in
    every_state (λ t. test (flags_text k t) ≡ true)
      (every-All (λ t. test (flags_text k t)) states of_kind) t

-- The flags are spaces and small letters.
abbrev pub is_plain : ℕ → Bool
is_plain c = c == b' ' || (leb b'a' c && leb c b'z')

abbrev pub Plain : Bytes → Type 0
Plain = All (λ c. is_plain c ≡ true)

pub flags-Plain : (k : BranchKind) (t : TraceState) → Plain (flags_text k t)
flags-Plain k t = every-All is_plain (flags_text k t) (every_flags (λ s. every is_plain s) refl k t)

pub spaces-Plain : (n : ℕ) → Plain (spaces n)
spaces-Plain zero = tt
spaces-Plain (suc n) = (refl, spaces-Plain n)

plain_not : (c other : ℕ) → is_plain other ≡ false → is_plain c ≡ true → (c == other) ≡ false
plain_not c other h e = elim (Bool-cases (c == other)) [
  | inl same ↦
      let e' = subst (λ x. is_plain x ≡ true) ((==_iff c other).0 same) e in
      absurd (ground (arith, e', h))
  | inr differ ↦ differ
]

pub Plain-lacks :
    (other : ℕ) (s : Bytes) → is_plain other ≡ false → Plain s → All (λ c. (c == other) ≡ false) s
Plain-lacks other [] h e = tt
Plain-lacks other (c ∷ s) h e = (plain_not c other h e.0, Plain-lacks other s h e.1)
