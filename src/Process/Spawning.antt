-- ===== src/Process/Spawning.antt =====
-- lib/subprocess.cpp: what becomes of the two ends of the pipe.
use tracey_mctraceface.Base.{
  ℕ, suc, ◌≡◌, refl, inl, inr, Bool, true, false, not, ◌&&◌, List, [], ◌∷◌, ◌++◌, Bytes,
  if◌then◌else◌, Bool-cases, Option-cases,
}
use tracey_mctraceface.Base.Int.{is_negative}
use tracey_mctraceface.Base.Outcome.{Result, ok, throws}
use tracey_mctraceface.Process.{Subprocess, End, read_end, write_end, Answers, is_null, spawn}

abbrev pub same_end : End → End → Bool
same_end read_end read_end = true
same_end write_end write_end = true
same_end _ _ = false

unfoldable pub count : End → List End → ℕ
count e [] = 0
count e (x ∷ xs) = if same_end e x then suc (count e xs) else count e xs

-- The end that the object keeps, to close it later.
abbrev pub kept : Result Subprocess → List End
kept (ok s) = read_end ∷ []
kept (throws e) = []

-- Whether the constructor has got as far as to make the pipe.
abbrev pub makes_pipe : List Bytes → Answers → Bool
makes_pipe args a = not (is_null args) && a.has_pipe

-- Whatever fails in the constructor of `Subprocess`, each end of the pipe that it has made is closed in
-- the parent exactly once, or is the one that the object keeps; and it closes no other.
pub spawn-closes :
    (e : End) (args : List Bytes) (a : Answers)
    → let (r, closed) = spawn args a in
      count e (closed ++ kept r) ≡ (if makes_pipe args a then 1 else 0)
unfolding spawn count
spawn-closes e args a = elim (Bool-cases (is_null args)) [
  | inl empty ↦ rw empty refl
  | inr filled ↦ elim (Bool-cases a.has_pipe) [
    | inr no_pipe ↦ rw (filled, no_pipe) refl
    | inl pipe ↦ elim (Bool-cases (is_negative a.forked)) [
      | inl failed ↦ rw (filled, pipe, failed) (both e)
      | inr forked ↦ elim (Option-cases a.stream) [
        | inl no_stream ↦ rw (filled, pipe, forked, no_stream) (both' e)
        | inr (bytes, stream) ↦ rw (filled, pipe, forked, stream) (both' e)
      ]
    ]
  ]
]
  where
    both : (e : End) → count e (read_end ∷ write_end ∷ []) ≡ 1
    both read_end = refl
    both write_end = refl

    both' : (e : End) → count e (write_end ∷ read_end ∷ []) ≡ 1
    both' read_end = refl
    both' write_end = refl
