-- ===== src/Process/Reaping.antt =====
-- lib/background_process.cpp: that nothing is asked about a child once it has been reaped, and what the
-- constructors leave behind where they throw.
use tracey_mctraceface.Base.{
  ℕ, ◌≡◌, refl, inl, inr, Bool, true, false, List, [], ◌∷◌, ◌++◌, Option, none, some, Bool-cases,
  arith,
}
use tracey_mctraceface.Base.Int.{ℤ, negsuc, is_positive}
use tracey_mctraceface.Process.{
  Status, Call, kill, waitpid, BackgroundProcess, send_signal, wait, try_wait, destroy,
}

-- What a client does with a process, with what the system answers.
pub data Op : Type 0 where
  sends : ℕ → Op
  waits polls : Option Status → Op

abbrev pub step : Op → BackgroundProcess → BackgroundProcess × List Call
step (sends signal) p = (p, send_signal signal p)
step (waits found) p = let (p', calls, r) = wait found p in (p', calls)
step (polls found) p = let (p', calls, r) = try_wait found p in (p', calls)

-- The calls of a whole life, with those of the destructor at the end.
unfoldable pub life : List Op → Option Status → BackgroundProcess → List Call
unfolding send_signal wait try_wait
life [] found p = destroy found p
life (op ∷ ops) found p = let (p', calls) = step op p in calls ++ life ops found p'

abbrev pub is_reap : Call → Bool
is_reap (waitpid pid (some status)) = true
is_reap _ = false

abbrev pub called_pid : Call → ℤ
called_pid (kill pid signal) = pid
called_pid (waitpid pid found) = pid

-- Calls that are about a child, none of them behind one that reaps it.
abbrev pub ReapsLast : ℤ → List Call → Type 0
ReapsLast pid [] = Unit
ReapsLast pid (call ∷ calls) =
    (called_pid call ≡ pid) × (is_reap call ≡ true → calls ≡ []) × ReapsLast pid calls

-- Once it has been waited for, nothing more is asked.
life-gone :
    (ops : List Op) (found : Option Status) (p : BackgroundProcess)
    → is_positive p.pid ≡ false
    → life ops found p ≡ []
unfolding life destroy send_signal wait try_wait
life-gone [] found p h = rw h refl
life-gone (sends signal ∷ ops) found p h = rw h (life-gone ops found p h)
life-gone (waits answer ∷ ops) found p h = rw h (life-gone ops found p h)
life-gone (polls answer ∷ ops) found p h = rw h (life-gone ops found p h)

only : (call : Call) (pid : ℤ) → called_pid call ≡ pid → ReapsLast pid (call ∷ [])
only call pid h = (h, λ e. refl, tt)

-- Whatever a client does with a process and whatever the system answers, nothing is asked about the
-- child once a call has reaped it, by which time its number may be another process's; and no call is
-- about any other process.
pub life-ReapsLast :
    (ops : List Op) (found : Option Status) (p : BackgroundProcess)
    → ReapsLast p.pid (life ops found p)
unfolding life destroy send_signal wait try_wait
life-ReapsLast [] found p = elim (Bool-cases (is_positive p.pid)) [
  | inl child ↦ rw child (only (waitpid p.pid found) p.pid refl)
  | inr gone ↦ rw gone tt
]
life-ReapsLast (sends signal ∷ ops) found p = elim (Bool-cases (is_positive p.pid)) [
  | inl child ↦ rw child (refl, λ e. absurd (ground arith), life-ReapsLast ops found p)
  | inr gone ↦ rw gone (life-ReapsLast ops found p)
]
life-ReapsLast (waits answer ∷ ops) found p = elim (Bool-cases (is_positive p.pid)) [
  | inl child ↦
      rw (child, life-gone ops found (record { pid = negsuc 0 }) refl)
        (only (waitpid p.pid answer) p.pid refl)
  | inr gone ↦ rw gone (life-ReapsLast ops found p)
]
life-ReapsLast (polls none ∷ ops) found p = elim (Bool-cases (is_positive p.pid)) [
  | inl child ↦ rw child (refl, λ e. absurd (ground arith), life-ReapsLast ops found p)
  | inr gone ↦ rw gone (life-ReapsLast ops found p)
]
life-ReapsLast (polls (some status) ∷ ops) found p = elim (Bool-cases (is_positive p.pid)) [
  | inl child ↦
      rw (child, life-gone ops found (record { pid = negsuc 0 }) refl)
        (only (waitpid p.pid (some status)) p.pid refl)
  | inr gone ↦ rw gone (life-ReapsLast ops found p)
]
