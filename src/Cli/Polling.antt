-- ===== src/Cli/Polling.antt =====
-- bin/tracey_mctraceface_main.cpp: what `wait_for_interrupt` asks about perf.
use tracey_mctraceface.Base.{
  ◌≡◌, refl, Bool, true, false, List, [], ◌∷◌, ◌++◌, Option, none, some, if◌then◌else◌,
}
use tracey_mctraceface.Base.Int.{ℤ, negsuc, is_positive}
use tracey_mctraceface.Process.{Status, Call, waitpid, BackgroundProcess, wait_result, try_wait}
use tracey_mctraceface.Cli.{Run}
use tracey_mctraceface.Cli.Record.{wait_for_interrupt, after_poll}
use tracey_mctraceface.Cli.Does.{Does-pure, Does-say, Does-bind}
use tracey_mctraceface.Cli.Asks.{asked, Asks, Asks-calls, Asks-sleeps}

-- The polls up to the first one that finds perf ended, and whether one does.
unfoldable pub poll_calls : ℤ → List (Option Status) → List Call
poll_calls pid [] = []
poll_calls pid (none ∷ polls) = waitpid pid none ∷ poll_calls pid polls
poll_calls pid (some status ∷ polls) = waitpid pid (some status) ∷ []

unfoldable pub has_ended : List (Option Status) → Bool
has_ended [] = false
has_ended (none ∷ polls) = has_ended polls
has_ended (some status ∷ polls) = true

abbrev pub gone : BackgroundProcess
gone = record { pid = negsuc 0 }

abbrev pub child : ℤ → BackgroundProcess
child pid = record { pid = pid }

try_wait-none :
    (pid : ℤ)
    → is_positive pid ≡ true
    → try_wait none (child pid) ≡ (child pid, waitpid pid none ∷ [], none)
unfolding try_wait
try_wait-none pid h = rw h refl

try_wait-some :
    (status : Status) (pid : ℤ)
    → is_positive pid ≡ true
    → try_wait (some status) (child pid)
      ≡ (gone, waitpid pid (some status) ∷ [], some (wait_result status))
unfolding try_wait
try_wait-some status pid h = rw h refl

after_poll-goes_on :
    (rest : BackgroundProcess → Run BackgroundProcess) (p q : BackgroundProcess)
    (calls later : List Call)
    → Asks (rest p) q later
    → Asks (after_poll rest (p, calls, none)) q (calls ++ later)
unfolding after_poll
after_poll-goes_on rest p q calls later h =
    Does-bind asked _ calls later (Asks-calls calls)
      (Does-bind asked _ [] later (Asks-sleeps 100) h)

after_poll-ends :
    (rest : BackgroundProcess → Run BackgroundProcess) (p : BackgroundProcess) (call : Call)
    (code : ℤ)
    → Asks (after_poll rest (p, call ∷ [], some code)) p (call ∷ [])
unfolding after_poll
after_poll-ends rest p call code =
    Does-bind asked _ (call ∷ []) [] (Asks-calls (call ∷ []))
      (Does-bind asked _ [] [] (Does-say asked _) (Does-pure asked p))

pub wait-Asks :
    (polls : List (Option Status)) (pid : ℤ)
    → is_positive pid ≡ true
    → Asks
        (wait_for_interrupt polls (child pid))
        (if has_ended polls then gone else child pid)
        (poll_calls pid polls)
unfolding wait_for_interrupt has_ended poll_calls
wait-Asks [] pid h = Does-pure asked (child pid)
wait-Asks (none ∷ polls) pid h = rw (try_wait-none pid h) (
    after_poll-goes_on (wait_for_interrupt polls) (child pid) _ (waitpid pid none ∷ []) _
      (wait-Asks polls pid h))
wait-Asks (some status ∷ polls) pid h = rw (try_wait-some status pid h) (
    after_poll-ends (wait_for_interrupt polls) gone (waitpid pid (some status))
      (wait_result status))
