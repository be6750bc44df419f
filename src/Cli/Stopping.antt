-- ===== src/Cli/Stopping.antt =====
-- bin/tracey_mctraceface_main.cpp: what `run_attach` asks about perf, from its start to its end.
use tracey_mctraceface.Base.{
  ℕ, ◌≡◌, refl, inl, inr, Bool, true, false, not, ◌&&◌, List, [], ◌∷◌, ◌++◌, Option, Bytes,
  if◌then◌else◌, map, Bool-cases, arith,
}
use tracey_mctraceface.Base.Int.{ℤ, pos, negsuc, is_positive, is_negative}
use tracey_mctraceface.Base.Outcome.{ok, done, pure}
use tracey_mctraceface.Capabilities.{PerfCapabilities}
use tracey_mctraceface.Driver.{PerfConfig}
use tracey_mctraceface.Process.{
  Status, Call, kill, waitpid, start, send_signal, wait, wait_result, stored,
}
use tracey_mctraceface.Cli.{asks, sleeps, perform, System}
use tracey_mctraceface.Cli.Record.{sigterm, start_record, snapshot_signal, stop_record}
use tracey_mctraceface.Cli.Commands.{record_attached}
use tracey_mctraceface.Cli.Does.{Does-pure, Does-get, Does-log_info, Does-log_debug, Does-bind}
use tracey_mctraceface.Cli.Asks.{
  asked, Asks, Asks-calls, Asks-sleeps, asks_and_sleeps, Asks-catches, Asks-starts,
}
use tracey_mctraceface.Cli.Polling.{poll_calls, has_ended, gone, child, wait-Asks}
use tracey_mctraceface.Cli.Signals.{stop_signals}

-- What is asked to stop perf, unless it has ended before.
unfoldable pub stop_calls : System → PerfConfig → ℤ → List Call
unfolding stop_signals
stop_calls sys config pid =
    map (kill pid) (stop_signals config (System.capabilities sys))
    ++ waitpid pid (System.record_ends sys) ∷ []

wait-child :
    (found : Option Status) (pid : ℤ)
    → is_positive pid ≡ true
    → wait found (child pid) ≡ (gone, waitpid pid found ∷ [], wait_result (stored found))
unfolding wait
wait-child found pid h = rw h refl

send_signal-child :
    (signal : ℕ) (pid : ℤ)
    → is_positive pid ≡ true
    → send_signal signal (child pid) ≡ kill pid signal ∷ []
unfolding send_signal
send_signal-child signal pid h = rw h refl

-- Of a process that has been waited for nothing more is asked.
stop-gone : (sys : System) (config : PerfConfig) → Asks (stop_record sys config gone) gone []
unfolding stop_record send_signal wait
stop-gone sys config = Does-bind asked _ [] [] (Does-log_info asked _) (
    Does-bind asked _ [] [] snapshot (
      Does-bind asked _ [] [] (Asks-calls [])
        (Does-bind asked _ [] [] (Asks-calls []) (Does-pure asked gone))))
  where
    snapshot :
        Asks
          (if not config.full_execution && not config.sampling
            then perform (sleeps 200 ∷ [])
            else pure done)
          done
          []
    snapshot = elim (Bool-cases (not config.full_execution && not config.sampling)) [
      | inl wanted ↦ rw wanted (Asks-sleeps 200)
      | inr other ↦ rw other (Does-pure asked done)
    ]

snapshot_signals : PerfConfig → PerfCapabilities → List ℕ
snapshot_signals config caps =
    if not config.full_execution && not config.sampling then snapshot_signal caps ∷ [] else []

stop_calls-split :
    (sys : System) (config : PerfConfig) (pid : ℤ)
    → stop_calls sys config pid
      ≡ map (kill pid) (snapshot_signals config (System.capabilities sys))
        ++ kill pid sigterm ∷ waitpid pid (System.record_ends sys) ∷ []
unfolding stop_calls stop_signals snapshot_signals
stop_calls-split sys config pid =
    elim (Bool-cases (not config.full_execution && not config.sampling)) [
      | inl wanted ↦ rw wanted refl
      | inr other ↦ rw other refl
    ]

snapshot-Asks :
    (sys : System) (config : PerfConfig) (pid : ℤ)
    → is_positive pid ≡ true
    → Asks
        (if not config.full_execution && not config.sampling
          then perform (
              map asks (send_signal (snapshot_signal (System.capabilities sys)) (child pid))
              ++ sleeps 200 ∷ [])
          else pure done)
        done
        (map (kill pid) (snapshot_signals config (System.capabilities sys)))
unfolding snapshot_signals
snapshot-Asks sys config pid h =
    let signal = snapshot_signal (System.capabilities sys) in
    elim (Bool-cases (not config.full_execution && not config.sampling)) [
      | inl wanted ↦ rw (wanted, send_signal-child signal pid h) (asks_and_sleeps (kill pid signal))
      | inr other ↦ rw other (Does-pure asked done)
    ]

stop-child :
    (sys : System) (config : PerfConfig) (pid : ℤ)
    → is_positive pid ≡ true
    → Asks (stop_record sys config (child pid)) gone (stop_calls sys config pid)
unfolding stop_record
stop-child sys config pid h =
    let caps = System.capabilities sys in
    let call = waitpid pid (System.record_ends sys) in
    let term = kill pid sigterm in
    rw
      (
        stop_calls-split sys config pid,
        send_signal-child sigterm pid h,
        wait-child (System.record_ends sys) pid h,
      )
      (Does-bind asked _ [] _ (Does-log_info asked _) (
        Does-bind asked _ _ (term ∷ call ∷ []) (snapshot-Asks sys config pid h) (
          Does-bind asked _ (term ∷ []) (call ∷ []) (Asks-calls (term ∷ []))
            (Does-bind asked _ (call ∷ []) [] (Asks-calls (call ∷ [])) (Does-pure asked gone)))))

pub positive-nonnegative : (n : ℤ) → is_positive n ≡ true → is_negative n ≡ false
positive-nonnegative (pos n) h = refl
positive-nonnegative (negsuc n) h = absurd (ground arith)

start-child :
    (arg : Bytes) (args : List Bytes) (pid : ℤ) (reason : Bytes)
    → is_positive pid ≡ true
    → start (arg ∷ args) false pid reason ≡ (ok (child pid), [])
unfolding start
start-child arg args pid reason h = rw (positive-nonnegative pid h) refl

start_record-Asks :
    (sys : System) (message arg : Bytes) (args : List Bytes)
    → is_positive (System.forked sys) ≡ true
    → Asks (start_record sys message (arg ∷ args)) (child (System.forked sys)) []
unfolding start_record
start_record-Asks sys message arg args h =
    rw (start-child arg args (System.forked sys) (System.reason sys) h) (
      Does-bind asked _ [] [] (Does-log_debug asked _) (
        Does-bind asked _ [] [] (Does-log_info asked _) (
          Does-bind asked _ [] [] (Asks-starts (arg ∷ args))
            (Does-get asked (child (System.forked sys))))))

-- What is asked about perf record from its start to its end.
unfoldable pub attached_calls : System → PerfConfig → List Call
unfolding poll_calls has_ended stop_calls
attached_calls sys config =
    poll_calls (System.forked sys) (System.polls sys)
    ++ (if has_ended (System.polls sys) then [] else stop_calls sys config (System.forked sys))

stop-Asks :
    (sys : System) (config : PerfConfig) (pid : ℤ) (ended : Bool)
    → is_positive pid ≡ true
    → Asks
        (stop_record sys config (if ended then gone else child pid))
        gone
        (if ended then [] else stop_calls sys config pid)
stop-Asks sys config pid true h = stop-gone sys config
stop-Asks sys config pid false h = stop-child sys config pid h

-- Once perf has been started, whatever it and the user do then: it is polled until Ctrl+C comes or it
-- has ended; where it has not, it gets the signals that stop it, and is waited for; where a poll has
-- found its end, nothing more is asked about it. In the end it has been waited for.
pub record_attached-Asks :
    (sys : System) (config : PerfConfig) (pid_str arg : Bytes) (args : List Bytes)
    → is_positive (System.forked sys) ≡ true
    → Asks (record_attached sys config pid_str (arg ∷ args)) gone (attached_calls sys config)
unfolding record_attached attached_calls
record_attached-Asks sys config pid_str arg args h =
    let pid = System.forked sys in
    let polls = System.polls sys in
    let stops = if has_ended polls then [] else stop_calls sys config pid in
    Does-bind asked _ [] _ (start_record-Asks sys _ arg args h) (
      Does-bind asked _ [] _ (Asks-sleeps 500) (
        Does-bind asked _ [] _ (Does-log_info asked _) (
          Does-bind asked _ [] _ (Asks-catches true) (
            Does-bind asked _ (poll_calls pid polls) stops (wait-Asks polls pid h) (
              Does-bind asked _ [] stops (Asks-catches false)
                (stop-Asks sys config pid (has_ended polls) h))))))
