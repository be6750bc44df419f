-- ===== src/Cli/Record.antt =====
-- bin/tracey_mctraceface_main.cpp: the steps of a recording, as `run_run` and `run_attach` take them.
use tracey_mctraceface.Base.{
  ℕ, Bool, false, not, ◌&&◌, List, [], ◌∷◌, ◌++◌, Option, none, some, Bytes, codes, if◌then◌else◌,
  map,
}
use tracey_mctraceface.Base.Int.{ℤ}
use tracey_mctraceface.Base.Outcome.{Result, ok, throws, done, ◌>>=◌, ◌>>◌, pure}
use tracey_mctraceface.Capabilities.{PerfCapabilities}
use tracey_mctraceface.Driver.{PerfConfig}
use tracey_mctraceface.Process.{Status, Call, BackgroundProcess, start, send_signal, wait, try_wait}
use tracey_mctraceface.Writer.{decimal}
use tracey_mctraceface.Cli.{
  Effect, makes_directories, starts, asks, sleeps, Run, perform, say, log_info, log_debug, get,
  show_int, System,
}
use tracey_mctraceface.Cli.Settings.{join_path}
use tracey_mctraceface.Cli.Decode.{show_command}

abbrev pub sigint : ℕ
sigint = 2

abbrev pub sigusr2 : ℕ
sigusr2 = 12

abbrev pub sigterm : ℕ
sigterm = 15

-- `work_dir` and `perf_data_path`
pub record Paths : Type 0 where
  pub work_dir : Bytes
  pub perf_data_path : Bytes

unfoldable pub work_paths : System → (no_decode : Bool) → Bytes → Run Paths
unfolding join_path
work_paths sys no_decode output = do
  paths ←
      (if no_decode
        then (do
          recording ← get (System.absolute sys output)
          pure (record { work_dir = System.parent_path sys recording; perf_data_path = recording }))
        else (let work_dir =
              join_path (System.temp_directory sys)
                (codes "tracey_mctraceface_" ++ decimal (System.process_id sys)) in
            pure (record {
              work_dir = work_dir;
              perf_data_path = join_path work_dir (codes "perf.data");
            })))
  get (System.create_directories sys paths.work_dir)
  perform (makes_directories paths.work_dir ∷ [])
  pure paths

-- The constructor of `perf_record`, behind the lines on the command.
abbrev pub started : List Bytes → Result BackgroundProcess → List Effect
started args (ok p) = starts args ∷ []
started args (throws e) = []

unfoldable pub start_record : System → Bytes → List Bytes → Run BackgroundProcess
unfolding start show_command
start_record sys message args = do
  log_debug (show_command (codes "perf record command:") args)
  log_info message
  (let (r, calls) = start args false (System.forked sys) (System.reason sys) in
      do perform (started args r ++ map asks calls); get r)

-- A round of the wait for Ctrl+C, by what `try_wait` gives.
unfoldable pub after_poll :
    (BackgroundProcess → Run BackgroundProcess)
    → BackgroundProcess × List Call × Option ℤ
    → Run BackgroundProcess
after_poll rest (p, calls, none) = perform (map asks calls) >> (perform (sleeps 100 ∷ []) >> rest p)
after_poll rest (p, calls, some code) = do
  perform (map asks calls)
  say (codes "perf record exited unexpectedly (code " ++ (show_int code ++ codes ")"))
  pure p

-- The loop that waits for Ctrl+C: the rounds in which `g_interrupted` is found 0, with what `try_wait`
-- finds out in each.
unfoldable pub wait_for_interrupt : List (Option Status) → BackgroundProcess → Run BackgroundProcess
wait_for_interrupt [] p = pure p
wait_for_interrupt (found ∷ rounds) p = after_poll (wait_for_interrupt rounds) (try_wait found p)

unfoldable pub snapshot_signal : PerfCapabilities → ℕ
snapshot_signal caps = if caps.snapshot_on_exit then sigint else sigusr2

abbrev pub after_wait : BackgroundProcess × List Call × ℤ → Run BackgroundProcess
after_wait (p, calls, code) = perform (map asks calls) >> pure p

-- From "Stopping recording ..." to the end of perf.
unfoldable pub stop_record : System → PerfConfig → BackgroundProcess → Run BackgroundProcess
unfolding send_signal wait snapshot_signal
stop_record sys config p = do
  log_info (codes "Stopping recording ...")
  (if not config.full_execution && not config.sampling
      then perform
          (map asks (send_signal (snapshot_signal (System.capabilities sys)) p) ++ sleeps 200 ∷ [])
      else pure done)
  perform (map asks (send_signal sigterm p))
  after_wait (wait (System.record_ends sys) p)
