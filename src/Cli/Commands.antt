-- ===== src/Cli/Commands.antt =====
-- bin/tracey_mctraceface_main.cpp: `run_run`, `run_attach`, `run_decode` and `run`.
use tracey_mctraceface.Base.{
  ℕ, Bool, true, false, List, [], ◌∷◌, ◌++◌, Bytes, codes, equal, if◌then◌else◌, map,
}
use tracey_mctraceface.Base.Outcome.{Result, ok, throws, ◌>>=◌, ◌>>◌, pure}
use tracey_mctraceface.Driver.{
  PerfConfig, build_attach_args, build_launch_args, override_output, parse_pids,
}
use tracey_mctraceface.Process.{BackgroundProcess, wait}
use tracey_mctraceface.Cli.{
  says, asks, sleeps, catches_interrupt, World, new_world, Run, perform, say, log_info, get,
  show_int, Json, System,
}
use tracey_mctraceface.Cli.Settings.{
  setup_logging, maybe_serve, build_filter_config, output_path, choose_config, program_arguments,
}
use tracey_mctraceface.Cli.Decode.{decode_perf_data}
use tracey_mctraceface.Cli.Record.{Paths, work_paths, start_record, wait_for_interrupt, stop_record}

-- With `--no-decode` the recording goes to the output path.
unfoldable pub record_args : (no_decode : Bool) → Paths → List Bytes → List Bytes
unfolding override_output
record_args no_decode paths args =
    if no_decode then override_output paths.perf_data_path args else args

-- From the start of perf to its end.
unfoldable pub record_attached : System → PerfConfig → Bytes → List Bytes → Run BackgroundProcess
unfolding start_record wait_for_interrupt stop_record
record_attached sys perf_config pid_str args = do
  perf ← start_record sys (codes "Attaching to PID(s) " ++ (pid_str ++ codes " ...")) args
  perform (sleeps 500 ∷ [])
  log_info (codes "Recording. Press Ctrl+C to stop.")
  perform (catches_interrupt true ∷ [])
  perf' ← wait_for_interrupt (System.polls sys) perf
  perform (catches_interrupt false ∷ [])
  stop_record sys perf_config perf'

module _ (j : Json) (sys : System) where
  open j use {Value, object_at, text_at, bool_at, texts_at}

  -- The last step of `run_run` and of `run_attach`.
  unfoldable pub decode_or_save : Value → Bool → Bool → Paths → Bytes → Run ℕ
  unfolding decode_perf_data build_filter_config maybe_serve
  decode_or_save sub no_decode sampling paths output =
      if no_decode then say (codes "Saved to: " ++ paths.perf_data_path) >> pure 0 else (do
        log_info (codes "Decoding trace ...")
        filter ← build_filter_config j sub
        result ← decode_perf_data sys paths.work_dir output sampling filter
        maybe_serve j sub output
        pure result)

  unfoldable pub run_run : Value → Run ℕ
  unfolding output_path choose_config program_arguments work_paths record_args start_record
      setup_logging wait
  run_run config = do
    sub ← get (object_at config (codes "run"))
    program ← get (text_at sub (codes "program") [])
    output ← output_path j sys sub
    program_args ← program_arguments (texts_at sub (codes "args"))
    chosen ← choose_config j sys sub
    no_decode ← get (bool_at sub (codes "no-decode") false)
    paths ← work_paths sys no_decode output
    let perf_config = record chosen { working_directory = paths.work_dir }
    let args =
        record_args no_decode paths
          (build_launch_args perf_config (System.capabilities sys) program program_args)
    setup_logging j sub
    perf ← start_record sys (codes "Recording " ++ (program ++ codes " ...")) args
    (let (perf', calls, code) = wait (System.record_ends sys) perf in
        do perform (map asks calls); say (codes "perf record exited with code " ++ show_int code))
    decode_or_save sub no_decode perf_config.sampling paths output

  unfoldable pub attach_to : Value → Bytes → Bytes → List Bytes → Run ℕ
  unfolding choose_config work_paths record_args setup_logging
  attach_to sub pid_str output pids = do
    chosen ← choose_config j sys sub
    no_decode ← get (bool_at sub (codes "no-decode") false)
    paths ← work_paths sys no_decode output
    let perf_config = record chosen { working_directory = paths.work_dir }
    let args =
        record_args no_decode paths (build_attach_args perf_config (System.capabilities sys) pids)
    setup_logging j sub
    record_attached sys perf_config pid_str args
    decode_or_save sub no_decode perf_config.sampling paths output

  abbrev pub attach_any : Value → Bytes → Bytes → List Bytes → Run ℕ
  attach_any sub pid_str output [] = say (codes "error: no PIDs specified") >> pure 1
  attach_any sub pid_str output (pid ∷ pids) = attach_to sub pid_str output (pid ∷ pids)

  unfoldable pub run_attach : Value → Run ℕ
  unfolding output_path parse_pids
  run_attach config = do
    sub ← get (object_at config (codes "attach"))
    pid_str ← get (text_at sub (codes "pid") [])
    output ← output_path j sys sub
    attach_any sub pid_str output (parse_pids pid_str)

  unfoldable pub run_decode : Value → Run ℕ
  unfolding setup_logging decode_perf_data build_filter_config maybe_serve
  run_decode config = do
    sub ← get (object_at config (codes "decode"))
    working_dir ← get (text_at sub (codes "working-directory") [])
    output_val ← get (text_at sub (codes "output") (codes "trace.fxt"))
    output ← get (System.absolute sys output_val)
    sampling ← get (bool_at sub (codes "sampling") false)
    setup_logging j sub
    log_info (codes "Decoding " ++ (working_dir ++ (codes " -> " ++ output)))
    filter ← build_filter_config j sub
    result ← decode_perf_data sys working_dir output sampling filter
    maybe_serve j sub output
    pure result

  unfoldable pub dispatch : Value → Run ℕ
  unfolding run_run run_attach run_decode
  dispatch config = do
    command ← get (text_at config (codes "command") [])
    if equal command (codes "run")
        then run_run config
        else if equal command (codes "attach")
        then run_attach config
        else if equal command (codes "decode")
        then run_decode config
        else say (codes "error: no command specified") >> pure 1

  -- The handler of `run`.
  abbrev pub caught : Result ℕ × World → ℕ × World
  caught (ok code, w) = (code, w)
  caught (throws e, w) = (1, record w { effects = w.effects ++ says (codes "error: " ++ e) ∷ [] })

  -- The exit code of the program, and what it has done.
  unfoldable pub run : Value → ℕ × World
  unfolding dispatch
  run config = caught (dispatch config new_world)
