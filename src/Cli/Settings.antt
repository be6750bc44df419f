-- ===== src/Cli/Settings.antt =====
-- bin/tracey_mctraceface_main.cpp: the settings of a command, out of its json object.
use tracey_mctraceface.Base.{
  false, not, ◌&&◌, List, [], ◌∷◌, ◌++◌, Option, none, some, Bytes, codes, equal, is_empty,
  if◌then◌else◌,
}
use tracey_mctraceface.Base.Int.{pos}
use tracey_mctraceface.Base.Outcome.{Result, Void, done, ◌>>=◌, ◌>>◌, pure}
use tracey_mctraceface.Driver.{PerfConfig, parse_trace_scope, parse_timer_resolution, fall_back}
use tracey_mctraceface.Filter.{Config}
use tracey_mctraceface.Log.{quiet, normal, verbose}
use tracey_mctraceface.Parser.Scan.{ends_with}
use tracey_mctraceface.Cli.{serves, Run, perform, say, set_level, get, unsigned, Json, System}

module _ (j : Json) where
  open j use {Value, text_at, bool_at, int_at}

  unfoldable pub setup_logging : Value → Run Void
  setup_logging sub = do
    is_quiet ← get (bool_at sub (codes "quiet") false)
    if is_quiet then set_level quiet else (do
      is_verbose ← get (bool_at sub (codes "verbose") false)
      if is_verbose then set_level verbose else set_level normal)

  unfoldable pub maybe_serve : Value → Bytes → Run Void
  unfolding unsigned
  maybe_serve sub output = do
    wanted ← get (bool_at sub (codes "serve") false)
    if wanted
        then (do
          port ← get (int_at sub (codes "serve-port") (pos 8080))
          perform (serves output (unsigned 16 port) ∷ []))
        else pure done

  unfoldable pub build_filter_config : Value → Run Config
  build_filter_config sub = do
    start ← get (text_at sub (codes "start-symbol") [])
    end ← get (text_at sub (codes "end-symbol") [])
    multi ← get (bool_at sub (codes "multi-slice") false)
    pure (record { start_symbol = start; end_symbol = end; multi_slice = multi })

  unfoldable pub build_config_from_sub : Value → Run PerfConfig
  unfolding unsigned
  build_config_from_sub sub = do
    multi_thread ← get (bool_at sub (codes "multi-thread") false)
    full_execution ← get (bool_at sub (codes "full-execution") false)
    sampling ← get (bool_at sub (codes "sampling") false)
    size ← get (int_at sub (codes "snapshot-size") (pos 0))
    scope ← get (text_at sub (codes "trace-scope") (codes "userspace"))
    resolution ← get (text_at sub (codes "timer-resolution") (codes "normal"))
    pure (record {
      multi_thread = multi_thread;
      full_execution = full_execution;
      sampling = sampling;
      snapshot_size_pages = unsigned 32 size;
      trace_scope = parse_trace_scope scope;
      timer_resolution = parse_timer_resolution resolution;
      working_directory = [];
    })

  -- Where the trace, or with `--no-decode` the recording, goes.
  unfoldable pub output_path : System → Value → Run Bytes
  output_path sys sub = do
    output ← get (text_at sub (codes "output") (codes "trace.fxt"))
    no_decode ← get (bool_at sub (codes "no-decode") false)
    get (
        System.absolute sys
          (if no_decode && equal output (codes "trace.fxt") then codes "perf.data" else output))

  -- The settings for perf, without Intel PT where there is none.
  unfoldable pub choose_config : System → Value → Run PerfConfig
  unfolding build_config_from_sub fall_back
  choose_config sys sub = do
    config ← build_config_from_sub sub
    (if not config.sampling && not (System.capabilities sys).has_intel_pt
        then say (codes "warning: Intel PT not available, falling back to sampling mode")
        else pure done)
    pure (fall_back (System.capabilities sys) config)

-- `a / b` for a relative path `b`.
unfoldable pub join_path : Bytes → Bytes → Bytes
join_path a b =
    if is_empty a then b else if ends_with a (codes "/") then a ++ b else a ++ (codes "/" ++ b)

unfoldable pub program_arguments : Option (Result (List Bytes)) → Run (List Bytes)
program_arguments none = pure []
program_arguments (some args) = get args
