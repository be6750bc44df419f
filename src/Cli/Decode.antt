-- ===== src/Cli/Decode.antt =====
-- bin/tracey_mctraceface_main.cpp: `decode_perf_data`, from the process that prints the events to the
-- trace that is written. The writes to the sink stand as one effect.
use tracey_mctraceface.Base.{
  ℕ, suc, Bool, false, List, [], ◌∷◌, ◌++◌, Bytes, codes, if◌then◌else◌, length, ltb, map,
}
use tracey_mctraceface.Base.Int.{is_negative, is_zero}
use tracey_mctraceface.Base.Outcome.{Result, ok, throws, Void, done, ◌>>=◌, ◌>>◌, pure}
use tracey_mctraceface.Driver.{PerfConfig, userspace, normal, build_perf_script_args}
use tracey_mctraceface.Filter.{Config, TraceFilter, start_symbol_missing}
use tracey_mctraceface.Parser.Scan.{value_or}
use tracey_mctraceface.Pipeline.{Decoder}
use tracey_mctraceface.Pipeline
use tracey_mctraceface.Process.{Subprocess, spawn, read_lines, subprocess_wait, subprocess_destroy}
use tracey_mctraceface.Writer.{decimal}
use tracey_mctraceface.Cli.{
  starts, asks_script, writes, Run, perform, say, log_debug, get, show_int, System,
}

abbrev pub default_config : PerfConfig
default_config = record {
  multi_thread = false;
  full_execution = false;
  sampling = false;
  snapshot_size_pages = 0;
  trace_scope = userspace;
  timer_resolution = normal;
  working_directory = [];
}

-- A command as it is logged.
unfoldable pub show_command : Bytes → List Bytes → Bytes
show_command line [] = line
show_command line (arg ∷ args) = show_command (line ++ (codes " " ++ arg)) args

-- The lines that the loop over `read_line` goes over; Process.Lines shows that the fuel is enough.
unfoldable pub all_lines : Subprocess → List Bytes
unfolding read_lines
all_lines s = value_or [] (read_lines (suc (length (value_or [] s.pipe))) [] s)

-- The constructor of `perf_script`.
unfoldable pub start_script : System → List Bytes → Run Subprocess
unfolding spawn
start_script sys args = do
  (let a = System.script sys in
      perform (if a.has_pipe then (if is_negative a.forked then [] else starts args ∷ []) else []))
  get ((spawn args (System.script sys)).0)

-- `make_sink`: where it throws, the destructor of `perf_script` runs.
abbrev pub opened : System → Subprocess → Result Void → Run Void
opened sys s (ok v) = pure v
opened sys s (throws e) = do
  perform (map asks_script (subprocess_destroy (System.script_ends sys) s))
  get (throws e)

unfoldable pub report_filter : Config → TraceFilter → Run Void
report_filter config filter = do
  (if start_symbol_missing filter
      then say (
          codes "warning: start symbol '"
          ++ (config.start_symbol ++ codes "' was not found in the trace"))
      else pure done)
  if ltb 0 filter.slice_count
      then say (codes "Recorded " ++ (decimal filter.slice_count ++ codes " slice(s)"))
      else pure done

-- `wait`, and what is said of the exit code.
unfoldable pub finish_script : System → Bytes → ℕ → Subprocess → Run Void
unfolding subprocess_wait
finish_script sys output event_count s = do
  (let (s', calls, code) = subprocess_wait (System.script_ends sys) s in
      do
        perform (map asks_script calls)
        say (codes "Decoded " ++ (decimal event_count ++ (codes " events -> " ++ output)))
        if is_zero code
            then pure done
            else say (codes "warning: perf script exited with code " ++ show_int code))

unfoldable pub decode_perf_data : System → Bytes → Bytes → Bool → Config → Run ℕ
unfolding start_script all_lines report_filter finish_script
decode_perf_data sys working_dir output sampling config = do
  let args =
      build_perf_script_args (record default_config { sampling = sampling }) working_dir
        (System.is_directory sys working_dir)
  log_debug (show_command (codes "perf script command:") args)
  script ← start_script sys args
  opened sys script (System.opens sys output)
  let d = Pipeline.decode_perf_data config (System.clock sys) (all_lines script)
  perform (writes output d.reconstructor.writer.sink ∷ [])
  report_filter config d.filter
  finish_script sys output d.event_count script
  pure 0
