-- ===== src/Cli/Paths.antt =====
-- bin/tracey_mctraceface_main.cpp: that what has been recorded is what is decoded, or kept where it was
-- asked for.
use tracey_mctraceface.Base.{
  ◌≡◌, refl, true, false, List, [], ◌∷◌, Option, none, some, Bytes, codes, equal, if◌then◌else◌,
}
use tracey_mctraceface.Capabilities.{PerfCapabilities}
use tracey_mctraceface.Driver.{
  PerfConfig, build_common_record_args, build_attach_args, build_launch_args,
  build_perf_script_args, override_output,
}
use tracey_mctraceface.Cli.Record.{Paths}
use tracey_mctraceface.Cli.Commands.{record_args}

-- The argument behind the first one that is `flag`.
unfoldable pub argument_of : Bytes → List Bytes → Option Bytes
argument_of flag [] = none
argument_of flag (arg ∷ []) = none
argument_of flag (arg ∷ next ∷ args) =
    if equal arg flag then some next else argument_of flag (next ∷ args)

-- Where perf record writes by a command line, and where perf script reads.
abbrev pub written_to : List Bytes → Option Bytes
written_to = argument_of (codes "-o")

abbrev pub read_from : List Bytes → Option Bytes
read_from = argument_of (codes "-i")

-- With `--no-decode` perf record, on processes or on a program, writes to the path that was asked for;
-- without it, to the very file that perf script is then told to read in the directory made for it.
pub recorded-read :
    (config script : PerfConfig) (caps : PerfCapabilities) (paths : Paths) (pids : List Bytes)
    (program : Bytes) (args : List Bytes)
    → let used = record config { working_directory = paths.work_dir } in
      let attach = build_attach_args used caps pids in
      let launch = build_launch_args used caps program args in
      let decode = build_perf_script_args script paths.work_dir true in
      (written_to (record_args true paths attach) ≡ some paths.perf_data_path)
      × (written_to (record_args true paths launch) ≡ some paths.perf_data_path)
      × (written_to (record_args false paths attach) ≡ read_from decode)
      × (written_to (record_args false paths launch) ≡ read_from decode)
unfolding record_args override_output argument_of build_attach_args build_launch_args
    build_common_record_args build_perf_script_args equal
recorded-read config script caps paths pids program args = (refl, refl, refl, refl)
