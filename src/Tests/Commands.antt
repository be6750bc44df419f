-- ===== src/Tests/Commands.antt =====
-- The commands at concrete settings and answers of the system.
use tracey_mctraceface.Base.{
  ◌≡◌, refl, ◌++◌, ◌⊎◌, true, false, [], ◌∷◌, none, some, Bytes, codes, equal, if◌then◌else◌,
}
use tracey_mctraceface.Base.Int.{pos}
use tracey_mctraceface.Base.Outcome.{ok, throws, done}
use tracey_mctraceface.Capabilities.{PerfCapabilities, no_version}
use tracey_mctraceface.Driver.{build_attach_args, build_launch_args, build_perf_script_args}
use tracey_mctraceface.Filter.{Config}
use tracey_mctraceface.Process.{Answers, exited, waitpid}
use tracey_mctraceface.Pipeline
use tracey_mctraceface.Cli.{Json, System, asks_script}
use tracey_mctraceface.Cli.Does.{Does, Fails}
use tracey_mctraceface.Cli.Asks.{Asks}
use tracey_mctraceface.Cli.Record.{Paths}
use tracey_mctraceface.Cli.Decode.{default_config, decode_perf_data}
use tracey_mctraceface.Cli.Commands.{run, record_attached, record_args}
use tracey_mctraceface.Cli.Outcomes.{SaysError, run_ends}
use tracey_mctraceface.Cli.Polling.{gone}
use tracey_mctraceface.Cli.Stopping.{attached_calls, record_attached-Asks}
use tracey_mctraceface.Cli.Paths.{written_to, read_from, recorded-read}
use tracey_mctraceface.Cli.Failures.{ending, decode_perf_data-Fails}
use tracey_mctraceface.Cli.Traces.{Prints}

abbrev old_perf : PerfCapabilities
old_perf = record {
  has_intel_pt = true;
  has_kernel_tracing = false;
  kernel_version = no_version;
  snapshot_on_exit = false;
  ctlfd = false;
  dlfilter = false;
  kcore = false;
}

abbrev answers : Answers
answers = record {
  has_pipe = true;
  forked = pos 9;
  stream = some (codes "x" ++ 10 ∷ []);
  reason = [];
}

abbrev machine : System
machine = record {
  absolute = ok;
  parent_path = λ path. codes "/";
  temp_directory = codes "/tmp";
  process_id = 1;
  is_directory = λ path. true;
  create_directories = λ path. ok done;
  capabilities = old_perf;
  forked = pos 8;
  reason = [];
  polls = none ∷ none ∷ [];
  record_ends = some (exited 0);
  script = answers;
  script_ends = some (exited 0);
  opens = λ path. ok done;
  clock = 5;
}

-- Settings that name only the command.
abbrev only_command : Json
only_command = record {
  Value = Bytes;
  object_at = λ v name. ok v;
  text_at = λ v name default. ok (if equal name (codes "command") then v else default);
  bool_at = λ v name default. ok default;
  int_at = λ v name default. ok default;
  texts_at = λ v name. none;
}

run_ends_example :
    let (code, w) = run only_command machine (codes "decode") in
    (code ≡ 0) ⊎ ((code ≡ 1) × SaysError w)
run_ends_example = run_ends only_command machine (codes "decode")

record_attached-Asks_example :
    Asks
      (record_attached machine default_config (codes "7") (codes "perf" ∷ []))
      gone
      (attached_calls machine default_config)
record_attached-Asks_example =
    record_attached-Asks machine default_config (codes "7") (codes "perf") [] refl

abbrev paths : Paths
paths = record { work_dir = codes "/tmp/w"; perf_data_path = codes "/home/out" }

recorded-read_example :
    let used = record default_config { working_directory = codes "/tmp/w" } in
    let attach = build_attach_args used old_perf (codes "7" ∷ []) in
    let launch = build_launch_args used old_perf (codes "ls") [] in
    let decode = build_perf_script_args default_config (codes "/tmp/w") true in
    (written_to (record_args true paths attach) ≡ some (codes "/home/out"))
    × (written_to (record_args true paths launch) ≡ some (codes "/home/out"))
    × (written_to (record_args false paths attach) ≡ read_from decode)
    × (written_to (record_args false paths launch) ≡ read_from decode)
recorded-read_example =
    recorded-read default_config default_config old_perf paths (codes "7" ∷ []) (codes "ls") []

abbrev no_filter : Config
no_filter = record { start_symbol = []; end_symbol = []; multi_slice = false }

answers-Prints : Prints answers (codes "x" ++ 10 ∷ [])
answers-Prints = record { pipes = refl; forks = refl; streams = refl }

-- A machine that cannot open the output.
abbrev full_disk : System
full_disk = record machine { opens = λ path. throws (codes "no space") }

decode_perf_data-Fails_example :
    Fails ending
      (decode_perf_data full_disk (codes "/tmp/w") (codes "t.fxt") false no_filter)
      (codes "no space")
      (asks_script (waitpid (pos 9) (some (exited 0))) ∷ [])
decode_perf_data-Fails_example =
    decode_perf_data-Fails full_disk (codes "/tmp/w") (codes "t.fxt") false no_filter
      (codes "x" ++ 10 ∷ []) (codes "no space") answers-Prints refl
