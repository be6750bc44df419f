-- ===== src/Cli/Traces.antt =====
-- bin/tracey_mctraceface_main.cpp: the trace that `decode_perf_data` writes, from the bytes that perf
-- script prints.
use tracey_mctraceface.Base.{◌≡◌, refl, Bool, true, false, List, [], ◌∷◌, some, Bytes}
use tracey_mctraceface.Base.Int.{is_positive}
use tracey_mctraceface.Base.Outcome.{ok}
use tracey_mctraceface.Driver.{PerfConfig, build_perf_script_args}
use tracey_mctraceface.Pipeline
use tracey_mctraceface.Process.{Answers, is_null, spawn}
use tracey_mctraceface.Process.Lines.{from_pipe}
use tracey_mctraceface.Wire.{Chunk}
use tracey_mctraceface.Cli.{Effect, writes}
use tracey_mctraceface.Cli.Does.{View, Does}
use tracey_mctraceface.Cli.Stopping.{positive-nonnegative}

abbrev written_in : Effect → List (Bytes × List Chunk)
written_in (writes path chunks) = (path, chunks) ∷ []
written_in _ = []

-- The traces that are written, with their paths.
abbrev pub written : View (Bytes × List Chunk)
written = record { select = written_in; says_nothing = λ line. refl }

-- perf script can be started, and prints `bytes`.
pub record Prints (a : Answers) (bytes : Bytes) : Type 0 where
  pub pipes : a.has_pipe ≡ true
  pub forks : is_positive a.forked ≡ true
  pub streams : a.stream ≡ some bytes

pub spawn-Prints :
    (args : List Bytes) (a : Answers) (bytes : Bytes)
    → is_null args ≡ false
    → Prints a bytes
    → (spawn args a).0 ≡ ok (from_pipe a.forked bytes)
unfolding spawn
spawn-Prints args a bytes some_args h =
    rw (some_args, h.pipes, positive-nonnegative a.forked h.forks, h.streams) refl

pub script_args-filled :
    (config : PerfConfig) (working_dir : Bytes) (is_directory : Bool)
    → is_null (build_perf_script_args config working_dir is_directory) ≡ false
unfolding build_perf_script_args
script_args-filled config working_dir is_directory = refl
