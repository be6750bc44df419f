-- ===== src/Cli.antt =====
-- bin/tracey_mctraceface_main.cpp: the commands. What a run asks of the system and what it prints are a
-- list of effects; what the system answers is an argument. The settings come from the json library,
-- whose values are a parameter.
pub mod Settings
pub mod Decode
pub mod Record
pub mod Commands
pub mod Paths
pub mod Does
pub mod Asks
pub mod Polling
pub mod Signals
pub mod Stopping
pub mod Outcomes
pub mod Traces
pub mod Failures
use tracey_mctraceface.Base.{
  ℕ, zero, suc, ◌+◌, ◌-◌, ◌%◌, ◌^◌, Bool, List, [], ◌∷◌, ◌++◌, Option, none, some, Bytes, codes,
  map,
}
use tracey_mctraceface.Base.Int.{ℤ, pos, negsuc}
use tracey_mctraceface.Base.Outcome.{Result, ok, throws, Void, done, Action}
use tracey_mctraceface.Capabilities.{PerfCapabilities}
use tracey_mctraceface.Process.{Answers, Status, Call}
use tracey_mctraceface.Server.{Setup, Round}
use tracey_mctraceface.Wire.{Chunk}
use tracey_mctraceface.Log.{Level, normal}
use tracey_mctraceface.Log
use tracey_mctraceface.Writer.{decimal}

-- What a run does, in order: a line on `std::cerr`, the directories made, a program started, what is
-- asked about perf record and about perf script, a pause in milliseconds, whether Ctrl+C is caught, the trace written to a path,
-- and a file served on a port.
pub data Effect : Type 0 where
  says : Bytes → Effect
  makes_directories : Bytes → Effect
  starts : List Bytes → Effect
  asks : Call → Effect
  asks_script : Call → Effect
  sleeps : ℕ → Effect
  catches_interrupt : Bool → Effect
  writes : Bytes → List Chunk → Effect
  serves : Bytes → ℕ → Effect

pub record World : Type 0 where
  pub level : Level
  pub effects : List Effect

abbrev pub Run : Type 0 → Type 0
Run = Action World

-- What the program starts with.
abbrev pub new_world : World
new_world = record { level = normal; effects = [] }

unfoldable pub perform : List Effect → Run Void
perform es w = (ok done, record w { effects = w.effects ++ es })

unfoldable pub say : Bytes → Run Void
unfolding perform
say line = perform (says line ∷ [])

-- `log::info` and `log::debug`
unfoldable pub log_info : Bytes → Run Void
unfolding perform
log_info msg w = perform (map says (Log.info w.level msg)) w

unfoldable pub log_debug : Bytes → Run Void
unfolding perform
log_debug msg w = perform (map says (Log.debug w.level msg)) w

unfoldable pub set_level : Level → Run Void
set_level level w = (ok done, record w { level = level })

unfoldable pub get : {A : Type 0} → Result A → Run A
get r w = (r, w)

-- An `int` as a stream prints it.
unfoldable pub show_int : ℤ → Bytes
show_int (pos n) = decimal n
show_int (negsuc n) = codes "-" ++ decimal (suc n)

-- `static_cast` to an unsigned type of `bits` bits.
unfoldable pub unsigned : ℕ → ℤ → ℕ
unsigned bits (pos n) = n % 2 ^ bits
unsigned bits (negsuc n) = (2 ^ bits - suc n % 2 ^ bits) % 2 ^ bits

-- A json object: `value(key, default)` for the types that the program asks for, which throws where the
-- value is of another type, and the texts of an array, `none` where there is no array of the name.
pub record Json : Type 1 where
  pub Value : Type 0
  pub object_at : Value → Bytes → Result Value
  pub text_at : Value → Bytes → Bytes → Result Bytes
  pub bool_at : Value → Bytes → Bool → Result Bool
  pub int_at : Value → Bytes → ℤ → Result ℤ
  pub texts_at : Value → Bytes → Option (Result (List Bytes))

-- What the system answers in a run: paths (`absolute` throws for some, `parent_path`, and the directory
-- for temporary files with the number of the process), whether directories can be made, what perf can
-- do, `fork` for perf record and its end, whether it has ended in each round of the wait for Ctrl+C,
-- perf script, the wall clock, the file of the trace as it can be opened, written and read back, and
-- the server's calls.
pub record System : Type 0 where
  pub absolute : Bytes → Result Bytes
  pub parent_path : Bytes → Bytes
  pub temp_directory : Bytes
  pub process_id : ℕ
  pub is_directory : Bytes → Bool
  pub create_directories : Bytes → Result Void
  pub capabilities : PerfCapabilities
  pub forked : ℤ
  pub reason : Bytes
  pub polls : List (Option Status)
  pub record_ends : Option Status
  pub script : Answers
  pub script_ends : Option Status
  pub opens : Bytes → Result Void
  pub clock : ℕ
