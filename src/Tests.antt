-- ===== src/Tests.antt =====
-- Concrete runs of the definitions, and the theorems at concrete inputs. The sample data stand here.
mod Traces
mod Writing
mod Reading
mod Naming
mod Sinks
mod Processes
mod Serving
mod Commands
use tracey_mctraceface.Base.{ℕ, true, false, List, [], ◌∷◌, none, some, Bytes, codes}
use tracey_mctraceface.Event.{
  Location, BranchData, BranchKind, unchanged, EventData, branch, Event, ok, error, OkEvent,
  DecodeError,
}
use tracey_mctraceface.Filter.{Config}
use tracey_mctraceface.Thread.{ThreadInfo, Thread, PendingEvent, call_event, ret_event, Callstack}
use tracey_mctraceface.Tracker.{ThreadKey}

abbrev main_location : Location
main_location = record { ip = 16; symbol = codes "main"; symbol_offset = 0 }

abbrev work_location : Location
work_location = record { ip = 32; symbol = codes "work"; symbol_offset = 4 }

abbrev call_branch : BranchData
call_branch = record {
  kind = some BranchKind.call;
  trace_state = unchanged;
  in_transaction = false;
  src = main_location;
  dst = work_location;
}

abbrev return_branch : BranchData
return_branch = record {
  kind = some BranchKind.return;
  trace_state = unchanged;
  in_transaction = false;
  src = work_location;
  dst = main_location;
}

abbrev branch_event : ℕ → BranchData → Event
branch_event time br = ok (record { pid = 7; tid = 8; time_ns = time; payload = branch br })

abbrev two_events : List Event
two_events = branch_event 100 call_branch ∷ branch_event 130 return_branch ∷ []

abbrev thread_key : ThreadKey
thread_key = record { pid = 7; tid = 8 }

abbrev other_key : ThreadKey
other_key = record { pid = 7; tid = 9 }

abbrev slice_config : Config
slice_config = record { start_symbol = codes "wo"; end_symbol = codes "main"; multi_slice = true }

-- Two lines of `perf script`, and a decode error.
abbrev perf_lines : List Bytes
perf_lines =
    codes " 7/8 0.000000100: 1 branches:uH:   call 10 main+0x0 (a) => 20 work+0x4 (a)"
    ∷ codes " 7/8 0.000000130: 1 branches:uH:   return 24 work+0x8 (a) => 14 main+0x4 (a)"
    ∷ codes " instruction trace error type 1 time 0.000000140 cpu 0 pid 7 tid 8 ip 0 code 6: lost"
    ∷ []

abbrev call_pending : PendingEvent
call_pending = record { symbol = codes "work"; kind = call_event work_location false }

abbrev ret_pending : PendingEvent
ret_pending = record { symbol = codes "work"; kind = ret_event }

abbrev waiting_thread : List PendingEvent → ThreadInfo
waiting_thread pending = record {
  callstack = record { stack = main_location ∷ []; create_time = 0 };
  inactive_callstacks = [];
  pending_events = pending;
  pending_time = 10;
  last_event_time = 10;
}

abbrev resting : ThreadInfo → Thread
resting i = record { info = i; writes = [] }
