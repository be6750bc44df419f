-- ===== src/Thread/Branch.antt =====
-- `process_branch` of lib/stack_reconstructor.cpp, behind `map_time` and `get_thread`.
use tracey_mctraceface.Base.{
  ℕ, Bool, false, List, [], ◌∷◌, Option, none, some, equal, if◌then◌else◌,
}
use tracey_mctraceface.Event.{Location, BranchKind, TraceState, BranchData, unchanged, start, end}
use tracey_mctraceface.Thread.{
  Callstack, Thread, untraced_symbol, call, ret, check_current_symbol, clear_callstack,
}

abbrev pub set_last_event_time : ℕ → Thread → Thread
set_last_event_time time t = record t { info = record t.info { last_event_time = time } }

-- `ti.inactive_callstacks.push_back(std::move(ti.callstack))`, then a new call stack.
unfoldable pub enter_kernel : ℕ → Thread → Thread
enter_kernel time t = record t {
  info = record t.info {
    inactive_callstacks = t.callstack ∷ t.inactive_callstacks;
    callstack = record { stack = []; create_time = time };
  };
}

-- What `Iret` and `Sysret` do after the current stack is cleared, on the inactive stacks.
unfoldable pub leave_kernel : List Callstack → ℕ → Location → Thread → Thread
leave_kernel (c ∷ cs) time dst t =
    check_current_symbol time dst
      (record t { info = record t.info { callstack = c; inactive_callstacks = cs } })
leave_kernel [] time dst t = record t {
  info = record t.info { callstack = record t.callstack { create_time = time } };
}

-- The `switch` on the kind.
unfoldable pub process_kind : BranchKind → ℕ → BranchData → Thread → Thread
process_kind BranchKind.call time br t = call time br.dst false (check_current_symbol time br.src t)
process_kind BranchKind.return time br t = check_current_symbol time br.dst (ret time t)
process_kind BranchKind.jump time br t = check_current_symbol time br.dst t
process_kind BranchKind.syscall time br t = call time br.dst false (enter_kernel time t)
process_kind BranchKind.hardware_interrupt time br t = call time br.dst false (enter_kernel time t)
process_kind BranchKind.iret time br t =
    let t' = clear_callstack time t in leave_kernel t'.inactive_callstacks time br.dst t'
process_kind BranchKind.sysret time br t =
    let t' = clear_callstack time t in leave_kernel t'.inactive_callstacks time br.dst t'
process_kind BranchKind.interrupt time br t = check_current_symbol time br.dst t
process_kind BranchKind.async time br t = check_current_symbol time br.dst t
process_kind BranchKind.tx_abort time br t = check_current_symbol time br.dst t

unfoldable pub process_kind? : Option BranchKind → ℕ → BranchData → Thread → Thread
process_kind? none time br t = t
process_kind? (some kind) time br t = process_kind kind time br t

abbrev pub untraced : Location
untraced = record { ip = 0; symbol = untraced_symbol; symbol_offset = 0 }

-- `!stack.empty() && stack.back().symbol == "[untraced]"`
unfoldable pub is_untraced : List Location → Bool
is_untraced [] = false
is_untraced (top ∷ rest) = equal top.symbol untraced_symbol

-- Trace start: drop the marker if it is there, and resume at `dst`.
unfoldable pub resume : ℕ → Location → Thread → Thread
resume time dst t =
    check_current_symbol time dst (if is_untraced t.callstack.stack then ret time t else t)

unfoldable pub process_state : TraceState → ℕ → BranchData → Thread → Thread
process_state end time br t = call time untraced false t
process_state start time br t = process_kind? br.kind time br (resume time br.dst t)
process_state unchanged time br t = process_kind? br.kind time br t

unfoldable pub process_branch : ℕ → BranchData → Thread → Thread
process_branch time br t = process_state br.trace_state time br (set_last_event_time time t)
