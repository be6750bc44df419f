-- ===== src/Thread/Balance.antt =====
-- Whatever happens to a thread, the durations that it opens and closes nest: replaying its events
-- opens exactly the frames of its call stacks.
use tracey_mctraceface.Base.{
  ℕ, ◌≡◌, refl, Bool, true, false, List, [], ◌∷◌, Option, none, some, Bytes, if◌then◌else◌,
}
use tracey_mctraceface.Event.{Location, BranchKind, TraceState, BranchData, unchanged, start, end}
use tracey_mctraceface.Thread.{Callstack, Thread, call, ret, clear_callstack}
use tracey_mctraceface.Thread.Replay.{Follows}
use tracey_mctraceface.Thread.Branch.{
  set_last_event_time, enter_kernel, leave_kernel, process_kind, process_kind?, untraced,
  is_untraced, resume, process_state, process_branch,
}
use tracey_mctraceface.Thread.Shape.{clear_callstack_stack}
use tracey_mctraceface.Thread.Stacktrace.{call_frames, process_stacktrace}
use tracey_mctraceface.Thread.Frames.{
  call-Follows, ret-Follows, check_current_symbol-Follows, ret_frames-Follows,
  clear_callstack-Follows, restore-Follows,
}

leave_kernel-Follows :
    (s : List Bytes) (cs : List Callstack) (time : ℕ) (dst : Location) (t : Thread)
    → t.inactive_callstacks ≡ cs
    → t.callstack.stack ≡ []
    → Follows s t
    → Follows s (leave_kernel cs time dst t)
unfolding leave_kernel
leave_kernel-Follows s [] time dst t e n f = f
leave_kernel-Follows s (c ∷ cs) time dst t e n f =
    check_current_symbol-Follows s time dst _ (restore-Follows s c cs t e n f)

-- `Iret` and `Sysret`.
iret-Follows :
    (s : List Bytes) (time : ℕ) (dst : Location) (t : Thread)
    → Follows s t
    → let u = clear_callstack time t in Follows s (leave_kernel u.inactive_callstacks time dst u)
iret-Follows s time dst t f =
    leave_kernel-Follows s _ time dst (clear_callstack time t) refl (clear_callstack_stack time t).0
      (clear_callstack-Follows s time t f)

-- `Syscall` and `HardwareInterrupt`.
syscall-Follows :
    (s : List Bytes) (time : ℕ) (dst : Location) (t : Thread)
    → Follows s t
    → Follows s (call time dst false (enter_kernel time t))
unfolding enter_kernel
syscall-Follows s time dst t f = call-Follows s time dst false (enter_kernel time t) f

process_kind-Follows :
    (s : List Bytes) (k : BranchKind) (time : ℕ) (br : BranchData) (t : Thread)
    → Follows s t
    → Follows s (process_kind k time br t)
unfolding process_kind
process_kind-Follows s BranchKind.call time br t f =
    call-Follows s time br.dst false _ (check_current_symbol-Follows s time br.src t f)
process_kind-Follows s BranchKind.return time br t f =
    check_current_symbol-Follows s time br.dst _ (ret-Follows s time t f)
process_kind-Follows s BranchKind.syscall time br t f = syscall-Follows s time br.dst t f
process_kind-Follows s BranchKind.hardware_interrupt time br t f = syscall-Follows s time br.dst t f
process_kind-Follows s BranchKind.iret time br t f = iret-Follows s time br.dst t f
process_kind-Follows s BranchKind.sysret time br t f = iret-Follows s time br.dst t f
process_kind-Follows s _ time br t f = check_current_symbol-Follows s time br.dst t f

process_kind?-Follows :
    (s : List Bytes) (k : Option BranchKind) (time : ℕ) (br : BranchData) (t : Thread)
    → Follows s t
    → Follows s (process_kind? k time br t)
unfolding process_kind?
process_kind?-Follows s none time br t f = f
process_kind?-Follows s (some k) time br t f = process_kind-Follows s k time br t f

resume-Follows :
    (s : List Bytes) (time : ℕ) (dst : Location) (t : Thread)
    → Follows s t
    → Follows s (resume time dst t)
unfolding resume
resume-Follows s time dst t f =
    check_current_symbol-Follows s time dst _ (marker (is_untraced t.callstack.stack))
  where
    marker : (b : Bool) → Follows s (if b then ret time t else t)
    marker true = ret-Follows s time t f
    marker false = f

process_state-Follows :
    (s : List Bytes) (st : TraceState) (time : ℕ) (br : BranchData) (t : Thread)
    → Follows s t
    → Follows s (process_state st time br t)
unfolding process_state
process_state-Follows s end time br t f = call-Follows s time untraced false t f
process_state-Follows s start time br t f =
    process_kind?-Follows s br.kind time br _ (resume-Follows s time br.dst t f)
process_state-Follows s unchanged time br t f = process_kind?-Follows s br.kind time br t f

pub process_branch-Follows :
    (s : List Bytes) (time : ℕ) (br : BranchData) (t : Thread)
    → Follows s t
    → Follows s (process_branch time br t)
unfolding process_branch
process_branch-Follows s time br t =
    process_state-Follows s br.trace_state time br (set_last_event_time time t)

call_frames-Follows :
    (s : List Bytes) (ls : List Location) (time : ℕ) (t : Thread)
    → Follows s t
    → Follows s (call_frames ls time t)
unfolding call_frames
call_frames-Follows s [] time t f = f
call_frames-Follows s (l ∷ ls) time t f =
    call_frames-Follows s ls time _ (call-Follows s time l false t f)

pub process_stacktrace-Follows :
    (s : List Bytes) (time : ℕ) (sample : List Location) (t : Thread)
    → Follows s t
    → Follows s (process_stacktrace time sample t)
unfolding process_stacktrace
process_stacktrace-Follows s time sample t f =
    call_frames-Follows s _ time _ (ret_frames-Follows s _ time (set_last_event_time time t) f)
