-- ===== src/Parser/Kinds.antt =====
-- The kinds of branches, as `perf script` prints them.
use tracey_mctraceface.Base.{◌≡◌, refl, ◌++◌, some, Bytes, codes, equal, starts_with}
use tracey_mctraceface.Event.{
  BranchKind, call, return, jump, syscall, sysret, hardware_interrupt, interrupt, iret, async,
  tx_abort, TraceState, unchanged, start, end,
}
use tracey_mctraceface.Parser.Branches.{
  parse_branch_kind, strip_start, strip_end, parse_kind_and_trace,
}

abbrev pub kind_text : BranchKind → Bytes
kind_text call = codes "call"
kind_text return = codes "return"
kind_text jump = codes "jmp"
kind_text syscall = codes "syscall"
kind_text sysret = codes "sysret"
kind_text hardware_interrupt = codes "hw int"
kind_text interrupt = codes "int"
kind_text iret = codes "iret"
kind_text async = codes "async"
kind_text tx_abort = codes "tx abrt"

abbrev pub flags_text : BranchKind → TraceState → Bytes
flags_text k unchanged = kind_text k
flags_text k start = codes "tr strt " ++ kind_text k
flags_text k end = codes "tr end  " ++ kind_text k

-- The flags that `perf script` prints for a kind, alone or where the trace starts or ends, are parsed
-- back to that kind and that state of the trace.
pub parse_kind_and_trace-flags :
    (k : BranchKind) (t : TraceState)
    → parse_kind_and_trace (flags_text k t) ≡ record { kind = some k; trace_state = t }
unfolding parse_kind_and_trace parse_branch_kind strip_start strip_end equal starts_with
parse_kind_and_trace-flags call unchanged = refl
parse_kind_and_trace-flags call start = refl
parse_kind_and_trace-flags call end = refl
parse_kind_and_trace-flags return unchanged = refl
parse_kind_and_trace-flags return start = refl
parse_kind_and_trace-flags return end = refl
parse_kind_and_trace-flags jump unchanged = refl
parse_kind_and_trace-flags jump start = refl
parse_kind_and_trace-flags jump end = refl
parse_kind_and_trace-flags syscall unchanged = refl
parse_kind_and_trace-flags syscall start = refl
parse_kind_and_trace-flags syscall end = refl
parse_kind_and_trace-flags sysret unchanged = refl
parse_kind_and_trace-flags sysret start = refl
parse_kind_and_trace-flags sysret end = refl
parse_kind_and_trace-flags hardware_interrupt unchanged = refl
parse_kind_and_trace-flags hardware_interrupt start = refl
parse_kind_and_trace-flags hardware_interrupt end = refl
parse_kind_and_trace-flags interrupt unchanged = refl
parse_kind_and_trace-flags interrupt start = refl
parse_kind_and_trace-flags interrupt end = refl
parse_kind_and_trace-flags iret unchanged = refl
parse_kind_and_trace-flags iret start = refl
parse_kind_and_trace-flags iret end = refl
parse_kind_and_trace-flags async unchanged = refl
parse_kind_and_trace-flags async start = refl
parse_kind_and_trace-flags async end = refl
parse_kind_and_trace-flags tx_abort unchanged = refl
parse_kind_and_trace-flags tx_abort start = refl
parse_kind_and_trace-flags tx_abort end = refl
