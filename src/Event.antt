-- ===== src/Event.antt =====
-- include/tracey_mctraceface/perf_event.hpp: the events that the parser makes and the filter and
-- the reconstructor read. An `int32_t` offset is kept as its 32-bit pattern.
use tracey_mctraceface.Base.{ℕ, Bool, Option, List, Bytes}

pub data BranchKind : Type 0 where
  call return jump syscall sysret hardware_interrupt interrupt iret async tx_abort : BranchKind

pub data TraceState : Type 0 where
  unchanged start end : TraceState

pub data SampleEventName : Type 0 where
  branch_misses cache_misses : SampleEventName

pub record Location : Type 0 where
  pub ip : ℕ
  pub symbol : Bytes
  pub symbol_offset : ℕ

pub record BranchData : Type 0 where
  pub kind : Option BranchKind
  pub trace_state : TraceState
  pub in_transaction : Bool
  pub src : Location
  pub dst : Location

pub record EventSampleData : Type 0 where
  pub location : Location
  pub count : ℕ
  pub name : SampleEventName

-- `PowerData` and `StacktraceSampleData` have one field each.
pub data EventData : Type 0 where
  branch : BranchData → EventData
  power : (freq_mhz : ℕ) → EventData
  stacktrace : (callstack : List Location) → EventData
  sample : EventSampleData → EventData

pub record OkEvent : Type 0 where
  pub pid : ℕ
  pub tid : ℕ
  pub time_ns : ℕ
  pub payload : EventData

pub record DecodeError : Type 0 where
  pub pid : ℕ
  pub tid : ℕ
  pub time_ns : Option ℕ
  pub ip : Option ℕ
  pub message : Bytes

pub data Event : Type 0 where
  ok : OkEvent → Event
  error : DecodeError → Event
