-- ===== src/Thread.antt =====
-- lib/stack_reconstructor.cpp, the part that works on one `ThreadInfo`: the call stack, its pending
-- events and the operations `call`, `ret`, `check_current_symbol`, `clear_callstack`,
-- `clear_all_callstacks`, `add_event`, `flush`, `process_branch` and `process_stacktrace`.
-- `writes` collects the calls of `write_pending` in order, and Reconstructor performs them: they
-- touch the writer and the symbol cache only, which no operation of this file reads.
-- Branch and Stacktrace hold the handlers of events.
-- The head of a stack's list is the back of the vector.
pub mod Branch
pub mod Stacktrace
pub mod Replay
pub mod Shape
pub mod Timing
pub mod Sampling
pub mod Spec
pub mod Frames
pub mod Balance
use tracey_mctraceface.Base.{
  ℕ, suc, ◌+◌, ◌-◌, ◌/◌, ◌%◌, ◌^◌, Bool, true, false, not, ◌&&◌, List, [], ◌∷◌, ◌++◌, Bytes, codes,
  equal, if◌then◌else◌, ltb, ◌==◌,
}
use tracey_mctraceface.Event.{Location}

abbrev pub u64 : ℕ
u64 = 2 ^ 64

-- `uint64_t` addition and subtraction.
abbrev pub add64 : ℕ → ℕ → ℕ
add64 a b = (a + b) % u64

abbrev pub sub64 : ℕ → ℕ → ℕ
sub64 a b = (a + u64 - b) % u64

-- `PendingKind`, with the field that is only valid for the kind: `call_info` or `reset_time`.
pub data PendingKind : Type 0 where
  call_event : (location : Location) (from_untraced : Bool) → PendingKind
  ret_event : PendingKind
  ret_from_untraced : (reset_time : ℕ) → PendingKind

pub record PendingEvent : Type 0 where
  pub symbol : Bytes
  pub kind : PendingKind

pub record Callstack : Type 0 where
  pub stack : List Location
  pub create_time : ℕ

pub record ThreadInfo : Type 0 where
  pub callstack : Callstack
  pub inactive_callstacks : List Callstack
  pub pending_events : List PendingEvent
  pub pending_time : ℕ
  pub last_event_time : ℕ

-- One call of `write_pending` for the thread.
pub record Write : Type 0 where
  pub time : ℕ
  pub event : PendingEvent

-- A thread while it handles an event.
pub record Thread : Type 0 where
  pub info : ThreadInfo
  pub open info use *
  pub writes : List Write

abbrev pub unknown_symbol : Bytes
unknown_symbol = codes "[unknown]"

abbrev pub untraced_symbol : Bytes
untraced_symbol = codes "[untraced]"

unfoldable pub set_stack : List Location → Thread → Thread
set_stack ls t = record t {
  info = record t.info { callstack = record t.info.callstack { stack = ls } };
}

abbrev pub is_call : PendingEvent → Bool
is_call ev = elim ev.kind [ call_event l u ↦ true | _ ↦ false ]

-- `time_consumers` after the first loop of `flush`.
unfoldable pub time_consumers : List PendingEvent → ℕ
time_consumers [] = 0
time_consumers (ev ∷ evs) = (if is_call ev then 1 else 0) + time_consumers evs

-- `ns_share` of an event: `remaining` counts the calls from this event on.
unfoldable pub ns_share : ℕ → ℕ → ℕ → ℕ
ns_share total offset remaining = if ltb 0 remaining then sub64 total offset / remaining else 0

-- The second loop of `flush`. `consumers` and `consumed` are `int` in the source.
unfoldable pub distribute : ℕ → ℕ → ℕ → ℕ → ℕ → List PendingEvent → List Write
distribute begin total consumers consumed offset [] = []
distribute begin total consumers consumed offset (ev ∷ evs) =
    let consumed' = if is_call ev then suc consumed else consumed in
    let share = if is_call ev then ns_share total offset (consumers + 1 - consumed') else 0 in
    record { time = add64 begin offset; event = ev }
    ∷ distribute begin total consumers consumed' (add64 offset share) evs

-- `total_ns`
unfoldable pub total_ns : ℕ → ℕ → ℕ
total_ns to_time pending_time = if ltb pending_time to_time then sub64 to_time pending_time else 0

-- The writes of `flush`.
unfoldable pub flushed : ℕ → ThreadInfo → List Write
flushed to_time i =
    distribute i.pending_time (total_ns to_time i.pending_time) (time_consumers i.pending_events) 0
      0 i.pending_events

abbrev pub no_events : List PendingEvent → Bool
no_events [] = true
no_events (ev ∷ evs) = false

unfoldable pub flush : ℕ → Thread → Thread
flush to_time t = if no_events t.pending_events then t else record {
  info = record t.info { pending_time = to_time; pending_events = [] };
  writes = t.writes ++ flushed to_time t.info;
}

-- The last two lines of `add_event`.
unfoldable pub queue_event : ℕ → PendingEvent → Thread → Thread
queue_event time ev t = record t {
  info = record t.info { pending_time = time; pending_events = t.pending_events ++ ev ∷ [] };
}

unfoldable pub add_event : ℕ → PendingEvent → Thread → Thread
add_event time ev t =
    queue_event time ev
      (if not (time == t.pending_time) && not (no_events t.pending_events) then flush time t else t)

unfoldable pub call : ℕ → Location → Bool → Thread → Thread
call time loc from_untraced t =
    let ev : PendingEvent = record { symbol = loc.symbol; kind = call_event loc from_untraced } in
    let t' = add_event time ev t in set_stack (loc ∷ t'.callstack.stack) t'

-- `ret`, on the stack as it finds it.
unfoldable pub ret_on : List Location → ℕ → Thread → Thread
ret_on (top ∷ rest) time t =
    set_stack rest (add_event time (record { symbol = top.symbol; kind = ret_event }) t)
ret_on [] time t =
    add_event time
      (record { symbol = unknown_symbol; kind = ret_from_untraced t.callstack.create_time }) t

unfoldable pub ret : ℕ → Thread → Thread
ret time t = ret_on t.callstack.stack time t

-- `check_current_symbol`, on the stack as it finds it.
unfoldable pub check_on : List Location → ℕ → Location → Thread → Thread
check_on [] time loc t = call t.callstack.create_time loc true t
check_on (top ∷ rest) time loc t =
    if not (equal top.symbol loc.symbol) then call time loc false (ret time t) else t

unfoldable pub check_current_symbol : ℕ → Location → Thread → Thread
check_current_symbol time loc t = check_on t.callstack.stack time loc t

-- `while (!stack.empty()) ret(...)`: one round for each frame, as each round pops one.
unfoldable pub ret_frames : List Location → ℕ → Thread → Thread
ret_frames [] time t = t
ret_frames (frame ∷ frames) time t = ret_frames frames time (ret time t)

unfoldable pub clear_callstack : ℕ → Thread → Thread
clear_callstack time t = ret_frames t.callstack.stack time t

-- The loop of `clear_all_callstacks`, over the inactive stacks, the back of the vector first.
unfoldable pub clear_inactive : List Callstack → ℕ → Thread → Thread
clear_inactive [] time t = t
clear_inactive (c ∷ cs) time t = clear_inactive cs time (
    clear_callstack time
      (record t { info = record t.info { callstack = c; inactive_callstacks = cs } }))

unfoldable pub clear_all_callstacks : ℕ → Thread → Thread
clear_all_callstacks time t =
    let t' = clear_callstack time t in clear_inactive t'.inactive_callstacks time t'
