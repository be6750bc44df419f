-- ===== src/Tracker.antt =====
-- lib/stack_reconstructor.cpp, the members of `StackReconstructor` that hold the threads and the base
-- time: `get_thread`, `map_time`, `process_event` and `finish`. The calls of `write_pending` are
-- returned in order; Reconstructor performs them. `threads_` is an association list: the order in
-- which `finish` visits the hash table is that of the list.
pub mod Store
pub mod Steps
pub mod Balance
use tracey_mctraceface.Base.{
  ℕ, Bool, true, false, ◌&&◌, List, [], ◌∷◌, ◌++◌, map, Option, none, some, if◌then◌else◌, ◌==◌,
}
use tracey_mctraceface.Event.{
  Event, ok, error, OkEvent, DecodeError, EventData, branch, power, stacktrace, sample,
}
use tracey_mctraceface.Thread.{ThreadInfo, Thread, Write, sub64, flush, clear_all_callstacks}
use tracey_mctraceface.Thread.Branch.{process_branch, set_last_event_time}
use tracey_mctraceface.Thread.Stacktrace.{process_stacktrace}

pub record ThreadKey : Type 0 where
  pub pid : ℕ
  pub tid : ℕ

-- `operator==` of two keys.
abbrev pub same_key : ThreadKey → ThreadKey → Bool
same_key a b = a.pid == b.pid && a.tid == b.tid

-- A value-initialised `ThreadInfo`.
abbrev pub new_thread : ThreadInfo
new_thread = record {
  callstack = record { stack = []; create_time = 0 };
  inactive_callstacks = [];
  pending_events = [];
  pending_time = 0;
  last_event_time = 0;
}

abbrev pub Threads : Type 0
Threads = List (ThreadKey × ThreadInfo)

pub record Tracker : Type 0 where
  pub base_time : ℕ
  pub base_time_set : Bool
  pub threads : Threads

-- One call of `write_pending`.
pub record ThreadWrite : Type 0 where
  pub key : ThreadKey
  pub write : Write

abbrev pub empty_tracker : Tracker
empty_tracker = record { base_time = 0; base_time_set = false; threads = [] }

unfoldable pub lookup : ThreadKey → Threads → Option ThreadInfo
lookup k [] = none
lookup k ((j, i) ∷ m) = if same_key j k then some i else lookup k m

-- `try_emplace` of a default entry, and the write through the reference that it returns.
unfoldable pub get_thread : ThreadKey → Threads → ThreadInfo
get_thread k m = elim (lookup k m) [ none ↦ new_thread | some i ↦ i ]

unfoldable pub put_thread : ThreadKey → ThreadInfo → Threads → Threads
put_thread k i [] = (k, i) ∷ []
put_thread k i ((j, old) ∷ m) = if same_key j k then (j, i) ∷ m else (j, old) ∷ put_thread k i m

unfoldable pub map_time : ℕ → Tracker → Tracker × ℕ
map_time time_ns r =
    let r' =
      if r.base_time_set then r else record r { base_time = time_ns; base_time_set = true } in
    (r', sub64 time_ns r'.base_time)

abbrev pub tagged : ThreadKey → List Write → List ThreadWrite
tagged k = map (λ w. record { key = k; write = w })

-- `auto& ti = get_thread(pid, tid)`, and a handler that works on it.
unfoldable pub with_thread : ThreadKey → (Thread → Thread) → Tracker → Tracker × List ThreadWrite
with_thread k handler r =
    let t = handler (record { info = get_thread k r.threads; writes = [] }) in
    (record r { threads = put_thread k t.info r.threads }, tagged k t.writes)

-- `map_time`, `get_thread` and a handler of the time.
unfoldable pub at_time :
    ℕ → ThreadKey → (ℕ → Thread → Thread) → Tracker → Tracker × List ThreadWrite
at_time time_ns k handler r = let (r', time) = map_time time_ns r in with_thread k (handler time) r'

unfoldable pub process_payload : EventData → ℕ → ThreadKey → Tracker → Tracker × List ThreadWrite
process_payload (branch br) time_ns k r = at_time time_ns k (λ time. process_branch time br) r
process_payload (stacktrace st) time_ns k r =
    at_time time_ns k (λ time. process_stacktrace time st) r
process_payload (power f) time_ns k r = (r, [])
process_payload (sample s) time_ns k r = (r, [])

-- `ti.last_event_time = time; clear_all_callstacks(ti, ...)`
unfoldable pub process_error : ℕ → Thread → Thread
process_error time t = clear_all_callstacks time (set_last_event_time time t)

unfoldable pub process_error_at : Option ℕ → ThreadKey → Tracker → Tracker × List ThreadWrite
process_error_at none k r = (r, [])
process_error_at (some time_ns) k r = at_time time_ns k process_error r

unfoldable pub process_event : Event → Tracker → Tracker × List ThreadWrite
process_event (ok e) r = process_payload e.payload e.time_ns (record { pid = e.pid; tid = e.tid }) r
process_event (error e) r = process_error_at e.time_ns (record { pid = e.pid; tid = e.tid }) r

-- The body of the loop of `finish`.
unfoldable pub finish_thread : ThreadInfo → Thread
finish_thread i =
    let last = i.last_event_time in
    flush last (clear_all_callstacks last (flush last (record { info = i; writes = [] })))

unfoldable pub finish_threads : Threads → Threads × List ThreadWrite
finish_threads [] = ([], [])
finish_threads ((k, i) ∷ m) =
    let t = finish_thread i in
    let (m', ws) = finish_threads m in ((k, t.info) ∷ m', tagged k t.writes ++ ws)

unfoldable pub finish : Tracker → Tracker × List ThreadWrite
finish r = let (m, ws) = finish_threads r.threads in (record r { threads = m }, ws)

-- A whole session: the events in order, and `finish`.
unfoldable pub run : List Event → Tracker → Tracker × List ThreadWrite
run [] r = finish r
run (e ∷ es) r = let (r', ws) = process_event e r in let (r'', ws') = run es r' in (r'', ws ++ ws')
