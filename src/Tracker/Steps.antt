-- ===== src/Tracker/Steps.antt =====
-- One event: what it does to the threads of the table, and which threads it leaves alone.
use tracey_mctraceface.Base.{
  ℕ, ◌≡◌, refl, sym, ap, false, List, [], Option, none, some, Bytes, arith, Bool-cases, inl, inr,
  subst,
}
use tracey_mctraceface.Event.{Event, ok, error, EventData, branch, power, stacktrace, sample}
use tracey_mctraceface.Thread.{Thread}
use tracey_mctraceface.Thread.Branch.{set_last_event_time}
use tracey_mctraceface.Thread.Balance.{process_branch-Follows, process_stacktrace-Follows}
use tracey_mctraceface.Thread.Frames.{clear_all_callstacks-Follows}
use tracey_mctraceface.Thread.Replay.{replay, events, Follows, at_rest, Follows-split}
use tracey_mctraceface.Tracker.{
  ThreadKey, same_key, Tracker, ThreadWrite, get_thread, with_thread, at_time, map_time,
  process_payload, process_error, process_error_at, process_event,
}
use tracey_mctraceface.Tracker.Store.{
  get_thread-put_thread, same_key-eq, Unique, put_thread-Unique, writes_of, writes_of-tagged,
}

-- If thread `k` agrees with the open names `s`, the step writes events for it that lead from `s` to
-- names with which it agrees afterwards.
abbrev pub Advances : ThreadKey → Tracker → Tracker × List ThreadWrite → Type 0
Advances k r after =
    (s : List Bytes)
    → Follows s (at_rest (get_thread k r.threads))
    → (s' : List Bytes) × (replay s (events (writes_of k after.1)) ≡ some s')
      × Follows s' (at_rest (get_thread k after.0.threads))

-- A handler that keeps a thread in step with the names open before it.
abbrev pub Keeps : (Thread → Thread) → Type 0
Keeps handler = (s : List Bytes) (t : Thread) → Follows s t → Follows s (handler t)

Advances-none : (k : ThreadKey) (r : Tracker) → Advances k r (r, [])
unfolding writes_of replay
Advances-none k r s f = (s, refl, f)

with_thread-Advances :
    (j k : ThreadKey) (handler : Thread → Thread) (r : Tracker)
    → Keeps handler
    → Advances k r (with_thread j handler r)
unfolding with_thread replay
with_thread-Advances j k handler r keeps s f =
    let t = handler (at_rest (get_thread j r.threads)) in
    elim (Bool-cases (same_key j k)) [
      | inl same ↦
          rw (get_thread-put_thread k j t.info r.threads, writes_of-tagged k j t.writes, same)
            (Follows-split s t (
              keeps s _ (
                subst (λ x. Follows s (at_rest (get_thread x r.threads)))
                  (sym (same_key-eq j k same)) f)))
      | inr other ↦
          rw (get_thread-put_thread k j t.info r.threads, writes_of-tagged k j t.writes, other)
            (s, refl, f)
    ]

map_time_threads : (time_ns : ℕ) (r : Tracker) → (map_time time_ns r).0.threads ≡ r.threads
unfolding map_time
map_time_threads time_ns r = ground arith

at_time-Advances :
    (time_ns : ℕ) (j k : ThreadKey) (handler : ℕ → Thread → Thread) (r : Tracker)
    → ((time : ℕ) → Keeps (handler time))
    → Advances k r (at_time time_ns j handler r)
unfolding at_time
at_time-Advances time_ns j k handler r keeps s f =
    let (r', time) = map_time time_ns r in
    with_thread-Advances j k (handler time) r' (keeps time) s
      (subst (λ m. Follows s (at_rest (get_thread k m))) (sym (map_time_threads time_ns r)) f)

process_error-Keeps : (time : ℕ) → Keeps (process_error time)
unfolding process_error
process_error-Keeps time s t = clear_all_callstacks-Follows s time (set_last_event_time time t)

process_payload-Advances :
    (d : EventData) (time_ns : ℕ) (j k : ThreadKey) (r : Tracker)
    → Advances k r (process_payload d time_ns j r)
unfolding process_payload
process_payload-Advances (branch br) time_ns j k r =
    at_time-Advances time_ns j k _ r (λ time s. process_branch-Follows s time br)
process_payload-Advances (stacktrace st) time_ns j k r =
    at_time-Advances time_ns j k _ r (λ time s. process_stacktrace-Follows s time st)
process_payload-Advances (power f) time_ns j k r = Advances-none k r
process_payload-Advances (sample x) time_ns j k r = Advances-none k r

process_error_at-Advances :
    (t : Option ℕ) (j k : ThreadKey) (r : Tracker) → Advances k r (process_error_at t j r)
unfolding process_error_at
process_error_at-Advances none j k r = Advances-none k r
process_error_at-Advances (some time_ns) j k r =
    at_time-Advances time_ns j k process_error r process_error-Keeps

pub process_event-Advances :
    (e : Event) (k : ThreadKey) (r : Tracker) → Advances k r (process_event e r)
unfolding process_event
process_event-Advances (ok e) k r = process_payload-Advances e.payload e.time_ns _ k r
process_event-Advances (error e) k r = process_error_at-Advances e.time_ns _ k r

-- The table keeps its keys distinct.
at_time-Unique :
    (time_ns : ℕ) (j : ThreadKey) (handler : ℕ → Thread → Thread) (r : Tracker)
    → Unique r.threads
    → Unique (at_time time_ns j handler r).0.threads
unfolding at_time with_thread
at_time-Unique time_ns j handler r u =
    put_thread-Unique j _ _ (subst Unique (sym (map_time_threads time_ns r)) u)

process_payload-Unique :
    (d : EventData) (time_ns : ℕ) (j : ThreadKey) (r : Tracker)
    → Unique r.threads
    → Unique (process_payload d time_ns j r).0.threads
unfolding process_payload
process_payload-Unique (branch br) time_ns j r u = at_time-Unique time_ns j _ r u
process_payload-Unique (stacktrace st) time_ns j r u = at_time-Unique time_ns j _ r u
process_payload-Unique (power f) time_ns j r u = u
process_payload-Unique (sample x) time_ns j r u = u

process_error_at-Unique :
    (t : Option ℕ) (j : ThreadKey) (r : Tracker)
    → Unique r.threads
    → Unique (process_error_at t j r).0.threads
unfolding process_error_at
process_error_at-Unique none j r u = u
process_error_at-Unique (some time_ns) j r u = at_time-Unique time_ns j process_error r u

pub process_event-Unique :
    (e : Event) (r : Tracker) → Unique r.threads → Unique (process_event e r).0.threads
unfolding process_event
process_event-Unique (ok e) r u = process_payload-Unique e.payload e.time_ns _ r u
process_event-Unique (error e) r u = process_error_at-Unique e.time_ns _ r u

-- The thread that an event names.
abbrev pub key_of : Event → ThreadKey
key_of (ok e) = record { pid = e.pid; tid = e.tid }
key_of (error e) = record { pid = e.pid; tid = e.tid }

-- A step that concerns another thread: the entry of `k` stays, and nothing is written for it.
abbrev pub Spares : ThreadKey → Tracker → Tracker × List ThreadWrite → Type 0
Spares k r after =
    (get_thread k after.0.threads ≡ get_thread k r.threads) × (writes_of k after.1 ≡ [])

Spares-none : (k : ThreadKey) (r : Tracker) → Spares k r (r, [])
unfolding writes_of
Spares-none k r = (refl, refl)

at_time-Spares :
    (time_ns : ℕ) (j k : ThreadKey) (handler : ℕ → Thread → Thread) (r : Tracker)
    → same_key j k ≡ false
    → Spares k r (at_time time_ns j handler r)
unfolding at_time with_thread
at_time-Spares time_ns j k handler r other =
    let (r', time) = map_time time_ns r in
    let t = handler time (at_rest (get_thread j r'.threads)) in
    rw (get_thread-put_thread k j t.info r'.threads, writes_of-tagged k j t.writes, other)
      (ap (get_thread k) (map_time_threads time_ns r), refl)

process_payload-Spares :
    (d : EventData) (time_ns : ℕ) (j k : ThreadKey) (r : Tracker)
    → same_key j k ≡ false
    → Spares k r (process_payload d time_ns j r)
unfolding process_payload
process_payload-Spares (branch br) time_ns j k r o = at_time-Spares time_ns j k _ r o
process_payload-Spares (stacktrace st) time_ns j k r o = at_time-Spares time_ns j k _ r o
process_payload-Spares (power f) time_ns j k r o = Spares-none k r
process_payload-Spares (sample x) time_ns j k r o = Spares-none k r

process_error_at-Spares :
    (t : Option ℕ) (j k : ThreadKey) (r : Tracker)
    → same_key j k ≡ false
    → Spares k r (process_error_at t j r)
unfolding process_error_at
process_error_at-Spares none j k r o = Spares-none k r
process_error_at-Spares (some time_ns) j k r o = at_time-Spares time_ns j k process_error r o

-- An event touches no thread but the one that it names: every other thread keeps its state, and the
-- writer is told of no duration of another thread.
pub process_event-Spares :
    (e : Event) (k : ThreadKey) (r : Tracker)
    → same_key (key_of e) k ≡ false
    → Spares k r (process_event e r)
unfolding process_event
process_event-Spares (ok e) k r o = process_payload-Spares e.payload e.time_ns _ k r o
process_event-Spares (error e) k r o = process_error_at-Spares e.time_ns _ k r o
