-- ===== src/Tracker/Balance.antt =====
-- Whole sessions: for every thread the durations that the writer is told of nest and are all closed.
use tracey_mctraceface.Base.{
  ℕ, ◌≡◌, refl, sym, ap, ◌∙◌, List, [], ◌∷◌, ◌++◌, none, some, Bytes, arith, Bool-cases, inl, inr,
  map-append, append-nil, subst, Option-cases,
}
use tracey_mctraceface.Event.{Event}
use tracey_mctraceface.Thread.{ThreadInfo, Thread, flush, clear_all_callstacks}
use tracey_mctraceface.Thread.Frames.{clear_all_callstacks-Follows}
use tracey_mctraceface.Thread.Replay.{
  replay, bind_replay, events, Follows, at_rest, replay-append, history-flush,
}
use tracey_mctraceface.Thread.Shape.{clear_all_callstacks_stack}
use tracey_mctraceface.Tracker.{
  ThreadKey, same_key, Threads, Tracker, lookup, get_thread, tagged, process_event, finish_thread,
  finish_threads, finish, run, empty_tracker,
}
use tracey_mctraceface.Tracker.Store.{
  same_key-eq, Unique, writes_of, writes_of-append, writes_of-tagged,
}
use tracey_mctraceface.Tracker.Steps.{process_event-Advances, process_event-Unique}

flush_pending : (to_time : ℕ) (t : Thread) → (flush to_time t).pending_events ≡ []
unfolding flush
flush_pending to_time t = ground arith

flush_info :
    (to_time : ℕ) (t : Thread)
    → ((flush to_time t).callstack ≡ t.callstack)
      × ((flush to_time t).inactive_callstacks ≡ t.inactive_callstacks)
unfolding flush
flush_info to_time t = ground arith

flush-Follows :
    (s : List Bytes) (to_time : ℕ) (t : Thread) → Follows s t → Follows s (flush to_time t)
flush-Follows s to_time t f =
    let (a, b) = flush_info to_time t in
    ap (replay s) (history-flush to_time t) ∙ f ∙ sym (cc (a, b))

-- `finish` leaves a thread with no frame, no inactive stack and nothing pending.
abbrev pub IsClosed : ThreadInfo → Type 0
IsClosed i = (i.callstack.stack ≡ []) × (i.inactive_callstacks ≡ []) × (i.pending_events ≡ [])

finish_thread-IsClosed : (i : ThreadInfo) → IsClosed (finish_thread i).info
unfolding finish_thread
finish_thread-IsClosed i =
    let last = i.last_event_time in
    let t = clear_all_callstacks last (flush last (at_rest i)) in
    let (a, b) = flush_info last t in
    let (x, y) = clear_all_callstacks_stack last (flush last (at_rest i)) in
    (ap (λ c. c.stack) a ∙ x, b ∙ y, flush_pending last t)

finish_thread-Follows :
    (s : List Bytes) (i : ThreadInfo) → Follows s (at_rest i) → Follows s (finish_thread i)
unfolding finish_thread
finish_thread-Follows s i f =
    let last = i.last_event_time in
    flush-Follows s last _
      (clear_all_callstacks-Follows s last _ (flush-Follows s last (at_rest i) f))

finish_thread-closes :
    (s : List Bytes) (i : ThreadInfo)
    → Follows s (at_rest i)
    → replay s (events (finish_thread i).writes) ≡ some []
finish_thread-closes s i f =
    let (a, b, c) = finish_thread-IsClosed i in
    sym (ap (replay s) (ap (λ p. events (finish_thread i).writes ++ p) c ∙ append-nil _))
    ∙ finish_thread-Follows s i f
    ∙ cc (a, b)

writes_of-finish_none :
    (k : ThreadKey) (m : Threads) → lookup k m ≡ none → writes_of k (finish_threads m).1 ≡ []
unfolding lookup finish_threads writes_of
writes_of-finish_none k [] e = refl
writes_of-finish_none k ((j, i) ∷ m) e = elim (Bool-cases (same_key j k)) [
  | inl same ↦ ground arith
  | inr other ↦
      writes_of-append k (tagged j (finish_thread i).writes) (finish_threads m).1
      ∙ rw (writes_of-tagged k j (finish_thread i).writes, other)
          (writes_of-finish_none k m (ground arith))
]

-- The writes of `finish` for a thread are those of its own entry.
writes_of-finish_some :
    (k : ThreadKey) (m : Threads) (i : ThreadInfo)
    → Unique m
    → lookup k m ≡ some i
    → writes_of k (finish_threads m).1 ≡ (finish_thread i).writes
unfolding lookup finish_threads
writes_of-finish_some k [] i u e = cc
writes_of-finish_some k ((j, h) ∷ m) i u e = elim (Bool-cases (same_key j k)) [
  | inl same ↦
      writes_of-append k (tagged j (finish_thread h).writes) (finish_threads m).1
      ∙ rw
          (
            writes_of-tagged k j (finish_thread h).writes,
            same,
            writes_of-finish_none k m (subst (λ x. lookup x m ≡ none) (same_key-eq j k same) u.0),
          )
          (append-nil _ ∙ ap (λ x. (finish_thread x).writes) (ground arith))
  | inr other ↦
      writes_of-append k (tagged j (finish_thread h).writes) (finish_threads m).1
      ∙ rw (writes_of-tagged k j (finish_thread h).writes, other)
          (writes_of-finish_some k m i u.1 (ground arith))
]

finish-closes :
    (k : ThreadKey) (r : Tracker) (s : List Bytes)
    → Unique r.threads
    → Follows s (at_rest (get_thread k r.threads))
    → replay s (events (writes_of k (finish r).1)) ≡ some []
unfolding finish get_thread
finish-closes k r s u f = elim (Option-cases (lookup k r.threads)) [
  | inl e ↦ rw (writes_of-finish_none k r.threads e) (rw (e, get_thread) at f)
  | inr (i, e) ↦
      rw (writes_of-finish_some k r.threads i u e)
        (finish_thread-closes s i (rw (e, get_thread) at f))
]

run-closes :
    (es : List Event) (k : ThreadKey) (r : Tracker) (s : List Bytes)
    → Unique r.threads
    → Follows s (at_rest (get_thread k r.threads))
    → replay s (events (writes_of k (run es r).1)) ≡ some []
unfolding run
run-closes [] k r s u f = finish-closes k r s u f
run-closes (e ∷ es) k r s u f =
    let (r', ws) = process_event e r in
    let (s', x, f') = process_event-Advances e k r s f in
    let rest = run-closes es k r' s' (process_event-Unique e r u) f' in
    ap (λ w. replay s (events w)) (writes_of-append k ws (run es r').1)
    ∙ ap (replay s) (map-append _ (writes_of k ws) _)
    ∙ replay-append s (events (writes_of k ws)) _
    ∙ ap (λ o. bind_replay o (λ n. replay n (events (writes_of k (run es r').1)))) x
    ∙ rest

-- In a whole session, whatever the events are, the begin and end events that the writer is told of
-- for a thread nest: no end closes another duration than the innermost open one, and after `finish`
-- no duration is open.
pub run-balanced :
    (es : List Event) (k : ThreadKey)
    → replay [] (events (writes_of k (run es empty_tracker).1)) ≡ some []
unfolding get_thread lookup replay
run-balanced es k = run-closes es k empty_tracker [] tt refl
