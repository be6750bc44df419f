-- ===== src/Thread/Replay.antt =====
-- A replay of begin and end events, and the events of a thread: those written and those pending.
use tracey_mctraceface.Base.{
  ℕ, ◌≡◌, refl, sym, ap, ◌∙◌, Bool, true, false, List, [], ◌∷◌, ◌++◌, map, suc, ◌+◌, ◌-◌, Option,
  none, some, Bytes, equal, if◌then◌else◌, append_assoc, append-nil, map-append, Bool-cases, inl,
  inr,
}
use tracey_mctraceface.Event.{Location}
use tracey_mctraceface.Thread.{
  PendingKind, call_event, ret_event, ret_from_untraced, PendingEvent, Callstack, ThreadInfo, Write,
  Thread, no_events, is_call, add64, ns_share, distribute, flushed, flush, queue_event, add_event,
}

-- A viewer's stack of open durations, by name. `ret_from_untraced` is written as a whole duration.
abbrev pub replay_kind : PendingKind → Bytes → List Bytes → Option (List Bytes)
replay_kind (call_event l u) name open_names = some (name ∷ open_names)
replay_kind ret_event name [] = none
replay_kind ret_event name (top ∷ open_names) = if equal top name then some open_names else none
replay_kind (ret_from_untraced t) name open_names = some open_names

abbrev pub bind_replay :
    Option (List Bytes) → (List Bytes → Option (List Bytes)) → Option (List Bytes)
bind_replay none f = none
bind_replay (some s) f = f s

unfoldable pub replay : List Bytes → List PendingEvent → Option (List Bytes)
replay s [] = some s
replay s (ev ∷ evs) = bind_replay (replay_kind ev.kind ev.symbol s) (λ s'. replay s' evs)

abbrev pub symbols : List Location → List Bytes
symbols = map (λ l. l.symbol)

abbrev pub inactive_frames : List Callstack → List Bytes
inactive_frames [] = []
inactive_frames (c ∷ cs) = symbols c.stack ++ inactive_frames cs

-- The names of all frames, the innermost first.
abbrev pub frames : ThreadInfo → List Bytes
frames i = symbols i.callstack.stack ++ inactive_frames i.inactive_callstacks

abbrev pub events : List Write → List PendingEvent
events = map (λ w. w.event)

abbrev pub history : Thread → List PendingEvent
history t = events t.writes ++ t.pending_events

abbrev pub Follows : List Bytes → Thread → Type 0
Follows s t = replay s (history t) ≡ some (frames t.info)

bind_replay_assoc :
    (r : Option (List Bytes)) (f g : List Bytes → Option (List Bytes))
    → {h : List Bytes → Option (List Bytes)} → ((s : List Bytes) → h s ≡ bind_replay (f s) g)
    → bind_replay r h ≡ bind_replay (bind_replay r f) g
bind_replay_assoc none f g e = refl
bind_replay_assoc (some s) f g e = e s

pub replay-append :
    (s : List Bytes) (xs ys : List PendingEvent)
    → replay s (xs ++ ys) ≡ bind_replay (replay s xs) (λ s'. replay s' ys)
unfolding replay
replay-append s [] ys = refl
replay-append s (x ∷ xs) ys =
    bind_replay_assoc (replay_kind x.kind x.symbol s) (λ s'. replay s' xs) (λ s'. replay s' ys)
      (λ s'. replay-append s' xs ys)

events-distribute :
    (begin total consumers consumed offset : ℕ) (evs : List PendingEvent)
    → events (distribute begin total consumers consumed offset evs) ≡ evs
unfolding distribute
events-distribute begin total consumers consumed offset [] = refl
events-distribute begin total consumers consumed offset (ev ∷ evs) = ap (◌∷◌ ev) (
    events-distribute begin total consumers (if is_call ev then suc consumed else consumed)
      (add64 offset (
        if is_call ev
        then ns_share total offset (consumers + 1 - (if is_call ev then suc consumed else consumed))
        else 0))
      evs)

pub events-flushed : (to_time : ℕ) (i : ThreadInfo) → events (flushed to_time i) ≡ i.pending_events
unfolding flushed
events-flushed to_time i = events-distribute _ _ _ _ _ i.pending_events

pub history-flush : (to_time : ℕ) (t : Thread) → history (flush to_time t) ≡ history t
unfolding flush
history-flush to_time t = elim (Bool-cases (no_events t.pending_events)) [
  | inl e ↦ rw e
  | inr e ↦ rw e (simp (map-append, events-flushed, append-nil))
]

history-queue_event :
    (time : ℕ) (ev : PendingEvent) (t : Thread)
    → history (queue_event time ev t) ≡ history t ++ ev ∷ []
unfolding queue_event
history-queue_event time ev t = sym (append_assoc (events t.writes) t.pending_events (ev ∷ []))

history-flush_if :
    (b : Bool) (time : ℕ) (t : Thread) → history (if b then flush time t else t) ≡ history t
history-flush_if true time t = history-flush time t
history-flush_if false time t = refl

pub history-add_event :
    (time : ℕ) (ev : PendingEvent) (t : Thread)
    → history (add_event time ev t) ≡ history t ++ ev ∷ []
unfolding add_event
history-add_event time ev t =
    history-queue_event time ev _ ∙ ap (λ h. h ++ ev ∷ []) (history-flush_if _ time t)

-- A thread with nothing written since it was looked up.
abbrev pub at_rest : ThreadInfo → Thread
at_rest i = record { info = i; writes = [] }

bind_replay-eq-some :
    (r : Option (List Bytes)) (f : List Bytes → Option (List Bytes)) {s : List Bytes}
    → bind_replay r f ≡ some s
    → (s' : List Bytes) × (r ≡ some s') × (f s' ≡ some s)
bind_replay-eq-some none f h = cc
bind_replay-eq-some (some s') f h = (s', refl, h)

-- The written events lead to names from which the pending ones go on.
pub Follows-split :
    (s : List Bytes) (t : Thread)
    → Follows s t
    → (s' : List Bytes) × (replay s (events t.writes) ≡ some s') × Follows s' (at_rest t.info)
Follows-split s t f =
    bind_replay-eq-some (replay s (events t.writes)) (λ s'. replay s' t.pending_events)
      (sym (replay-append s (events t.writes) t.pending_events) ∙ f)
