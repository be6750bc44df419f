-- ===== src/Pipeline/Nesting.antt =====
-- The durations in the output of a whole run.
use tracey_mctraceface.Base.{
  ℕ, zero, suc, ◌≡◌, refl, sym, ap, ◌∙◌, List, [], ◌∷◌, ◌++◌, Option, none, some, Bytes,
  if◌then◌else◌, length, Bool, true, false, Bool-cases, inl, inr, arith, ◌==◌,
}
use tracey_mctraceface.Filter.{Config}
use tracey_mctraceface.Thread.{PendingKind, call_event, ret_event, ret_from_untraced}
use tracey_mctraceface.Thread.Replay.{replay, replay_kind, bind_replay, events}
use tracey_mctraceface.Tracker.{ThreadKey, ThreadWrite, same_key, run, empty_tracker}
use tracey_mctraceface.Tracker.Store.{writes_of}
use tracey_mctraceface.Tracker.Balance.{run-balanced}
use tracey_mctraceface.Writer.Soundness.{Mark, marks}
use tracey_mctraceface.Reconstructor.Output.{kind_marks, all_marks}
use tracey_mctraceface.Pipeline.{decode_perf_data}
use tracey_mctraceface.Pipeline.Whole.{session, decode_perf_data-shows}

-- The number of open durations after a begin event (2) or an end event (3): `none` is an end event
-- without an open duration.
abbrev step : ℕ → ℕ → Option ℕ
step event_type n =
    if event_type == 2 then some (suc n) else if event_type == 3 then pop n else some n
  where
    pop : ℕ → Option ℕ
    pop zero = none
    pop (suc n) = some n

abbrev is_of : ThreadKey → Option ThreadKey → Bool
is_of k none = false
is_of k (some j) = same_key j k

abbrev bind_depth : Option ℕ → (ℕ → Option ℕ) → Option ℕ
bind_depth none f = none
bind_depth (some n) f = f n

-- The number of durations of a thread that are open after the events.
abbrev pub depth : ThreadKey → ℕ → List Mark → Option ℕ
depth k n [] = some n
depth k n (m ∷ ms) =
    bind_depth (if is_of k m.thread then step m.event_type n else some n) (λ n'. depth k n' ms)

depth-other :
    (kind : PendingKind) (k j : ThreadKey) (time n : ℕ) (ms : List Mark)
    → same_key j k ≡ false
    → depth k n (kind_marks kind j time ++ ms) ≡ depth k n ms
depth-other (call_event l u) k j time n ms h = rw h refl
depth-other ret_event k j time n ms h = rw h refl
depth-other (ret_from_untraced t) k j time n ms h = rw h refl

depth-own :
    (kind : PendingKind) (name : Bytes) (k j : ThreadKey) (time : ℕ) (s s' : List Bytes)
    (ms : List Mark)
    → same_key j k ≡ true
    → replay_kind kind name s ≡ some s'
    → depth k (length s) (kind_marks kind j time ++ ms) ≡ depth k (length s') ms
depth-own (call_event l u) name k j time s s' ms h r =
    let e : name ∷ s ≡ s' = ground (arith, r) in rw h (ap (λ x. depth k (length x) ms) e)
depth-own ret_event name k j time [] s' ms h r = absurd (ground (arith, r))
depth-own ret_event name k j time (top ∷ s) s' ms h r =
    let e : s ≡ s' = ground (arith, r) in rw h (ap (λ x. depth k (length x) ms) e)
depth-own (ret_from_untraced t) name k j time s s' ms h r =
    let e : s ≡ s' = ground (arith, r) in rw h (ap (λ x. depth k (length x) ms) e)

abbrev map_length : Option (List Bytes) → Option ℕ
map_length none = none
map_length (some x) = some (length x)

bind-some :
    (o : Option (List Bytes)) (f : List Bytes → Option (List Bytes)) (b : List Bytes)
    → bind_replay o f ≡ some b
    → (a : List Bytes) × (o ≡ some a) × (f a ≡ some b)
bind-some none f b h = absurd (ground (arith, h))
bind-some (some a) f b h = (a, refl, h)

writes_of-own :
    (k : ThreadKey) (w : ThreadWrite) (ws : List ThreadWrite)
    → same_key w.key k ≡ true
    → writes_of k (w ∷ ws) ≡ w.write ∷ writes_of k ws
unfolding writes_of
writes_of-own k w ws same = rw same refl

writes_of-other :
    (k : ThreadKey) (w : ThreadWrite) (ws : List ThreadWrite)
    → same_key w.key k ≡ false
    → writes_of k (w ∷ ws) ≡ writes_of k ws
unfolding writes_of
writes_of-other k w ws other = rw other refl

-- Names aside, the replay of the writes of a thread is the count of its open durations.
replay-depth :
    (k : ThreadKey) (s s' : List Bytes) (ws : List ThreadWrite)
    → replay s (events (writes_of k ws)) ≡ some s'
    → depth k (length s) (all_marks ws) ≡ some (length s')
unfolding writes_of replay
replay-depth k s s' [] r = ap map_length r
replay-depth k s s' (w ∷ ws) r = elim (Bool-cases (same_key w.key k)) [
  | inl same ↦
      let (a, first, rest) =
        bind-some (replay_kind w.write.event.kind w.write.event.symbol s)
          (λ x. replay x (events (writes_of k ws))) s'
          (sym (ap (λ l. replay s (events l)) (writes_of-own k w ws same)) ∙ r) in
      depth-own w.write.event.kind w.write.event.symbol k w.key w.write.time s a (all_marks ws) same
        first
      ∙ replay-depth k a s' ws rest
  | inr other ↦
      depth-other w.write.event.kind k w.key w.write.time (length s) (all_marks ws) other
      ∙ replay-depth k s s' ws
          (sym (ap (λ l. replay s (events l)) (writes_of-other k w ws other)) ∙ r)
]

-- Whatever `perf script` prints and whatever the configuration is, in the output of a run the begin and
-- end events of each thread balance: no end event comes without an open duration of its thread, and
-- none is open at the end.
pub decode_perf_data-nests :
    (config : Config) (base_time_ns : ℕ) (lines : List Bytes) (k : ThreadKey)
    → depth k 0 (marks (decode_perf_data config base_time_ns lines).reconstructor.writer) ≡ some 0
decode_perf_data-nests config base_time_ns lines k =
    ap (depth k 0) (decode_perf_data-shows config base_time_ns lines).1
    ∙ replay-depth k [] [] (run (session config lines) empty_tracker).1
        (run-balanced (session config lines) k)
