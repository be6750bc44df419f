-- ===== src/Thread/Timing.antt =====
-- How `flush` spreads the time since the pending events over them.
use tracey_mctraceface.Base.{
  ℕ, zero, suc, ◌+◌, ◌-◌, ◌*◌, ◌/◌, ◌≤◌, ◌<◌, ◌≡◌, refl, ◌∙◌, Bool, true, false, List, [], ◌∷◌,
  arith, if◌then◌else◌, ltb, Bool-cases, ◌⊎◌, inl, inr, subst, lt→ltb,
}
use native.Mathlib.Nat.{div-add-mod, mod-lt, add-zero, zero-div}
use tracey_mctraceface.Thread.{
  u64, add64, sub64, PendingEvent, ThreadInfo, Write, is_call, time_consumers, ns_share, distribute,
  total_ns, flushed,
}

-- The share of the next call, `⌊rest / (n + 1)⌋`, where `rest` lies between `q` and `q + 1` a call.
share_bounds :
    (q n rest : ℕ)
    → q * suc n ≤ rest
    → rest ≤ suc q * suc n
    → (q ≤ rest / suc n) × (rest / suc n ≤ suc q)
share_bounds q n rest lo hi = (grind arith, grind arith)

-- The bounds hold again for what is left after the share is taken.
share_rest :
    (q n rest : ℕ)
    → q * suc n ≤ rest
    → rest ≤ suc q * suc n
    → (rest / suc n ≤ rest) × (q * n ≤ rest - rest / suc n) × (rest - rest / suc n ≤ suc q * n)
share_rest q n rest lo hi =
    let (a, b) = share_bounds q n rest lo hi in
    (grind arith, grind arith, grind (arith, div-add-mod rest (suc n), mod-lt rest {m = suc n}))

-- The time of the first write, or `last` if there is none.
abbrev pub first_time : ℕ → List Write → ℕ
first_time last [] = last
first_time last (w ∷ ws) = w.time

-- From one event to the next, and from the last one to the time `last`, a call takes `q` or `q + 1`
-- nanoseconds and any other event takes none.
abbrev pub IsSpaced : ℕ → ℕ → List Write → Type 0
IsSpaced q last [] = Unit {0}
IsSpaced q last (w ∷ ws) =
    (if is_call w.event
      then (w.time + q ≤ first_time last ws) × (first_time last ws ≤ w.time + suc q)
      else (first_time last ws ≡ w.time))
    × IsSpaced q last ws

sub_sub : (a b c : ℕ) → a - b - c ≡ a - (b + c)
sub_sub a b c = omega arith

not_ltb : (a b : ℕ) → b ≤ a → ltb a b ≡ false
not_ltb a b h = ground arith

sum_back : (a b : ℕ) → a ≤ b → a + (b - a) ≡ b
sum_back a b h = omega arith

add64-eq : (a b : ℕ) → a + b < u64 → add64 a b ≡ a + b
add64-eq a b h = omega arith

sub64-eq : (a b : ℕ) → a < u64 → b ≤ a → sub64 a b ≡ a - b
sub64-eq a b h k = omega arith

-- Without a wrap, the share is the quotient of what is left.
ns_share-div :
    (total offset n : ℕ)
    → total < u64
    → offset ≤ total
    → ns_share total offset (suc n) ≡ (total - offset) / suc n
unfolding ns_share
ns_share-div total offset n fit within =
    rw (lt→ltb 0 (suc n) (omega arith), sub64-eq total offset fit within)

distribute-IsSpaced :
    (begin total consumers consumed offset q : ℕ) (evs : List PendingEvent)
    → begin + total < u64
    → offset ≤ total
    → consumed + time_consumers evs ≡ consumers
    → q * time_consumers evs ≤ total - offset
    → total - offset ≤ suc q * time_consumers evs
    → let ws = distribute begin total consumers consumed offset evs in
      (first_time (begin + total) ws ≡ begin + offset) × IsSpaced q (begin + total) ws
unfolding distribute time_consumers
distribute-IsSpaced begin total consumers consumed offset q [] fit within count lo hi =
    (omega arith, tt)
distribute-IsSpaced begin total consumers consumed offset q (ev ∷ evs) fit within count lo hi =
    elim (Bool-cases (is_call ev)) [
      | inl is ↦
          let n = time_consumers evs in
          let share = (total - offset) / suc n in
          let n_eq : time_consumers (ev ∷ evs) ≡ suc n = rw is (omega arith) in
          let lo' : q * suc n ≤ total - offset = subst (λ x. q * x ≤ total - offset) n_eq lo in
          let hi' : total - offset ≤ suc q * suc n =
            subst (λ x. total - offset ≤ suc q * x) n_eq hi in
          let (a, b) = share_bounds q n (total - offset) lo' hi' in
          let (c, d, e) = share_rest q n (total - offset) lo' hi' in
          let rem : consumers + 1 - suc consumed ≡ suc n = omega (arith, n_eq) in
          let (first, spaced) =
            distribute-IsSpaced begin total consumers (suc consumed) (offset + share) q evs fit
              (omega arith) (omega (arith, n_eq)) (rw (sub_sub total offset _) at d)
              (rw (sub_sub total offset _) at e) in
          rw
            (
              is,
              rem,
              ns_share-div total offset n (omega arith) within,
              add64-eq offset share (omega arith),
              add64-eq begin offset (omega arith),
            )
            (refl, ((omega arith, omega arith), spaced))
      | inr isnt ↦
          let n_eq : time_consumers (ev ∷ evs) ≡ time_consumers evs = rw isnt (omega arith) in
          let (first, spaced) =
            distribute-IsSpaced begin total consumers consumed offset q evs fit within
              (omega (arith, n_eq)) (subst (λ x. q * x ≤ total - offset) n_eq lo)
              (subst (λ x. total - offset ≤ suc q * x) n_eq hi) in
          rw
            (
              isnt,
              add64-eq offset 0 (omega arith),
              add64-eq begin offset (omega arith),
              add-zero offset,
            )
            (refl, (first, spaced))
    ]

total_ns-eq :
    (to_time pending_time : ℕ)
    → to_time < u64
    → pending_time ≤ to_time
    → total_ns to_time pending_time ≡ to_time - pending_time
unfolding total_ns
total_ns-eq to_time pending_time h k = ground arith

-- When at least one call is pending and time does not run backwards, `flush` spreads the whole time
-- from `pending_time` to `to_time` over the calls, as evenly as whole nanoseconds allow: each call
-- takes the quotient or one more, any other event takes no time, and an event behind the last call
-- gets exactly `to_time`.
pub flushed-IsSpaced :
    (to_time : ℕ) (i : ThreadInfo) {n : ℕ}
    → to_time < u64
    → i.pending_time ≤ to_time
    → time_consumers i.pending_events ≡ suc n
    → (first_time to_time (flushed to_time i) ≡ i.pending_time)
      × IsSpaced ((to_time - i.pending_time) / suc n) to_time (flushed to_time i)
unfolding flushed
flushed-IsSpaced to_time i {n} fit order calls =
    let total = to_time - i.pending_time in
    let q = total / suc n in
    let spread =
      distribute-IsSpaced i.pending_time total (time_consumers i.pending_events) 0 0 q
        i.pending_events (omega arith) (omega arith) (omega arith) (rw calls (grind arith))
        (rw calls (grind (arith, div-add-mod total (suc n), mod-lt total {m = suc n}))) in
    rw (total_ns-eq to_time i.pending_time fit order) (
      subst
        (λ x.
          (first_time x (
              distribute i.pending_time total (time_consumers i.pending_events) 0 0
                i.pending_events)
            ≡ i.pending_time)
          × IsSpaced q x (
              distribute i.pending_time total (time_consumers i.pending_events) 0 0
                i.pending_events))
        (sum_back i.pending_time to_time order) (spread.0 ∙ add-zero i.pending_time, spread.1))

-- When no call is pending, or `to_time` is not past `pending_time`, no event moves.
abbrev pub IsAt : ℕ → List Write → Type 0
IsAt time [] = Unit {0}
IsAt time (w ∷ ws) = (w.time ≡ time) × IsAt time ws

distribute-IsAt_no_calls :
    (begin total consumers consumed : ℕ) (evs : List PendingEvent)
    → begin < u64
    → time_consumers evs ≡ 0
    → IsAt begin (distribute begin total consumers consumed 0 evs)
unfolding distribute time_consumers
distribute-IsAt_no_calls begin total consumers consumed [] fit none_left = tt
distribute-IsAt_no_calls begin total consumers consumed (ev ∷ evs) fit none_left =
    elim (Bool-cases (is_call ev)) [
      | inl is ↦ absurd (omega (arith, rw is at none_left))
      | inr isnt ↦ rw isnt (
        omega arith,
        distribute-IsAt_no_calls begin total consumers consumed evs fit
            (omega (arith, rw isnt at none_left)),
      )
    ]

share_zero : (b : Bool) (remaining : ℕ) → add64 0 (if b then ns_share 0 0 remaining else 0) ≡ 0
unfolding ns_share
share_zero true zero = refl
share_zero true (suc n) = rw (lt→ltb 0 (suc n) (omega arith), zero-div (suc n))
share_zero false n = refl

distribute-IsAt_no_time :
    (begin consumers consumed : ℕ) (evs : List PendingEvent)
    → begin < u64
    → IsAt begin (distribute begin 0 consumers consumed 0 evs)
unfolding distribute
distribute-IsAt_no_time begin consumers consumed [] fit = tt
distribute-IsAt_no_time begin consumers consumed (ev ∷ evs) fit =
    rw (share_zero (is_call ev) _) (omega arith, distribute-IsAt_no_time begin consumers _ evs fit)

-- Where nothing is to be spread, because no call is pending or `to_time` is not past `pending_time`,
-- every pending event is written at `pending_time`.
pub flushed-IsAt :
    (to_time : ℕ) (i : ThreadInfo)
    → i.pending_time < u64
    → (time_consumers i.pending_events ≡ 0) ⊎ (to_time ≤ i.pending_time)
    → IsAt i.pending_time (flushed to_time i)
unfolding flushed total_ns
flushed-IsAt to_time i fit (inl e) =
    distribute-IsAt_no_calls i.pending_time _ _ 0 i.pending_events fit e
flushed-IsAt to_time i fit (inr h) =
    rw (not_ltb i.pending_time to_time h)
      (distribute-IsAt_no_time i.pending_time _ 0 i.pending_events fit)
