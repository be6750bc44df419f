-- ===== src/Thread/Sampling.antt =====
-- `process_stacktrace`: the stack becomes the sample, and the frames that agree stay open.
use mathlib.Core.List.{reverse-cons, reverse-reverse}
use tracey_mctraceface.Base.{
  ℕ, ◌-◌, ◌≡◌, refl, sym, ap, ◌∙◌, false, List, [], ◌∷◌, ◌++◌, equal, equal_iff, arith, Bool-cases,
  inl, inr, reverse, length, take, drop, length-append, length-drop, take-append-drop,
  reverse-append, append_assoc, map-append,
}
use tracey_mctraceface.Event.{Location}
use tracey_mctraceface.Thread.{Thread, call, ret_frames}
use tracey_mctraceface.Thread.Branch.{set_last_event_time}
use tracey_mctraceface.Thread.Replay.{symbols}
use tracey_mctraceface.Thread.Shape.{call_stack, ret_frames_stack}
use tracey_mctraceface.Thread.Stacktrace.{match_count, call_frames, process_stacktrace}

module _ {ℓ} {A : Type ℓ} where
  length-reverse : (xs : List A) → length (reverse xs) ≡ length xs
  length-reverse [] = refl
  length-reverse (x ∷ xs) =
      ap length (reverse-cons x xs)
      ∙ length-append (reverse xs) (x ∷ [])
      ∙ omega (arith, length-reverse xs)

  drop-append : (xs ys : List A) → drop (length xs) (xs ++ ys) ≡ ys
  drop-append [] ys = refl
  drop-append (x ∷ xs) ys = drop-append xs ys

  reverse-split : (m : ℕ) (ys : List A) → reverse ys ≡ reverse (drop m ys) ++ reverse (take m ys)
  reverse-split m ys =
      ap reverse (sym (take-append-drop m ys)) ∙ reverse-append (take m ys) (drop m ys)

  -- The last `m` entries of a reversed list are the reverse of its first `m`.
  drop-reverse :
      (m : ℕ) (ys : List A) → drop (length (reverse ys) - m) (reverse ys) ≡ reverse (take m ys)
  drop-reverse m ys =
      ap (λ n. drop n (reverse ys))
        (omega (arith, length-reverse ys, length-reverse (drop m ys), length-drop m ys))
      ∙ ap (drop (length (reverse (drop m ys)))) (reverse-split m ys)
      ∙ drop-append (reverse (drop m ys)) (reverse (take m ys))

  drop-bottom : (m : ℕ) (xs : List A) → drop (length xs - m) xs ≡ reverse (take m (reverse xs))
  drop-bottom m xs =
      ap (λ x. drop (length x - m) x) (sym (reverse-reverse xs)) ∙ drop-reverse m (reverse xs)

symbols-reverse : (ls : List Location) → symbols (reverse ls) ≡ reverse (symbols ls)
symbols-reverse [] = refl
symbols-reverse (l ∷ ls) =
    ap symbols (reverse-cons l ls)
    ∙ map-append _ (reverse ls) (l ∷ [])
    ∙ ap (λ x. x ++ l.symbol ∷ []) (symbols-reverse ls)
    ∙ sym (reverse-cons l.symbol (symbols ls))

match_count-agrees :
    (cs ss : List Location)
    → symbols (take (match_count cs ss) cs) ≡ symbols (take (match_count cs ss) ss)
unfolding match_count
match_count-agrees (c ∷ cs) (s ∷ ss) = elim (Bool-cases (equal c.symbol s.symbol)) [
  | inl same ↦ ground (arith, match_count-agrees cs ss, equal_iff c.symbol s.symbol)
  | inr other ↦ rw other
]
match_count-agrees [] ss = refl
match_count-agrees (c ∷ cs) [] = refl

call_frames_stack :
    (fs : List Location) (time : ℕ) (t : Thread)
    → ((call_frames fs time t).callstack.stack ≡ reverse fs ++ t.callstack.stack)
      × ((call_frames fs time t).inactive_callstacks ≡ t.inactive_callstacks)
unfolding call_frames
call_frames_stack [] time t = (refl, refl)
call_frames_stack (f ∷ fs) time t =
    let (x, y) = call_frames_stack fs time (call time f false t) in
    let (a, _, c) = call_stack time f false t in
    (
      x
          ∙ ap (λ s. reverse fs ++ s) a
          ∙ sym (
              ap (λ s. s ++ t.callstack.stack) (reverse-cons f fs)
              ∙ append_assoc (reverse fs) (f ∷ []) _),
      y ∙ c,
    )

-- New frames above old ones that agree with the sample's make up the sample.
symbols-joined :
    (m : ℕ) (sample old : List Location)
    → symbols old ≡ symbols (take m sample)
    → symbols (reverse (drop m sample) ++ reverse old) ≡ reverse (symbols sample)
symbols-joined m sample old e =
    map-append _ (reverse (drop m sample)) (reverse old)
    ∙ ap (λ x. symbols (reverse (drop m sample)) ++ x)
        (symbols-reverse old ∙ ap reverse e ∙ sym (symbols-reverse (take m sample)))
    ∙ sym (map-append _ (reverse (drop m sample)) (reverse (take m sample)))
    ∙ ap symbols (sym (reverse-split m sample))
    ∙ symbols-reverse sample

-- After a sampled stack trace the frames of the thread are those of the sample, by name, and the
-- stacks that the kernel interrupted are as before.
pub process_stacktrace-symbols :
    (time : ℕ) (sample : List Location) (t : Thread)
    → (symbols (process_stacktrace time sample t).callstack.stack ≡ reverse (symbols sample))
      × ((process_stacktrace time sample t).inactive_callstacks ≡ t.inactive_callstacks)
unfolding process_stacktrace
process_stacktrace-symbols time sample t =
    let current = t.callstack.stack in
    let m = match_count (reverse current) sample in
    let popped = take (length current - m) current in
    let kept = drop (length current - m) current in
    let t' = set_last_event_time time t in
    let (a, b) =
      ret_frames_stack popped kept time t' (sym (take-append-drop (length current - m) current)) in
    let (x, y) = call_frames_stack (drop m sample) time (ret_frames popped time t') in
    (
      ap symbols (x ∙ ap (λ s. reverse (drop m sample) ++ s) (a ∙ drop-bottom m current))
          ∙ symbols-joined m sample (take m (reverse current))
              (match_count-agrees (reverse current) sample),
      y ∙ b,
    )
