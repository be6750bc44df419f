-- ===== src/Filter/Slices.antt =====
-- The events that the filter passes, described by slices of the stream.
use tracey_mctraceface.Base.{
  ℕ, zero, suc, ◌≤◌, ◌≡◌, refl, sym, ap, ◌∙◌, Bool, true, false, List, [], ◌∷◌, ◌++◌, append-nil,
  Bytes, is_empty, if◌then◌else◌, length, arith, Bool-cases, inl, inr,
}
use tracey_mctraceface.Event.{Event}
use tracey_mctraceface.Filter.{Config, waiting, recording, done, TraceFilter, init, filter_all}
use tracey_mctraceface.Filter.Steps.{
  filter, marks_symbol, should_pass-recording, should_pass-waiting, should_pass-done,
}

abbrev pub skip_to : (Event → Bool) → List Event → List Event
skip_to p [] = []
skip_to p (e ∷ es) = if p e then e ∷ es else skip_to p es

-- The stream up to the first event that `p` holds of, and with it, and the rest.
abbrev pub through : (Event → Bool) → List Event → List Event
through p [] = []
through p (e ∷ es) = e ∷ (if p e then [] else through p es)

abbrev pub behind : (Event → Bool) → List Event → List Event
behind p [] = []
behind p (e ∷ es) = if p e then es else behind p es

-- The slices one after another: each from an event of the start symbol, through the next event of the
-- end symbol behind that; where `multi` is false, only the first.
abbrev pub slices : ℕ → Bytes → Bytes → Bool → List Event → List Event
slices zero start end multi es = []
slices (suc n) start end multi es = elim (skip_to (marks_symbol start) es) [
  | [] ↦ []
  | e ∷ rest ↦
      e ∷ through (marks_symbol end) rest
      ++ (if multi then slices n start end multi (behind (marks_symbol end) rest) else [])
]

abbrev pub expected : Config → List Event → List Event
expected c es =
    if is_empty c.start_symbol
    then (if c.multi_slice then es else through (marks_symbol c.end_symbol) es)
    else slices (length es) c.start_symbol c.end_symbol c.multi_slice es

abbrev kept : TraceFilter → List Event → List Event
kept f es = (filter_all f es).1

module _ (start end : Bytes) where
  kept-done :
      (m : Bool) (n : ℕ) (b : Bool) (es : List Event) → kept (filter start end m done n b) es ≡ []
  unfolding filter_all
  kept-done m n b [] = refl
  kept-done m n b (e ∷ es) = rw (should_pass-done start end m n b e) (kept-done m n b es)

  -- Without a start symbol, and slice after slice, nothing is dropped.
  kept-unbounded :
      (n : ℕ) (b : Bool) (es : List Event)
      → is_empty start ≡ true
      → kept (filter start end true recording n b) es ≡ es
  unfolding filter_all
  kept-unbounded n b [] s = refl
  kept-unbounded n b (e ∷ es) s = elim (Bool-cases (marks_symbol end e)) [
    | inl ends ↦
        rw (should_pass-recording start end true n b e, ends, s)
          (ap (◌∷◌ e) (kept-unbounded (suc n) b es s))
    | inr goes ↦
        rw (should_pass-recording start end true n b e, goes) (ap (◌∷◌ e) (kept-unbounded n b es s))
  ]

  abbrev Waits : Bool → ℕ → Type 0
  Waits multi m =
      (n : ℕ) (b : Bool) (es : List Event)
      → length es ≤ m
      → kept (filter start end multi waiting n b) es ≡ slices m start end multi es

  -- A slice that has begun goes on through its end.
  kept-single :
      (n : ℕ) (b : Bool) (es : List Event)
      → kept (filter start end false recording n b) es ≡ through (marks_symbol end) es
  unfolding filter_all
  kept-single n b [] = refl
  kept-single n b (e ∷ es) = elim (Bool-cases (marks_symbol end e)) [
    | inl ends ↦
        rw (should_pass-recording start end false n b e, ends)
          (ap (◌∷◌ e) (kept-done false (suc n) b es))
    | inr goes ↦
        rw (should_pass-recording start end false n b e, goes) (ap (◌∷◌ e) (kept-single n b es))
  ]

  kept-multi :
      (m n : ℕ) (b : Bool) (es : List Event)
      → is_empty start ≡ false
      → Waits true m
      → length es ≤ m
      → kept (filter start end true recording n b) es
        ≡ through (marks_symbol end) es ++ slices m start end true (behind (marks_symbol end) es)
  unfolding filter_all
  kept-multi m n b [] s waits short = waits n b [] short
  kept-multi m n b (e ∷ es) s waits short = elim (Bool-cases (marks_symbol end e)) [
    | inl ends ↦
        rw (should_pass-recording start end true n b e, ends, s)
          (ap (◌∷◌ e) (waits (suc n) b es (omega (arith, short))))
    | inr goes ↦
        rw (should_pass-recording start end true n b e, goes)
          (ap (◌∷◌ e) (kept-multi m n b es s waits (omega (arith, short))))
  ]

  kept-recording :
      (multi : Bool) (m n : ℕ) (b : Bool) (es : List Event)
      → is_empty start ≡ false
      → Waits multi m
      → length es ≤ m
      → kept (filter start end multi recording n b) es
        ≡ through (marks_symbol end) es
          ++ (if multi then slices m start end multi (behind (marks_symbol end) es) else [])
  kept-recording true m n b es s waits short = kept-multi m n b es s waits short
  kept-recording false m n b es s waits short = kept-single n b es ∙ sym (append-nil _)

  slices-start :
      (multi : Bool) (m : ℕ) (e : Event) (es : List Event)
      → marks_symbol start e ≡ true
      → slices (suc m) start end multi (e ∷ es)
        ≡ e ∷ through (marks_symbol end) es
          ++ (if multi then slices m start end multi (behind (marks_symbol end) es) else [])
  slices-start multi m e es starts = rw (slices, starts) refl

  slices-skip :
      (multi : Bool) (m : ℕ) (e : Event) (es : List Event)
      → marks_symbol start e ≡ false
      → slices (suc m) start end multi (e ∷ es) ≡ slices (suc m) start end multi es
  slices-skip multi m e es other = rw (slices, other) refl

  kept-waiting : (multi : Bool) (m : ℕ) → is_empty start ≡ false → Waits multi m
  unfolding filter_all
  kept-waiting multi zero s n b [] short = refl
  kept-waiting multi zero s n b (e ∷ es) short = absurd (omega (arith, short))
  kept-waiting multi (suc m) s n b [] short = refl
  kept-waiting multi (suc m) s n b (e ∷ es) short = elim (Bool-cases (marks_symbol start e)) [
    | inl starts ↦
        rw (should_pass-waiting start end multi n b e, starts)
          (ap (◌∷◌ e)
            (kept-recording multi m n true es s (kept-waiting multi m s) (omega (arith, short))))
        ∙ sym (slices-start multi m e es starts)
    | inr goes ↦
        rw (should_pass-waiting start end multi n b e, goes)
          (kept-waiting multi (suc m) s n b es (omega (arith, short)))
        ∙ sym (slices-skip multi m e es goes)
  ]

-- Over any stream of events, the filter passes exactly the expected ones. With a start symbol: the
-- first event of that symbol and all behind it through the next event of the end symbol, and, where
-- several slices are wanted, the same again from the rest. Without one: everything through the first
-- event of the end symbol, or everything where several slices are wanted.
pub filter_all-slices : (c : Config) (es : List Event) → (filter_all (init c) es).1 ≡ expected c es
unfolding init
filter_all-slices c es = go c.start_symbol c.end_symbol c.multi_slice es
  where
    go :
        (start end : Bytes) (multi : Bool) (es : List Event)
        → let c : Config = record { start_symbol = start; end_symbol = end; multi_slice = multi } in
          kept (init c) es ≡ expected c es
    go [] end true es = kept-unbounded [] end 0 false es refl
    go [] end false es = kept-single [] end 0 false es
    go (x ∷ start) end multi es =
        kept-waiting (x ∷ start) end multi (length es) refl 0 false es (omega arith)
