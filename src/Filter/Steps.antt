-- ===== src/Filter/Steps.antt =====
-- lib/trace_filter.cpp: what `should_pass` does in each state.
use tracey_mctraceface.Base.{
  ℕ, suc, ◌≡◌, refl, Bool, true, false, not, ◌&&◌, [], ◌∷◌, Bytes, is_empty, if◌then◌else◌,
}
use tracey_mctraceface.Event.{
  BranchData, EventData, branch, power, stacktrace, sample, Event, ok, error,
}
use tracey_mctraceface.Filter.{
  State, waiting, recording, done, TraceFilter, symbol_matches, pass_branch, pass_payload,
  should_pass,
}

-- A branch event with `target` in front of the symbol of one of its ends.
abbrev payload_marks : Bytes → EventData → Bool
payload_marks target (branch br) = symbol_matches br target
payload_marks target _ = false

abbrev pub marks_symbol : Bytes → Event → Bool
marks_symbol target (ok e) = payload_marks target e.payload
marks_symbol target (error e) = false

module _ (start end : Bytes) where
  abbrev pub filter : Bool → State → ℕ → Bool → TraceFilter
  filter multi s n b = record {
    config = record { start_symbol = start; end_symbol = end; multi_slice = multi };
    state = s;
    slice_count = n;
    saw_start = b;
  }

  abbrev pub after_end : Bool → State
  after_end multi = if multi then (if is_empty start then recording else waiting) else done

  end_test :
      (br : BranchData) (t : Bytes) → not (is_empty t) && symbol_matches br t ≡ symbol_matches br t
  unfolding symbol_matches
  end_test br [] = refl
  end_test br (c ∷ t) = refl

  module _ (multi : Bool) (n : ℕ) (b : Bool) where
    payload-recording :
        (d : EventData)
        → pass_payload d (filter multi recording n b) ≡ (
            if payload_marks end d
            then (filter multi (after_end multi) (suc n) b, true)
            else (filter multi recording n b, true))
    unfolding pass_payload pass_branch
    payload-recording (branch br) = rw (end_test br end) refl
    payload-recording (power x) = refl
    payload-recording (stacktrace x) = refl
    payload-recording (sample x) = refl

    pub should_pass-recording :
        (e : Event)
        → should_pass (filter multi recording n b) e ≡ (
            if marks_symbol end e
            then (filter multi (after_end multi) (suc n) b, true)
            else (filter multi recording n b, true))
    unfolding should_pass
    should_pass-recording (ok e) = payload-recording e.payload
    should_pass-recording (error e) = refl

    payload-waiting :
        (d : EventData)
        → pass_payload d (filter multi waiting n b) ≡ (
            if payload_marks start d
            then (filter multi recording n true, true)
            else (filter multi waiting n b, false))
    unfolding pass_payload pass_branch
    payload-waiting (branch br) = refl
    payload-waiting (power x) = refl
    payload-waiting (stacktrace x) = refl
    payload-waiting (sample x) = refl

    pub should_pass-waiting :
        (e : Event)
        → should_pass (filter multi waiting n b) e ≡ (
            if marks_symbol start e
            then (filter multi recording n true, true)
            else (filter multi waiting n b, false))
    unfolding should_pass
    should_pass-waiting (ok e) = payload-waiting e.payload
    should_pass-waiting (error e) = refl

    payload-done :
        (d : EventData) → pass_payload d (filter multi done n b) ≡ (filter multi done n b, false)
    unfolding pass_payload pass_branch
    payload-done (branch br) = refl
    payload-done (power x) = refl
    payload-done (stacktrace x) = refl
    payload-done (sample x) = refl

    pub should_pass-done :
        (e : Event) → should_pass (filter multi done n b) e ≡ (filter multi done n b, false)
    unfolding should_pass
    should_pass-done (ok e) = payload-done e.payload
    should_pass-done (error e) = refl
