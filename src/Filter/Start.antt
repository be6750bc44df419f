-- ===== src/Filter/Start.antt =====
-- The warning that the start symbol was not found.
use tracey_mctraceface.Base.{
  ℕ, ◌≡◌, refl, ap, ◌∙◌, Bool, true, false, not, ◌&&◌, ◌||◌, List, [], ◌∷◌, Bytes, is_empty,
  Bool-cases, inl, inr,
}
use tracey_mctraceface.Event.{
  BranchData, EventData, branch, power, stacktrace, sample, Event, ok, error,
}
use tracey_mctraceface.Filter.{
  Config, State, waiting, recording, done, TraceFilter, init, symbol_matches, pass_branch,
  pass_payload, should_pass, filter_all, start_symbol_missing,
}
use tracey_mctraceface.Filter.Steps.{filter, marks_symbol, should_pass-waiting}

-- Some event of the stream has the symbol.
abbrev pub any_marks : Bytes → List Event → Bool
any_marks target [] = false
any_marks target (e ∷ es) = marks_symbol target e || any_marks target es

-- A filter that has seen its start symbol stays so.
pass_branch-saw :
    (s : State) (f : TraceFilter) (br : BranchData)
    → f.saw_start ≡ true
    → (pass_branch s f br).0.saw_start ≡ true
unfolding pass_branch
pass_branch-saw waiting f br h = elim (Bool-cases (symbol_matches br f.start_symbol)) [
  | inl hit ↦ rw hit refl
  | inr miss ↦ rw miss h
]
pass_branch-saw recording f br h =
    elim (Bool-cases (not (is_empty f.end_symbol) && symbol_matches br f.end_symbol)) [
      | inl hit ↦ rw hit h
      | inr miss ↦ rw miss h
    ]
pass_branch-saw done f br h = h

pass_payload-saw :
    (d : EventData) (f : TraceFilter) → f.saw_start ≡ true → (pass_payload d f).0.saw_start ≡ true
unfolding pass_payload
pass_payload-saw (branch br) f h = pass_branch-saw f.state f br h
pass_payload-saw (power x) f h = h
pass_payload-saw (stacktrace x) f h = h
pass_payload-saw (sample x) f h = h

filter_all-saw :
    (f : TraceFilter) (es : List Event) → f.saw_start ≡ true → (filter_all f es).0.saw_start ≡ true
unfolding filter_all should_pass
filter_all-saw f [] h = h
filter_all-saw f (ok e ∷ es) h =
    filter_all-saw (pass_payload e.payload f).0 es (pass_payload-saw e.payload f h)
filter_all-saw f (error e ∷ es) h = filter_all-saw f es h

module _ (start end : Bytes) (multi : Bool) where
  waiting-saw :
      (n : ℕ) (es : List Event)
      → (filter_all (filter start end multi waiting n false) es).0.saw_start ≡ any_marks start es
  unfolding filter_all
  waiting-saw n [] = refl
  waiting-saw n (e ∷ es) = elim (Bool-cases (marks_symbol start e)) [
    | inl starts ↦
        rw (should_pass-waiting start end multi n false e, starts)
          (filter_all-saw (filter start end multi recording n true) es refl)
    | inr goes ↦ rw (should_pass-waiting start end multi n false e, goes) (waiting-saw n es)
  ]

config-kept : (f : TraceFilter) (es : List Event) → (filter_all f es).0.config ≡ f.config
unfolding filter_all should_pass pass_branch pass_payload
config-kept f [] = refl
config-kept f (ok e ∷ es) = config-kept (pass_payload e.payload f).0 es ∙ payload e.payload f
  where
    pass :
        (s : State) (f : TraceFilter) (br : BranchData) → (pass_branch s f br).0.config ≡ f.config
    pass waiting f br = elim (Bool-cases (symbol_matches br f.start_symbol)) [
      | inl hit ↦ rw hit refl
      | inr miss ↦ rw miss refl
    ]
    pass recording f br =
        elim (Bool-cases (not (is_empty f.end_symbol) && symbol_matches br f.end_symbol)) [
          | inl hit ↦ rw hit refl
          | inr miss ↦ rw miss refl
        ]
    pass done f br = refl

    payload : (d : EventData) (f : TraceFilter) → (pass_payload d f).0.config ≡ f.config
    payload (branch br) f = pass f.state f br
    payload (power x) f = refl
    payload (stacktrace x) f = refl
    payload (sample x) f = refl
config-kept f (error e ∷ es) = config-kept f es

-- After any stream of events, the start symbol is reported missing just when one was asked for and no
-- branch event of the stream has it in front of the symbol of either end.
pub start_symbol_missing_iff :
    (c : Config) (es : List Event)
    → start_symbol_missing (filter_all (init c) es).0
      ≡ not (is_empty c.start_symbol) && not (any_marks c.start_symbol es)
unfolding start_symbol_missing init
start_symbol_missing_iff c es =
    ap (λ (k : Config). not (is_empty k.start_symbol) && not (filter_all (init c) es).0.saw_start)
      (config-kept (init c) es)
    ∙ go c.start_symbol c.end_symbol c.multi_slice
  where
    go :
        (start end : Bytes) (multi : Bool)
        → let c : Config = record { start_symbol = start; end_symbol = end; multi_slice = multi } in
          not (is_empty start) && not (filter_all (init c) es).0.saw_start
          ≡ not (is_empty start) && not (any_marks start es)
    go [] end multi = refl
    go (x ∷ start) end multi = ap not (waiting-saw (x ∷ start) end multi 0 es)
