-- ===== src/Filter.antt =====
-- lib/trace_filter.cpp: the state machine that cuts slices out of the event stream.
-- `slice_count_` is an `int` in the source; it is unbounded here.
pub mod Steps
pub mod Slices
pub mod Start
use tracey_mctraceface.Base.{
  ℕ, suc, Bool, true, false, not, ◌&&◌, ◌||◌, List, [], ◌∷◌, Bytes, is_empty, starts_with,
  if◌then◌else◌,
}
use tracey_mctraceface.Event.{BranchData, EventData, branch, Event, ok, error}

pub record Config : Type 0 where
  pub start_symbol : Bytes
  pub end_symbol : Bytes
  pub multi_slice : Bool

pub data State : Type 0 where
  waiting recording done : State

pub record TraceFilter : Type 0 where
  pub config : Config
  pub open config use *
  pub state : State
  pub slice_count : ℕ
  pub saw_start : Bool

-- The constructor.
unfoldable pub init : Config → TraceFilter
init config = record {
  config = config;
  state = if is_empty config.start_symbol then recording else waiting;
  slice_count = 0;
  saw_start = false;
}

unfoldable pub symbol_matches : BranchData → Bytes → Bool
symbol_matches br target =
    if is_empty target
    then false
    else starts_with br.src.symbol target || starts_with br.dst.symbol target

abbrev pub matches_start : TraceFilter → BranchData → Bool
matches_start f br = symbol_matches br f.start_symbol

abbrev pub matches_end : TraceFilter → BranchData → Bool
matches_end f br = symbol_matches br f.end_symbol

-- `state_ == State::Recording`
abbrev pub is_recording : State → Bool
is_recording waiting = false
is_recording recording = true
is_recording done = false

-- The `switch` of `should_pass`, on a branch event.
unfoldable pub pass_branch : State → TraceFilter → BranchData → TraceFilter × Bool
pass_branch waiting f br =
    if matches_start f br
    then (record f { saw_start = true; state = recording }, true)
    else (f, false)
pass_branch recording f br =
    if not (is_empty f.end_symbol) && matches_end f br
    then (
      record f {
        slice_count = suc f.slice_count;
        state =
            if f.multi_slice
            then (if is_empty f.start_symbol then recording else waiting)
            else done;
      },
      true,
    )
    else (f, true)
pass_branch done f br = (f, false)

-- On the data of a successfully parsed event.
unfoldable pub pass_payload : EventData → TraceFilter → TraceFilter × Bool
unfolding pass_branch
pass_payload (branch br) f = pass_branch f.state f br
pass_payload _ f = (f, is_recording f.state)

unfoldable pub should_pass : TraceFilter → Event → TraceFilter × Bool
unfolding pass_payload
should_pass f (ok e) = pass_payload e.payload f
should_pass f (error e) = (f, is_recording f.state)

unfoldable pub start_symbol_missing : TraceFilter → Bool
start_symbol_missing f = not (is_empty f.start_symbol) && not f.saw_start

-- A stream of events through the filter: the filter behind it, and the events that pass.
unfoldable pub filter_all : TraceFilter → List Event → TraceFilter × List Event
filter_all f [] = (f, [])
filter_all f (e ∷ es) =
    let (f', keep) = should_pass f e in
    let (f'', kept) = filter_all f' es in (f'', if keep then e ∷ kept else kept)
