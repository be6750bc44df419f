-- ===== src/Thread/Frames.antt =====
-- The operations on the call stacks of a thread keep its events in step with its frames.
use tracey_mctraceface.Base.{
  ℕ, ◌≡◌, refl, sym, ap, ◌∙◌, Bool, true, false, List, [], ◌∷◌, some, Bytes, equal, equal_refl,
  arith, Bool-cases, inl, inr,
}
use tracey_mctraceface.Event.{Location}
use tracey_mctraceface.Thread.{
  call_event, ret_event, ret_from_untraced, PendingEvent, Callstack, Thread, unknown_symbol,
  set_stack, add_event, call, ret_on, ret, check_on, check_current_symbol, ret_frames,
  clear_callstack, clear_inactive, clear_all_callstacks,
}
use tracey_mctraceface.Thread.Replay.{
  replay_kind, bind_replay, replay, frames, history, Follows, replay-append, history-add_event,
}
use tracey_mctraceface.Thread.Shape.{frames-add_event, clear_callstack_stack}

-- An event that takes the open frames from those before to those after keeps the thread in step.
Follows-add_event :
    (s : List Bytes) (time : ℕ) (ev : PendingEvent) (t : Thread) (u : Thread)
    → history u ≡ history (add_event time ev t)
    → replay_kind ev.kind ev.symbol (frames t.info) ≡ some (frames u.info)
    → Follows s t
    → Follows s u
unfolding replay
Follows-add_event s time ev t u same e f =
    ap (replay s) (same ∙ history-add_event time ev t)
    ∙ replay-append s (history t) (ev ∷ [])
    ∙ ap (λ r. bind_replay r (λ s'. replay s' (ev ∷ []))) f
    ∙ ap (λ r. bind_replay r (λ s'. some s')) e

pub call-Follows :
    (s : List Bytes) (time : ℕ) (loc : Location) (u : Bool) (t : Thread)
    → Follows s t
    → Follows s (call time loc u t)
unfolding call set_stack
call-Follows s time loc u t =
    let ev : PendingEvent = record { symbol = loc.symbol; kind = call_event loc u } in
    let (a, b) = frames-add_event time ev t in
    Follows-add_event s time ev t (call time loc u t) refl (cc (a, b))

ret_on-Follows :
    (s : List Bytes) (stack : List Location) (time : ℕ) (t : Thread)
    → t.callstack.stack ≡ stack
    → Follows s t
    → Follows s (ret_on stack time t)
unfolding ret_on set_stack
ret_on-Follows s (top ∷ rest) time t e =
    let ev : PendingEvent = record { symbol = top.symbol; kind = ret_event } in
    let (a, b) = frames-add_event time ev t in
    Follows-add_event s time ev t (set_stack rest (add_event time ev t)) refl
      (ground (arith, a, b, equal_refl top.symbol))
ret_on-Follows s [] time t e =
    let ev : PendingEvent = record {
      symbol = unknown_symbol;
      kind = ret_from_untraced t.callstack.create_time;
    } in
    let (a, b) = frames-add_event time ev t in
    Follows-add_event s time ev t (add_event time ev t) refl (cc (a, b))

pub ret-Follows : (s : List Bytes) (time : ℕ) (t : Thread) → Follows s t → Follows s (ret time t)
unfolding ret
ret-Follows s time t = ret_on-Follows s t.callstack.stack time t refl

check_on-Follows :
    (s : List Bytes) (stack : List Location) (time : ℕ) (loc : Location) (t : Thread)
    → Follows s t
    → Follows s (check_on stack time loc t)
unfolding check_on
check_on-Follows s [] time loc t f = call-Follows s t.callstack.create_time loc true t f
check_on-Follows s (top ∷ rest) time loc t f = elim (Bool-cases (equal top.symbol loc.symbol)) [
  | inl same ↦ rw same f
  | inr other ↦ rw other (call-Follows s time loc false (ret time t) (ret-Follows s time t f))
]

pub check_current_symbol-Follows :
    (s : List Bytes) (time : ℕ) (loc : Location) (t : Thread)
    → Follows s t
    → Follows s (check_current_symbol time loc t)
unfolding check_current_symbol
check_current_symbol-Follows s time loc t = check_on-Follows s t.callstack.stack time loc t

pub ret_frames-Follows :
    (s : List Bytes) (fs : List Location) (time : ℕ) (t : Thread)
    → Follows s t
    → Follows s (ret_frames fs time t)
unfolding ret_frames
ret_frames-Follows s [] time t f = f
ret_frames-Follows s (l ∷ fs) time t f =
    ret_frames-Follows s fs time (ret time t) (ret-Follows s time t f)

pub clear_callstack-Follows :
    (s : List Bytes) (time : ℕ) (t : Thread) → Follows s t → Follows s (clear_callstack time t)
unfolding clear_callstack
clear_callstack-Follows s time t = ret_frames-Follows s t.callstack.stack time t

-- A thread with the same events and the same open frames.
Follows-same :
    (s : List Bytes) (t u : Thread)
    → history u ≡ history t
    → frames u.info ≡ frames t.info
    → Follows s t
    → Follows s u
Follows-same s t u h e f = ap (replay s) h ∙ f ∙ sym (ap some e)

-- An inactive stack becomes the current one once the current one is empty.
pub restore-Follows :
    (s : List Bytes) (c : Callstack) (cs : List Callstack) (t : Thread)
    → t.inactive_callstacks ≡ c ∷ cs
    → t.callstack.stack ≡ []
    → Follows s t
    → Follows s (record t { info = record t.info { callstack = c; inactive_callstacks = cs } })
restore-Follows s c cs t e n =
    Follows-same s t (record t { info = record t.info { callstack = c; inactive_callstacks = cs } })
      refl (cc (e, n))

clear_inactive-Follows :
    (s : List Bytes) (cs : List Callstack) (time : ℕ) (t : Thread)
    → t.inactive_callstacks ≡ cs
    → t.callstack.stack ≡ []
    → Follows s t
    → Follows s (clear_inactive cs time t)
unfolding clear_inactive
clear_inactive-Follows s [] time t e n f = f
clear_inactive-Follows s (c ∷ cs) time t e n f =
    let u : Thread = record t {
      info = record t.info { callstack = c; inactive_callstacks = cs };
    } in
    let (x, y) = clear_callstack_stack time u in
    clear_inactive-Follows s cs time (clear_callstack time u) y x
      (clear_callstack-Follows s time u (restore-Follows s c cs t e n f))

pub clear_all_callstacks-Follows :
    (s : List Bytes) (time : ℕ) (t : Thread) → Follows s t → Follows s (clear_all_callstacks time t)
unfolding clear_all_callstacks
clear_all_callstacks-Follows s time t f =
    clear_inactive-Follows s _ time (clear_callstack time t) refl (clear_callstack_stack time t).0
      (clear_callstack-Follows s time t f)
