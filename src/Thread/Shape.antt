-- ===== src/Thread/Shape.antt =====
-- What each operation of a thread does to its call stacks.
use tracey_mctraceface.Base.{
  ℕ, ◌≡◌, refl, sym, ap, ◌∙◌, Bool, true, false, List, [], ◌∷◌, ◌++◌, equal, if◌then◌else◌, arith,
  append-nil, Bool-cases, inl, inr,
}
use tracey_mctraceface.Event.{Location}
use tracey_mctraceface.Thread.{
  call_event, ret_event, ret_from_untraced, PendingEvent, Callstack, Thread, unknown_symbol,
  set_stack, flush, queue_event, add_event, call, ret_on, ret, check_on, ret_frames,
  clear_callstack, clear_inactive, clear_all_callstacks,
}

pub frames-add_event :
    (time : ℕ) (ev : PendingEvent) (t : Thread)
    → ((add_event time ev t).callstack ≡ t.callstack)
      × ((add_event time ev t).inactive_callstacks ≡ t.inactive_callstacks)
unfolding add_event queue_event flush
frames-add_event time ev t = ground arith

pub call_stack :
    (time : ℕ) (loc : Location) (u : Bool) (t : Thread)
    → ((call time loc u t).callstack.stack ≡ loc ∷ t.callstack.stack)
      × ((call time loc u t).callstack.create_time ≡ t.callstack.create_time)
      × ((call time loc u t).inactive_callstacks ≡ t.inactive_callstacks)
unfolding call set_stack
call_stack time loc u t =
    let ev : PendingEvent = record { symbol = loc.symbol; kind = call_event loc u } in
    let (a, b) = frames-add_event time ev t in
    (ap (λ c. loc ∷ c.stack) a, ap (λ c. c.create_time) a, b)

-- All frames but the top one.
abbrev pub below_top : List Location → List Location
below_top [] = []
below_top (top ∷ rest) = rest

ret_on_stack :
    (stack : List Location) (time : ℕ) (t : Thread)
    → t.callstack.stack ≡ stack
    → ((ret_on stack time t).callstack.stack ≡ below_top stack)
      × ((ret_on stack time t).callstack.create_time ≡ t.callstack.create_time)
      × ((ret_on stack time t).inactive_callstacks ≡ t.inactive_callstacks)
unfolding ret_on set_stack
ret_on_stack (top ∷ rest) time t e =
    let ev : PendingEvent = record { symbol = top.symbol; kind = ret_event } in
    let (a, b) = frames-add_event time ev t in (refl, ap (λ c. c.create_time) a, b)
ret_on_stack [] time t e =
    let ev : PendingEvent = record {
      symbol = unknown_symbol;
      kind = ret_from_untraced t.callstack.create_time;
    } in
    let (a, b) = frames-add_event time ev t in
    (ap (λ c. c.stack) a ∙ e, ap (λ c. c.create_time) a, b)

pub ret_stack :
    (time : ℕ) (t : Thread)
    → ((ret time t).callstack.stack ≡ below_top t.callstack.stack)
      × ((ret time t).callstack.create_time ≡ t.callstack.create_time)
      × ((ret time t).inactive_callstacks ≡ t.inactive_callstacks)
unfolding ret
ret_stack time t = ret_on_stack t.callstack.stack time t refl

-- The loop of `ret` pops as many frames as it has rounds.
pub ret_frames_stack :
    (popped rest : List Location) (time : ℕ) (t : Thread)
    → t.callstack.stack ≡ popped ++ rest
    → ((ret_frames popped time t).callstack.stack ≡ rest)
      × ((ret_frames popped time t).inactive_callstacks ≡ t.inactive_callstacks)
unfolding ret_frames
ret_frames_stack [] rest time t e = (e, refl)
ret_frames_stack (l ∷ popped) rest time t e =
    let (a, _, c) = ret_stack time t in
    let (x, y) = ret_frames_stack popped rest time (ret time t) (a ∙ ap below_top e) in (x, y ∙ c)

-- So `clear_callstack` leaves no frame.
pub clear_callstack_stack :
    (time : ℕ) (t : Thread)
    → ((clear_callstack time t).callstack.stack ≡ [])
      × ((clear_callstack time t).inactive_callstacks ≡ t.inactive_callstacks)
unfolding clear_callstack
clear_callstack_stack time t =
    ret_frames_stack t.callstack.stack [] time t (sym (append-nil t.callstack.stack))

clear_inactive_stack :
    (cs : List Callstack) (time : ℕ) (t : Thread)
    → t.inactive_callstacks ≡ cs
    → t.callstack.stack ≡ []
    → ((clear_inactive cs time t).callstack.stack ≡ [])
      × ((clear_inactive cs time t).inactive_callstacks ≡ [])
unfolding clear_inactive
clear_inactive_stack [] time t e f = (f, e)
clear_inactive_stack (c ∷ cs) time t e f =
    let u : Thread = record t {
      info = record t.info { callstack = c; inactive_callstacks = cs };
    } in
    let (x, y) = clear_callstack_stack time u in
    clear_inactive_stack cs time (clear_callstack time u) y x

-- `clear_all_callstacks` leaves no frame and no inactive stack.
pub clear_all_callstacks_stack :
    (time : ℕ) (t : Thread)
    → ((clear_all_callstacks time t).callstack.stack ≡ [])
      × ((clear_all_callstacks time t).inactive_callstacks ≡ [])
unfolding clear_all_callstacks
clear_all_callstacks_stack time t =
    clear_inactive_stack _ time (clear_callstack time t) refl (clear_callstack_stack time t).0

pub check_on_stack :
    (stack : List Location) (time : ℕ) (loc : Location) (t : Thread)
    → t.callstack.stack ≡ stack
    → ((check_on stack time loc t).callstack.stack ≡ elim stack [
      | [] ↦ loc ∷ []
      | top ∷ rest ↦ if equal top.symbol loc.symbol then top ∷ rest else loc ∷ rest
    ])
      × ((check_on stack time loc t).inactive_callstacks ≡ t.inactive_callstacks)
unfolding check_on
check_on_stack [] time loc t e =
    let (a, _, c) = call_stack t.callstack.create_time loc true t in (a ∙ ap (◌∷◌ loc) e, c)
check_on_stack (top ∷ rest) time loc t e = elim (Bool-cases (equal top.symbol loc.symbol)) [
  | inl same ↦ rw same (e, refl)
  | inr other ↦ rw other (
      let (a, _, c) = call_stack time loc false (ret time t) in
      let (x, _, y) = ret_stack time t in (a ∙ ap (◌∷◌ loc) (x ∙ ap below_top e), c ∙ y))
]
