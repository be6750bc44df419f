-- ===== src/Thread/Spec.antt =====
-- What a branch event means for the call stacks of a thread, by the names of the frames alone: no
-- times, no addresses, no pending events. `process_branch` and `process_stacktrace` refine it.
use tracey_mctraceface.Base.{
  ℕ, ◌≡◌, refl, ap, ◌∙◌, Bool, true, false, List, [], ◌∷◌, map, Option, none, some, Bytes, equal,
  if◌then◌else◌, Bool-cases, inl, inr,
}
use tracey_mctraceface.Event.{Location, BranchKind, TraceState, BranchData, unchanged, start, end}
use tracey_mctraceface.Thread.{
  Callstack, ThreadInfo, Thread, untraced_symbol, call, ret, check_on, check_current_symbol,
  clear_callstack,
}
use tracey_mctraceface.Thread.Branch.{
  set_last_event_time, enter_kernel, leave_kernel, process_kind, process_kind?, untraced,
  is_untraced, resume, process_state, process_branch,
}
use tracey_mctraceface.Thread.Replay.{symbols}
use tracey_mctraceface.Thread.Shape.{
  below_top, call_stack, ret_stack, check_on_stack, clear_callstack_stack,
}

-- The innermost frame first; the stack interrupted last first.
pub record View : Type 0 where
  pub current : List Bytes
  pub suspended : List (List Bytes)

abbrev pub view : ThreadInfo → View
view i = record {
  current = symbols i.callstack.stack;
  suspended = map (λ c. symbols c.stack) i.inactive_callstacks;
}

-- Code of `name` runs: it is the innermost frame, in place of a frame of another name.
abbrev pub settle : Bytes → List Bytes → List Bytes
settle name [] = name ∷ []
settle name (top ∷ rest) = if equal top name then top ∷ rest else name ∷ rest

abbrev pub pop : List Bytes → List Bytes
pop [] = []
pop (top ∷ rest) = rest

-- Back from the kernel: the interrupted stack is current again.
abbrev pub back : Bytes → List (List Bytes) → View
back dst [] = record { current = []; suspended = [] }
back dst (c ∷ cs) = record { current = settle dst c; suspended = cs }

abbrev pub kind_view : BranchKind → Bytes → Bytes → View → View
kind_view BranchKind.call src dst v = record v { current = dst ∷ settle src v.current }
kind_view BranchKind.return src dst v = record v { current = settle dst (pop v.current) }
kind_view BranchKind.syscall src dst v = record {
  current = dst ∷ [];
  suspended = v.current ∷ v.suspended;
}
kind_view BranchKind.hardware_interrupt src dst v = record {
  current = dst ∷ [];
  suspended = v.current ∷ v.suspended;
}
kind_view BranchKind.iret src dst v = back dst v.suspended
kind_view BranchKind.sysret src dst v = back dst v.suspended
kind_view _ src dst v = record v { current = settle dst v.current }

abbrev pub kind?_view : Option BranchKind → Bytes → Bytes → View → View
kind?_view none src dst v = v
kind?_view (some k) src dst v = kind_view k src dst v

abbrev pub drop_marker : List Bytes → List Bytes
drop_marker [] = []
drop_marker (top ∷ rest) = if equal top untraced_symbol then rest else top ∷ rest

abbrev pub state_view : TraceState → Option BranchKind → Bytes → Bytes → View → View
state_view end k src dst v = record v { current = untraced_symbol ∷ v.current }
state_view start k src dst v =
    kind?_view k src dst (record v { current = settle dst (drop_marker v.current) })
state_view unchanged k src dst v = kind?_view k src dst v

abbrev pub branch_view : BranchData → View → View
branch_view br = state_view br.trace_state br.kind br.src.symbol br.dst.symbol

View-eq : (v w : View) → v.current ≡ w.current → v.suspended ≡ w.suspended → v ≡ w
View-eq v w c s = λ i. record { current = c i; suspended = s i }

call-view :
    (time : ℕ) (loc : Location) (u : Bool) (t : Thread)
    → view (call time loc u t).info
      ≡ record (view t.info) { current = loc.symbol ∷ symbols t.callstack.stack }
call-view time loc u t =
    let (a, _, c) = call_stack time loc u t in
    View-eq _ _ (ap symbols a) (ap (map (λ x. symbols x.stack)) c)

symbols-below_top : (ls : List Location) → symbols (below_top ls) ≡ pop (symbols ls)
symbols-below_top [] = refl
symbols-below_top (l ∷ ls) = refl

ret-view :
    (time : ℕ) (t : Thread)
    → view (ret time t).info ≡ record (view t.info) { current = pop (symbols t.callstack.stack) }
ret-view time t =
    let (a, _, c) = ret_stack time t in
    View-eq _ _ (ap symbols a ∙ symbols-below_top t.callstack.stack)
      (ap (map (λ x. symbols x.stack)) c)

check_on-view :
    (stack : List Location) (time : ℕ) (loc : Location) (t : Thread)
    → t.callstack.stack ≡ stack
    → view (check_on stack time loc t).info
      ≡ record (view t.info) { current = settle loc.symbol (symbols stack) }
check_on-view [] time loc t e =
    let (a, c) = check_on_stack [] time loc t e in
    View-eq _ _ (ap symbols a) (ap (map (λ x. symbols x.stack)) c)
check_on-view (top ∷ rest) time loc t e =
    let (a, c) = check_on_stack (top ∷ rest) time loc t e in
    View-eq _ _ (ap symbols a ∙ names (equal top.symbol loc.symbol))
      (ap (map (λ x. symbols x.stack)) c)
  where
    names :
        (b : Bool)
        → symbols (if b then top ∷ rest else loc ∷ rest)
          ≡ (if b then top.symbol ∷ symbols rest else loc.symbol ∷ symbols rest)
    names true = refl
    names false = refl

check-view :
    (time : ℕ) (loc : Location) (t : Thread)
    → view (check_current_symbol time loc t).info
      ≡ record (view t.info) { current = settle loc.symbol (symbols t.callstack.stack) }
unfolding check_current_symbol
check-view time loc t = check_on-view t.callstack.stack time loc t refl

leave_kernel-view :
    (cs : List Callstack) (time : ℕ) (dst : Location) (t : Thread)
    → t.callstack.stack ≡ []
    → t.inactive_callstacks ≡ cs
    → view (leave_kernel cs time dst t).info ≡ back dst.symbol (map (λ c. symbols c.stack) cs)
unfolding leave_kernel
leave_kernel-view [] time dst t n e = View-eq _ _ (ap symbols n) (ap (map (λ x. symbols x.stack)) e)
leave_kernel-view (c ∷ cs) time dst t n e = check-view time dst _

iret-view :
    (time : ℕ) (dst : Location) (t : Thread)
    → let u = clear_callstack time t in
      view (leave_kernel u.inactive_callstacks time dst u).info
      ≡ back dst.symbol (view t.info).suspended
iret-view time dst t =
    let (n, e) = clear_callstack_stack time t in
    leave_kernel-view _ time dst (clear_callstack time t) n refl
    ∙ ap (λ x. back dst.symbol (map (λ c. symbols c.stack) x)) e

process_kind-view :
    (k : BranchKind) (time : ℕ) (br : BranchData) (t : Thread)
    → view (process_kind k time br t).info ≡ kind_view k br.src.symbol br.dst.symbol (view t.info)
unfolding process_kind enter_kernel
process_kind-view BranchKind.call time br t =
    call-view time br.dst false _
    ∙ ap {A = View} (λ v. record v { current = br.dst.symbol ∷ v.current })
        (check-view time br.src t)
process_kind-view BranchKind.return time br t =
    check-view time br.dst _
    ∙ ap {A = View} (λ v. record v { current = settle br.dst.symbol v.current }) (ret-view time t)
process_kind-view BranchKind.syscall time br t = call-view time br.dst false (enter_kernel time t)
process_kind-view BranchKind.hardware_interrupt time br t =
    call-view time br.dst false (enter_kernel time t)
process_kind-view BranchKind.iret time br t = iret-view time br.dst t
process_kind-view BranchKind.sysret time br t = iret-view time br.dst t
process_kind-view _ time br t = check-view time br.dst t

process_kind?-view :
    (k : Option BranchKind) (time : ℕ) (br : BranchData) (t : Thread)
    → view (process_kind? k time br t).info ≡ kind?_view k br.src.symbol br.dst.symbol (view t.info)
unfolding process_kind?
process_kind?-view none time br t = refl
process_kind?-view (some k) time br t = process_kind-view k time br t

marker-view :
    (stack : List Location) (time : ℕ) (t : Thread)
    → t.callstack.stack ≡ stack
    → view (if is_untraced stack then ret time t else t).info
      ≡ record (view t.info) { current = drop_marker (symbols stack) }
unfolding is_untraced
marker-view [] time t e = View-eq _ _ (ap symbols e) refl
marker-view (top ∷ rest) time t e = elim (Bool-cases (equal top.symbol untraced_symbol)) [
  | inl is ↦ rw is (ret-view time t ∙ View-eq _ _ (ap (λ x. pop (symbols x)) e) refl)
  | inr isnt ↦ rw isnt (View-eq _ _ (ap symbols e) refl)
]

resume-view :
    (time : ℕ) (dst : Location) (t : Thread)
    → view (resume time dst t).info ≡ record (view t.info) {
      current = settle dst.symbol (drop_marker (symbols t.callstack.stack));
    }
unfolding resume
resume-view time dst t =
    check-view time dst _
    ∙ ap {A = View} (λ v. record v { current = settle dst.symbol v.current })
        (marker-view t.callstack.stack time t refl)

process_state-view :
    (st : TraceState) (time : ℕ) (br : BranchData) (t : Thread)
    → view (process_state st time br t).info
      ≡ state_view st br.kind br.src.symbol br.dst.symbol (view t.info)
unfolding process_state
process_state-view end time br t = call-view time untraced false t
process_state-view start time br t =
    process_kind?-view br.kind time br _
    ∙ ap (kind?_view br.kind br.src.symbol br.dst.symbol) (resume-view time br.dst t)
process_state-view unchanged time br t = process_kind?-view br.kind time br t

-- `process_branch` does to the names of the frames what the event means, on every kind of branch and
-- every change of the trace state, whatever the times and the pending events are.
pub process_branch-view :
    (time : ℕ) (br : BranchData) (t : Thread)
    → view (process_branch time br t).info ≡ branch_view br (view t.info)
unfolding process_branch
process_branch-view time br t =
    process_state-view br.trace_state time br (set_last_event_time time t)
