-- ===== src/Thread/Stacktrace.antt =====
-- `process_stacktrace` of lib/stack_reconstructor.cpp, behind `map_time` and `get_thread`.
use tracey_mctraceface.Base.{
  ℕ, suc, ◌-◌, false, List, [], ◌∷◌, equal, if◌then◌else◌, length, take, drop, reverse,
}
use tracey_mctraceface.Event.{Location}
use tracey_mctraceface.Thread.{Thread, call, ret_frames}
use tracey_mctraceface.Thread.Branch.{set_last_event_time}

-- `match_count`: the frames that agree from the bottom up. Both lists begin at the bottom here.
unfoldable pub match_count : List Location → List Location → ℕ
match_count (c ∷ cs) (s ∷ ss) = if equal c.symbol s.symbol then suc (match_count cs ss) else 0
match_count _ _ = 0

-- The last loop.
unfoldable pub call_frames : List Location → ℕ → Thread → Thread
call_frames [] time t = t
call_frames (frame ∷ frames) time t = call_frames frames time (call time frame false t)

-- `while (current.size() > match_count) ret(...)` makes one round for each excess frame.
unfoldable pub process_stacktrace : ℕ → List Location → Thread → Thread
process_stacktrace time sample t =
    let current = t.callstack.stack in
    let matched = match_count (reverse current) sample in
    let excess = take (length current - matched) current in
    call_frames (drop matched sample) time (ret_frames excess time (set_last_event_time time t))
