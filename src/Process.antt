-- ===== src/Process.antt =====
-- lib/subprocess.cpp and lib/background_process.cpp: the child processes. What the system answers to a
-- call is an argument; what is asked of it comes back as a list.
pub mod Lines
pub mod Reaping
pub mod Spawning
use tracey_mctraceface.Base.{
  ℕ, zero, suc, ◌+◌, Bool, true, false, not, List, [], ◌∷◌, ◌++◌, Option, none, some, Bytes, codes,
  is_empty, if◌then◌else◌, ◌==◌, map,
}
use tracey_mctraceface.Base.Int.{ℤ, pos, negsuc, is_positive, is_negative, negate}
use tracey_mctraceface.Base.Outcome.{Result, ok, throws}

-- How a child has ended, as the macros of `waitpid` tell it.
pub data Status : Type 0 where
  exited : ℕ → Status
  signaled : ℕ → Status
  other_status : Status

-- The ends of the pipe.
pub data End : Type 0 where
  read_end write_end : End

-- What the child of `Subprocess` does up to `execvp`, and after it where that fails.
pub data ChildCall : Type 0 where
  close_end : End → ChildCall
  to_stdout : End → ChildCall
  setenv : Bytes → Bytes → ChildCall
  execvp : List Bytes → ChildCall
  exit_with : ℕ → ChildCall
  own_group stop_self : ChildCall

unfoldable pub subprocess_child : List Bytes → List ChildCall
subprocess_child args =
    close_end read_end
    ∷ to_stdout write_end
    ∷ close_end write_end
    ∷ setenv (codes "PAGER") (codes "cat")
    ∷ execvp args
    ∷ exit_with 127
    ∷ []

-- `pipe` has the bytes that the child will still have written, `none` where the pointer is null.
pub record Subprocess : Type 0 where
  pub pipe : Option Bytes
  pub pid : ℤ

-- The answers of the system to the constructor: whether there is a pipe, the number of `fork`, the
-- stream of `fdopen`, and what `strerror` says.
pub record Answers : Type 0 where
  pub has_pipe : Bool
  pub forked : ℤ
  pub stream : Option Bytes
  pub reason : Bytes

abbrev pub opened : ℤ → Option Bytes → Result Subprocess × List End
opened pid none = (throws (codes "Subprocess: fdopen() failed"), write_end ∷ read_end ∷ [])
opened pid (some bytes) = (ok (record { pipe = some bytes; pid = pid }), write_end ∷ [])

abbrev pub is_null : {A : Type 0} → List A → Bool
is_null [] = true
is_null (x ∷ xs) = false

-- The constructor in the parent, and the ends that it closes itself.
unfoldable pub spawn : List Bytes → Answers → Result Subprocess × List End
spawn args a =
    if is_null args
    then (throws (codes "Subprocess: empty argument list"), [])
    else if not a.has_pipe
    then (throws (codes "Subprocess: pipe() failed: " ++ a.reason), [])
    else if is_negative a.forked
    then (throws (codes "Subprocess: fork() failed: " ++ a.reason), read_end ∷ write_end ∷ [])
    else opened a.forked a.stream

-- The loop of `read_line`: the line, what is left in the pipe, and what is returned.
unfoldable pub read_from : Bytes → Bytes → Bytes × Bytes × Bool
read_from line [] = (line, [], not (is_empty line))
read_from line (c ∷ cs) =
    let rest = read_from (line ++ c ∷ []) cs in if c == 10 then (line, cs, true) else rest

abbrev pub read_pipe : Bytes → Subprocess → Option Bytes → Bool × Bytes × Subprocess
read_pipe line s none = (false, line, s)
read_pipe line s (some bytes) =
    let (line', left, found) = read_from [] bytes in (found, line', record s { pipe = some left })

-- What `read_line` returns, what `line` is then, and the process.
unfoldable pub read_line : Bytes → Subprocess → Bool × Bytes × Subprocess
unfolding read_from
read_line line s = read_pipe line s s.pipe

-- The lines that a loop `while (proc.read_line(line))` goes over; `none` where it is out of fuel.
abbrev pub keep_line : Bytes → Option (List Bytes) → Option (List Bytes)
keep_line line none = none
keep_line line (some lines) = some (line ∷ lines)

unfoldable pub read_lines : ℕ → Bytes → Subprocess → Option (List Bytes)
unfolding read_from
read_lines zero line s = none
read_lines (suc fuel) line s =
    let (found, line', s') = read_line line s in
    let rest = read_lines fuel line' s' in if found then keep_line line' rest else some []

-- What is asked of the system about a child: a signal, or `waitpid` with what it found out, if the
-- child had ended.
pub data Call : Type 0 where
  kill : ℤ → ℕ → Call
  waitpid : ℤ → Option Status → Call

-- `status` after `waitpid`: where that fails, it is the 0 that it was set to before, which the macros
-- take for an exit with 0.
abbrev pub stored : Option Status → Status
stored none = exited 0
stored (some status) = status

-- `Subprocess::wait`, where `waitpid` finds the child ended as told, or fails: the process, the calls,
-- and the exit code.
abbrev pub exit_code : Status → ℤ
exit_code (exited code) = pos code
exit_code _ = negsuc 0

unfoldable pub subprocess_wait : Option Status → Subprocess → Subprocess × List Call × ℤ
subprocess_wait found s =
    if not (is_positive s.pid) then (record { pipe = none; pid = s.pid }, [], negsuc 0) else (
      record { pipe = none; pid = negsuc 0 },
      waitpid s.pid found ∷ [],
      exit_code (stored found),
    )

-- The destructor.
unfoldable pub subprocess_destroy : Option Status → Subprocess → List Call
subprocess_destroy found s = if is_positive s.pid then waitpid s.pid found ∷ [] else []

pub record BackgroundProcess : Type 0 where
  pub pid : ℤ

unfoldable pub background_child : List Bytes → (stopped : Bool) → List ChildCall
background_child args stopped =
    own_group ∷ ((if stopped then stop_self ∷ [] else []) ++ execvp args ∷ exit_with 127 ∷ [])

-- The constructor in the parent; where the child is to stop itself, it waits for that.
unfoldable pub start :
    List Bytes → (stopped : Bool) → ℤ → Bytes → Result BackgroundProcess × List Call
start args stopped forked reason =
    if is_null args
    then (throws (codes "BackgroundProcess: empty argument list"), [])
    else if is_negative forked
    then (throws (codes "BackgroundProcess: fork() failed: " ++ reason), [])
    else (ok (record { pid = forked }), if stopped then waitpid forked none ∷ [] else [])

unfoldable pub send_signal : ℕ → BackgroundProcess → List Call
send_signal signal p = if is_positive p.pid then kill p.pid signal ∷ [] else []

-- What `wait` and `try_wait` make of the status.
unfoldable pub wait_result : Status → ℤ
wait_result (exited code) = pos code
wait_result (signaled signal) = negate signal
wait_result other_status = negsuc 0

unfoldable pub wait : Option Status → BackgroundProcess → BackgroundProcess × List Call × ℤ
unfolding wait_result
wait found p =
    if not (is_positive p.pid)
    then (p, [], negsuc 0)
    else (record { pid = negsuc 0 }, waitpid p.pid found ∷ [], wait_result (stored found))

-- `try_wait`, where the child has ended as told, or has not.
abbrev pub polled : Option Status → BackgroundProcess → BackgroundProcess × Option ℤ
polled none p = (p, none)
polled (some status) p = (record { pid = negsuc 0 }, some (wait_result status))

unfoldable pub try_wait :
    Option Status → BackgroundProcess → BackgroundProcess × List Call × Option ℤ
unfolding wait_result
try_wait found p =
    if not (is_positive p.pid)
    then (p, [], some (negsuc 0))
    else (let (p', r) = polled found p in (p', waitpid p.pid found ∷ [], r))

unfoldable pub destroy : Option Status → BackgroundProcess → List Call
destroy found p = if is_positive p.pid then waitpid p.pid found ∷ [] else []
