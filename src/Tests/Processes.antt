-- ===== src/Tests/Processes.antt =====
-- Processes at concrete answers of the system.
use tracey_mctraceface.Base.{
  ◌≡◌, refl, true, List, [], ◌∷◌, ◌++◌, none, some, Bytes, codes, arith, All, if◌then◌else◌,
}
use tracey_mctraceface.Base.Int.{pos, negsuc}
use tracey_mctraceface.Process.{
  Answers, exited, waitpid, write_end, BackgroundProcess, spawn, read_lines, read_from, read_line,
  send_signal, wait, wait_result, try_wait, destroy,
}
use tracey_mctraceface.Process.Lines.{NoNewline, unlines, complete, from_pipe, read_lines-unlines}
use tracey_mctraceface.Process.Reaping.{Op, sends, waits, polls, life, ReapsLast, life-ReapsLast}
use tracey_mctraceface.Process.Spawning.{count, kept, makes_pipe, spawn-closes}

abbrev printed : Bytes
printed = codes "ab" ++ 10 ∷ 10 ∷ codes "c"

read_lines-unlines_example :
    (lines : List Bytes) × (read_lines 10 [] (from_pipe (pos 5) printed) ≡ some lines)
    × All NoNewline lines
    × (unlines lines ≡ complete printed)
read_lines-unlines_example = read_lines-unlines 10 [] (pos 5) printed (omega arith)

three_lines : read_lines 10 [] (from_pipe (pos 5) printed) ≡ some (codes "ab" ∷ [] ∷ codes "c" ∷ [])
unfolding read_lines read_line read_from
three_lines = refl

abbrev perf : BackgroundProcess
perf = record { pid = pos 5 }

abbrev polled_twice : List Op
polled_twice = polls none ∷ polls (some (exited 0)) ∷ sends 15 ∷ waits none ∷ []

life-ReapsLast_example : ReapsLast (pos 5) (life polled_twice none perf)
life-ReapsLast_example = life-ReapsLast polled_twice none perf

life_run :
    life polled_twice none perf ≡ waitpid (pos 5) none ∷ waitpid (pos 5) (some (exited 0)) ∷ []
unfolding life send_signal wait try_wait destroy wait_result
life_run = refl

abbrev no_fork : Answers
no_fork = record { has_pipe = true; forked = negsuc 0; stream = none; reason = codes "EAGAIN" }

spawn-closes_example :
    count write_end
      ((spawn (codes "perf" ∷ []) no_fork).1 ++ kept (spawn (codes "perf" ∷ []) no_fork).0)
    ≡ (if makes_pipe (codes "perf" ∷ []) no_fork then 1 else 0)
spawn-closes_example = spawn-closes write_end (codes "perf" ∷ []) no_fork
