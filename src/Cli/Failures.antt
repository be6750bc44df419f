-- ===== src/Cli/Failures.antt =====
-- bin/tracey_mctraceface_main.cpp: `decode_perf_data` where the output cannot be opened.
use tracey_mctraceface.Base.{◌≡◌, refl, ap, Bool, true, false, List, [], ◌∷◌, Bytes, map}
use tracey_mctraceface.Base.Int.{is_positive}
use tracey_mctraceface.Base.Outcome.{throws}
use tracey_mctraceface.Filter.{Config}
use tracey_mctraceface.Process.{Call, waitpid, is_null, subprocess_destroy}
use tracey_mctraceface.Process.Lines.{from_pipe}
use tracey_mctraceface.Cli.{Effect, writes, asks_script, starts, System}
use tracey_mctraceface.Cli.Does.{
  View, shown, Does, Does-get, Does-perform, Does-log_debug, Does-bind, Fails, Fails-get,
  Fails-bind, Fails-first,
}
use tracey_mctraceface.Cli.Decode.{start_script, opened, decode_perf_data}
use tracey_mctraceface.Cli.Stopping.{positive-nonnegative}
use tracey_mctraceface.Cli.Traces.{Prints, spawn-Prints, script_args-filled}

abbrev ending_in : Effect → List Effect
ending_in (writes path chunks) = writes path chunks ∷ []
ending_in (asks_script call) = asks_script call ∷ []
ending_in _ = []

-- The traces that are written, and what is asked about perf script.
abbrev pub ending : View Effect
ending = record { select = ending_in; says_nothing = λ line. refl }

start_script-ending :
    (sys : System) (args : List Bytes) (bytes : Bytes)
    → is_null args ≡ false
    → Prints (System.script sys) bytes
    → Does ending (start_script sys args) (from_pipe (System.script sys).forked bytes) []
unfolding start_script
start_script-ending sys args bytes some_args h =
    let a = System.script sys in
    rw (spawn-Prints args a bytes some_args h, h.pipes, positive-nonnegative a.forked h.forks)
      (Does-bind ending _ [] [] (Does-perform ending (starts args ∷ []) [] (unfold shown in refl))
        (Does-get ending (from_pipe a.forked bytes)))

shown-scripts : (calls : List Call) → shown ending (map asks_script calls) ≡ map asks_script calls
unfolding shown
shown-scripts [] = refl
shown-scripts (call ∷ calls) = ap (◌∷◌ (asks_script call)) (shown-scripts calls)

destroy-child :
    (sys : System) (bytes : Bytes)
    → is_positive (System.script sys).forked ≡ true
    → subprocess_destroy (System.script_ends sys) (from_pipe (System.script sys).forked bytes)
      ≡ waitpid (System.script sys).forked (System.script_ends sys) ∷ []
unfolding subprocess_destroy
destroy-child sys bytes h = rw h refl

opened-Fails :
    (sys : System) (bytes e : Bytes)
    → is_positive (System.script sys).forked ≡ true
    → Fails ending
        (opened sys (from_pipe (System.script sys).forked bytes) (throws e))
        e
        (asks_script (waitpid (System.script sys).forked (System.script_ends sys)) ∷ [])
opened-Fails sys bytes e h =
    let call = waitpid (System.script sys).forked (System.script_ends sys) in
    rw (destroy-child sys bytes h) (
      Fails-bind ending _ (asks_script call ∷ []) []
        (Does-perform ending (asks_script call ∷ []) (asks_script call ∷ [])
          (shown-scripts (call ∷ [])))
        (Fails-get ending e))

-- Where the output cannot be opened once perf script has been started, `decode_perf_data` throws what
-- the sink has thrown, has written no trace, and has waited for perf script, once.
pub decode_perf_data-Fails :
    (sys : System) (working_dir output : Bytes) (sampling : Bool) (config : Config)
    (bytes e : Bytes)
    → Prints (System.script sys) bytes
    → System.opens sys output ≡ throws e
    → Fails ending
        (decode_perf_data sys working_dir output sampling config)
        e
        (asks_script (waitpid (System.script sys).forked (System.script_ends sys)) ∷ [])
unfolding decode_perf_data
decode_perf_data-Fails sys working_dir output sampling config bytes e h o =
    let calls = asks_script (waitpid (System.script sys).forked (System.script_ends sys)) ∷ [] in
    rw o (
      Fails-bind ending _ [] calls (Does-log_debug ending _) (
        Fails-bind ending _ [] calls (start_script-ending sys _ bytes (script_args-filled _ _ _) h)
          (Fails-first ending _ calls (opened-Fails sys bytes e h.forks))))
