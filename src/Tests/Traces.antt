-- ===== src/Tests/Traces.antt =====
-- The tracker, the filter and whole runs.
use tracey_mctraceface.Base.{
  ◌/◌, ◌-◌, ◌%◌, ◌^◌, ◌≡◌, refl, not, ◌&&◌, [], ◌∷◌, reverse, some, codes, is_empty, length, arith,
}
use tracey_mctraceface.Filter.{init, filter_all, start_symbol_missing}
use tracey_mctraceface.Filter.Slices.{expected, filter_all-slices}
use tracey_mctraceface.Filter.Start.{any_marks, start_symbol_missing_iff}
use tracey_mctraceface.Thread.{flushed, time_consumers}
use tracey_mctraceface.Thread.Branch.{process_branch}
use tracey_mctraceface.Thread.Replay.{replay, events, symbols}
use tracey_mctraceface.Thread.Sampling.{process_stacktrace-symbols}
use tracey_mctraceface.Thread.Spec.{view, branch_view, process_branch-view}
use tracey_mctraceface.Thread.Stacktrace.{process_stacktrace}
use tracey_mctraceface.Thread.Timing.{first_time, IsSpaced, flushed-IsSpaced}
use tracey_mctraceface.Tracker.{empty_tracker, run, process_event}
use tracey_mctraceface.Tracker.Balance.{run-balanced}
use tracey_mctraceface.Tracker.Steps.{Spares, process_event-Spares}
use tracey_mctraceface.Tracker.Store.{writes_of}
use tracey_mctraceface.Reconstructor.Output.{all_marks}
use tracey_mctraceface.Reconstructor.{new_reconstructor, process_all}
use tracey_mctraceface.Writer.Soundness.{IsSound, marks}
use tracey_mctraceface.Pipeline.{preamble_writer, decode_perf_data}
use tracey_mctraceface.Pipeline.Whole.{session, decode_perf_data-session, decode_perf_data-shows}
use tracey_mctraceface.Pipeline.Nesting.{depth, decode_perf_data-nests}
use tracey_mctraceface.Tests.{
  main_location, work_location, call_branch, two_events, branch_event, thread_key, other_key,
  slice_config, perf_lines, call_pending, ret_pending, waiting_thread, resting,
}

decode_perf_data-nests_example :
    depth thread_key 0 (marks (decode_perf_data slice_config 5 perf_lines).reconstructor.writer)
    ≡ some 0
decode_perf_data-nests_example = decode_perf_data-nests slice_config 5 perf_lines thread_key

decode_perf_data-shows_example :
    IsSound (decode_perf_data slice_config 5 perf_lines).reconstructor.writer
    × (marks (decode_perf_data slice_config 5 perf_lines).reconstructor.writer
        ≡ all_marks (run (session slice_config perf_lines) empty_tracker).1)
decode_perf_data-shows_example = decode_perf_data-shows slice_config 5 perf_lines

decode_perf_data-session_example :
    ((decode_perf_data slice_config 5 perf_lines).reconstructor
      ≡ process_all (session slice_config perf_lines) (new_reconstructor (preamble_writer 5)))
    × ((decode_perf_data slice_config 5 perf_lines).event_count % 2 ^ 64
        ≡ length (session slice_config perf_lines) % 2 ^ 64)
decode_perf_data-session_example = decode_perf_data-session slice_config 5 perf_lines

run-balanced_example :
    replay [] (events (writes_of thread_key (run two_events empty_tracker).1)) ≡ some []
run-balanced_example = run-balanced two_events thread_key

process_branch-view_example :
    view (process_branch 20 call_branch (resting (waiting_thread []))).info
    ≡ branch_view call_branch (view (waiting_thread []))
process_branch-view_example = process_branch-view 20 call_branch (resting (waiting_thread []))

filter_all-slices_example :
    (filter_all (init slice_config) two_events).1 ≡ expected slice_config two_events
filter_all-slices_example = filter_all-slices slice_config two_events

start_symbol_missing_iff_example :
    start_symbol_missing (filter_all (init slice_config) two_events).0
    ≡ not (is_empty (codes "wo")) && not (any_marks (codes "wo") two_events)
start_symbol_missing_iff_example = start_symbol_missing_iff slice_config two_events

flushed-IsSpaced_example :
    (first_time 31 (flushed 31 (waiting_thread (call_pending ∷ call_pending ∷ ret_pending ∷ [])))
      ≡ 10)
    × IsSpaced
        ((31 - 10) / 2)
        31
        (flushed 31 (waiting_thread (call_pending ∷ call_pending ∷ ret_pending ∷ [])))
flushed-IsSpaced_example =
    flushed-IsSpaced 31 (waiting_thread (call_pending ∷ call_pending ∷ ret_pending ∷ [])) {n = 1}
      (omega arith) (omega arith) (unfold time_consumers in refl)

process_stacktrace-symbols_example :
    (symbols
        (process_stacktrace 20
          (main_location ∷ work_location ∷ [])
          (resting (waiting_thread []))).callstack.stack
      ≡ reverse (symbols (main_location ∷ work_location ∷ [])))
    × ((process_stacktrace 20
          (main_location ∷ work_location ∷ [])
          (resting (waiting_thread []))).inactive_callstacks
        ≡ [])
process_stacktrace-symbols_example =
    process_stacktrace-symbols 20 (main_location ∷ work_location ∷ []) (resting (waiting_thread []))

process_event-Spares_example :
    Spares other_key empty_tracker (process_event (branch_event 100 call_branch) empty_tracker)
process_event-Spares_example =
    process_event-Spares (branch_event 100 call_branch) other_key empty_tracker refl
