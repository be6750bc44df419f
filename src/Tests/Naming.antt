-- ===== src/Tests/Naming.antt =====
-- Names of symbols, and of the events of a session.
use tracey_mctraceface.Base.{◌≡◌, refl, ◌++◌, codes, length, arith, All, equal}
use tracey_mctraceface.Symbol.Templates.{HasNo}
use tracey_mctraceface.Symbol.Parameters.{IsPlain}
use tracey_mctraceface.Reconstructor.Names.{all_events, process_all-reads}
use tracey_mctraceface.Reconstructor.{new_reconstructor, process_all}
use tracey_mctraceface.Thread
use tracey_mctraceface.Thread.Branch
use tracey_mctraceface.Tracker.{empty_tracker, run}
use tracey_mctraceface.Tracker
use tracey_mctraceface.Writer.{
  write_preamble, pad_to_word, padding, words_for_bytes, provider_name_len,
}
use tracey_mctraceface.Writer.Reader.{reader}
use tracey_mctraceface.Pipeline.{preamble_writer}
use tracey_mctraceface.Pipeline.Whole.{preamble_writer-IsSound}
use tracey_mctraceface.Tests.{two_events}

at-HasNo : HasNo b'<' (codes "::at")
at-HasNo = ground arith

name-IsPlain : All IsPlain (codes "at")
name-IsPlain = ground arith

-- A call and a return are a begin and an end for each of the two frames.
writes_length : length (run two_events empty_tracker).1 ≡ 4
unfolding equal run Thread.set_stack Thread.time_consumers Thread.ns_share Thread.distribute
    Thread.total_ns Thread.flushed Thread.flush Thread.queue_event Thread.add_event Thread.call
    Thread.ret_on Thread.ret Thread.check_on Thread.check_current_symbol Thread.ret_frames
    Thread.clear_callstack Thread.clear_inactive Thread.clear_all_callstacks Branch.enter_kernel
    Branch.leave_kernel Branch.process_kind Branch.process_kind? Branch.is_untraced Branch.resume
    Branch.process_state Branch.process_branch Tracker.lookup Tracker.get_thread Tracker.put_thread
    Tracker.map_time Tracker.with_thread Tracker.at_time Tracker.process_payload
    Tracker.process_error Tracker.process_error_at Tracker.process_event Tracker.finish_thread
    Tracker.finish_threads Tracker.finish
writes_length = refl

next_id : (preamble_writer 5).next_string_id ≡ 1
unfolding preamble_writer write_preamble pad_to_word padding words_for_bytes provider_name_len
next_id = refl

process_all-reads_example :
    (reader (process_all two_events (new_reconstructor (preamble_writer 5))).writer).events
    ≡ (reader (preamble_writer 5)).events ++ all_events (run two_events empty_tracker).1
process_all-reads_example =
    process_all-reads two_events (preamble_writer 5) (preamble_writer-IsSound 5)
      (omega (arith, next_id, writes_length))
