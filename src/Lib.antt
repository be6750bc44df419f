-- ===== src/Lib.antt =====
-- tracey_mctraceface turns the output of `perf script` into an FXT trace: begin and end events of the
-- functions of each thread.
--
-- The parts, in the order in which an event passes through them:
--   Parser (lib/perf_script_parser.cpp): `feed_line` and `finish` collect lines into groups, and
--     `parse_group` makes an event of a group. Scan has the helpers on texts, with `std::from_chars`,
--     `find` and `rfind` written out; Branches has the lines of branch events. Printed and BranchLines have
--     what `perf script` prints for a branch; FlagTexts, Flags, Addresses, Arrow, Marks and Sides have how
--     the parts of such a line are found again. The events are those of Event
--     (include/tracey_mctraceface/perf_event.hpp).
--   Filter (lib/trace_filter.cpp): `should_pass` cuts slices between two symbols out of the events.
--   Thread and Tracker (lib/stack_reconstructor.cpp): Thread has the operations on one `ThreadInfo`,
--     with `process_branch` in Branch and `process_stacktrace` in Stacktrace; Tracker has the table of
--     threads, the base time, `process_event` and `finish`. The calls of `write_pending` are collected
--     in order.
--   Reconstructor (lib/stack_reconstructor.cpp): `intern_symbol` and `write_pending`, which perform those
--     calls on the writer, and the class as a whole. Symbol (lib/shorten_symbol.cpp) shortens names.
--   Writer (lib/fxt_writer.cpp): strings and threads get numbers that are taken back when they run out,
--     and records refer to them. Table has the hash tables, Wire the pieces that go to the sink, by
--     include/tracey_mctraceface/fxt.bes.xml. Writer/Reader is the other end: what a reader of the trace
--     knows after the pieces it has read. The theorems on the output are stated by it.
--   Pipeline (bin/tracey_mctraceface_main.cpp): the loop of `decode_perf_data` over all of these.
--   Process (lib/subprocess.cpp, lib/background_process.cpp): the children, with the lines that
--     `read_line` makes of what perf script prints. What the system answers is an argument, what is
--     asked of it a list of calls.
--   Cli (bin/tracey_mctraceface_main.cpp): the commands, each step a function from the effects up to then
--     to a value or an exception and the effects (Base/Outcome). Settings reads the settings, Decode
--     has `decode_perf_data` around the loop of Pipeline, Record the steps of a recording, Commands the
--     commands and `run`; Does and Asks state what a step does, Polling, Signals and Stopping what is
--     asked about perf. Log (lib/log.cpp) has the messages.
--   Sink (lib/file_sink.cpp, lib/compressed_sink.cpp): where bytes go to. Contract has what each sink
--     promises; Gzip and Zstd stand over records of what they rely on of zlib and zstd.
--   Server (lib/trace_server.cpp): requests, answers and the loop of the server.
--   Driver (lib/perf_driver.cpp, with the pure helpers of bin/tracey_mctraceface_main.cpp) and
--     Capabilities (lib/perf_capabilities.cpp): the command lines of perf.
-- Base holds what they share; Tests holds concrete runs.
--
-- Texts are lists of bytes, and numbers are natural numbers with the wrap-around of their C++ type
-- written out. `int` counters that only count loop rounds, and the number of slices, are unbounded. A
-- hash table is a list of entries; no theorem depends on its order. Loops are recursion over the list
-- that they walk. `decimal` is bounded by twenty digits, which every 64-bit number fits. The loops of
-- `send_all` and of `read_line` have as fuel the bytes that are left, and those of the zstd sink one
-- that the theorems on it bound by the input and by what zstd may hold back.
--
-- Not modelled: the bytes that the classes generated from the schema make of a record (they are not in
-- the repository; a record is the values of its fields), so the commands hand the records of a trace to
-- the output as one effect, and an exception of a sink in the middle of decoding is not followed;
-- warnings of the writer on the console; the browser that the server starts, and its handler of SIGINT,
-- whose flag ends the list of rounds. A file that the sinks write is what `fwrite` has taken, since
-- what `fclose` does is up to the system.
pub mod Base
pub mod Event
pub mod Filter
pub mod Parser
pub mod Symbol
pub mod Table
pub mod Thread
pub mod Tracker
pub mod Wire
pub mod Writer
pub mod Reconstructor
pub mod Pipeline
pub mod Capabilities
pub mod Driver
pub mod Sink
pub mod Process
pub mod Server
pub mod Log
pub mod Cli
pub mod Tests
