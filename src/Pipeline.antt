-- ===== src/Pipeline.antt =====
-- bin/tracey_mctraceface_main.cpp: the loop of `decode_perf_data`, from the lines of `perf script` to
-- the trace. The lines that the subprocess prints and the wall clock are its arguments.
pub mod Reading
pub mod Whole
pub mod Nesting
use tracey_mctraceface.Base.{
  ℕ, ◌+◌, ◌%◌, ◌^◌, List, [], ◌∷◌, Option, none, some, Bytes, codes, if◌then◌else◌,
}
use tracey_mctraceface.Event.{Event}
use tracey_mctraceface.Filter.{Config, TraceFilter, init, should_pass}
use tracey_mctraceface.Parser.{PerfScriptParser, new_parser, feed_line}
use tracey_mctraceface.Parser
use tracey_mctraceface.Reconstructor.{Reconstructor, new_reconstructor}
use tracey_mctraceface.Reconstructor
use tracey_mctraceface.Writer.{FxtWriter, new_writer, write_preamble}

-- The locals of `decode_perf_data`; the writer is in the reconstructor.
pub record Decoder : Type 0 where
  pub parser : PerfScriptParser
  pub filter : TraceFilter
  pub reconstructor : Reconstructor
  pub event_count : ℕ

unfoldable pub preamble_writer : ℕ → FxtWriter
preamble_writer base_time_ns =
    write_preamble (codes "tracey_mctraceface") 0 1000000000 0 base_time_ns new_writer

unfoldable pub new_decoder : Config → ℕ → Decoder
new_decoder config base_time_ns = record {
  parser = new_parser;
  filter = init config;
  reconstructor = new_reconstructor (preamble_writer base_time_ns);
  event_count = 0;
}

-- What is done with the result of `feed_line` and of `finish`.
unfoldable pub take_event : Option Event → Decoder → Decoder
take_event none d = d
take_event (some e) d =
    let (filter, keep) = should_pass d.filter e in
    if keep
    then record d {
      filter = filter;
      reconstructor = Reconstructor.process_event e d.reconstructor;
      event_count = (d.event_count + 1) % 2 ^ 64;
    }
    else record d { filter = filter }

unfoldable pub read_lines : List Bytes → Decoder → Decoder
read_lines [] d =
    let (parser, event) = Parser.finish d.parser in take_event event (record d { parser = parser })
read_lines (line ∷ lines) d =
    let (parser, event) = feed_line line d.parser in
    read_lines lines (take_event event (record d { parser = parser }))

unfoldable pub decode_perf_data : Config → ℕ → List Bytes → Decoder
decode_perf_data config base_time_ns lines =
    let d = read_lines lines (new_decoder config base_time_ns) in
    record d { reconstructor = Reconstructor.finish d.reconstructor }
