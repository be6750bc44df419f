-- ===== src/Tests/Reading.antt =====
-- The parser, the capabilities and the command lines.
use tracey_mctraceface.Base.{
  ◌≡◌, refl, true, false, [], ◌∷◌, ◌++◌, All, some, none, codes, arith, take, drop, equal,
  starts_with,
}
use tracey_mctraceface.Base.Int.{pos}
use tracey_mctraceface.Event.{error}
use tracey_mctraceface.Capabilities.{PerfCapabilities, detect_capabilities, parse_kernel_version}
use tracey_mctraceface.Capabilities.Versions.{parse_kernel_version-text}
use tracey_mctraceface.Driver.{PerfConfig, kernel, high, parse_pids, pid_list}
use tracey_mctraceface.Driver.Lines.{IsPid, parse_pids-pid_list}
use tracey_mctraceface.Parser.{new_parser, feed_lines, parse_header, parse_group}
use tracey_mctraceface.Parser
use tracey_mctraceface.Parser.Branches
use tracey_mctraceface.Parser.Scan
use tracey_mctraceface.Parser.Branches.{
  KindAndTraceState, parse_kind_and_trace, parse_symbol_and_offset, parse_time,
}
use tracey_mctraceface.Parser.Printed.{Side}
use tracey_mctraceface.Parser.Groups.{events_of, group_lines, feed_lines-groups}
use tracey_mctraceface.Writer.{decimal}
use tracey_mctraceface.Tests.{perf_lines, call_branch, branch_event}

feed_lines-groups_example : feed_lines perf_lines new_parser ≡ events_of (group_lines perf_lines)
feed_lines-groups_example = feed_lines-groups perf_lines

abbrev caller : Side
caller = record { ip = 4096; symbol = codes "main"; offset = 66; dso = codes "(app)" }

abbrev callee : Side
callee = record { ip = 8192; symbol = codes "std::sort"; offset = 0; dso = codes "(lib.so)" }

parse_kernel_version-text_example :
    parse_kernel_version
      (codes "Linux version " ++ (decimal 6 ++ (codes "." ++ (decimal 8 ++ codes ".0"))))
    ≡ record { major = pos 6; minor = pos 8 }
parse_kernel_version-text_example =
    parse_kernel_version-text 6 8 (codes ".0") (omega arith) (omega arith) refl

two_pids-IsPid : All IsPid (codes "12" ∷ codes "7" ∷ [])
two_pids-IsPid = (((refl, (refl, tt)), refl), (((refl, tt), refl), tt))

parse_pids-pid_list_example :
    parse_pids (pid_list (codes "12" ∷ codes "7" ∷ [])) ≡ codes "12" ∷ codes "7" ∷ []
parse_pids-pid_list_example = parse_pids-pid_list (codes "12" ∷ codes "7" ∷ []) two_pids-IsPid

abbrev sampling_config : PerfConfig
sampling_config = record {
  multi_thread = true;
  full_execution = false;
  sampling = true;
  snapshot_size_pages = 64;
  trace_scope = kernel;
  timer_resolution = high;
  working_directory = codes "/tmp";
}

abbrev modern : PerfCapabilities
modern = detect_capabilities true false (some (codes "Linux version 6.1"))

-- A line of `perf script` is parsed to the branch that it shows.
parse_branch_line : feed_lines (take 1 perf_lines) new_parser ≡ branch_event 100 call_branch ∷ []
unfolding equal starts_with Scan.find_text Scan.rfind_text Scan.read_digits Scan.from_chars
    Scan.parse_hex64 Scan.parse_uint32 Scan.parse_int32 Scan.skip_spaces Scan.consume_digits
    Scan.consume_hex Scan.trim_end Branches.parse_branch_kind Branches.strip_start
    Branches.strip_end Branches.parse_kind_and_trace Branches.parse_time
    Branches.parse_symbol_and_offset Branches.parse_location Branches.is_address
    Branches.find_address Branches.trim_kind Branches.parse_source Branches.parse_destination
    Branches.parse_sides Branches.parse_branches Parser.word Parser.error_time Parser.error_id
    Parser.error_ip Parser.error_message Parser.parse_decode_error Parser.parse_name
    Parser.parse_tid Parser.parse_header Parser.parse_frames Parser.parse_power Parser.parse_sample
    Parser.parse_payload Parser.parse_ok Parser.parse_group Parser.is_continuation_line
    Parser.flush_accumulated Parser.feed_line Parser.finish Parser.feed_lines
parse_branch_line = refl

-- A decode error, with its fields.
parse_error_line :
    feed_lines (drop 2 perf_lines) new_parser
    ≡ error (record { pid = 7; tid = 8; time_ns = some 140; ip = none; message = codes "lost" })
      ∷ []
unfolding equal starts_with Scan.find_text Scan.rfind_text Scan.read_digits Scan.from_chars
    Scan.parse_hex64 Scan.parse_uint32 Scan.parse_int32 Scan.skip_spaces Scan.consume_digits
    Scan.consume_hex Scan.trim_end Branches.parse_branch_kind Branches.strip_start
    Branches.strip_end Branches.parse_kind_and_trace Branches.parse_time
    Branches.parse_symbol_and_offset Branches.parse_location Branches.is_address
    Branches.find_address Branches.trim_kind Branches.parse_source Branches.parse_destination
    Branches.parse_sides Branches.parse_branches Parser.word Parser.error_time Parser.error_id
    Parser.error_ip Parser.error_message Parser.parse_decode_error Parser.parse_name
    Parser.parse_tid Parser.parse_header Parser.parse_frames Parser.parse_power Parser.parse_sample
    Parser.parse_payload Parser.parse_ok Parser.parse_group Parser.is_continuation_line
    Parser.flush_accumulated Parser.feed_line Parser.finish Parser.feed_lines
parse_error_line = refl
