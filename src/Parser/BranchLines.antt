-- ===== src/Parser/BranchLines.antt =====
-- lib/perf_script_parser.cpp: a whole line of a branch, as `perf script` prints it.
use tracey_mctraceface.Base.{ℕ, Bytes, codes}
use tracey_mctraceface.Parser.Headers.{header_text}
use tracey_mctraceface.Parser.Numbers.{Digits}

abbrev pub line_text :
    (indent pid tid seconds nanoseconds gap period : ℕ) (config line : Bytes) → Bytes
line_text indent pid tid seconds nanoseconds gap period config line =
    header_text indent pid tid seconds nanoseconds gap period (codes "branches") config line
