-- ===== src/Parser.antt =====
-- lib/perf_script_parser.cpp: the class `PerfScriptParser`, from the lines of `perf script` to events.
pub mod FlagTexts
pub mod Scan
pub mod Branches
pub mod Groups
pub mod Kinds
pub mod Numbers
pub mod Digits
pub mod Headers
pub mod Locations
pub mod Addresses
pub mod Flags
pub mod Sides
pub mod Arrow
pub mod Marks
pub mod Printed
pub mod BranchLines
use tracey_mctraceface.Base.{
  ℕ, suc, ◌+◌, ◌*◌, ◌^◌, ◌%◌, Bool, true, false, not, ◌&&◌, ◌||◌, List, [], ◌∷◌, ◌++◌, reverse,
  Option, none, some, Bytes, codes, equal, starts_with, is_empty, if◌then◌else◌, ltb, ◌==◌, length,
  take, drop, replicate, ◌-◌,
}
use tracey_mctraceface.Event.{
  Location, EventData, power, stacktrace, sample, EventSampleData, SampleEventName, branch_misses,
  cache_misses, OkEvent, DecodeError, Event, ok, error,
}
use tracey_mctraceface.Parser.Scan.{
  map_option, value_or, find_text, rfind_text, drop_while, take_while, is_space, is_digit,
  is_lower_hex, is_hex, decimal_digit, hex_digit, read_digits, from_chars, parse_hex64,
  parse_uint32, parse_int32, skip_spaces, consume_digits, consume_hex, trim_end, ends_with,
}
use tracey_mctraceface.Parser.Branches.{parse_location, parse_time, parse_branches}

-- `s.substr(from + count)` of a position that was found, if one was.
abbrev behind : Bytes → ℕ → Option ℕ → Option Bytes
behind s count = map_option (λ from. drop (from + count) s)

-- The text up to the next space.
unfoldable pub word : Bytes → Bytes
word s = elim (find_text (codes " ") s) [ some space ↦ take space s | none ↦ s ]

-- The field "time ".
unfoldable pub error_time : Bytes → Option ℕ
error_time s = elim (behind s 5 (find_text (codes "time ") s)) [
  | none ↦ none
  | some t ↦
      let (hi, t') = consume_digits t in
      if starts_with t' (codes ".")
      then (let (lo, t'') = consume_digits (drop 1 t') in some (parse_time hi lo))
      else none
]

-- The fields "pid " and "tid ".
unfoldable pub error_id : Bytes → Bytes → ℕ
error_id key s = value_or 0 (map_option parse_int32 (behind s 4 (find_text key s)))

-- The field "ip ".
unfoldable pub error_ip : Bytes → Option ℕ
error_ip s = elim (behind s 3 (find_text (codes "ip ") s)) [
  | none ↦ none
  | some i ↦ if equal (word i) (codes "0") then none else some (parse_hex64 (word i))
]

-- The message behind "code N: ".
unfoldable pub error_message : Bytes → Bytes
error_message s = elim (behind s 0 (find_text (codes "code ") s)) [
  | none ↦ []
  | some c ↦ value_or [] (behind c 2 (find_text (codes ": ") c))
]

unfoldable pub parse_decode_error : Bytes → Option DecodeError
parse_decode_error line =
    let s = skip_spaces line in
    if starts_with s (codes "instruction trace error")
    then some (record {
      pid = error_id (codes "pid ") s;
      tid = error_id (codes "tid ") s;
      time_ns = error_time s;
      ip = error_ip s;
      message = error_message s;
    })
    else none

-- What the header line of a group says: "pid/tid time_hi.time_lo: period event_name/config:selector:rest"
pub record Header : Type 0 where
  pub pid : ℕ
  pub tid : ℕ
  pub time_ns : ℕ
  pub event_name : Bytes
  pub rest : Bytes

abbrev pub is_name : ℕ → Bool
is_name c = not (c == b'/') && not (c == b':') && not (c == b' ')

-- From behind the colon of the time.
unfoldable pub parse_name : ℕ → ℕ → ℕ → Bytes → Header
parse_name pid tid time_ns s =
    let (period, s₁) = consume_digits (skip_spaces s) in
    let s₂ = skip_spaces s₁ in
    record {
      pid = pid;
      tid = tid;
      time_ns = time_ns;
      event_name = take_while is_name s₂;
      rest = drop_while (λ c. not (c == b' ')) (drop_while is_name s₂);
    }

-- From behind the slash.
unfoldable pub parse_tid : ℕ → Bytes → Option Header
parse_tid pid s =
    let (tid, s₁) = consume_digits s in
    let (time_hi, s₂) = consume_digits (skip_spaces s₁) in
    if starts_with s₂ (codes ".")
    then (let (time_lo, s₃) = consume_digits (drop 1 s₂) in
        if starts_with s₃ (codes ":")
        then some (parse_name pid (parse_uint32 tid) (parse_time time_hi time_lo) (drop 1 s₃))
        else none)
    else none

unfoldable pub parse_header : Bytes → Option Header
parse_header line =
    let (pid, s) = consume_digits (skip_spaces line) in
    if not (is_empty pid) && starts_with s (codes "/")
    then parse_tid (parse_uint32 pid) (drop 1 s)
    else none

-- The frames of the lines behind the header, the innermost last.
unfoldable pub parse_frames : List Bytes → List Location
parse_frames [] = []
parse_frames (line ∷ lines) =
    let (hex, entry) = consume_hex (skip_spaces line) in
    let frames = parse_frames lines in
    if is_empty hex then frames else frames ++ parse_location hex (skip_spaces entry) ∷ []

unfoldable pub parse_power : Bytes → Option EventData
parse_power rest =
    map_option (λ f. power (parse_uint32 f)) (behind rest 6 (find_text (codes "freq: ") rest))

unfoldable pub parse_sample : SampleEventName → List Bytes → Option EventData
parse_sample name [] = none
parse_sample name (line ∷ lines) =
    let (hex, entry) = consume_hex (skip_spaces line) in
    some (
      sample (record { location = parse_location hex (skip_spaces entry); count = 1; name = name }))

-- The data of the event, by its name.
unfoldable pub parse_payload : Bytes → Bytes → List Bytes → Option EventData
parse_payload event_name rest lines =
    if equal event_name (codes "branches")
    then parse_branches rest
    else if equal event_name (codes "cbr")
    then parse_power rest
    else if equal event_name (codes "psb")
    then none
    else if equal event_name (codes "cycles")
    then some (stacktrace (parse_frames lines))
    else if equal event_name (codes "branch-misses")
    then parse_sample branch_misses lines
    else if equal event_name (codes "cache-misses")
    then parse_sample cache_misses lines
    else none

unfoldable pub parse_ok : Header → List Bytes → Option Event
parse_ok h lines =
    map_option (λ d. ok (record { pid = h.pid; tid = h.tid; time_ns = h.time_ns; payload = d }))
      (parse_payload h.event_name h.rest lines)

unfoldable pub parse_group : List Bytes → Option Event
parse_group [] = none
parse_group (header_line ∷ lines) = elim (parse_decode_error header_line) [
  | some err ↦ some (error err)
  | none ↦ elim (parse_header header_line) [ some h ↦ parse_ok h lines | none ↦ none ]
]

unfoldable pub is_continuation_line : Bytes → Bool
is_continuation_line [] = false
is_continuation_line (c ∷ line) = c == 9

pub record PerfScriptParser : Type 0 where
  pub accumulated_lines : List Bytes

abbrev pub new_parser : PerfScriptParser
new_parser = record { accumulated_lines = [] }

-- `parse_group` of no lines is no event, as the early return is.
unfoldable pub flush_accumulated : PerfScriptParser → PerfScriptParser × Option Event
flush_accumulated p = (new_parser, parse_group p.accumulated_lines)

unfoldable pub feed_line : Bytes → PerfScriptParser → PerfScriptParser × Option Event
feed_line line p =
    if is_empty line
    then flush_accumulated p
    else if is_continuation_line line
    then (record { accumulated_lines = p.accumulated_lines ++ line ∷ [] }, none)
    else let (p', result) = flush_accumulated p in
      (record { accumulated_lines = p'.accumulated_lines ++ line ∷ [] }, result)

unfoldable pub finish : PerfScriptParser → PerfScriptParser × Option Event
finish p = flush_accumulated p

-- The events of a list.
abbrev pub push : Option Event → List Event → List Event
push none es = es
push (some e) es = e ∷ es

-- Every line, and the end of the input.
unfoldable pub feed_lines : List Bytes → PerfScriptParser → List Event
feed_lines [] p = push (finish p).1 []
feed_lines (line ∷ lines) p = let (p', event) = feed_line line p in push event (feed_lines lines p')
