-- ===== src/Parser/Branches.antt =====
-- lib/perf_script_parser.cpp: the lines of branch events, and what they share with the others.
use tracey_mctraceface.Base.{
  ℕ, suc, ◌+◌, ◌*◌, ◌^◌, ◌%◌, ◌-◌, Bool, true, false, not, ◌&&◌, ◌||◌, [], ◌∷◌, ◌++◌, Option, none,
  some, Bytes, codes, equal, starts_with, is_empty, if◌then◌else◌, ◌==◌, length, take, drop,
  replicate,
}
use tracey_mctraceface.Event.{
  BranchKind, call, return, jump, syscall, sysret, hardware_interrupt, interrupt, iret, async,
  tx_abort, TraceState, unchanged, start, end, Location, EventData, branch,
}
use tracey_mctraceface.Parser.Scan.{
  map_option, value_or, find_text, rfind_text, drop_while, take_while, is_lower_hex, decimal_digit,
  from_chars, parse_hex64, skip_spaces, consume_hex, trim_end, ends_with,
}

unfoldable pub parse_branch_kind : Bytes → Option BranchKind
parse_branch_kind kind_str =
    if equal kind_str (codes "call")
    then some call
    else if equal kind_str (codes "return")
    then some return
    else if equal kind_str (codes "jmp") || equal kind_str (codes "jcc")
    then some jump
    else if equal kind_str (codes "syscall")
    then some syscall
    else if equal kind_str (codes "sysret")
    then some sysret
    else if equal kind_str (codes "hw int")
    then some hardware_interrupt
    else if equal kind_str (codes "int")
    then some interrupt
    else if equal kind_str (codes "iret")
    then some iret
    else if equal kind_str (codes "async")
    then some async
    else if equal kind_str (codes "tx abrt")
    then some tx_abort
    else none

pub record KindAndTraceState : Type 0 where
  pub kind : Option BranchKind
  pub trace_state : TraceState

-- Without one space in front.
abbrev drop_space : Bytes → Bytes
drop_space raw = if starts_with raw (codes " ") then drop 1 raw else raw

-- The block of `parse_kind_and_trace` on "tr strt".
unfoldable pub strip_start : Bytes → Bool × Bytes
strip_start raw =
    if starts_with raw (codes "tr strt")
    then (
      true,
      if starts_with (drop 7 raw) (codes " jmp") then codes "jmp" else drop_space (drop 7 raw),
    )
    else (false, raw)

-- The block of `parse_kind_and_trace` on "tr end".
unfoldable pub strip_end : Bytes → Bool × Bytes
strip_end raw =
    if starts_with raw (codes "tr end")
    then (
      true,
      if starts_with (drop 6 raw) (codes "  ")
          then drop 2 (drop 6 raw)
          else drop_space (drop 6 raw),
    )
    else (false, raw)

abbrev trace_state_of : (starts_trace ends_trace : Bool) → TraceState
trace_state_of true false = start
trace_state_of false true = end
trace_state_of _ _ = unchanged

unfoldable pub parse_kind_and_trace : Bytes → KindAndTraceState
parse_kind_and_trace raw =
    let (starts_trace, raw₁) = strip_start raw in
    let (ends_trace, raw₂) = strip_end raw₁ in
    record { kind = parse_branch_kind raw₂; trace_state = trace_state_of starts_trace ends_trace }

unfoldable pub parse_time : Bytes → Bytes → ℕ
parse_time hi lo =
    let time_hi = value_or 0 (from_chars decimal_digit 10 (2 ^ 64) hi) in
    let lo_buf = take 9 lo ++ replicate (9 - length (take 9 lo)) b'0' in
    let time_lo = value_or 0 (from_chars decimal_digit 10 (2 ^ 64) lo_buf) in
    (time_hi * 1000000000 + time_lo) % 2 ^ 64

unfoldable pub parse_symbol_and_offset : Bytes → Bytes × ℕ
parse_symbol_and_offset str = elim (rfind_text (codes "+0x") str) [
  | some plus_pos ↦
      let sym = take plus_pos str in
      let offset_start = drop (plus_pos + 1) str in
      let offset_hex =
        value_or offset_start
          (map_option (λ space. take space offset_start) (find_text (codes " ") offset_start)) in
      (sym, parse_hex64 offset_hex % 2 ^ 32)
  | none ↦ (codes "[unknown]", 0)
]

unfoldable pub parse_location : Bytes → Bytes → Location
parse_location ip_hex sym_str =
    let (sym, offset) = parse_symbol_and_offset sym_str in
    record { ip = parse_hex64 ip_hex; symbol = sym; symbol_offset = offset }

-- A run of lower-case hex digits in front, with a space behind it.
unfoldable pub is_address : Bytes → Bool
is_address s =
    not (is_empty (take_while is_lower_hex s))
    && starts_with (drop_while is_lower_hex s) (codes " ")

-- The first address with a space in front: `addr_start`.
unfoldable pub find_address : Bytes → Option ℕ
find_address [] = none
find_address (c ∷ cs) =
    let rest = find_address cs in if c == b' ' && is_address cs then some 1 else map_option suc rest

-- The kind, from what stands before the address.
unfoldable pub trim_kind : Bytes → Bytes
trim_kind before =
    let raw_kind = trim_end before in
    if ends_with raw_kind (codes "(x)")
    then trim_end (take (length raw_kind - 3) raw_kind)
    else raw_kind

-- The address and the symbol of the source.
unfoldable pub parse_source : Bytes → Location
parse_source src_rest = elim (find_text (codes " ") src_rest) [
  | some src_space ↦
      parse_location (take src_space src_rest) (skip_spaces (drop src_space src_rest))
  | none ↦ parse_location src_rest []
]

unfoldable pub parse_destination : Bytes → Location
parse_destination after_arrow =
    let (dst_hex, dst_sv) = consume_hex (skip_spaces after_arrow) in
    parse_location dst_hex (skip_spaces dst_sv)

-- The two sides of the arrow.
unfoldable pub parse_sides : Bytes → Bytes → Option EventData
parse_sides before_arrow after_arrow =
    let found = find_text (codes "(x)") before_arrow in
    map_option
      (λ addr_start.
        let k = parse_kind_and_trace (trim_kind (take addr_start before_arrow)) in
        branch (record {
          kind = k.kind;
          trace_state = k.trace_state;
          in_transaction = value_or false (map_option (λ i. true) found);
          src = parse_source (drop addr_start before_arrow);
          dst = parse_destination after_arrow;
        }))
      (find_address before_arrow)

unfoldable pub parse_branches : Bytes → Option EventData
parse_branches rest =
    let r = skip_spaces rest in
    elim (find_text (codes " => ") r) [
      | some arrow ↦ parse_sides (take arrow r) (drop (arrow + 4) r)
      | none ↦ none
    ]
