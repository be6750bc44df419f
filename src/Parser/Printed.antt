-- ===== src/Parser/Printed.antt =====
-- lib/perf_script_parser.cpp: what stands behind the header in a line of a branch.
use tracey_mctraceface.Base.{
  ℕ, ◌||◌, ◌+◌, ◌≡◌, refl, sym, ap, ◌∙◌, subst, Bool, true, ◌++◌, append_assoc, some, Bytes, codes,
  length, length-append, take, drop,
}
use tracey_mctraceface.Event.{BranchKind, TraceState, Location, BranchData, branch}
use tracey_mctraceface.Parser.Scan.{is_space}
use tracey_mctraceface.Parser.Branches.{parse_sides, parse_branches}
use tracey_mctraceface.Parser.Headers.{spaces, skip_spaces-spaces}
use tracey_mctraceface.Parser.Kinds.{flags_text, parse_kind_and_trace-flags}
use tracey_mctraceface.Parser.Locations.{hex, take_front}
use tracey_mctraceface.Parser.Marks.{is_marked, marked_lem}
use tracey_mctraceface.Parser.Numbers.{stops}
use tracey_mctraceface.Parser.Addresses.{hex-LowerHex, LowerHex-lacks, is_address-hex}
use tracey_mctraceface.Parser.Flags.{gap_text, find_address-text, trim_kind-flags}
use tracey_mctraceface.Parser.Sides.{
  location_text, side_text, IsSide, location_of, drop_all, parse_source-text,
  parse_destination-text,
}
use tracey_mctraceface.Parser.Arrow.{
  HasNoArrow, find_text-arrow, HasNoArrow-front, All-append, gap_even, flags_even, flags-stops,
}

-- What is printed for a side.
pub record Side : Type 0 where
  pub ip : ℕ
  pub symbol : Bytes
  pub offset : ℕ
  pub dso : Bytes

abbrev pub text_of : Side → Bytes
text_of s = side_text s.ip s.symbol s.offset s.dso

abbrev pub IsPrinted : Side → Type 0
IsPrinted s = IsSide s.ip s.symbol s.offset s.dso

abbrev pub place_of : Side → Location
place_of s = location_of s.ip s.symbol s.offset

-- A line of a branch behind its header, up to the arrow and as a whole.
abbrev pub before_text : BranchKind → TraceState → Bool → ℕ → ℕ → Side → Bytes
before_text k t tx g h from = flags_text k t ++ (gap_text tx g h ++ text_of from)

abbrev pub branch_text : BranchKind → TraceState → Bool → ℕ → ℕ → Side → ℕ → Side → Bytes
branch_text k t tx g h from pad to =
    before_text k t tx g h from ++ (codes " => " ++ (spaces pad ++ text_of to))

abbrev pub branch_of : BranchKind → TraceState → Bool → Side → Side → BranchData
branch_of k t tx from to = record {
  kind = some k;
  trace_state = t;
  in_transaction = tx || is_marked (location_text from.symbol from.offset from.dso);
  src = place_of from;
  dst = place_of to;
}

take_before : (xs ys zs : Bytes) → take (length (xs ++ ys)) (xs ++ (ys ++ zs)) ≡ xs ++ ys
take_before xs ys zs =
    ap (take (length (xs ++ ys))) (sym (append_assoc xs ys zs)) ∙ take_front (xs ++ ys) zs

drop_before : (xs ys zs : Bytes) → drop (length (xs ++ ys)) (xs ++ (ys ++ zs)) ≡ zs
drop_before xs ys zs =
    ap (drop (length (xs ++ ys))) (sym (append_assoc xs ys zs)) ∙ drop_all (xs ++ ys) zs

parse_sides-text :
    (k : BranchKind) (t : TraceState) (tx : Bool) (g h pad : ℕ) (from to : Side)
    → IsPrinted from
    → IsPrinted to
    → parse_sides (before_text k t tx g h from) (spaces pad ++ text_of to)
      ≡ some (branch (branch_of k t tx from to))
unfolding parse_sides
parse_sides-text k t tx g h pad from to a b =
    let flags = flags_text k t in
    let gap = gap_text tx g h in
    let side = text_of from in
    rw
      (
        parse_sides,
        marked_lem k t tx g h from.ip (location_text from.symbol from.offset from.dso),
        find_address-text k t tx g h side (is_address-hex from.ip _),
        take_before flags gap side,
        drop_before flags gap side,
        trim_kind-flags k t tx g h,
        parse_kind_and_trace-flags k t,
        parse_source-text from.ip from.symbol from.offset from.dso a,
        parse_destination-text pad to.ip to.symbol to.offset to.dso b,
      )
      refl

before-HasNoArrow :
    (k : BranchKind) (t : TraceState) (tx : Bool) (g h : ℕ) (from : Side)
    → HasNoArrow (codes " " ++ location_text from.symbol from.offset from.dso)
    → HasNoArrow (before_text k t tx g h from)
before-HasNoArrow k t tx g h from n =
    let flags = flags_text k t in
    let gap = gap_text tx g h in
    let loc = location_text from.symbol from.offset from.dso in
    let front = flags ++ (gap ++ hex from.ip) in
    let even = All-append flags (gap ++ hex from.ip) (flags_even k t) (
      All-append gap (hex from.ip) (gap_even tx g h)
        (LowerHex-lacks b'=' (hex from.ip) refl (hex-LowerHex from.ip))) in
    let split : front ++ (codes " " ++ loc) ≡ before_text k t tx g h from =
      append_assoc flags (gap ++ hex from.ip) (codes " " ++ loc)
      ∙ ap (◌++◌ flags) (append_assoc gap (hex from.ip) (codes " " ++ loc)) in
    subst HasNoArrow split (HasNoArrow-front front loc even n)

behind_arrow :
    (before after : Bytes) → drop (length before + 4) (before ++ (codes " => " ++ after)) ≡ after
behind_arrow before after =
    let size : length before + 4 ≡ length (before ++ codes " => ") =
      sym (length-append before (codes " => ")) in
    ap (λ n. drop n (before ++ (codes " => " ++ after))) size
    ∙ drop_before before (codes " => ") after

pub parse_branches-text :
    (lead : ℕ) (k : BranchKind) (t : TraceState) (tx : Bool) (g h pad : ℕ) (from to : Side)
    → IsPrinted from
    → IsPrinted to
    → HasNoArrow (codes " " ++ location_text from.symbol from.offset from.dso)
    → parse_branches (spaces lead ++ branch_text k t tx g h from pad to)
      ≡ some (branch (branch_of k t tx from to))
unfolding parse_branches
parse_branches-text lead k t tx g h pad from to a b n =
    let before = before_text k t tx g h from in
    let after = spaces pad ++ text_of to in
    let line = branch_text k t tx g h from pad to in
    let split =
      append_assoc (flags_text k t) (gap_text tx g h ++ text_of from) (codes " => " ++ after) in
    let starts : stops is_space line ≡ true = ap (stops is_space) split ∙ flags-stops k t _ in
    rw
      (
        parse_branches,
        skip_spaces-spaces lead line starts,
        find_text-arrow before after (before-HasNoArrow k t tx g h from n),
        skip_spaces-spaces lead line starts,
        take_front before (codes " => " ++ after),
        behind_arrow before after,
      )
      (parse_sides-text k t tx g h pad from to a b)
