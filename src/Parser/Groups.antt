-- ===== src/Parser/Groups.antt =====
-- The groups of lines that the parser makes events of.
use tracey_mctraceface.Base.{
  ◌≡◌, refl, sym, ap, ◌∙◌, Bool, true, false, List, [], ◌∷◌, ◌++◌, append_assoc, Bytes, is_empty,
  if◌then◌else◌, Bool-cases, inl, inr, arith,
}
use tracey_mctraceface.Event.{Event}
use tracey_mctraceface.Parser.{
  PerfScriptParser, new_parser, parse_group, is_continuation_line, flush_accumulated, feed_line,
  finish, push, feed_lines,
}

abbrev continues : List Bytes → Bool
continues [] = false
continues (line ∷ lines) = is_continuation_line line

-- `lines` in front of the first group, or as a group of their own.
abbrev join : List Bytes → List (List Bytes) → List (List Bytes)
join lines [] = lines ∷ []
join lines (group ∷ groups) = (lines ++ group) ∷ groups

abbrev attach : List Bytes → Bool → List (List Bytes) → List (List Bytes)
attach lines joined groups = if joined then join lines groups else lines ∷ groups

-- The lines in groups: a blank line is in none, and any other line is in the group of the next line if
-- that is a continuation line, and otherwise the last of its group.
abbrev pub group_lines : List Bytes → List (List Bytes)
group_lines [] = []
group_lines (line ∷ lines) =
    let groups = group_lines lines in
    if is_empty line then groups else attach (line ∷ []) (continues lines) groups

-- The events of the groups that have one.
abbrev pub events_of : List (List Bytes) → List Event
events_of [] = []
events_of (group ∷ groups) = push (parse_group group) (events_of groups)

abbrev parser : List Bytes → PerfScriptParser
parser lines = record { accumulated_lines = lines }

-- What the parser still makes of the lines, with `acc` accumulated.
abbrev pending : List Bytes → List Bytes → List (List Bytes)
pending [] lines = group_lines lines
pending (a ∷ acc) lines = attach (a ∷ acc) (continues lines) (group_lines lines)

join-attach :
    (xs ys : List Bytes) (joined : Bool) (groups : List (List Bytes))
    → join xs (attach ys joined groups) ≡ attach (xs ++ ys) joined groups
join-attach xs ys false groups = refl
join-attach xs ys true [] = refl
join-attach xs ys true (g ∷ groups) = ap (λ h. h ∷ groups) (sym (append_assoc xs ys g))

continuation-filled : (line : Bytes) → is_continuation_line line ≡ true → is_empty line ≡ false
unfolding is_continuation_line
continuation-filled [] h = ground arith
continuation-filled (c ∷ line) h = refl

-- A continuation line joins what is accumulated.
pending-join :
    (acc : List Bytes) (line : Bytes) (lines : List Bytes)
    → is_continuation_line line ≡ true
    → pending acc (line ∷ lines) ≡ pending (acc ++ line ∷ []) lines
pending-join [] line lines h = rw (continuation-filled line h) refl
pending-join (a ∷ acc) line lines h =
    rw (h, continuation-filled line h)
      (join-attach (a ∷ acc) (line ∷ []) (continues lines) (group_lines lines))

-- Any other line ends the group.
pending-split :
    (acc : List Bytes) (line : Bytes) (lines : List Bytes)
    → is_continuation_line line ≡ false
    → events_of (pending acc (line ∷ lines))
      ≡ push (parse_group acc) (events_of (group_lines (line ∷ lines)))
unfolding parse_group
pending-split [] line lines h = refl
pending-split (a ∷ acc) line lines h = rw h refl

feed_lines-pending :
    (lines acc : List Bytes) → feed_lines lines (parser acc) ≡ events_of (pending acc lines)
unfolding feed_lines feed_line flush_accumulated finish
feed_lines-pending [] [] = unfold parse_group in refl
feed_lines-pending [] (a ∷ acc) = refl
feed_lines-pending ([] ∷ lines) acc =
    ap (push (parse_group acc)) (feed_lines-pending lines [])
    ∙ sym (pending-split acc [] lines (unfold is_continuation_line in refl))
feed_lines-pending ((c ∷ line) ∷ lines) acc = elim (Bool-cases (is_continuation_line (c ∷ line))) [
  | inl joins ↦
      rw joins (feed_lines-pending lines (acc ++ (c ∷ line) ∷ []))
      ∙ ap events_of (sym (pending-join acc (c ∷ line) lines joins))
  | inr splits ↦
      rw splits (ap (push (parse_group acc)) (feed_lines-pending lines ((c ∷ line) ∷ [])))
      ∙ sym (pending-split acc (c ∷ line) lines splits)
]

-- Whatever the lines are, the events that the parser yields from line to line and at the end of the
-- input are, in order, the events that `parse_group` makes of the groups of the lines.
pub feed_lines-groups :
    (lines : List Bytes) → feed_lines lines new_parser ≡ events_of (group_lines lines)
feed_lines-groups lines = feed_lines-pending lines []
