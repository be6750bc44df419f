-- ===== src/Parser/Marks.antt =====
-- lib/perf_script_parser.cpp: the mark of a transaction, which is looked for in all that stands in front
-- of the arrow.
use tracey_mctraceface.Base.{
  ℕ, suc, ◌≡◌, refl, ap, ◌∙◌, Bool, true, false, ◌||◌, [], ◌∷◌, ◌++◌, append_assoc, All, Option,
  some, none, Bytes, codes, starts_with, ◌==◌,
}
use tracey_mctraceface.Event.{BranchKind, TraceState}
use tracey_mctraceface.Parser.Scan.{map_option, value_or, find_text}
use tracey_mctraceface.Parser.Headers.{spaces}
use tracey_mctraceface.Parser.Kinds.{flags_text}
use tracey_mctraceface.Parser.Locations.{hex}
use tracey_mctraceface.Parser.Addresses.{hex-LowerHex, LowerHex-lacks}
use tracey_mctraceface.Parser.Flags.{gap_text}
use tracey_mctraceface.Parser.FlagTexts.{flags-Plain, spaces-Plain, Plain-lacks}

-- Whether "(x)" is found.
abbrev is_some : Option ℕ → Bool
is_some o = value_or false (map_option (λ i. true) o)

abbrev pub is_marked : Bytes → Bool
is_marked s = is_some (find_text (codes "(x)") s)

found_later : (o : Option ℕ) → is_some (map_option suc o) ≡ is_some o
found_later none = refl
found_later (some n) = refl

abbrev Unopened : Bytes → Type 0
Unopened = All (λ c. (c == b'(') ≡ false)

marked_behind : (q s : Bytes) → Unopened q → is_marked (q ++ s) ≡ is_marked s
unfolding find_text starts_with
marked_behind [] s h = refl
marked_behind (c ∷ q) s h =
    rw h.0 (found_later (find_text (codes "(x)") (q ++ s)) ∙ marked_behind q s h.1)

marked_here : (s : Bytes) → is_marked (codes "(x)" ++ s) ≡ true
unfolding find_text starts_with
marked_here s = refl

spaces-Unopened : (n : ℕ) → Unopened (spaces n)
spaces-Unopened n = Plain-lacks b'(' (spaces n) refl (spaces-Plain n)

marked_gap :
    (tx : Bool) (g h ip : ℕ) (loc : Bytes)
    → is_marked (gap_text tx g h ++ (hex ip ++ (codes " " ++ loc))) ≡ tx || is_marked loc
marked_gap true g h ip loc =
    let side = hex ip ++ (codes " " ++ loc) in
    ap is_marked (append_assoc (spaces (suc g)) (codes "(x)" ++ spaces (suc h)) side)
    ∙ marked_behind (spaces (suc g)) _ (spaces-Unopened (suc g))
    ∙ marked_here (spaces (suc h) ++ side)
marked_gap false g h ip loc =
    let digits = LowerHex-lacks b'(' (hex ip) refl (hex-LowerHex ip) in
    marked_behind (spaces (suc g)) (hex ip ++ (codes " " ++ loc)) (spaces-Unopened (suc g))
    ∙ marked_behind (hex ip) (codes " " ++ loc) digits
    ∙ marked_behind (codes " ") loc (refl, tt)

-- The mark is found where it is printed, or in the symbol or the object.
pub marked_lem :
    (k : BranchKind) (t : TraceState) (tx : Bool) (g h ip : ℕ) (loc : Bytes)
    → is_marked (flags_text k t ++ (gap_text tx g h ++ (hex ip ++ (codes " " ++ loc))))
      ≡ tx || is_marked loc
marked_lem k t tx g h ip loc =
    let flags = flags_text k t in
    marked_behind flags _ (Plain-lacks b'(' flags refl (flags-Plain k t)) ∙ marked_gap tx g h ip loc
