-- ===== src/Symbol.antt =====
-- lib/shorten_symbol.cpp: the two passes over a symbol. A loop's `++i` in its body is the flag `skip`:
-- the next byte is passed over.
pub mod Templates
pub mod Idempotent
pub mod Parameters
use tracey_mctraceface.Base.{
  ℕ, suc, ◌+◌, ◌-◌, Bool, true, false, not, ◌&&◌, ◌||◌, List, [], ◌∷◌, ◌++◌, Option, none, some,
  Bytes, codes, equal, if◌then◌else◌, ◌==◌, ltb, length, take, drop,
}
use tracey_mctraceface.Base.Int.{ℤ, pos, suc_ℤ, pred_ℤ, is_zero}

abbrev pub operator_word : Bytes
operator_word = codes "operator"

unfoldable pub preceded_by_operator : Bytes → ℕ → Bool
preceded_by_operator s at =
    if ltb at 8 then false else equal (take 8 (drop (at - 8) s)) operator_word

-- `i + 1 < sym.size() && sym[i + 1] == c`, on what is behind `sym[i]`.
abbrev pub next_is : ℕ → Bytes → Bool
next_is c [] = false
next_is c (d ∷ ds) = d == c

-- The variables of the loop of `collapse_templates`. `angle_depth` is an `int` that never falls below 0.
pub record Collapse : Type 0 where
  pub skip : Bool
  pub result : Bytes
  pub angle_depth : ℕ

abbrev pub collapsed : Bytes
collapsed = codes "<...>"

-- `<` outside of template parameters; `rest` is behind it.
unfoldable pub open_angle : Bytes → Collapse → Collapse
open_angle rest s =
    if preceded_by_operator s.result (length s.result)
    then (if next_is b'<' rest
        then record s { result = s.result ++ codes "<<"; skip = true }
        else record s { result = s.result ++ codes "<" })
    else record s { result = s.result ++ collapsed; angle_depth = 1 }

-- The body of the loop, at a byte that is not passed over.
unfoldable pub collapse_byte : ℕ → Bytes → Collapse → Collapse
collapse_byte c rest s =
    if c == b'<' && s.angle_depth == 0
    then open_angle rest s
    else if c == b'<' && ltb 0 s.angle_depth
    then record s { angle_depth = s.angle_depth + 1 }
    else if c == b'>' && ltb 0 s.angle_depth
    then record s { angle_depth = s.angle_depth - 1 }
    else if s.angle_depth == 0
    then record s { result = s.result ++ c ∷ [] }
    else s

unfoldable pub collapse_step : ℕ → Bytes → Collapse → Collapse
collapse_step c rest s = if s.skip then record s { skip = false } else collapse_byte c rest s

unfoldable pub collapse_from : Collapse → Bytes → Bytes
collapse_from s [] = s.result
collapse_from s (c ∷ cs) = collapse_from (collapse_step c cs s) cs

abbrev pub collapse_start : Collapse
collapse_start = record { skip = false; result = []; angle_depth = 0 }

unfoldable pub collapse_templates : Bytes → Bytes
collapse_templates sym = collapse_from collapse_start sym

-- The variables of the loop of `strip_parameters`.
pub record Strip : Type 0 where
  pub skip : Bool
  pub index : ℕ
  pub depth : ℤ
  pub last_open : Option ℕ

-- The body of the loop, at a byte that is not passed over.
unfoldable pub strip_byte : Bytes → ℕ → Bytes → Strip → Strip
strip_byte sym c rest s =
    if c == b'{' || c == b'['
    then record s { depth = suc_ℤ s.depth }
    else if c == b'}' || c == b']'
    then record s { depth = pred_ℤ s.depth }
    else if c == b'(' && is_zero s.depth
    then (if preceded_by_operator sym s.index
        then record s { skip = next_is b')' rest }
        else record s { last_open = some s.index })
    else s

unfoldable pub strip_step : Bytes → ℕ → Bytes → Strip → Strip
strip_step sym c rest s = if s.skip then record s { skip = false } else strip_byte sym c rest s

unfoldable pub strip_from : Bytes → Strip → Bytes → Strip
strip_from sym s [] = s
strip_from sym s (c ∷ cs) =
    let s' = strip_step sym c cs s in strip_from sym (record s' { index = suc s.index }) cs

abbrev pub strip_start : Strip
strip_start = record { skip = false; index = 0; depth = pos 0; last_open = none }

abbrev pub cut : Option ℕ → Bytes → Bytes
cut none sym = sym
cut (some last_open) sym = take last_open sym

unfoldable pub strip_parameters : Bytes → Bytes
strip_parameters sym = cut (strip_from sym strip_start sym).last_open sym

unfoldable pub shorten_symbol : Bytes → Bytes
shorten_symbol symbol = strip_parameters (collapse_templates symbol)
