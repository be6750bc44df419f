-- ===== src/Symbol/Idempotent.antt =====
-- A symbol whose templates are collapsed is collapsed to itself.
use tracey_mctraceface.Base.{ℕ, ◌≡◌, true, false, ◌++◌, Bytes}
use tracey_mctraceface.Symbol.{next_is, Collapse, collapse_from}
use tracey_mctraceface.Symbol.Templates.{outside}

-- What a loop at `s` still appends for `xs`, and that a second pass, which stands outside with the same
-- result, appends the same for it.
record Again (s : Collapse) (xs : Bytes) : Type 0 where
  out : Bytes
  first : collapse_from s xs ≡ s.result ++ out
  second : collapse_from (outside s.result) out ≡ s.result ++ out
  -- Outside, a text that does not begin with `<` gives one that does not.
  head : s.skip ≡ false → s.angle_depth ≡ 0 → next_is b'<' xs ≡ false → next_is b'<' out ≡ false

abbrev at_depth : Bytes → ℕ → Collapse
at_depth result depth = record { skip = false; result = result; angle_depth = depth }

abbrev skipping : Bytes → Collapse
skipping result = record { skip = true; result = result; angle_depth = 0 }

abbrev Both : Bytes → Type 0
Both xs =
    ((result : Bytes) (depth : ℕ) → Again (at_depth result depth) xs)
    × ((result : Bytes) → Again (skipping result) xs)
