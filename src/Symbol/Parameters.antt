-- ===== src/Symbol/Parameters.antt =====
-- `strip_parameters`: where the name is cut.
use tracey_mctraceface.Base.{
  ℕ, suc, ◌+◌, ◌≡◌, ◌≢◌, refl, sym, ap, ◌∙◌, false, [], ◌∷◌, ◌++◌, Option, none, some, Bytes,
  length, take, arith, append-nil, All, subst,
}
use tracey_mctraceface.Base.Int.{ℤ, pos}
use tracey_mctraceface.Symbol.{
  preceded_by_operator, Strip, strip_byte, strip_step, strip_from, strip_start, cut,
  strip_parameters,
}

take-length-append : (xs ys : Bytes) → take (length xs) (xs ++ ys) ≡ xs
take-length-append [] ys = refl
take-length-append (x ∷ xs) ys = ap (◌∷◌ x) (take-length-append xs ys)

-- A byte that is none of `( { [ } ]`.
abbrev pub IsPlain : ℕ → Type 0
IsPlain c = (c ≢ b'(') × (c ≢ b'{') × (c ≢ b'[') × (c ≢ b'}') × (c ≢ b']')

abbrev at : ℕ → ℤ → Option ℕ → Strip
at index depth last_open = record {
  skip = false;
  index = index;
  depth = depth;
  last_open = last_open;
}

step_plain :
    (symbol : Bytes) (c : ℕ) (rest : Bytes) (index : ℕ) (depth : ℤ) (last_open : Option ℕ)
    → IsPlain c
    → strip_step symbol c rest (at index depth last_open) ≡ at index depth last_open
unfolding strip_step strip_byte
step_plain symbol c rest index depth last_open h = ground arith

step_open :
    (symbol rest : Bytes) (index : ℕ) (last_open : Option ℕ)
    → preceded_by_operator symbol index ≡ false
    → strip_step symbol b'(' rest (at index (pos 0) last_open) ≡ at index (pos 0) (some index)
unfolding strip_step strip_byte
step_open symbol rest index last_open e = rw e

strip_plain :
    (symbol xs rest : Bytes) (index : ℕ) (depth : ℤ) (last_open : Option ℕ)
    → All IsPlain xs
    → strip_from symbol (at index depth last_open) (xs ++ rest)
      ≡ strip_from symbol (at (length xs + index) depth last_open) rest
unfolding strip_from
strip_plain symbol [] rest index depth last_open h =
    ap (λ i. strip_from symbol (at i depth last_open) rest) (omega arith)
strip_plain symbol (x ∷ xs) rest index depth last_open h =
    ap (λ s. strip_from symbol (record s { index = suc index }) (xs ++ rest))
      (step_plain symbol x (xs ++ rest) index depth last_open h.0)
    ∙ strip_plain symbol xs rest (suc index) depth last_open h.1
    ∙ ap (λ i. strip_from symbol (at i depth last_open) rest) (omega arith)

abbrev pub signature : Bytes → Bytes → Bytes
signature name params = name ++ (b'(' ∷ params)

-- A function's name with its parameter list, in which no further `(` stands at the top, comes out as the
-- name: the list is cut off with its bracket. The name does not end in "operator".
pub strip_parameters-name :
    (name params : Bytes)
    → All IsPlain name
    → All IsPlain params
    → preceded_by_operator (signature name params) (length name) ≡ false
    → strip_parameters (signature name params) ≡ name
unfolding strip_parameters strip_from
strip_parameters-name name params n p op =
    let symbol = signature name params in
    let end = length params + suc (length name + 0) in
    let s : strip_from symbol strip_start symbol ≡ at end (pos 0) (some (length name + 0)) =
      strip_plain symbol name (b'(' ∷ params) 0 (pos 0) none n
      ∙ ap (λ s. strip_from symbol (record s { index = suc (length name + 0) }) params)
          (step_open symbol params (length name + 0) none
            (subst (λ i. preceded_by_operator symbol i ≡ false) (omega arith) op))
      ∙ ap (strip_from symbol (at (suc (length name + 0)) (pos 0) (some (length name + 0))))
          (sym (append-nil params))
      ∙ strip_plain symbol params [] (suc (length name + 0)) (pos 0) (some (length name + 0)) p in
    ap (λ x. cut x.last_open symbol) s
    ∙ ap (λ i. take i symbol) (omega arith)
    ∙ take-length-append name (b'(' ∷ params)

-- A symbol with no bracket is left as it is.
pub strip_parameters_plain : (s : Bytes) → All IsPlain s → strip_parameters s ≡ s
unfolding strip_parameters strip_from
strip_parameters_plain s h =
    ap (λ x. cut (strip_from s strip_start x).last_open s) (sym (append-nil s))
    ∙ ap (λ (x : Strip). cut x.last_open s) (strip_plain s s [] 0 (pos 0) none h)
