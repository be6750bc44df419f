-- ===== src/Symbol/Templates.antt =====
-- `collapse_templates`: what it keeps and what it drops.
use tracey_mctraceface.Base.{
  ℕ, suc, ◌≡◌, ◌≢◌, refl, sym, ap, ◌∙◌, false, [], ◌∷◌, ◌++◌, Bytes, length, arith, append_assoc,
  append-nil, All,
}
use tracey_mctraceface.Symbol.{
  preceded_by_operator, Collapse, collapsed, open_angle, collapse_byte, collapse_step,
  collapse_from, collapse_start, collapse_templates,
}

-- A text in which every angle bracket has its partner.
pub data IsNested : Bytes → Type 0 where
  empty : IsNested []
  byte : {c : ℕ} {cs : Bytes} → c ≢ b'<' → c ≢ b'>' → IsNested cs → IsNested (c ∷ cs)
  angle :
      {xs ys zs : Bytes} → IsNested xs → IsNested ys → zs ≡ b'<' ∷ (xs ++ b'>' ∷ ys) → IsNested zs

abbrev pub inside : Bytes → ℕ → Collapse
inside result depth = record { skip = false; result = result; angle_depth = suc depth }

abbrev pub outside : Bytes → Collapse
outside result = record { skip = false; result = result; angle_depth = 0 }

pub step_byte :
    (c : ℕ) (rest result : Bytes) (depth : ℕ)
    → c ≢ b'<'
    → c ≢ b'>'
    → collapse_step c rest (inside result depth) ≡ inside result depth
unfolding collapse_step collapse_byte
step_byte c rest result depth a b = ground arith

pub step_open :
    (rest result : Bytes) (depth : ℕ)
    → collapse_step b'<' rest (inside result depth) ≡ inside result (suc depth)
unfolding collapse_step collapse_byte
step_open rest result depth = ground arith

pub step_close :
    (rest result : Bytes) (depth : ℕ)
    → collapse_step b'>' rest (inside result (suc depth)) ≡ inside result depth
unfolding collapse_step collapse_byte
step_close rest result depth = ground arith

pub step_leave : (rest result : Bytes) → collapse_step b'>' rest (inside result 0) ≡ outside result
unfolding collapse_step collapse_byte
step_leave rest result = ground arith

-- Outside, a byte that is no `<` is kept.
pub step_keep :
    (c : ℕ) (rest result : Bytes)
    → c ≢ b'<'
    → collapse_step c rest (outside result) ≡ outside (result ++ c ∷ [])
unfolding collapse_step collapse_byte
step_keep c rest result a = ground arith

-- `<` begins template parameters unless "operator" stands before it.
pub step_enter :
    (rest result : Bytes)
    → preceded_by_operator result (length result) ≡ false
    → collapse_step b'<' rest (outside result) ≡ inside (result ++ collapsed) 0
unfolding collapse_step collapse_byte open_angle
step_enter rest result e = rw e

-- Inside template parameters a nested text is dropped.
collapse-IsNested :
    {xs : Bytes} (result : Bytes) (depth : ℕ) (rest : Bytes)
    → IsNested xs
    → collapse_from (inside result depth) (xs ++ rest) ≡ collapse_from (inside result depth) rest
unfolding collapse_from
collapse-IsNested result depth rest empty = refl
collapse-IsNested result depth rest (byte {c} {cs} a b n) =
    ap (λ s. collapse_from s (cs ++ rest)) (step_byte c (cs ++ rest) result depth a b)
    ∙ collapse-IsNested result depth rest n
collapse-IsNested result depth rest (angle {xs} {ys} {zs} n m e) =
    ap (λ z. collapse_from (inside result depth) (z ++ rest)) e
    ∙ ap (λ z. collapse_from (inside result depth) (b'<' ∷ z)) (append_assoc xs (b'>' ∷ ys) rest)
    ∙ ap (λ s. collapse_from s (xs ++ (b'>' ∷ (ys ++ rest)))) (step_open _ result depth)
    ∙ collapse-IsNested result (suc depth) (b'>' ∷ (ys ++ rest)) n
    ∙ ap (λ s. collapse_from s (ys ++ rest)) (step_close (ys ++ rest) result depth)
    ∙ collapse-IsNested result depth rest m

abbrev pub HasNo : ℕ → Bytes → Type 0
HasNo c = All (λ d. d ≢ c)

collapse_plain :
    (xs result rest : Bytes)
    → HasNo b'<' xs
    → collapse_from (outside result) (xs ++ rest) ≡ collapse_from (outside (result ++ xs)) rest
unfolding collapse_from
collapse_plain [] result rest h = ap (λ r. collapse_from (outside r) rest) (sym (append-nil result))
collapse_plain (x ∷ xs) result rest h =
    ap (λ s. collapse_from s (xs ++ rest)) (step_keep x (xs ++ rest) result h.0)
    ∙ collapse_plain xs (result ++ x ∷ []) rest h.1
    ∙ ap (λ r. collapse_from (outside r) rest) (append_assoc result (x ∷ []) xs)

-- A name with template parameters, in which every angle bracket has its partner, comes out with its
-- parameters replaced by dots, whatever they are, and what stands around them is kept. The name does
-- not end in "operator".
pub collapse_templates-template :
    (name params after : Bytes)
    → HasNo b'<' name
    → preceded_by_operator name (length name) ≡ false
    → IsNested params
    → HasNo b'<' after
    → collapse_templates (name ++ (b'<' ∷ (params ++ (b'>' ∷ after))))
      ≡ name ++ (collapsed ++ after)
unfolding collapse_templates collapse_from
collapse_templates-template name params after n op p a =
    collapse_plain name [] (b'<' ∷ (params ++ (b'>' ∷ after))) n
    ∙ ap (λ s. collapse_from s (params ++ (b'>' ∷ after))) (step_enter _ name op)
    ∙ collapse-IsNested (name ++ collapsed) 0 (b'>' ∷ after) p
    ∙ ap (λ s. collapse_from s after) (step_leave after (name ++ collapsed))
    ∙ ap (collapse_from (outside (name ++ collapsed))) (sym (append-nil after))
    ∙ collapse_plain after (name ++ collapsed) [] a
    ∙ append_assoc name collapsed after

-- A symbol with no `<` is left as it is.
pub collapse_templates_plain : (s : Bytes) → HasNo b'<' s → collapse_templates s ≡ s
unfolding collapse_templates collapse_from
collapse_templates_plain s h =
    ap (collapse_from collapse_start) (sym (append-nil s)) ∙ collapse_plain s [] [] h
