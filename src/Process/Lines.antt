-- ===== src/Process/Lines.antt =====
-- lib/subprocess.cpp: the lines that the loop over `read_line` goes over.
use tracey_mctraceface.Base.{
  ℕ, zero, suc, ◌<◌, ◌≡◌, refl, sym, ap, ◌∙◌, ◌⊎◌, inl, inr, true, false, not, List, [], ◌∷◌, ◌++◌,
  append-nil, append_assoc, some, Bytes, is_empty, if◌then◌else◌, ◌==◌, ==_iff, Bool-cases, length,
  length-append, arith, All,
}
use tracey_mctraceface.Base.Int.{ℤ}
use tracey_mctraceface.Process.{Subprocess, read_from, read_line, read_lines}

-- A text with no end of a line in it.
abbrev pub NoNewline : Bytes → Type 0
NoNewline = All (λ c. (c == 10) ≡ false)

-- Lines as they are printed.
unfoldable pub unlines : List Bytes → Bytes
unlines [] = []
unlines (line ∷ lines) = line ++ 10 ∷ unlines lines

-- The text with its last line ended, where it is not.
unfoldable pub complete : Bytes → Bytes
complete [] = []
complete (c ∷ []) = if c == 10 then c ∷ [] else c ∷ 10 ∷ []
complete (c ∷ d ∷ cs) = c ∷ complete (d ∷ cs)

complete-other :
    (c : ℕ) (cs : Bytes)
    → (c == 10) ≡ false
    → is_empty cs ≡ false
    → complete (c ∷ cs) ≡ c ∷ complete cs
unfolding complete
complete-other c [] h e = absurd (ground arith)
complete-other c (d ∷ cs) h e = refl

complete-newline : (cs : Bytes) → complete (10 ∷ cs) ≡ 10 ∷ complete cs
unfolding complete
complete-newline [] = refl
complete-newline (d ∷ cs) = refl

complete-line :
    (line rest : Bytes) → NoNewline line → complete (line ++ 10 ∷ rest) ≡ line ++ 10 ∷ complete rest
unfolding complete
complete-line [] rest h = complete-newline rest
complete-line (c ∷ []) rest h = ap (◌∷◌ c) (complete-newline rest)
complete-line (c ∷ d ∷ line) rest h = ap (◌∷◌ c) (complete-line (d ∷ line) rest h.1)

complete-last :
    (line : Bytes) → NoNewline line → is_empty line ≡ false → complete line ≡ line ++ 10 ∷ []
unfolding complete
complete-last [] h e = absurd (ground arith)
complete-last (c ∷ []) h e = rw (h.0) refl
complete-last (c ∷ d ∷ line) h e = ap (◌∷◌ c) (complete-last (d ∷ line) h.1 refl)

-- The two ways that `read_line` ends: at the end of a line, and at the end of the pipe.
read_from-cases :
    (line bytes : Bytes)
    → ((xs : Bytes) × (rest : Bytes) × (bytes ≡ xs ++ 10 ∷ rest)
        × NoNewline xs
        × (read_from line bytes ≡ (line ++ xs, rest, true)))
      ⊎ (NoNewline bytes
          × (read_from line bytes ≡ (line ++ bytes, [], not (is_empty (line ++ bytes)))))
unfolding read_from
read_from-cases line [] = inr (tt, rw (append-nil line) refl)
read_from-cases line (c ∷ cs) = elim (Bool-cases (c == 10)) [
  | inl newline ↦
      let same : c ≡ 10 = (==_iff c 10).0 newline in
      inl ([], cs, ap (λ x. x ∷ cs) same, tt, rw (newline, append-nil line) refl)
  | inr other ↦ elim (read_from-cases (line ++ c ∷ []) cs) [
    | inl (xs, rest, split, free, e) ↦ inl (
      c ∷ xs,
      rest,
      ap (◌∷◌ c) split,
      (other, free),
      rw other (e ∙ ap (λ x. (x, rest, true)) (append_assoc line (c ∷ []) xs)),
    )
    | inr (free, e) ↦ inr (
      (other, free),
      rw other (e ∙ ap (λ x. (x, [], not (is_empty x))) (append_assoc line (c ∷ []) cs)),
    )
  ]
]

abbrev pub from_pipe : ℤ → Bytes → Subprocess
from_pipe pid bytes = record { pipe = some bytes; pid = pid }

read_lines-end :
    (fuel : ℕ) (line : Bytes) (pid : ℤ)
    → 0 < fuel
    → read_lines fuel line (from_pipe pid []) ≡ some []
unfolding read_lines read_line read_from
read_lines-end zero line pid h = absurd (omega arith)
read_lines-end (suc fuel) line pid h = refl

last_line :
    (fuel : ℕ) (line : Bytes) (pid : ℤ) (bytes : Bytes)
    → length bytes < suc fuel
    → NoNewline bytes
    → read_from [] bytes ≡ (bytes, [], not (is_empty bytes))
    → (lines : List Bytes) × (read_lines (suc fuel) line (from_pipe pid bytes) ≡ some lines)
      × All NoNewline lines
      × (unlines lines ≡ complete bytes)
unfolding read_lines read_line unlines
last_line fuel line pid [] h free e = ([], unfold read_from in refl, tt, unfold complete in refl)
last_line fuel line pid (c ∷ cs) h free e = (
  (c ∷ cs) ∷ [],
  rw (e, read_lines-end fuel (c ∷ cs) pid (omega arith)) refl,
  (free, tt),
  sym (complete-last (c ∷ cs) free refl),
)

-- Whatever a child prints, the loop over `read_line` ends, and it goes over exactly the lines of it, in
-- order: none holds an end of a line, and with their ends they are the whole output, where the last
-- line counts whether it is ended or not.
pub read_lines-unlines :
    (fuel : ℕ) (line : Bytes) (pid : ℤ) (bytes : Bytes)
    → length bytes < fuel
    → (lines : List Bytes) × (read_lines fuel line (from_pipe pid bytes) ≡ some lines)
      × All NoNewline lines
      × (unlines lines ≡ complete bytes)
unfolding read_lines read_line unlines
read_lines-unlines zero line pid bytes h = absurd (omega arith)
read_lines-unlines (suc fuel) line pid bytes h = elim (read_from-cases [] bytes) [
  | inl (xs, rest, split, free, e) ↦
      let shorter : length rest < fuel =
        omega (arith, ap length split, length-append xs (10 ∷ rest)) in
      let (lines, goes, all, same) = read_lines-unlines fuel xs pid rest shorter in
      (
        xs ∷ lines,
        rw (e, goes) refl,
        (free, all),
        ap (λ x. xs ++ 10 ∷ x) same ∙ sym (ap complete split ∙ complete-line xs rest free),
      )
  | inr (free, e) ↦ last_line fuel line pid bytes h free e
]
