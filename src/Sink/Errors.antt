-- ===== src/Sink/Errors.antt =====
-- lib/file_sink.cpp: what is in the file when a write has thrown.
use tracey_mctraceface.Base.{
  ℕ, ◌≡◌, refl, sym, ap, ◌∙◌, ◌↔◌, inl, inr, List, [], ◌∷◌, ◌++◌, append-nil, append_assoc,
  take-append-drop, length-take, length-drop, some, Bytes, ◌==◌, ==_iff, Bool-cases, length, take,
  drop, arith,
}
use tracey_mctraceface.Base.Outcome.{
  Result, ok, throws, Void, done, ok-throws, continue, ◌>>=◌, pure,
}
use tracey_mctraceface.Sink.{
  Stream, fwrite, fwrite_with, FileSink, file_write, file_write_to, write_failed, write_all,
}
use tracey_mctraceface.Sink.Contract.{concat, file_sink}

-- The sink of an open file.
abbrev pub on : Stream → FileSink
on f = record { file = some f }

length-zero : {A : Type 0} (xs : List A) → length xs ≡ 0 → xs ≡ []
length-zero [] h = refl
length-zero (x ∷ xs) h = absurd (ground arith)

fwrite-rest :
    (bytes contents : Bytes) (shorts : List ℕ)
    → let (f, written) = fwrite_with bytes contents shorts in
      (rest : Bytes) × (contents ++ bytes ≡ f.contents ++ rest)
      × ((written ≡ length bytes) ↔ (rest ≡ []))
fwrite-rest bytes contents [] = ([], sym (append-nil (contents ++ bytes)), (λ h. refl, λ h. refl))
fwrite-rest bytes contents (most ∷ shorts) = (
  drop most bytes,
  ap (◌++◌ contents) (sym (take-append-drop most bytes))
      ∙ sym (append_assoc contents (take most bytes) (drop most bytes)),
  (
    λ h.
        length-zero (drop most bytes)
          (omega (arith, length-take most bytes, length-drop most bytes)),
    λ h. ap length (
        sym (append-nil (take most bytes))
        ∙ ap (◌++◌ (take most bytes)) (sym h)
        ∙ take-append-drop most bytes),
  ),
)

-- The file that a call leaves, where `whole` was to be in it, and the bytes that are missing, which are
-- none just when the call did not throw.
abbrev pub Leaves : Result Void × FileSink → Bytes → Type 0
Leaves p whole =
    (r : Result Void) × (g : Stream) × (rest : Bytes) × (p ≡ (r, on g))
    × (whole ≡ g.contents ++ rest)
    × ((r ≡ ok done) ↔ (rest ≡ []))

file_write-Leaves :
    (bytes : Bytes) (f : Stream) → Leaves (file_write bytes (on f)) (f.contents ++ bytes)
unfolding file_write file_write_to fwrite
file_write-Leaves [] f = (ok done, f, [], refl, refl, (λ h. refl, λ h. refl))
file_write-Leaves (b ∷ bytes) f =
    let (g, written) = fwrite_with (b ∷ bytes) f.contents f.shorts in
    let (rest, split, all) = fwrite-rest (b ∷ bytes) f.contents f.shorts in
    elim (Bool-cases (written == length (b ∷ bytes))) [
      | inl whole ↦ (
        ok done,
        g,
        rest,
        rw whole refl,
        split,
        (λ h. all.0 ((==_iff written (length (b ∷ bytes))).0 whole), λ h. refl),
      )
      | inr short ↦ (
        throws write_failed,
        g,
        rest,
        rw short refl,
        split,
        (
          λ h. absurd (ok-throws (sym h)),
          λ h.
              absurd (let same = (==_iff written (length (b ∷ bytes))).1 (all.1 h) in ground arith),
        ),
      )
    ]

front_empty : (xs ys : Bytes) → xs ++ ys ≡ [] → xs ≡ []
front_empty [] ys h = refl
front_empty (x ∷ xs) ys h = absurd (ground arith)

after_write-Leaves :
    (pieces : List Bytes) (p : Result Void × FileSink) (whole : Bytes)
    → Leaves p whole
    → ((g : Stream) → Leaves (write_all file_sink pieces (on g)) (g.contents ++ concat pieces))
    → Leaves (continue (λ v. write_all file_sink pieces) p) (whole ++ concat pieces)
after_write-Leaves pieces p whole (ok done, g, rest, e, split, all) ends =
    let complete : whole ≡ g.contents =
      split ∙ (ap (◌++◌ g.contents) (all.0 refl) ∙ append-nil g.contents) in
    rw (e, complete) (ends g)
after_write-Leaves pieces p whole (throws m, g, rest, e, split, all) ends = (
  throws m,
  g,
  rest ++ concat pieces,
  ap (continue (λ v. write_all file_sink pieces)) e,
  ap (λ x. x ++ concat pieces) split ∙ append_assoc g.contents rest (concat pieces),
  (
    λ h. absurd (ok-throws (sym h)),
    λ h. absurd (ok-throws (sym (all.1 (front_empty rest (concat pieces) h)))),
  ),
)

-- When a client stops at the first exception, an open file holds what it held before and then exactly
-- the first bytes of the pieces, in order; it holds all of them just when no write threw.
pub file_write_all-Leaves :
    (pieces : List Bytes) (f : Stream)
    → Leaves (write_all file_sink pieces (on f)) (f.contents ++ concat pieces)
unfolding write_all concat ◌>>=◌ pure
file_write_all-Leaves [] f = (ok done, f, [], refl, refl, (λ h. refl, λ h. refl))
file_write_all-Leaves (piece ∷ pieces) f = rw (← append_assoc f.contents piece (concat pieces)) (
    after_write-Leaves pieces (file_write piece (on f)) (f.contents ++ piece)
      (file_write-Leaves piece f) (file_write_all-Leaves pieces))
