-- ===== src/Sink/Contract.antt =====
-- lib/file_sink.cpp: that a file holds what was written to it.
use tracey_mctraceface.Base.{
  ℕ, zero, suc, ◌≡◌, refl, sym, ap, ◌∙◌, subst, inl, inr, Bool, true, false, List, [], ◌∷◌, ◌++◌,
  append-nil, Option, none, some, Bytes, ==_iff, Option-cases, length, take, arith, if◌then◌else◌,
}
use tracey_mctraceface.Base.Outcome.{ok, throws, done}
use tracey_mctraceface.Sink.{
  Stream, fwrite, fwrite_with, OutputSink, VectorSink, vector_write, FileSink, file_write,
  file_write_to, write_failed,
}

unfoldable pub concat : List Bytes → Bytes
concat [] = []
concat (piece ∷ pieces) = piece ++ concat pieces

pub take_all {ℓ} :
    {A : Type ℓ} (n : ℕ) (xs : List A) → length (take n xs) ≡ length xs → take n xs ≡ xs
take_all zero [] h = refl
take_all zero (x ∷ xs) h = ground arith
take_all (suc n) [] h = refl
take_all (suc n) (x ∷ xs) h = ap (◌∷◌ x) (take_all n xs (omega arith))

-- A call of `fwrite` that takes as many bytes as it is given has put them behind the others.
pub fwrite-contents :
    (bytes contents : Bytes) (shorts : List ℕ)
    → (fwrite_with bytes contents shorts).1 ≡ length bytes
    → (fwrite_with bytes contents shorts).0.contents ≡ contents ++ bytes
fwrite-contents bytes contents [] h = refl
fwrite-contents bytes contents (most ∷ shorts) h = ap (◌++◌ contents) (take_all most bytes h)

abbrev pub file_held : Option Stream → Bytes
file_held none = []
file_held (some f) = f.contents

abbrev pub IsFile : Option Stream → Type 0
IsFile none = ⊥
IsFile (some f) = Unit

pub Result-cases : (b : Bool) (e : Bytes) → (if b then ok done else throws e) ≡ ok done → b ≡ true
Result-cases true e h = refl
Result-cases false e h = ground arith

file_write_to-keeps :
    (bytes : Bytes) (f : Stream) (s s' : FileSink)
    → s.file ≡ some f
    → file_write_to bytes (some f) s ≡ (ok done, s')
    → IsFile s'.file × (file_held s'.file ≡ f.contents ++ bytes)
unfolding file_write_to
file_write_to-keeps [] f s s' e h =
    let file : s'.file ≡ some f = sym (ap (λ p. (p.1).file) h) ∙ e in
    rw file (tt, sym (append-nil f.contents))
file_write_to-keeps (b ∷ bytes) f s s' e h =
    let (f', written) = fwrite (b ∷ bytes) f in
    let all : written ≡ length (b ∷ bytes) =
      (==_iff written (length (b ∷ bytes))).0 (Result-cases _ write_failed (ap (λ p. p.0) h)) in
    let file : s'.file ≡ some (fwrite (b ∷ bytes) f).0 = sym (ap (λ p. (p.1).file) h) in
    rw file (tt, unfold fwrite in fwrite-contents (b ∷ bytes) f.contents f.shorts all)

pub file_write-keeps :
    (bytes : Bytes) (s s' : FileSink)
    → Unit {0}
    → IsFile s.file
    → file_write bytes s ≡ (ok done, s')
    → IsFile s'.file × (file_held s'.file ≡ file_held s.file ++ bytes)
unfolding file_write
file_write-keeps bytes s s' fits o h = elim (Option-cases s.file) [
  | inl null ↦ absurd (subst IsFile null o)
  | inr (f, e) ↦
      let kept =
        file_write_to-keeps bytes f s s' e (ap (λ x. file_write_to bytes x s) (sym e) ∙ h) in
      rw e kept
]

abbrev pub file_sink : OutputSink
file_sink = record {
  State = FileSink;
  write = file_write;
  held = λ s. file_held s.file;
  IsOpen = λ s. IsFile s.file;
  Fits = λ bytes. Unit {0};
  write_keeps = file_write-keeps;
}

pub vector_write-keeps :
    (bytes : Bytes) (s s' : VectorSink)
    → Unit {0}
    → Unit {0}
    → vector_write bytes s ≡ (ok done, s')
    → Unit {0} × (s'.buf ≡ s.buf ++ bytes)
unfolding vector_write
vector_write-keeps bytes s s' fits o h = (tt, sym (ap (λ p. (p.1).buf) h))

abbrev pub vector_sink : OutputSink
vector_sink = record {
  State = VectorSink;
  write = vector_write;
  held = λ s. s.buf;
  IsOpen = λ s. Unit {0};
  Fits = λ bytes. Unit {0};
  write_keeps = vector_write-keeps;
}
