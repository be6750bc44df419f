-- ===== src/Sink/Gzip.antt =====
-- lib/compressed_sink.cpp: `GzipSink`, over the zlib library.
use tracey_mctraceface.Base.{
  ◌<◌, ◌%◌, ◌^◌, ◌≡◌, sym, ap, ◌∙◌, subst, inl, inr, true, not, [], ◌∷◌, ◌++◌, append-nil, Option,
  none, some, Bytes, codes, is_empty, if◌then◌else◌, length, take, length-take, arith, Option-cases,
}
use tracey_mctraceface.Base.Int.{ℤ, is_positive}
use tracey_mctraceface.Base.Outcome.{Result, ok, throws, Void, done, Action}
use tracey_mctraceface.Parser.Scan.{map_option}
use tracey_mctraceface.Sink.{OutputSink}
use tracey_mctraceface.Sink.Contract.{Result-cases, take_all}

-- What the sink relies on of zlib: a call of `gzwrite` that returns a positive number has taken the
-- bytes, and what `gzclose` leaves in the file expands to all that were taken.
pub record Zlib : Type 1 where
  pub GzFile : Type 0
  pub gzwrite : GzFile → Bytes → GzFile × ℤ
  pub gzclose : GzFile → Bytes
  pub expand : Bytes → Option Bytes
  pub taken : GzFile → Bytes
  pub gzwrite_takes :
      (f : GzFile) (bytes : Bytes)
      → is_positive (gzwrite f bytes).1 ≡ true
      → taken (gzwrite f bytes).0 ≡ taken f ++ bytes
  pub expand_closed : (f : GzFile) → expand (gzclose f) ≡ some (taken f)

module _ (z : Zlib) where
  open z use {GzFile, gzwrite, gzclose, expand, taken, gzwrite_takes, expand_closed}

  pub record GzipSink : Type 0 where
    pub gz_file : Option GzFile

  -- The constructor; `opened` is what `gzopen` gives.
  unfoldable pub new_gzip_sink : Bytes → Option GzFile → Result GzipSink
  new_gzip_sink path none = throws (codes "GzipSink: failed to open " ++ path)
  new_gzip_sink path (some f) = ok (record { gz_file = some f })

  abbrev pub write_failed : Bytes
  write_failed = codes "GzipSink: write failed"

  -- `static_cast<unsigned>(data.size())` bytes of the data.
  unfoldable pub first_bytes : Bytes → Bytes
  first_bytes bytes = take (length bytes % 2 ^ 32) bytes

  unfoldable pub gzip_write_to : Bytes → Option GzFile → Action GzipSink Void
  unfolding first_bytes
  gzip_write_to bytes none s = (ok done, s)
  gzip_write_to bytes (some f) s =
      if not (is_empty bytes)
      then (let (f', written) = gzwrite f (first_bytes bytes) in
          (
            if is_positive written then ok done else throws write_failed,
            record { gz_file = some f' },
          ))
      else (ok done, s)

  unfoldable pub gzip_write : Bytes → Action GzipSink Void
  gzip_write bytes s = gzip_write_to bytes s.gz_file s

  -- The sink after it, and what `gzclose` leaves in the file, if it is called.
  unfoldable pub gzip_close : GzipSink → GzipSink × Option Bytes
  gzip_close s = (record { gz_file = none }, map_option gzclose s.gz_file)

  abbrev pub gzip_held : Option GzFile → Bytes
  gzip_held none = []
  gzip_held (some f) = taken f

  abbrev pub IsGzFile : Option GzFile → Type 0
  IsGzFile none = ⊥
  IsGzFile (some f) = Unit

  pub first_bytes_all : (bytes : Bytes) → length bytes < 2 ^ 32 → first_bytes bytes ≡ bytes
  unfolding first_bytes
  first_bytes_all bytes h =
      take_all (length bytes % 2 ^ 32) bytes
        (omega (arith, length-take (length bytes % 2 ^ 32) bytes))

  gzip_write_to-keeps :
      (bytes : Bytes) (f : GzFile) (s s' : GzipSink)
      → length bytes < 2 ^ 32
      → s.gz_file ≡ some f
      → gzip_write_to bytes (some f) s ≡ (ok done, s')
      → IsGzFile s'.gz_file × (gzip_held s'.gz_file ≡ taken f ++ bytes)
  unfolding gzip_write_to
  gzip_write_to-keeps [] f s s' fits e h =
      let file : s'.gz_file ≡ some f = sym (ap (λ p. (p.1).gz_file) h) ∙ e in
      rw file (tt, sym (append-nil (taken f)))
  gzip_write_to-keeps (b ∷ bytes) f s s' fits e h =
      let given = first_bytes (b ∷ bytes) in
      let all = Result-cases (is_positive (gzwrite f given).1) write_failed (ap (λ p. p.0) h) in
      let file : s'.gz_file ≡ some (gzwrite f given).0 = sym (ap (λ p. (p.1).gz_file) h) in
      let whole = ap (◌++◌ (taken f)) (first_bytes_all (b ∷ bytes) fits) in
      rw file (tt, gzwrite_takes f given all ∙ whole)

  pub gzip_write-keeps :
      (bytes : Bytes) (s s' : GzipSink)
      → length bytes < 2 ^ 32
      → IsGzFile s.gz_file
      → gzip_write bytes s ≡ (ok done, s')
      → IsGzFile s'.gz_file × (gzip_held s'.gz_file ≡ gzip_held s.gz_file ++ bytes)
  unfolding gzip_write
  gzip_write-keeps bytes s s' fits o h = elim (Option-cases s.gz_file) [
    | inl null ↦ absurd (subst IsGzFile null o)
    | inr (f, e) ↦
        let kept =
          gzip_write_to-keeps bytes f s s' fits e (ap (λ x. gzip_write_to bytes x s) (sym e) ∙ h) in
        rw e kept
  ]

  abbrev pub gzip_sink : OutputSink
  gzip_sink = record {
    State = GzipSink;
    write = gzip_write;
    held = λ s. gzip_held s.gz_file;
    IsOpen = λ s. IsGzFile s.gz_file;
    Fits = λ bytes. length bytes < 2 ^ 32;
    write_keeps = gzip_write-keeps;
  }
