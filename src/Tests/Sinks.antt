-- ===== src/Tests/Sinks.antt =====
-- The sinks at concrete libraries: a codec that stores one byte at a time, and one that stores all.
use tracey_mctraceface.Base.{
  ℕ, ◌+◌, ◌<◌, ◌≤◌, ◌≡◌, refl, sym, ap, ◌∙◌, ◌⊎◌, inl, inr, Bool, true, false, List, [], ◌∷◌, ◌++◌,
  append-nil, Option, none, some, Bytes, codes, length, take, arith, All,
}
use tracey_mctraceface.Base.Int.{pos, is_positive}
use tracey_mctraceface.Base.Outcome.{ok, throws, done, ◌>>=◌, pure}
use tracey_mctraceface.Sink.{
  Stream, new_stream, write_all, fwrite, file_write, file_write_to, write_failed,
}
use tracey_mctraceface.Sink.Contract.{concat, file_sink}
use tracey_mctraceface.Sink.Errors.{on, Leaves, file_write_all-Leaves}
use tracey_mctraceface.Sink.Gzip.{Zlib, GzipSink}
use tracey_mctraceface.Sink.Zstd.{Call, Zstd, ZstdSink, zstd_session}
use tracey_mctraceface.Sink.Session.{budget}
use tracey_mctraceface.Sink.RoundTrip.{zstd_session-expands}

stored_takes : (f bytes : Bytes) → is_positive (pos (length bytes)) ≡ true → f ++ bytes ≡ f ++ bytes
stored_takes f bytes h = refl

abbrev stored_zlib : Zlib
stored_zlib = record {
  GzFile = Bytes;
  gzwrite = λ f bytes. (f ++ bytes, pos (length bytes));
  gzclose = λ f. f;
  expand = some;
  taken = λ f. f;
  gzwrite_takes = stored_takes;
  expand_closed = λ f. refl;
}

abbrev opened_gzip : Bytes → GzipSink stored_zlib
opened_gzip bytes = record { gz_file = some bytes }

abbrev pieces : List Bytes
pieces = codes "ab" ∷ [] ∷ codes "c" ∷ []

-- A disk that takes two bytes at once, then none.
abbrev full_disk : Stream
full_disk = new_stream (2 ∷ 0 ∷ [])

file_write_all-Leaves_example :
    Leaves (write_all file_sink pieces (on full_disk)) (full_disk.contents ++ concat pieces)
file_write_all-Leaves_example = file_write_all-Leaves pieces full_disk

full_disk_run :
    write_all file_sink pieces (on full_disk)
    ≡ (throws write_failed, on (record { contents = codes "ab"; shorts = [] }))
unfolding write_all file_write file_write_to fwrite ◌>>=◌ pure
full_disk_run = refl

-- The codec holds a byte until the next call; its end takes two calls.
abbrev pending : Option ℕ → Bytes
pending none = []
pending (some b) = b ∷ []

abbrev store : Option ℕ → Bytes → Bool → Call (Option ℕ)
store (some b) input is_end = record {
  context = none;
  consumed = 0;
  produced = b ∷ [];
  returned = 1;
  failed = false;
}
store none [] is_end = record {
  context = none;
  consumed = 0;
  produced = [];
  returned = 0;
  failed = false;
}
store none (b ∷ input) is_end = record {
  context = some b;
  consumed = 1;
  produced = [];
  returned = 1;
  failed = false;
}

abbrev held_back : Option ℕ → ℕ
held_back none = 0
held_back (some b) = 1

abbrev HasStored : Option ℕ → Bytes → Bytes → Type 0
HasStored c source frame = source ≡ frame ++ pending c

store-owed_le : (c : Option ℕ) → held_back c ≤ 1
store-owed_le none = omega arith
store-owed_le (some b) = omega arith

store-progress :
    (c : Option ℕ) (b : ℕ) (input : Bytes)
    → (store c (b ∷ input) false).failed ≡ false
    → (0 < (store c (b ∷ input) false).consumed)
      ⊎ (held_back (store c (b ∷ input) false).context < held_back c)
store-progress none b input h = inl (omega arith)
store-progress (some x) b input h = inr (omega arith)

store-end_progress :
    (c : Option ℕ)
    → (store c [] true).failed ≡ false
    → 0 < (store c [] true).returned
    → held_back (store c [] true).context < held_back c
store-end_progress none h r = absurd (omega arith)
store-end_progress (some x) h r = omega arith

store-HasStored :
    (c : Option ℕ) (input source frame : Bytes) (is_end : Bool)
    → (store c input is_end).failed ≡ false
    → HasStored c source frame
    → HasStored
        (store c input is_end).context
        (source ++ take (store c input is_end).consumed input)
        (frame ++ (store c input is_end).produced)
store-HasStored (some x) input source frame is_end h w =
    append-nil source ∙ (w ∙ sym (append-nil (frame ++ x ∷ [])))
store-HasStored none [] source frame is_end h w =
    append-nil source ∙ (w ∙ ap (λ l. l ++ []) (sym (append-nil frame)))
store-HasStored none (b ∷ input) source frame is_end h w = ap (λ l. l ++ b ∷ []) w

store-expands :
    (c : Option ℕ) (source frame : Bytes)
    → (store c [] true).failed ≡ false
    → (store c [] true).returned ≡ 0
    → HasStored c source frame
    → some (frame ++ (store c [] true).produced) ≡ some source
store-expands none source frame h r w = ap some (sym w)
store-expands (some x) source frame h r w = absurd (omega arith)

abbrev stored_zstd : Zstd
stored_zstd = record {
  Context = Option ℕ;
  compress = store;
  error_name = λ n. [];
  expand = some;
  owed = held_back;
  most_owed = 1;
  Wrote = HasStored;
  owed_le = store-owed_le;
  progress = store-progress;
  end_progress = store-end_progress;
  compress_wrote = store-HasStored;
  end_expands = store-expands;
}

store_fails_not :
    (c : Option ℕ) (input : Bytes) (is_end : Bool) → (store c input is_end).failed ≡ false
store_fails_not (some x) input is_end = refl
store_fails_not none [] is_end = refl
store_fails_not none (b ∷ input) is_end = refl

abbrev opened_zstd : ZstdSink stored_zstd
opened_zstd = record { file = some (new_stream []); ctx = some none }

budgets : All (λ piece. budget 1 piece + 1 < 11) pieces
unfolding budget
budgets = (omega arith, (omega arith, (omega arith, tt)))

zstd_session-expands_example :
    (f : Stream) × (zstd_session stored_zstd 10 pieces opened_zstd ≡ some (ok done, some f))
    × (some f.contents ≡ some (codes "abc"))
unfolding concat
zstd_session-expands_example =
    zstd_session-expands stored_zstd 10 pieces [] none (new_stream []) store_fails_not (omega arith)
      budgets refl refl

abbrev crowded_zstd : ZstdSink stored_zstd
crowded_zstd = record { file = some full_disk; ctx = some none }
