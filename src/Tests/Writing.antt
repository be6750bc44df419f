-- ===== src/Tests/Writing.antt =====
-- The writer.
use tracey_mctraceface.Base.{
  ℕ, ◌≤◌, ◌≡◌, refl, [], ◌∷◌, ◌++◌, some, codes, equal, arith, replicate, Bool-cases, inl, inr,
  subst,
}
use tracey_mctraceface.Table.{find, has_id}
use tracey_mctraceface.Wire.{string_header, raw}
use tracey_mctraceface.Writer.{
  FxtWriter, new_writer, truncate, intern_string, ensure_thread, emit_event, write_preamble,
  max_string_id, max_thread_slots, pad_to_word, padding, words_for_bytes, provider_name_len,
}
use tracey_mctraceface.Writer.Reader.{reader, resolve, read_all}
use tracey_mctraceface.Writer.Invariant.{StringsValid, equal_eq}
use tracey_mctraceface.Writer.Framing.{IsFramed, emit_event-IsFramed}
use tracey_mctraceface.Writer.Strings.{intern_string-resolve}
use tracey_mctraceface.Writer.Threads.{ThreadsValid, ensure_thread-slot}
use tracey_mctraceface.Writer.Slots.{ensure_thread_repeats}
use tracey_mctraceface.Writer.Eviction.{intern_string_takes_newest}
use tracey_mctraceface.Writer.Events.{read_event, emit_event-reads}
use tracey_mctraceface.Reconstructor.{Reconstructor, intern_symbol}
use tracey_mctraceface.Reconstructor.Stale.{intern_symbol_goes_stale}
use tracey_mctraceface.Symbol.{
  shorten_symbol, collapse_templates, collapse_from, collapse_step, collapse_byte, strip_parameters,
  strip_from, strip_step, strip_byte,
}
use tracey_mctraceface.Base.{sym, ap, ◌∙◌, ◌≢◌, is_empty, none}
use tracey_mctraceface.Tracker.{empty_tracker}
use tracey_mctraceface.Pipeline.{preamble_writer}
use tracey_mctraceface.Pipeline.Whole.{preamble_writer-IsSound}
use tracey_mctraceface.Tests.{thread_key, other_key}

next_id : (preamble_writer 5).next_string_id ≡ 1
unfolding preamble_writer write_preamble pad_to_word padding words_for_bytes provider_name_len
next_id = refl

emit_event-reads_example :
    (reader (emit_event 2 thread_key (codes "trace") (codes "work") 100 (preamble_writer 5))).events
    ≡ (reader (preamble_writer 5)).events
      ++ read_event 2 thread_key (codes "trace") (codes "work") 100 ∷ []
emit_event-reads_example =
    emit_event-reads 2 thread_key (codes "trace") (codes "work") 100 (preamble_writer 5)
      ((preamble_writer-IsSound 5).strings) ((preamble_writer-IsSound 5).threads)
      (omega (arith, next_id))

intern_string-resolve_example :
    (resolve
        (reader (intern_string (codes "work") (preamble_writer 5)).0).strings
        (intern_string (codes "work") (preamble_writer 5)).1
      ≡ some (truncate (codes "work")))
    × ((intern_string (codes "work") (preamble_writer 5)).1 ≤ max_string_id)
intern_string-resolve_example =
    intern_string-resolve (codes "work") (preamble_writer 5) ((preamble_writer-IsSound 5).strings)

ensure_thread-slot_example :
    ((reader (ensure_thread thread_key (preamble_writer 5)).0).threads
        (ensure_thread thread_key (preamble_writer 5)).1
      ≡ some thread_key)
    × (1 ≤ (ensure_thread thread_key (preamble_writer 5)).1)
    × ((ensure_thread thread_key (preamble_writer 5)).1 ≤ max_thread_slots)
ensure_thread-slot_example =
    ensure_thread-slot thread_key (preamble_writer 5) ((preamble_writer-IsSound 5).threads)

emit_event-IsFramed_example :
    IsFramed (emit_event 2 thread_key (codes "trace") (codes "work") 100 (preamble_writer 5))
emit_event-IsFramed_example =
    emit_event-IsFramed 2 thread_key (codes "trace") (codes "work") 100 (preamble_writer 5)
      ((preamble_writer-IsSound 5).framed)

-- A writer that has used up its numbers: all strings but the last have been evicted.
abbrev full_writer : FxtWriter
full_writer = record new_writer {
  sink = string_header 2 2 1 1 ∷ raw (codes "a") ∷ raw (replicate 7 0) ∷ [];
  string_table = (codes "a", 1) ∷ [];
  next_string_id = 32768;
}

full_writer-known :
    (id : ℕ)
    → find equal (codes "a") full_writer.string_table ≡ some id
    → (reader full_writer).strings id ≡ some (truncate (codes "a"))
unfolding read_all find truncate equal
full_writer-known id f =
    let e : 1 ≡ id = ground (arith, f) in
    subst (λ x. (reader full_writer).strings x ≡ some (truncate (codes "a"))) e refl

full_writer-StringsValid : StringsValid full_writer
unfolding read_all find truncate has_id
full_writer-StringsValid = record {
  distinct = (refl, refl, tt);
  below = (omega arith, omega arith, tt);
  next_pos = omega arith;
  next_bound = omega arith;
  full = λ h e. absurd (ground (arith, e));
  quiet = refl;
  known = λ s id f. elim (Bool-cases (equal (codes "a") s)) [
    | inl same ↦
        subst
          (λ x.
            find equal x full_writer.string_table ≡ some id
            → (reader full_writer).strings id ≡ some (truncate x))
          (equal_eq (codes "a") s same) (full_writer-known id) f
    | inr other ↦ absurd (ground (arith, f, other))
  ];
}

intern_string_takes_newest_example :
    let (w₁, id₁) = intern_string (codes "b") full_writer in
    let (w₂, id₂) = intern_string (codes "c") w₁ in
    (id₂ ≡ id₁) × (resolve (reader w₂).strings id₁ ≡ some (truncate (codes "c")))
intern_string_takes_newest_example =
    intern_string_takes_newest (codes "b") (codes "c") full_writer full_writer-StringsValid
      (omega arith) refl refl (λ e. absurd (ground (arith, e))) (unfold find equal in refl)
      (unfold find equal in refl)

abbrev wrapping_writer : FxtWriter
wrapping_writer = record new_writer { next_thread_slot = 255 }

wrapping_writer-ThreadsValid : ThreadsValid wrapping_writer
unfolding read_all find
wrapping_writer-ThreadsValid = record {
  distinct = tt;
  slots = tt;
  known = λ k slot f. absurd (ground arith);
}

ensure_thread_repeats_example :
    let (w₁, slot₁) = ensure_thread thread_key wrapping_writer in
    let (w₂, slot₂) = ensure_thread other_key w₁ in
    (slot₁ ≡ 1) × (slot₂ ≡ 1) × ((reader w₂).threads 1 ≡ some other_key)
ensure_thread_repeats_example =
    ensure_thread_repeats thread_key other_key wrapping_writer wrapping_writer-ThreadsValid refl
      refl (unfold find in refl) (unfold find in refl)

abbrev full_reconstructor : Reconstructor
full_reconstructor = record {
  tracker = empty_tracker;
  writer = full_writer;
  category_id = 1;
  symbol_id_cache = [];
}

short_b : shorten_symbol (codes "b") ≡ codes "b"
unfolding shorten_symbol collapse_templates collapse_from collapse_step collapse_byte
    strip_parameters strip_from strip_step strip_byte
short_b = refl

short_c : shorten_symbol (codes "c") ≡ codes "c"
unfolding shorten_symbol collapse_templates collapse_from collapse_step collapse_byte
    strip_parameters strip_from strip_step strip_byte
short_c = refl

names_differ : shorten_symbol (codes "b") ≢ shorten_symbol (codes "c")
names_differ e =
    let f : codes "b" ≡ codes "c" = sym short_b ∙ (e ∙ short_c) in absurd (ground (arith, f))

b_new : find equal (shorten_symbol (codes "b")) full_writer.string_table ≡ none
unfolding find equal
b_new = ap (λ s. find equal s full_writer.string_table) short_b

c_new : find equal (shorten_symbol (codes "c")) full_writer.string_table ≡ none
unfolding find equal
c_new = ap (λ s. find equal s full_writer.string_table) short_c

intern_symbol_goes_stale_example :
    let (r₁, id₁) = intern_symbol (codes "b") full_reconstructor in
    let (r₂, id₂) = intern_symbol (codes "c") r₁ in
    let (r₃, id₃) = intern_symbol (codes "b") r₂ in
    (id₃ ≡ id₁)
    × (resolve (reader r₃.writer).strings id₃ ≡ some (truncate (shorten_symbol (codes "c"))))
intern_symbol_goes_stale_example =
    intern_symbol_goes_stale (codes "b") (codes "c") full_reconstructor full_writer-StringsValid
      (omega arith) (ap is_empty short_b) (ap is_empty short_c) names_differ b_new c_new
      (unfold find in refl) (unfold find in refl)
