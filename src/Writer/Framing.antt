-- ===== src/Writer/Framing.antt =====
-- The output is a sequence of whole records: each begins with a header that states its size in words
-- of 8 bytes, and the pieces behind the header fill exactly that size.
mod Frames
unfoldable pub use Frames.{frame}
pub use Frames.{
  header_words, take_bytes, frame_header, frame_chunk, bind_frame, IsFramed, Lacks, frame-concat,
  emit-Lacks, take_bytes-add, take_bytes-eq, padding-eq, words_for_bytes-lt, rsize_of, rsize_words,
}
use tracey_mctraceface.Base.{
  ℕ, ◌+◌, ◌-◌, ◌*◌, ◌%◌, ◌^◌, ◌≤◌, ◌<◌, ◌≡◌, refl, ap, ◌∙◌, Bool, true, false, List, [], ◌∷◌, ◌++◌,
  Option, none, some, Bytes, codes, equal, is_empty, if◌then◌else◌, ltb, leb, ◌==◌, length, take,
  replicate, arith, Bool-cases, Option-cases, inl, inr, ltb→lt, length-replicate, length-take,
}
use tracey_mctraceface.Table.{find, erase_id}
use tracey_mctraceface.Tracker.{ThreadKey, same_key}
use tracey_mctraceface.Wire.{
  Chunk, magic_number, provider_info_header, provider_section, init_record, thread_record,
  string_header, event_header, kernel_object_header, arg_koid, raw, chunk_bytes,
}
use tracey_mctraceface.Writer.{
  FxtWriter, emit, padding, pad_to_word, words_for_bytes, truncate, emit_string_record, allocate_id,
  define_string, intern_string, emit_thread_record, write_process_name, write_thread_name, is_named,
  name_thread, assign_slot, next_slot, ensure_thread, write_event_by_id, emit_event, write_preamble,
  provider_name_len, decimal, fxt_magic,
}
use tracey_mctraceface.Writer.Invariant.{length-truncate}
use tracey_mctraceface.Writer.Strings.{allocate_id-sink}

pad_to_word-IsFramed :
    (n : ℕ) (w : FxtWriter) → Lacks (padding n) w.sink → IsFramed (pad_to_word n w)
unfolding pad_to_word
pad_to_word-IsFramed n w f = elim (Bool-cases (ltb 0 (padding n))) [
  | inl more ↦ rw more (
      emit-Lacks (raw (replicate (padding n) 0)) (padding n) 0 w.sink f
        (take_bytes-eq _ (padding n) 0 (omega (arith, length-replicate {0} {A = ℕ} (padding n) 0))))
  | inr nothing ↦ rw nothing (f ∙ ap some (ground arith))
]

-- A header of one word, `n` bytes and their padding make up one record.
payload-IsFramed :
    (header : Chunk) (bytes : Bytes) (n : ℕ) (w : FxtWriter)
    → n < 2 ^ 16
    → length bytes ≡ n
    → header_words header ≡ some (rsize_of n)
    → chunk_bytes header ≡ 8
    → IsFramed w
    → IsFramed (pad_to_word n (emit (raw bytes) (emit header w)))
payload-IsFramed header bytes n w fit len words eight f =
    pad_to_word-IsFramed n (emit (raw bytes) (emit header w)) (
      emit-Lacks (raw bytes) (n + padding n) (padding n) _
        (emit-Lacks header 0 (n + padding n) w.sink f (
          rw (words, eight) (take_bytes-eq 8 (8 * rsize_of n) (n + padding n) (rsize_words n fit))))
        (take_bytes-eq (length bytes) (n + padding n) (padding n) (omega (arith, len))))

emit_string_record-IsFramed :
    (id : ℕ) (s : Bytes) (w : FxtWriter) → IsFramed w → IsFramed (emit_string_record id s w)
unfolding emit_string_record
emit_string_record-IsFramed id s w f =
    let len = length (truncate s) % 2 ^ 16 in
    payload-IsFramed (string_header 2 (rsize_of len) id len) (take len (truncate s)) len w
      (omega arith) (omega (arith, length-truncate s, length-take len (truncate s))) refl refl f

pub intern_string-IsFramed :
    (s : Bytes) (w : FxtWriter) → IsFramed w → IsFramed (intern_string s w).0
unfolding intern_string define_string
intern_string-IsFramed s w f = elim (Bool-cases (is_empty s)) [
  | inl empty ↦ rw empty f
  | inr more ↦ elim (Option-cases (find equal s w.string_table)) [
    | inl new ↦
        rw (more, new, intern_string)
          (emit_string_record-IsFramed (allocate_id w).1 s
            (record (allocate_id w).0 {
              string_table = (s, (allocate_id w).1) ∷ (allocate_id w).0.string_table;
            })
            (ap (λ c. frame c 0) (allocate_id-sink w) ∙ f))
    | inr (id, old) ↦ rw (more, old, intern_string) f
  ]
]

-- Pieces of fixed size, at variable fields.
thread_record-IsFramed :
    (slot : ℕ) (k : ThreadKey) (w : FxtWriter) → IsFramed w → IsFramed (emit_thread_record slot k w)
unfolding emit_thread_record
thread_record-IsFramed slot k w f =
    emit-Lacks (thread_record 3 3 slot k.pid k.tid) 0 0 w.sink f refl

pub write_event_by_id-IsFramed :
    (ty slot cat name ts : ℕ) (w : FxtWriter)
    → IsFramed w
    → IsFramed (write_event_by_id ty slot cat name ts w)
unfolding write_event_by_id
write_event_by_id-IsFramed ty slot cat name ts w f =
    emit-Lacks (event_header 4 2 ty 0 slot cat name ts) 0 0 w.sink f refl

pub write_process_name-IsFramed :
    (pid : ℕ) (name : Bytes) (w : FxtWriter) → IsFramed w → IsFramed (write_process_name pid name w)
unfolding write_process_name
write_process_name-IsFramed pid name w f =
    emit-Lacks (kernel_object_header 7 2 1 (intern_string name w).1 0 pid) 0 0 _
      (intern_string-IsFramed name w f) refl

pub write_thread_name-IsFramed :
    (k : ThreadKey) (name : Bytes) (w : FxtWriter)
    → IsFramed w
    → IsFramed (write_thread_name k name w)
unfolding write_thread_name
write_thread_name-IsFramed k name w f =
    let (w', name_id) = intern_string name w in
    let (w'', id) = intern_string (codes "process") w' in
    emit-Lacks (arg_koid 8 2 id k.pid) 16 0 _
      (emit-Lacks (kernel_object_header 7 4 2 name_id 1 k.tid) 0 16 w''.sink
        (intern_string-IsFramed (codes "process") w' (intern_string-IsFramed name w f)) refl)
      refl

name_thread-IsFramed : (k : ThreadKey) (w : FxtWriter) → IsFramed w → IsFramed (name_thread k w)
unfolding name_thread
name_thread-IsFramed k w f =
    write_thread_name-IsFramed k _ (processed (is_named k.pid w.named_processes))
      (process (is_named k.pid w.named_processes))
  where
    named : FxtWriter
    named = record w { named_processes = k.pid ∷ w.named_processes }

    process_name : Bytes
    process_name = codes "[pid=" ++ (decimal k.pid ++ codes "]")

    processed : Bool → FxtWriter
    processed b = if b then w else write_process_name k.pid process_name named

    process : (b : Bool) → IsFramed (processed b)
    process true = f
    process false = write_process_name-IsFramed k.pid process_name named f

pub ensure_thread-IsFramed :
    (k : ThreadKey) (w : FxtWriter) → IsFramed w → IsFramed (ensure_thread k w).0
unfolding ensure_thread assign_slot
ensure_thread-IsFramed k w f = elim (Option-cases (find same_key k w.thread_table)) [
  | inl new ↦
      rw (new, ensure_thread)
        (name_thread-IsFramed k (assign_slot k w) (
          thread_record-IsFramed (next_slot w) k
            (record w {
              thread_table = (k, next_slot w) ∷ erase_id (next_slot w) w.thread_table;
              next_thread_slot = (w.next_thread_slot + 1) % 2 ^ 8;
            })
            f))
  | inr (slot, old) ↦ rw (old, ensure_thread) f
]

-- After a duration event the output is a sequence of whole records again, if it was one before: each
-- record is as long as its header says, also those of the strings and the thread that the event needs.
pub emit_event-IsFramed :
    (ty : ℕ) (k : ThreadKey) (cat name : Bytes) (ts : ℕ) (w : FxtWriter)
    → IsFramed w
    → IsFramed (emit_event ty k cat name ts w)
unfolding emit_event
emit_event-IsFramed ty k cat name ts w f =
    let (w₁, slot) = ensure_thread k w in
    let (w₂, cat_id) = intern_string cat w₁ in
    let (w₃, name_id) = intern_string name w₂ in
    emit-Lacks (event_header 4 2 ty 0 slot cat_id name_id ts) 0 0 w₃.sink
      (intern_string-IsFramed name w₂
        (intern_string-IsFramed cat w₁ (ensure_thread-IsFramed k w f)))
      refl

name_length : (name : Bytes) → length (take (provider_name_len name) name) ≡ provider_name_len name
unfolding provider_name_len
name_length name = elim (Bool-cases (ltb 255 (length name))) [
  | inl long ↦ rw long (omega (arith, ltb→lt 255 (length name) long, length-take 255 name))
  | inr short ↦
      let small : length name ≤ 255 = ground arith in
      rw short (omega (arith, length-take (length name % 2 ^ 8) name))
]

-- After the preamble the output is a sequence of whole records, if it was one before: the provider's
-- name, cut off at 255 bytes, is padded to the words that its header announces.
pub write_preamble-IsFramed :
    (name : Bytes) (id ticks base_ticks base_time : ℕ) (w : FxtWriter)
    → IsFramed w
    → IsFramed (write_preamble name id ticks base_ticks base_time w)
unfolding write_preamble provider_name_len
write_preamble-IsFramed name id ticks base_ticks base_time w f =
    let n = provider_name_len name in
    emit-Lacks (init_record 1 4 ticks base_ticks base_time) 0 0 _
      (emit-Lacks (provider_section 0 1 2 id) 0 0 _
        (payload-IsFramed (provider_info_header 0 (rsize_of n) 1 id n) (take n name) n
          (emit (magic_number fxt_magic) w) (omega arith) (name_length name) refl refl
          (emit-Lacks (magic_number fxt_magic) 0 0 w.sink f refl))
        refl)
      refl
