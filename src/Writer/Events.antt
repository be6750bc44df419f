-- ===== src/Writer/Events.antt =====
-- What a reader of the trace sees of an event: the thread, the category and the name that it was
-- written with.
use tracey_mctraceface.Base.{
  ℕ, ◌+◌, ◌≤◌, ◌≡◌, refl, ap, ◌∙◌, Bool, true, false, [], ◌∷◌, ◌++◌, Option, some, Bytes, codes,
  is_empty, if◌then◌else◌, arith, Bool-cases, Option-cases, inl, inr, ◌%◌, ◌^◌,
}
use tracey_mctraceface.Table.{find, erase_id}
use tracey_mctraceface.Tracker.{ThreadKey, same_key}
use tracey_mctraceface.Wire.{Chunk, thread_record, kernel_object_header, arg_koid, event_header}
use tracey_mctraceface.Writer.{
  FxtWriter, emit, truncate, emit_thread_record, intern_string, max_string_id, write_process_name,
  write_thread_name, is_named, name_thread, next_slot, assign_slot, ensure_thread, decimal,
  emit_event,
}
use tracey_mctraceface.Writer.Reader.{Reader, ReadEvent, reader, read_chunk, resolve}
use tracey_mctraceface.Writer.Invariant.{StringsOk-subst, StringsValid, reader-emit}
use tracey_mctraceface.Writer.Strings.{
  intern_string-StringsValid, intern_string-resolve, intern_string-find, resolve_entry,
  resolve_empty,
}
use tracey_mctraceface.Writer.Threads.{
  ThreadsValid, ensure_thread-slot, ensure_thread-events, intern_string-SameThreads,
}
use tracey_mctraceface.Writer.Capacity.{Grows, intern_string-Grows, ensure_thread-Grows}

-- A piece that is no part of a string leaves the strings as they are.
pub emit-StringsValid :
    (c : Chunk) (w : FxtWriter)
    → (read_chunk c (reader w)).strings ≡ (reader w).strings
    → (read_chunk c (reader w)).announced ≡ (reader w).announced
    → StringsValid w
    → StringsValid (emit c w)
emit-StringsValid c w s a v =
    StringsOk-subst {t = w.string_table} {n = w.next_string_id} refl refl (reader-emit c w)
      (record {
        distinct = v.distinct;
        below = v.below;
        next_pos = v.next_pos;
        next_bound = v.next_bound;
        full = v.full;
        quiet = a ∙ v.quiet;
        known = λ t id e. ap (λ f. f id) s ∙ v.known t id e;
      })

write_process_name-StringsValid :
    (pid : ℕ) (name : Bytes) (w : FxtWriter)
    → StringsValid w
    → StringsValid (write_process_name pid name w)
unfolding write_process_name
write_process_name-StringsValid pid name w v =
    let (w', id) = intern_string name w in
    emit-StringsValid (kernel_object_header 7 2 1 id 0 pid) w' refl refl
      (intern_string-StringsValid name w v)

write_thread_name-StringsValid :
    (k : ThreadKey) (name : Bytes) (w : FxtWriter)
    → StringsValid w
    → StringsValid (write_thread_name k name w)
unfolding write_thread_name
write_thread_name-StringsValid k name w v =
    let (w', id) = intern_string name w in
    let (w'', id') = intern_string (codes "process") w' in
    let u = intern_string-StringsValid (codes "process") w' (intern_string-StringsValid name w v) in
    emit-StringsValid (arg_koid 8 2 id' k.pid) (emit (kernel_object_header 7 4 2 id 1 k.tid) w'')
      refl refl (emit-StringsValid (kernel_object_header 7 4 2 id 1 k.tid) w'' refl refl u)

name_thread-StringsValid :
    (k : ThreadKey) (w : FxtWriter) → StringsValid w → StringsValid (name_thread k w)
unfolding name_thread
name_thread-StringsValid k w v =
    write_thread_name-StringsValid k _ (processed (is_named k.pid w.named_processes))
      (process (is_named k.pid w.named_processes))
  where
    named : FxtWriter
    named = record w { named_processes = k.pid ∷ w.named_processes }

    process_name : Bytes
    process_name = codes "[pid=" ++ (decimal k.pid ++ codes "]")

    processed : Bool → FxtWriter
    processed b = if b then w else write_process_name k.pid process_name named

    process : (b : Bool) → StringsValid (processed b)
    process true = v
    process false = write_process_name-StringsValid k.pid process_name named v

pub ensure_thread-StringsValid :
    (k : ThreadKey) (w : FxtWriter) → StringsValid w → StringsValid (ensure_thread k w).0
unfolding ensure_thread assign_slot emit_thread_record
ensure_thread-StringsValid k w v = elim (Option-cases (find same_key k w.thread_table)) [
  | inl new ↦
      rw (new, ensure_thread)
        (name_thread-StringsValid k (assign_slot k w) (
          emit-StringsValid (thread_record 3 3 (next_slot w) k.pid k.tid)
            (record w {
              thread_table = (k, next_slot w) ∷ erase_id (next_slot w) w.thread_table;
              next_thread_slot = (w.next_thread_slot + 1) % 2 ^ 8;
            })
            refl refl v))
  | inr (slot, old) ↦ rw (old, ensure_thread) v
]

-- What a string's number means is not lost while numbers are left.
resolve_kept :
    (s : Bytes) (n : ℕ) (w u : FxtWriter)
    → Grows n (intern_string s w).0 u
    → StringsValid u
    → resolve (reader u).strings (intern_string s w).1 ≡ some (truncate s)
resolve_kept s n w u g x = elim (Bool-cases (is_empty s)) [
  | inl empty ↦ (resolve_empty s w (reader u).strings empty).0
  | inr more ↦
      (resolve_entry s (intern_string s w).1 u x
        (g.keeps s (intern_string s w).1 (intern_string-find s w more))).0
]

abbrev pub read_event : ℕ → ThreadKey → Bytes → Bytes → ℕ → ReadEvent
read_event event_type k category name timestamp = record {
  event_type = event_type;
  thread = some k;
  category = some (truncate category);
  name = some (truncate name);
  timestamp = timestamp;
}

pub ReadEvent-eq :
    (ty ts : ℕ) (a b : Option ThreadKey) (c d e f : Option Bytes)
    → a ≡ b
    → c ≡ d
    → e ≡ f
    → ◌≡◌ {A = ReadEvent}
        (record { event_type = ty; thread = a; category = c; name = e; timestamp = ts })
        (record { event_type = ty; thread = b; category = d; name = f; timestamp = ts })
ReadEvent-eq ty ts a b c d e f p q r =
    λ i. record { event_type = ty; thread = p i; category = q i; name = r i; timestamp = ts }

-- As long as five numbers for strings are left, a duration event is read with the thread, the category
-- and the name that it was written with (as truncated), behind the events read before it: no number
-- or slot that it refers to is taken back in between.
pub emit_event-reads :
    (event_type : ℕ) (k : ThreadKey) (category name : Bytes) (timestamp : ℕ) (w : FxtWriter)
    → StringsValid w
    → ThreadsValid w
    → w.next_string_id + 4 ≤ max_string_id
    → (reader (emit_event event_type k category name timestamp w)).events
      ≡ (reader w).events ++ read_event event_type k category name timestamp ∷ []
unfolding emit_event
emit_event-reads event_type k category name timestamp w v t room =
    let (w₁, slot) = ensure_thread k w in
    let (w₂, cat_id) = intern_string category w₁ in
    let (w₃, name_id) = intern_string name w₂ in
    let g₁ = ensure_thread-Grows k w (omega arith) in
    let g₂ = intern_string-Grows category w₁ (omega (arith, g₁.next_le)) in
    let g₃ = intern_string-Grows name w₂ (omega (arith, g₁.next_le, g₂.next_le)) in
    let v₁ = ensure_thread-StringsValid k w v in
    let v₂ = intern_string-StringsValid category w₁ v₁ in
    let v₃ = intern_string-StringsValid name w₂ v₂ in
    let s₂ = intern_string-SameThreads category w₁ in
    let s₃ = intern_string-SameThreads name w₂ in
    let threads = s₃.threads ∙ s₂.threads in
    let read : ReadEvent = record {
      event_type = event_type;
      thread = (reader w₃).threads slot;
      category = resolve (reader w₃).strings cat_id;
      name = resolve (reader w₃).strings name_id;
      timestamp = timestamp;
    } in
    ap (λ (r : Reader). r.events)
      (reader-emit (event_header 4 2 event_type 0 slot cat_id name_id timestamp) w₃)
    ∙ ap (λ es. es ++ read ∷ []) (s₃.events ∙ s₂.events ∙ ensure_thread-events k w)
    ∙ ap (λ e. (reader w).events ++ e ∷ [])
        (ReadEvent-eq event_type timestamp _ _ _ _ _ _
          (ap (λ f. f slot) threads ∙ (ensure_thread-slot k w t).0)
          (resolve_kept category 1 w₁ w₃ g₃ v₃) (intern_string-resolve name w₂ v₂).0)
