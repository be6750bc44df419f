-- ===== src/Writer/Threads.antt =====
-- `ensure_thread` keeps the table of slots and the reader of the output together, also when a slot is
-- taken back from another thread; and the strings that it interns leave the slots alone.
mod Naming
pub use Naming.{
  SameThreads, SameThreads-refl, SameThreads-trans, allocate_id-SameThreads,
  define_string-SameThreads, intern_string-SameThreads, Slots, ThreadsOk, ThreadsValid,
  SameThreads-ThreadsValid, emit-SameThreads, arg-SameThreads, write_process_name-SameThreads,
  write_thread_name-SameThreads, name_thread-SameThreads,
}
use tracey_mctraceface.Base.{
  ℕ, ◌+◌, ◌≤◌, ◌%◌, ◌^◌, ◌≡◌, refl, sym, ap, ◌∙◌, Bool, true, false, [], ◌∷◌, ◌++◌, Option, none,
  some, Bytes, codes, equal, is_empty, if◌then◌else◌, arith, Bool-cases, Option-cases, inl, inr,
  subst,
}
use tracey_mctraceface.Table.{Table, find, erase_id, Distinct}
use tracey_mctraceface.Table.Laws.{
  find-erase_id, erase_id-Distinct, has_id-erase_id_self, find-erase_id-none,
}
use tracey_mctraceface.Tracker.{ThreadKey, same_key}
use tracey_mctraceface.Tracker.Store.{same_key-eq, same_key_refl}
use tracey_mctraceface.Wire.{thread_record, kernel_object_header, arg_koid}
use tracey_mctraceface.Writer.{
  FxtWriter, emit, allocate_id, define_string, intern_string, emit_thread_record,
  write_process_name, write_thread_name, is_named, name_thread, next_slot, assign_slot,
  ensure_thread, decimal, max_thread_slots,
}
use tracey_mctraceface.Writer.Reader.{Reader, reader, update}
use tracey_mctraceface.Writer.Invariant.{reader-emit}
use tracey_mctraceface.Writer.Strings.{
  emit_string_record-tables, define_string-reader, allocate_id-sink,
}

next_slot-range : (w : FxtWriter) → (1 ≤ next_slot w) × (next_slot w ≤ max_thread_slots)
unfolding next_slot
next_slot-range w = omega arith

Slots-erase_id : (id : ℕ) (t : Table ThreadKey) → Slots t → Slots (erase_id id t)
unfolding erase_id
Slots-erase_id id [] b = tt
Slots-erase_id id ((k, i) ∷ t) b = ground (arith, Slots-erase_id id t)

assign_slot-known :
    (k j : ThreadKey) (slot i : ℕ) (t : Table ThreadKey) (threads : ℕ → Option ThreadKey)
    → ThreadsOk t threads
    → find same_key j ((k, slot) ∷ erase_id slot t) ≡ some i
    → update threads slot k i ≡ some j
unfolding find
assign_slot-known k j slot i t threads v e = elim (Bool-cases (same_key k j)) [
  | inl same ↦ ground (arith, same_key-eq k j same)
  | inr other ↦
      let (old, ne) = find-erase_id same_key same_key-eq j slot i t v.distinct (rw other at e) in
      ground (arith, v.known j i old)
]

-- A thread with no slot gets one, and the thread that had it loses it.
abbrev assigned : ThreadKey → FxtWriter → FxtWriter
assigned k w = record w {
  thread_table = (k, next_slot w) ∷ erase_id (next_slot w) w.thread_table;
  next_thread_slot = (w.next_thread_slot + 1) % 2 ^ 8;
}

assign_slot-ThreadsValid :
    (k : ThreadKey) (w : FxtWriter)
    → find same_key k w.thread_table ≡ none
    → ThreadsValid w
    → ThreadsValid (assign_slot k w)
unfolding assign_slot emit_thread_record
assign_slot-ThreadsValid k w new v =
    let slot = next_slot w in
    let (pos, le) = next_slot-range w in
    subst (ThreadsOk ((k, slot) ∷ erase_id slot w.thread_table))
      (sym (
        ap (λ (x : Reader). x.threads)
          (reader-emit (thread_record 3 3 slot k.pid k.tid) (assigned k w))))
      (record {
        distinct = (
          has_id-erase_id_self same_key slot w.thread_table v.distinct,
          find-erase_id-none same_key k slot w.thread_table new,
          erase_id-Distinct same_key slot w.thread_table v.distinct,
        );
        slots = (pos, le, Slots-erase_id slot w.thread_table v.slots);
        known = λ j i. assign_slot-known k j slot i w.thread_table (reader w).threads v;
      })

pub ensure_thread-ThreadsValid :
    (k : ThreadKey) (w : FxtWriter) → ThreadsValid w → ThreadsValid (ensure_thread k w).0
ensure_thread-ThreadsValid k w v = elim (Option-cases (find same_key k w.thread_table)) [
  | inl new ↦
      unfold ensure_thread in
      rw (new, ensure_thread)
        (SameThreads-ThreadsValid (name_thread-SameThreads k (assign_slot k w))
          (assign_slot-ThreadsValid k w new v))
  | inr (slot, old) ↦ unfold ensure_thread in rw (old, ensure_thread) v
]

assign_slot-find :
    (k : ThreadKey) (w : FxtWriter)
    → find same_key k (assign_slot k w).thread_table ≡ some (next_slot w)
unfolding assign_slot emit_thread_record find
assign_slot-find k w = rw (same_key_refl k)

ensure_thread-find :
    (k : ThreadKey) (w : FxtWriter)
    → find same_key k (ensure_thread k w).0.thread_table ≡ some (ensure_thread k w).1
unfolding ensure_thread
ensure_thread-find k w = elim (Option-cases (find same_key k w.thread_table)) [
  | inl new ↦
      rw (new, ensure_thread)
        (ap (find same_key k) (name_thread-SameThreads k (assign_slot k w)).thread_table
          ∙ assign_slot-find k w)
  | inr (slot, old) ↦ rw (old, ensure_thread) old
]

Slots-find :
    (k : ThreadKey) (slot : ℕ) (t : Table ThreadKey)
    → Slots t
    → find same_key k t ≡ some slot
    → (1 ≤ slot) × (slot ≤ max_thread_slots)
unfolding find
Slots-find k slot [] b e = cc
Slots-find k slot ((j, i) ∷ t) b e = ground (arith, Slots-find k slot t)

-- The slot that `ensure_thread` returns lies from 1 to 255 and stands for the thread, for a reader of
-- what is written up to then, whether the thread is known, new, or in another thread's old slot.
pub ensure_thread-slot :
    (k : ThreadKey) (w : FxtWriter)
    → ThreadsValid w
    → let (u, slot) = ensure_thread k w in
      ((reader u).threads slot ≡ some k) × (1 ≤ slot) × (slot ≤ max_thread_slots)
ensure_thread-slot k w v =
    let u = ensure_thread-ThreadsValid k w v in
    let found = ensure_thread-find k w in
    let (pos, le) =
      Slots-find k (ensure_thread k w).1 (ensure_thread k w).0.thread_table u.slots found in
    (u.known k (ensure_thread k w).1 found, pos, le)

-- Nor does it touch the events.
pub ensure_thread-events :
    (k : ThreadKey) (w : FxtWriter) → (reader (ensure_thread k w).0).events ≡ (reader w).events
unfolding ensure_thread assign_slot emit_thread_record
ensure_thread-events k w = elim (Option-cases (find same_key k w.thread_table)) [
  | inl new ↦
      rw (new, ensure_thread)
        ((name_thread-SameThreads k (assign_slot k w)).events
          ∙ ap (λ (x : Reader). x.events)
              (reader-emit (thread_record 3 3 (next_slot w) k.pid k.tid) (assigned k w)))
  | inr (slot, old) ↦ rw (old, ensure_thread)
]
