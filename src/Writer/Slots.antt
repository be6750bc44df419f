-- ===== src/Writer/Slots.antt =====
-- The counter of thread slots where it wraps.
use tracey_mctraceface.Base.{
  ℕ, ◌≡◌, refl, sym, ap, ◌∙◌, false, ◌∷◌, some, none, arith, ◌+◌, ◌%◌, ◌^◌,
}
use tracey_mctraceface.Table.{find, erase_id}
use tracey_mctraceface.Table.Laws.{find-erase_id-none}
use tracey_mctraceface.Tracker.{ThreadKey, same_key}
use tracey_mctraceface.Writer.{
  FxtWriter, emit_thread_record, assign_slot, next_slot, ensure_thread, max_thread_slots,
}
use tracey_mctraceface.Writer.Reader.{reader}
use tracey_mctraceface.Writer.Threads.{
  ThreadsValid, name_thread-SameThreads, ensure_thread-ThreadsValid, ensure_thread-slot,
}

-- What a new thread does to the slots.
ensure_thread_new :
    (k : ThreadKey) (w : FxtWriter)
    → find same_key k w.thread_table ≡ none
    → ((ensure_thread k w).1 ≡ next_slot w)
      × ((ensure_thread k w).0.next_thread_slot ≡ (assign_slot k w).next_thread_slot)
      × ((ensure_thread k w).0.thread_table
          ≡ (k, next_slot w) ∷ erase_id (next_slot w) w.thread_table)
unfolding ensure_thread assign_slot emit_thread_record
ensure_thread_new k w new =
    let same = name_thread-SameThreads k (assign_slot k w) in
    rw (new, ensure_thread) (refl, same.next_thread_slot, same.thread_table)

other-find :
    (j k : ThreadKey) (slot : ℕ) (w : FxtWriter)
    → same_key k j ≡ false
    → find same_key j w.thread_table ≡ none
    → find same_key j ((k, slot) ∷ erase_id slot w.thread_table) ≡ none
unfolding find
other-find j k slot w other new = rw other (find-erase_id-none same_key j slot w.thread_table new)

-- Once 255 threads have got their slots, the next two new threads get the same slot, 1, one right after
-- the other: the counter wraps at 256 and the slots at 255. For a reader the slot is the second
-- thread's from then on.
pub ensure_thread_repeats :
    (k j : ThreadKey) (w : FxtWriter)
    → ThreadsValid w
    → w.next_thread_slot ≡ max_thread_slots
    → same_key k j ≡ false
    → find same_key k w.thread_table ≡ none
    → find same_key j w.thread_table ≡ none
    → let (w₁, slot₁) = ensure_thread k w in
      let (w₂, slot₂) = ensure_thread j w₁ in
      (slot₁ ≡ 1) × (slot₂ ≡ 1) × ((reader w₂).threads 1 ≡ some j)
unfolding next_slot assign_slot emit_thread_record
ensure_thread_repeats k j w v full other new_k new_j =
    let w₁ = (ensure_thread k w).0 in
    let (slot, counter, table) = ensure_thread_new k w new_k in
    let absent = ap (find same_key j) table ∙ other-find j k (next_slot w) w other new_j in
    let (slot', counter', table') = ensure_thread_new j w₁ absent in
    let wrapped : w₁.next_thread_slot ≡ 0 =
      counter ∙ ap (λ n. (n + 1) % 2 ^ 8) full ∙ omega arith in
    let second : (ensure_thread j w₁).1 ≡ 1 =
      slot' ∙ ap (λ n. (n % max_thread_slots + 1) % 2 ^ 8) wrapped ∙ omega arith in
    (
      slot ∙ ap (λ n. (n % max_thread_slots + 1) % 2 ^ 8) full ∙ omega arith,
      second,
      ap (reader (ensure_thread j w₁).0).threads (sym second)
          ∙ (ensure_thread-slot j w₁ (ensure_thread-ThreadsValid k w v)).0,
    )
