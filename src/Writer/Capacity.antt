-- ===== src/Writer/Capacity.antt =====
-- While numbers for strings are left, nothing that was interned is lost.
use tracey_mctraceface.Base.{
  ℕ, ◌+◌, ◌≤◌, ◌%◌, ◌^◌, ◌≡◌, refl, ap, ◌∙◌, Bool, true, false, ◌∷◌, ◌++◌, none, some, Bytes, codes,
  equal, is_empty, if◌then◌else◌, leb, arith, Bool-cases, Option-cases, inl, inr, subst,
}
use tracey_mctraceface.Table.{Table, find}
use tracey_mctraceface.Tracker.{ThreadKey, same_key}
use tracey_mctraceface.Writer.{
  FxtWriter, emit_thread_record, allocate_id, define_string, intern_string, max_string_id,
  write_process_name, write_thread_name, is_named, name_thread, assign_slot, ensure_thread, decimal,
}
use tracey_mctraceface.Writer.Invariant.{equal_eq}
use tracey_mctraceface.Writer.Strings.{emit_string_record-tables}

-- The writer went on, used at most `n` numbers, and lost no string.
pub record Grows (n : ℕ) (w u : FxtWriter) : Type 0 where
  pub next_le : u.next_string_id ≤ w.next_string_id + n
  pub keeps :
      (s : Bytes) (id : ℕ)
      → find equal s w.string_table ≡ some id
      → find equal s u.string_table ≡ some id

pub Grows-same :
    (w u : FxtWriter)
    → u.next_string_id ≡ w.next_string_id
    → u.string_table ≡ w.string_table
    → Grows 0 w u
Grows-same w u e t = record { next_le = omega arith; keeps = λ s id f. ap (find equal s) t ∙ f }

pub Grows-trans : (m n : ℕ) {w u v : FxtWriter} → Grows m w u → Grows n u v → Grows (m + n) w v
Grows-trans m n a b = record {
  next_le = omega (arith, a.next_le, b.next_le);
  keeps = λ s id f. b.keeps s id (a.keeps s id f);
}

find-behind :
    (s t : Bytes) (id i : ℕ) (table : Table Bytes)
    → find equal s table ≡ none
    → find equal t table ≡ some i
    → find equal t ((s, id) ∷ table) ≡ some i
unfolding find
find-behind s t id i table new old = elim (Bool-cases (equal s t)) [
  | inl same ↦ absurd (cc (subst (λ x. find equal x table ≡ none) (equal_eq s t same) new, old))
  | inr other ↦ rw other old
]

define_string-Grows :
    (s : Bytes) (w : FxtWriter)
    → w.next_string_id ≤ max_string_id
    → find equal s w.string_table ≡ none
    → Grows 1 w (define_string s (allocate_id w)).0
unfolding define_string allocate_id
define_string-Grows s w room new =
    let free : leb w.next_string_id max_string_id ≡ true = ground arith in
    let id = w.next_string_id in
    let w' : FxtWriter = record w {
      next_string_id = (id + 1) % 2 ^ 16;
      string_table = (s, id) ∷ w.string_table;
    } in
    let e = emit_string_record-tables id s w' in
    rw free (record {
      next_le = rw (ap (λ (x : FxtWriter). x.next_string_id) e) (omega arith);
      keeps = λ t i f.
          rw (ap (λ (x : FxtWriter). x.string_table) e) (find-behind s t id i w.string_table new f);
    })

pub Grows-weaken : (m n : ℕ) {w u : FxtWriter} → m ≤ n → Grows m w u → Grows n w u
Grows-weaken m n h g = record { next_le = omega (arith, g.next_le); keeps = g.keeps }

pub intern_string-Grows :
    (s : Bytes) (w : FxtWriter) → w.next_string_id ≤ max_string_id → Grows 1 w (intern_string s w).0
unfolding intern_string
intern_string-Grows s w room = elim (Bool-cases (is_empty s)) [
  | inl empty ↦ rw empty (Grows-weaken 0 1 (omega arith) (Grows-same w w refl refl))
  | inr more ↦ elim (Option-cases (find equal s w.string_table)) [
    | inl new ↦ rw (more, new, intern_string) (define_string-Grows s w room new)
    | inr (id, old) ↦
        rw (more, old, intern_string) (Grows-weaken 0 1 (omega arith) (Grows-same w w refl refl))
  ]
]

write_process_name-Grows :
    (pid : ℕ) (name : Bytes) (w : FxtWriter)
    → w.next_string_id ≤ max_string_id
    → Grows 1 w (write_process_name pid name w)
unfolding write_process_name
write_process_name-Grows pid name w room =
    let g = intern_string-Grows name w room in record { next_le = g.next_le; keeps = g.keeps }

write_thread_name-Grows :
    (k : ThreadKey) (name : Bytes) (w : FxtWriter)
    → w.next_string_id + 1 ≤ max_string_id
    → Grows 2 w (write_thread_name k name w)
unfolding write_thread_name
write_thread_name-Grows k name w room =
    let w' = (intern_string name w).0 in
    let g = intern_string-Grows name w (omega arith) in
    let g' =
      Grows-trans 1 1 g (intern_string-Grows (codes "process") w' (omega (arith, g.next_le))) in
    record { next_le = g'.next_le; keeps = g'.keeps }

name_thread-Grows :
    (k : ThreadKey) (w : FxtWriter)
    → w.next_string_id + 2 ≤ max_string_id
    → Grows 3 w (name_thread k w)
unfolding name_thread
name_thread-Grows k w room = all (is_named k.pid w.named_processes)
  where
    named : FxtWriter
    named = record w { named_processes = k.pid ∷ w.named_processes }

    process_name : Bytes
    process_name = codes "[pid=" ++ (decimal k.pid ++ codes "]")

    thread_name : Bytes
    thread_name = codes "[tid=" ++ (decimal k.tid ++ codes "]")

    processed : Bool → FxtWriter
    processed b = if b then w else write_process_name k.pid process_name named

    process : (b : Bool) → Grows 1 w (processed b)
    process true = Grows-weaken 0 1 (omega arith) (Grows-same w w refl refl)
    process false =
        let g = write_process_name-Grows k.pid process_name named (omega arith) in
        record { next_le = g.next_le; keeps = g.keeps }

    all : (b : Bool) → Grows 3 w (write_thread_name k thread_name (processed b))
    all b =
        let g = process b in
        Grows-trans 1 2 g
          (write_thread_name-Grows k thread_name (processed b) (omega (arith, g.next_le)))

-- While three numbers for strings are left, `ensure_thread` takes at most three (for the names of the
-- process and of the thread, and "process"), and no string of the table loses its number.
pub ensure_thread-Grows :
    (k : ThreadKey) (w : FxtWriter)
    → w.next_string_id + 2 ≤ max_string_id
    → Grows 3 w (ensure_thread k w).0
unfolding ensure_thread assign_slot emit_thread_record
ensure_thread-Grows k w room = elim (Option-cases (find same_key k w.thread_table)) [
  | inl new ↦
      let g = name_thread-Grows k (assign_slot k w) room in
      rw (new, ensure_thread) (record { next_le = g.next_le; keeps = g.keeps })
  | inr (slot, old) ↦
      rw (old, ensure_thread) (Grows-weaken 0 3 (omega arith) (Grows-same w w refl refl))
]
