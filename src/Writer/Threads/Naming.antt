-- ===== src/Writer/Threads/Naming.antt =====
-- The naming of a thread, and the strings that it interns, leave the slots alone.
use tracey_mctraceface.Base.{
  ℕ, ◌≤◌, ◌≡◌, refl, sym, ap, ◌∙◌, Bool, true, false, [], ◌∷◌, ◌++◌, Option, some, Bytes, codes,
  equal, is_empty, if◌then◌else◌, arith, Bool-cases, Option-cases, inl, inr, subst,
}
use tracey_mctraceface.Table.{Table, find, Distinct}
use tracey_mctraceface.Tracker.{ThreadKey, same_key}
use tracey_mctraceface.Wire.{kernel_object_header, arg_koid}
use tracey_mctraceface.Writer.{
  FxtWriter, emit, allocate_id, define_string, intern_string, write_process_name, write_thread_name,
  is_named, name_thread, decimal, max_thread_slots,
}
use tracey_mctraceface.Writer.Reader.{Reader, reader}
use tracey_mctraceface.Writer.Invariant.{reader-emit}
use tracey_mctraceface.Writer.Strings.{
  emit_string_record-tables, define_string-reader, allocate_id-sink,
}

-- What string operations leave alone.
pub record SameThreads (w u : FxtWriter) : Type 0 where
  pub thread_table : u.thread_table ≡ w.thread_table
  pub next_thread_slot : u.next_thread_slot ≡ w.next_thread_slot
  pub threads : (reader u).threads ≡ (reader w).threads
  pub events : (reader u).events ≡ (reader w).events

pub SameThreads-refl : (w : FxtWriter) → SameThreads w w
SameThreads-refl w = record {
  thread_table = refl;
  next_thread_slot = refl;
  threads = refl;
  events = refl;
}

pub SameThreads-trans : {w u v : FxtWriter} → SameThreads w u → SameThreads u v → SameThreads w v
SameThreads-trans a b = record {
  thread_table = b.thread_table ∙ a.thread_table;
  next_thread_slot = b.next_thread_slot ∙ a.next_thread_slot;
  threads = b.threads ∙ a.threads;
  events = b.events ∙ a.events;
}

pub allocate_id-SameThreads :
    (w : FxtWriter)
    → ((allocate_id w).0.thread_table ≡ w.thread_table)
      × ((allocate_id w).0.next_thread_slot ≡ w.next_thread_slot)
unfolding allocate_id
allocate_id-SameThreads w = ground arith

pub define_string-SameThreads :
    (s : Bytes) (w : FxtWriter) → SameThreads w (define_string s (allocate_id w)).0
unfolding define_string
define_string-SameThreads s w =
    let (w', id) = allocate_id w in
    let (a, b) = allocate_id-SameThreads w in
    let e =
      emit_string_record-tables id s (record w' { string_table = (s, id) ∷ w'.string_table }) in
    let r = define_string-reader s w (allocate_id w) (allocate_id-sink w) in
    record {
      thread_table = ap (λ (x : FxtWriter). x.thread_table) e ∙ a;
      next_thread_slot = ap (λ (x : FxtWriter). x.next_thread_slot) e ∙ b;
      threads = ap (λ (x : Reader). x.threads) r;
      events = ap (λ (x : Reader). x.events) r;
    }

pub intern_string-SameThreads : (s : Bytes) (w : FxtWriter) → SameThreads w (intern_string s w).0
unfolding intern_string
intern_string-SameThreads s w = elim (Bool-cases (is_empty s)) [
  | inl empty ↦ rw empty (SameThreads-refl w)
  | inr more ↦ elim (Option-cases (find equal s w.string_table)) [
    | inl new ↦ rw (more, new, intern_string) (define_string-SameThreads s w)
    | inr (id, old) ↦ rw (more, old, intern_string) (SameThreads-refl w)
  ]
]

-- Every slot in use lies from 1 to 255.
abbrev pub Slots : Table ThreadKey → Type 0
Slots [] = Unit {0}
Slots ((k, i) ∷ t) = (1 ≤ i) × (i ≤ max_thread_slots) × Slots t

-- The threads: slots are distinct and in range, and the reader has each thread in its slot.
pub record ThreadsOk (table : Table ThreadKey) (threads : ℕ → Option ThreadKey) : Type 0 where
  pub distinct : Distinct same_key table
  pub slots : Slots table
  pub known : (k : ThreadKey) (slot : ℕ) → find same_key k table ≡ some slot → threads slot ≡ some k

abbrev pub ThreadsValid : FxtWriter → Type 0
ThreadsValid w = ThreadsOk w.thread_table (reader w).threads

pub SameThreads-ThreadsValid : {w u : FxtWriter} → SameThreads w u → ThreadsValid w → ThreadsValid u
SameThreads-ThreadsValid {w} {u} s v =
    subst (ThreadsOk u.thread_table) (sym s.threads)
      (subst (λ t. ThreadsOk t (reader w).threads) (sym s.thread_table) v)

-- The naming of a thread interns strings and writes kernel objects.
pub emit-SameThreads :
    (w : FxtWriter) (rtype rsize obj_type name num_args koid : ℕ)
    → SameThreads w (emit (kernel_object_header rtype rsize obj_type name num_args koid) w)
emit-SameThreads w rtype rsize obj_type name num_args koid =
    let e = reader-emit (kernel_object_header rtype rsize obj_type name num_args koid) w in
    record {
      thread_table = refl;
      next_thread_slot = refl;
      threads = ap (λ (x : Reader). x.threads) e;
      events = ap (λ (x : Reader). x.events) e;
    }

pub arg-SameThreads :
    (w : FxtWriter) (ty size name value : ℕ) → SameThreads w (emit (arg_koid ty size name value) w)
arg-SameThreads w ty size name value =
    let e = reader-emit (arg_koid ty size name value) w in
    record {
      thread_table = refl;
      next_thread_slot = refl;
      threads = ap (λ (x : Reader). x.threads) e;
      events = ap (λ (x : Reader). x.events) e;
    }

pub write_process_name-SameThreads :
    (pid : ℕ) (name : Bytes) (w : FxtWriter) → SameThreads w (write_process_name pid name w)
unfolding write_process_name
write_process_name-SameThreads pid name w =
    let (w', id) = intern_string name w in
    SameThreads-trans (intern_string-SameThreads name w) (emit-SameThreads w' 7 2 1 id 0 pid)

pub write_thread_name-SameThreads :
    (k : ThreadKey) (name : Bytes) (w : FxtWriter) → SameThreads w (write_thread_name k name w)
unfolding write_thread_name
write_thread_name-SameThreads k name w =
    let (w', id) = intern_string name w in
    let (w'', id') = intern_string (codes "process") w' in
    SameThreads-trans (intern_string-SameThreads name w) (
      SameThreads-trans (intern_string-SameThreads (codes "process") w') (
        SameThreads-trans (emit-SameThreads w'' 7 4 2 id 1 k.tid)
          (arg-SameThreads _ 8 2 id' k.pid)))

pub name_thread-SameThreads : (k : ThreadKey) (w : FxtWriter) → SameThreads w (name_thread k w)
unfolding name_thread
name_thread-SameThreads k w =
    SameThreads-trans (process (is_named k.pid w.named_processes))
      (write_thread_name-SameThreads k _ (processed (is_named k.pid w.named_processes)))
  where
    named : FxtWriter
    named = record w { named_processes = k.pid ∷ w.named_processes }

    process_name : Bytes
    process_name = codes "[pid=" ++ (decimal k.pid ++ codes "]")

    processed : Bool → FxtWriter
    processed b = if b then w else write_process_name k.pid process_name named

    process : (b : Bool) → SameThreads w (processed b)
    process true = SameThreads-refl w
    process false =
        SameThreads-trans
          (record { thread_table = refl; next_thread_slot = refl; threads = refl; events = refl })
          (write_process_name-SameThreads k.pid process_name named)
