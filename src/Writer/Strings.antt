-- ===== src/Writer/Strings.antt =====
-- `intern_string` keeps the writer and the reader of its output together, whether a number is new,
-- known, or taken back from another string.
use tracey_mctraceface.Base.{
  ℕ, ◌+◌, ◌≤◌, ◌<◌, ◌%◌, ◌^◌, ◌≡◌, ◌≢◌, refl, sym, ap, ◌∙◌, true, false, [], ◌∷◌, Option, none,
  some, Bytes, equal, equal_refl, is_empty, leb, arith, Bool-cases, Option-cases, inl, inr, some,
}
use tracey_mctraceface.Table.{Table, has_id, find, erase_id, Distinct}
use tracey_mctraceface.Table.Laws.{
  find-erase_id, erase_id-Distinct, has_id-erase_id_self, find-erase_id-none, has_id-find,
  min_id-in,
}
use tracey_mctraceface.Writer.{
  FxtWriter, truncate, emit_string_record, evict, allocate_id, define_string, intern_string,
  max_string_id, pad_to_word,
}
use tracey_mctraceface.Writer.Reader.{new_reader, reader, read_all, resolve}
use tracey_mctraceface.Writer.Invariant.{
  equal_eq, Below, StringsOk-subst, StringsValid, learn, reader-emit_string_record,
}

Below-mono {ℓ} : {K : Type ℓ} (m n : ℕ) (t : Table K) → m ≤ n → Below m t → Below n t
Below-mono m n [] h b = tt
Below-mono m n ((k, i) ∷ t) h b = (b.0, omega arith, Below-mono m n t h b.2)

Below-erase_id {ℓ} : {K : Type ℓ} (n id : ℕ) (t : Table K) → Below n t → Below n (erase_id id t)
unfolding erase_id
Below-erase_id n id [] b = tt
Below-erase_id n id ((k, i) ∷ t) b = ground (arith, Below-erase_id n id t)

Below-has_id {ℓ} :
    {K : Type ℓ} (n id : ℕ) (t : Table K) → Below n t → has_id id t ≡ true → (1 ≤ id) × (id < n)
unfolding has_id
Below-has_id n id [] b h = cc
Below-has_id n id ((k, i) ∷ t) b h = ground (arith, Below-has_id n id t)

has_id-above {ℓ} : {K : Type ℓ} (n : ℕ) (t : Table K) → Below n t → has_id n t ≡ false
unfolding has_id
has_id-above n [] b = refl
has_id-above n ((k, i) ∷ t) b = ground (arith, has_id-above n t)

-- The number that is taken back is in use, and its entry goes.
pub evict_lem :
    (t : Table Bytes)
    → t ≢ []
    → ((evict t).0 ≡ erase_id (evict t).1 t) × (has_id (evict t).1 t ≡ true)
unfolding evict has_id
evict_lem [] h = absurd (h refl)
evict_lem ((s, i) ∷ t) h = (refl, ground (arith, min_id-in i ((s, i) ∷ t)))

-- What `allocate_id` returns: a free number in range, and a table that lost at most its entry.
record Allocated (w : FxtWriter) (r : FxtWriter × ℕ) : Type 0 where
  distinct : Distinct equal r.0.string_table
  below : Below r.0.next_string_id r.0.string_table
  next_bound : r.0.next_string_id ≤ max_string_id + 1
  free : has_id r.1 r.0.string_table ≡ false
  id_pos : 1 ≤ r.1
  id_below : r.1 < r.0.next_string_id
  same_sink : r.0.sink ≡ w.sink
  kept :
      (s : Bytes) (id : ℕ)
      → find equal s r.0.string_table ≡ some id
      → (find equal s w.string_table ≡ some id) × (id ≢ r.1)
  absent : (s : Bytes) → find equal s w.string_table ≡ none → find equal s r.0.string_table ≡ none

allocate_id-Allocated : (w : FxtWriter) → StringsValid w → Allocated w (allocate_id w)
unfolding allocate_id
allocate_id-Allocated w v = elim (Bool-cases (leb w.next_string_id max_string_id)) [
  | inl free ↦
      let next : (w.next_string_id + 1) % 2 ^ 16 ≡ w.next_string_id + 1 = ground arith in
      rw free (record {
        distinct = v.distinct;
        below = Below-mono w.next_string_id _ w.string_table (omega arith) v.below;
        next_bound = ground arith;
        free = has_id-above w.next_string_id w.string_table v.below;
        id_pos = v.next_pos;
        id_below = omega arith;
        same_sink = refl;
        kept = λ s id e. (
          e,
          λ same. cc (
            has_id-find equal s id w.string_table e,
            has_id-above w.next_string_id w.string_table v.below,
            same,
          ),
        );
        absent = λ s e. e;
      })
  | inr used_up ↦
      let (erased, there) = evict_lem w.string_table (v.full (ground arith)) in
      let id = (evict w.string_table).1 in
      let (pos, lt) = Below-has_id w.next_string_id id w.string_table v.below there in
      rw (used_up, erased)
        (record {
          distinct = erase_id-Distinct equal id w.string_table v.distinct;
          below = Below-erase_id w.next_string_id id w.string_table v.below;
          next_bound = v.next_bound;
          free = has_id-erase_id_self equal id w.string_table v.distinct;
          id_pos = pos;
          id_below = lt;
          same_sink = refl;
          kept = λ s i. find-erase_id equal equal_eq s id i w.string_table v.distinct;
          absent = λ s. find-erase_id-none equal s id w.string_table;
        })
]

-- The table of `define_string`, behind an allocation.
define_string-known :
    (s t : Bytes) (w : FxtWriter) (r : FxtWriter × ℕ)
    → StringsValid w
    → Allocated w r
    → (id : ℕ) → find equal t ((s, r.1) ∷ r.0.string_table) ≡ some id
    → (learn r.1 s (reader w)).strings id ≡ some (truncate t)
unfolding find
define_string-known s t w r v a id e = elim (Bool-cases (equal s t)) [
  | inl same ↦ ground (arith, equal_eq s t same, ap (λ x. some (truncate x)) (equal_eq s t same))
  | inr other ↦ let (old, ne) = a.kept t id (rw other at e) in ground (arith, v.known t id old)
]

pub allocate_id-sink : (w : FxtWriter) → (allocate_id w).0.sink ≡ w.sink
unfolding allocate_id
allocate_id-sink w = ground arith

pub define_string-reader :
    (s : Bytes) (w : FxtWriter) (r : FxtWriter × ℕ)
    → r.0.sink ≡ w.sink
    → reader (define_string s r).0 ≡ learn r.1 s (reader w)
unfolding define_string
define_string-reader s w r e =
    reader-emit_string_record r.1 s _ ∙ ap (λ x. learn r.1 s (read_all x new_reader)) e

-- Emitting records leaves the tables as they are.
pub emit_string_record-tables :
    (id : ℕ) (s : Bytes) (w : FxtWriter)
    → emit_string_record id s w ≡ record w { sink = (emit_string_record id s w).sink }
unfolding emit_string_record pad_to_word
emit_string_record-tables id s w = ground arith

define_string-StringsValid :
    (s : Bytes) (w : FxtWriter) (r : FxtWriter × ℕ)
    → StringsValid w
    → Allocated w r
    → find equal s w.string_table ≡ none
    → StringsValid (define_string s r).0
unfolding define_string
define_string-StringsValid s w r v a new =
    let e =
      emit_string_record-tables r.1 s (record r.0 { string_table = (s, r.1) ∷ r.0.string_table }) in
    StringsOk-subst (ap (λ x. x.string_table) e) (ap (λ x. x.next_string_id) e)
      (define_string-reader s w r a.same_sink)
      (record {
        distinct = (a.free, a.absent s new, a.distinct);
        below = (a.id_pos, a.id_below, a.below);
        next_pos = omega (arith, a.id_pos, a.id_below);
        next_bound = a.next_bound;
        full = λ h x. cc;
        quiet = refl;
        known = λ t. define_string-known s t w r v a;
      })

-- If no two strings of the table have the same number, all numbers are in range and a reader has each
-- string (as truncated) under its number, then `intern_string` keeps it so, also where it evicts.
pub intern_string-StringsValid :
    (s : Bytes) (w : FxtWriter) → StringsValid w → StringsValid (intern_string s w).0
unfolding intern_string
intern_string-StringsValid s w v = elim (Bool-cases (is_empty s)) [
  | inl empty ↦ rw empty v
  | inr more ↦ elim (Option-cases (find equal s w.string_table)) [
    | inl new ↦
        rw (more, new, intern_string)
          (define_string-StringsValid s w _ v (allocate_id-Allocated w v) new)
    | inr (id, old) ↦ rw (more, old, intern_string) v
  ]
]

-- Afterwards the string is in the table, under the number returned.
pub intern_string-find :
    (s : Bytes) (w : FxtWriter)
    → is_empty s ≡ false
    → find equal s (intern_string s w).0.string_table ≡ some (intern_string s w).1
unfolding intern_string define_string find
intern_string-find s w more = elim (Option-cases (find equal s w.string_table)) [
  | inl new ↦
      let (w', id) = allocate_id w in
      let e =
        emit_string_record-tables id s (record w' { string_table = (s, id) ∷ w'.string_table }) in
      rw (more, new, intern_string)
        (rw (ap (λ x. find equal s x.string_table) e) (rw (equal_refl s)))
  | inr (id, old) ↦ rw (more, old, intern_string) old
]

truncate-empty : (s : Bytes) → is_empty s ≡ true → truncate s ≡ []
unfolding truncate
truncate-empty [] e = refl
truncate-empty (c ∷ s) e = cc

-- An entry's number is read as its string.
pub resolve_entry :
    (s : Bytes) (id : ℕ) (w : FxtWriter)
    → StringsValid w
    → find equal s w.string_table ≡ some id
    → (resolve (reader w).strings id ≡ some (truncate s)) × (id ≤ max_string_id)
resolve_entry s id w v found =
    let (pos, lt) =
      Below-has_id w.next_string_id id w.string_table v.below
        (has_id-find equal s id w.string_table found) in
    (ground (arith, v.known s id found), omega (arith, v.next_bound))

-- The number 0 is read as the empty string.
pub resolve_empty :
    (s : Bytes) (w : FxtWriter) (strings : ℕ → Option Bytes)
    → is_empty s ≡ true
    → (resolve strings (intern_string s w).1 ≡ some (truncate s))
      × ((intern_string s w).1 ≤ max_string_id)
unfolding intern_string
resolve_empty s w strings empty = rw empty (ap some (sym (truncate-empty s empty)), omega arith)

-- The number that `intern_string` returns stands for the string, as truncated, for a reader of what is
-- written up to then; 0 stands for the empty string, and any other number is at most 32767.
pub intern_string-resolve :
    (s : Bytes) (w : FxtWriter)
    → StringsValid w
    → (resolve (reader (intern_string s w).0).strings (intern_string s w).1 ≡ some (truncate s))
      × ((intern_string s w).1 ≤ max_string_id)
intern_string-resolve s w v = elim (Bool-cases (is_empty s)) [
  | inl empty ↦ resolve_empty s w (reader (intern_string s w).0).strings empty
  | inr more ↦
      resolve_entry s (intern_string s w).1 (intern_string s w).0 (intern_string-StringsValid s w v)
        (intern_string-find s w more)
]
