-- ===== src/Writer/Eviction.antt =====
-- What `intern_string` does once its numbers are used up, and what it keeps before.
use tracey_mctraceface.Base.{
  ℕ, ◌≤◌, ◌<◌, ◌≡◌, ◌≢◌, refl, sym, ap, ◌∙◌, true, false, [], ◌∷◌, none, some, Bytes, equal,
  equal_iff, is_empty, if◌then◌else◌, ltb, leb, arith, inl, inr, subst,
}
use tracey_mctraceface.Table.{Table, has_id, find, erase_id, min_id}
use tracey_mctraceface.Table.Laws.{
  min_id-le, min_id-in, min_id-le-has_id, has_id_of_erase_id, find-erase_id-none,
}
use tracey_mctraceface.Writer.{
  FxtWriter, evict, allocate_id, define_string, intern_string, max_string_id, truncate,
}
use tracey_mctraceface.Writer.Reader.{reader, resolve}
use tracey_mctraceface.Writer.Invariant.{StringsValid}
use tracey_mctraceface.Writer.Strings.{
  emit_string_record-tables, evict_lem, intern_string-StringsValid, intern_string-resolve,
}

-- The number that is taken back is the smallest in use.
evict-le : (t : Table Bytes) (j : ℕ) → has_id j t ≡ true → (evict t).1 ≤ j
unfolding evict
evict-le [] j h = omega arith
evict-le ((s, i) ∷ t) j h = min_id-le-has_id i j ((s, i) ∷ t) h

min_id-eq {ℓ} :
    {K : Type ℓ} (least : ℕ) (t : Table K)
    → ((j : ℕ) → has_id j t ≡ true → least ≤ j)
    → min_id least t ≡ least
min_id-eq least t h = elim (min_id-in least t) [
  | inl e ↦ e
  | inr there ↦ omega (arith, min_id-le least t, h (min_id least t) there)
]

evict_first : (s : Bytes) (i : ℕ) (t : Table Bytes) → (evict ((s, i) ∷ t)).1 ≡ min_id i t
unfolding evict min_id
evict_first s i t = ap (λ x. min_id x t) (same i)
  where
    same : (i : ℕ) → (if ltb i i then i else i) ≡ i
    same i = ground arith

-- With that number given to a new string, it is the smallest again.
evict_again :
    (s : Bytes) (t : Table Bytes)
    → (evict ((s, (evict t).1) ∷ erase_id (evict t).1 t)).1 ≡ (evict t).1
evict_again s t =
    let id = (evict t).1 in
    evict_first s id (erase_id id t)
    ∙ min_id-eq id (erase_id id t) (λ j h. evict-le t j (has_id_of_erase_id id j t h))

absent_behind :
    (s t : Bytes) (id : ℕ) (table : Table Bytes)
    → s ≢ t
    → find equal t table ≡ none
    → find equal t ((s, id) ∷ erase_id id table) ≡ none
unfolding find
absent_behind s t id table ne e = ground (arith, equal_iff s t, find-erase_id-none equal t id table)

-- A new string, with no number left.
intern_used_up :
    (s : Bytes) (w : FxtWriter)
    → max_string_id < w.next_string_id
    → is_empty s ≡ false
    → find equal s w.string_table ≡ none
    → ((intern_string s w).1 ≡ (evict w.string_table).1)
      × ((intern_string s w).0.string_table
          ≡ (s, (evict w.string_table).1) ∷ (evict w.string_table).0)
      × ((intern_string s w).0.next_string_id ≡ w.next_string_id)
unfolding intern_string allocate_id define_string
intern_used_up s w up more new =
    let used : leb w.next_string_id max_string_id ≡ false = ground arith in
    let (t, id) = evict w.string_table in
    let e =
      emit_string_record-tables id s
        (record w { string_table = (s, id) ∷ t; string_id_warning_issued = true }) in
    rw (more, new, intern_string, used)
      (refl, ap (λ (x : FxtWriter). x.string_table) e, ap (λ (x : FxtWriter). x.next_string_id) e)

-- Once the numbers are used up, two different new strings in a row, neither of them empty or in the
-- table of a writer in order, get the same number: the second one takes it
-- from the first, which is the string inserted last, and a reader of what is written then takes the
-- number of the first string for the second one.
pub intern_string_takes_newest :
    (s t : Bytes) (w : FxtWriter)
    → StringsValid w
    → max_string_id < w.next_string_id
    → is_empty s ≡ false
    → is_empty t ≡ false
    → s ≢ t
    → find equal s w.string_table ≡ none
    → find equal t w.string_table ≡ none
    → let (w₁, id₁) = intern_string s w in
      let (w₂, id₂) = intern_string t w₁ in
      (id₂ ≡ id₁) × (resolve (reader w₂).strings id₁ ≡ some (truncate t))
intern_string_takes_newest s t w v up s_more t_more ne s_new t_new =
    let (id_eq, table_eq, next_eq) = intern_used_up s w up s_more s_new in
    let w₁ = (intern_string s w).0 in
    let (erased, there) = evict_lem w.string_table (v.full up) in
    let id = (evict w.string_table).1 in
    let table : w₁.string_table ≡ (s, id) ∷ erase_id id w.string_table =
      table_eq ∙ ap (λ x. (s, id) ∷ x) erased in
    let missing : find equal t w₁.string_table ≡ none =
      subst (λ x. find equal t x ≡ none) (sym table)
        (absent_behind s t id w.string_table ne t_new) in
    let (again, _, _) = intern_used_up t w₁ (omega (arith, next_eq)) t_more missing in
    let same : (intern_string t w₁).1 ≡ (intern_string s w).1 =
      again ∙ ap (λ x. (evict x).1) table ∙ evict_again s w.string_table ∙ sym id_eq in
    (
      same,
      subst (λ i. resolve (reader (intern_string t w₁).0).strings i ≡ some (truncate t)) same
          (intern_string-resolve t w₁ (intern_string-StringsValid s w v)).0,
    )
