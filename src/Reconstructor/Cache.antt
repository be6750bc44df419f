-- ===== src/Reconstructor/Cache.antt =====
-- The names that a reader sees in a session: the cached numbers stay good while numbers are left.
use tracey_mctraceface.Base.{
  ℕ, ◌+◌, ◌≤◌, ◌≡◌, refl, sym, ap, ◌∙◌, ◌⊎◌, inl, inr, true, List, [], ◌∷◌, ◌++◌, some, Bytes,
  codes, append_assoc, append-nil, equal, is_empty, arith, subst, Bool-cases, Option-cases,
}
use tracey_mctraceface.Symbol.{shorten_symbol}
use tracey_mctraceface.Table.{Table, find}
use tracey_mctraceface.Thread.{
  PendingKind, call_event, ret_event, ret_from_untraced, unknown_symbol,
}
use tracey_mctraceface.Tracker.{ThreadKey}
use tracey_mctraceface.Wire.{event_header}
use tracey_mctraceface.Writer.{FxtWriter, truncate, intern_string, write_event_by_id, max_string_id}
use tracey_mctraceface.Writer.Reader.{Reader, ReadEvent, reader, resolve}
use tracey_mctraceface.Writer.Invariant.{StringsValid, reader-emit, equal_eq}
use tracey_mctraceface.Writer.Strings.{intern_string-find, resolve_entry}
use tracey_mctraceface.Writer.Threads.{intern_string-SameThreads}
use tracey_mctraceface.Writer.Capacity.{
  Grows, Grows-same, Grows-trans, Grows-weaken, intern_string-Grows,
}
use tracey_mctraceface.Writer.Events.{read_event, ReadEvent-eq}
use tracey_mctraceface.Writer.Soundness.{IsSound, intern_string-Shows, write_event_by_id-Shows}
use tracey_mctraceface.Reconstructor.{Reconstructor, intern_symbol, write_by_id, write_kind}

-- `id` is the number of `s`: zero for the empty text, or an entry of the table.
abbrev pub Knows : FxtWriter → Bytes → ℕ → Type 0
Knows w s id = ((is_empty s ≡ true) × (id ≡ 0)) ⊎ (find equal s w.string_table ≡ some id)

pub Knows-Grows :
    (n : ℕ) (w u : FxtWriter) (s : Bytes) (id : ℕ) → Grows n w u → Knows w s id → Knows u s id
Knows-Grows n w u s id g (inl e) = inl e
Knows-Grows n w u s id g (inr f) = inr (g.keeps s id f)

Knows-resolve :
    (w : FxtWriter) (s : Bytes) (id : ℕ)
    → StringsValid w
    → Knows w s id
    → resolve (reader w).strings id ≡ some (truncate s)
Knows-resolve w [] id v (inl (e, z)) = rw z (unfold truncate in refl)
Knows-resolve w (c ∷ s) id v (inl (e, z)) = ground arith
Knows-resolve w s id v (inr f) = (resolve_entry s id w v f).0

pub intern_string-Knows :
    (s : Bytes) (w : FxtWriter) → let (u, id) = intern_string s w in Knows u s id
intern_string-Knows s w = elim (Bool-cases (is_empty s)) [
  | inl empty ↦ inl (empty, (unfold intern_string in rw empty refl))
  | inr more ↦ inr (intern_string-find s w more)
]

-- The writer is in order, and the category and each symbol of the cache have the number that is kept
-- for them.
pub record IsNamed (r : Reconstructor) : Type 0 where
  pub sound : IsSound r.writer
  pub category : Knows r.writer (codes "trace") r.category_id
  pub cache :
      (s : Bytes) (id : ℕ)
      → find equal s r.symbol_id_cache ≡ some id
      → Knows r.writer (shorten_symbol s) id

-- From `r` to `r'` the reader sees `es` more, with names, and at most `n` numbers are used.
pub record Reads (n : ℕ) (es : List ReadEvent) (r r' : Reconstructor) : Type 0 where
  pub named : IsNamed r'
  pub grows : Grows n r.writer r'.writer
  pub read : (reader r'.writer).events ≡ (reader r.writer).events ++ es

pub Reads-trans :
    (m n : ℕ) (xs ys : List ReadEvent) {r s t : Reconstructor}
    → Reads m xs r s
    → Reads n ys s t
    → Reads (m + n) (xs ++ ys) r t
Reads-trans m n xs ys {r} a b = record {
  named = b.named;
  grows = Grows-trans m n a.grows b.grows;
  read = b.read ∙ ap (λ l. l ++ ys) a.read ∙ append_assoc (reader r.writer).events xs ys;
}

Reads-weaken : {es : List ReadEvent} {r s : Reconstructor} → Reads 0 es r s → Reads 1 es r s
Reads-weaken a = record {
  named = a.named;
  grows = Grows-weaken 0 1 (omega arith) a.grows;
  read = a.read;
}

-- A change of the writer alone.
set_writer-IsNamed :
    (n : ℕ) (r : Reconstructor) (w : FxtWriter)
    → IsNamed r
    → IsSound w
    → Grows n r.writer w
    → IsNamed (record r { writer = w })
set_writer-IsNamed n r w v s g = record {
  sound = s;
  category = Knows-Grows n r.writer w (codes "trace") r.category_id g v.category;
  cache = λ t id f. Knows-Grows n r.writer w (shorten_symbol t) id g (v.cache t id f);
}

pub set_writer-Reads :
    (n : ℕ) (r : Reconstructor) (w : FxtWriter)
    → IsNamed r
    → IsSound w
    → Grows n r.writer w
    → (reader w).events ≡ (reader r.writer).events
    → Reads n [] r (record r { writer = w })
set_writer-Reads n r w v s g e = record {
  named = set_writer-IsNamed n r w v s g;
  grows = g;
  read = e ∙ sym (append-nil (reader r.writer).events);
}

cache-behind :
    (s t : Bytes) (id i : ℕ) (cache : Table Bytes)
    → find equal t ((s, id) ∷ cache) ≡ some i
    → ((s ≡ t) × (id ≡ i)) ⊎ (find equal t cache ≡ some i)
unfolding find
cache-behind s t id i cache f = elim (Bool-cases (equal s t)) [
  | inl same ↦ inl (equal_eq s t same, ground (arith, same, f))
  | inr other ↦ inr (ground (arith, other, f))
]

pub intern_symbol-Reads :
    (s : Bytes) (r : Reconstructor)
    → IsNamed r
    → r.writer.next_string_id ≤ max_string_id
    → let (r', id) = intern_symbol s r in
      Reads 1 [] r r'
      × Knows r'.writer (shorten_symbol s) id
      × ((reader r'.writer).threads ≡ (reader r.writer).threads)
unfolding intern_symbol
intern_symbol-Reads s r v room = elim (Option-cases (find equal s r.symbol_id_cache)) [
  | inl new ↦
      let (w, id) = intern_string (shorten_symbol s) r.writer in
      let g = intern_string-Grows (shorten_symbol s) r.writer room in
      let same = intern_string-SameThreads (shorten_symbol s) r.writer in
      let known = intern_string-Knows (shorten_symbol s) r.writer in
      let base =
        set_writer-Reads 1 r w v (intern_string-Shows (shorten_symbol s) r.writer v.sound).sound g
          same.events in
      rw (new, intern_symbol)
        (
          record {
            named = record {
              sound = base.named.sound;
              category = base.named.category;
              cache = λ t i f. elim (cache-behind s t id i r.symbol_id_cache f) [
                | inl (same_text, same_id) ↦
                    subst (Knows w (shorten_symbol t)) same_id
                      (subst (λ x. Knows w (shorten_symbol x) id) same_text known)
                | inr old ↦ base.named.cache t i old
              ];
            };
            grows = g;
            read = base.read;
          },
          known,
          same.threads,
        )
  | inr (id, old) ↦
      rw (old, intern_symbol)
        (
          set_writer-Reads 1 r r.writer v v.sound
              (Grows-weaken 0 1 (omega arith) (Grows-same r.writer r.writer refl refl)) refl,
          v.cache s id old,
          refl,
        )
]

-- What a reader sees of an event of a symbol.
abbrev pub symbol_event : ℕ → ThreadKey → Bytes → ℕ → ReadEvent
symbol_event event_type k symbol time =
    read_event event_type k (codes "trace") (shorten_symbol symbol) time

write_by_id-Reads :
    (k : ThreadKey) (symbol : Bytes) (event_type slot id time : ℕ) (r : Reconstructor)
    → IsNamed r
    → (reader r.writer).threads slot ≡ some k
    → Knows r.writer (shorten_symbol symbol) id
    → let r' = write_by_id event_type slot id time r in
      Reads 0 (symbol_event event_type k symbol time ∷ []) r r'
      × ((reader r'.writer).threads slot ≡ some k)
unfolding write_event_by_id
write_by_id-Reads k symbol event_type slot id time r v known name =
    let (shows, known') =
      write_event_by_id-Shows k event_type slot r.category_id id time r.writer v.sound known in
    let w = write_event_by_id event_type slot r.category_id id time r.writer in
    let g : Grows 0 r.writer w = Grows-same r.writer w refl refl in
    (
      record {
        named = set_writer-IsNamed 0 r w v shows.sound g;
        grows = g;
        read =
            ap (λ (x : Reader). x.events)
              (reader-emit (event_header 4 2 event_type 0 slot r.category_id id time) r.writer)
            ∙ ap (λ e. (reader r.writer).events ++ e ∷ [])
                (ReadEvent-eq event_type time _ _ _ _ _ _ known
                  (Knows-resolve r.writer (codes "trace") r.category_id v.sound.strings v.category)
                  (Knows-resolve r.writer (shorten_symbol symbol) id v.sound.strings name));
      },
      known',
    )

-- The events that a call of `write_pending` stands for, with their names.
abbrev pub kind_events : PendingKind → ThreadKey → Bytes → ℕ → List ReadEvent
kind_events (call_event location u) k symbol time = symbol_event 2 k symbol time ∷ []
kind_events ret_event k symbol time = symbol_event 3 k symbol time ∷ []
kind_events (ret_from_untraced reset_time) k symbol time =
    symbol_event 2 k unknown_symbol reset_time ∷ symbol_event 3 k unknown_symbol time ∷ []

pub write_kind-Reads :
    (kind : PendingKind) (k : ThreadKey) (symbol : Bytes) (slot id time : ℕ) (r : Reconstructor)
    → IsNamed r
    → (reader r.writer).threads slot ≡ some k
    → Knows r.writer (shorten_symbol symbol) id
    → r.writer.next_string_id ≤ max_string_id
    → Reads 1 (kind_events kind k symbol time) r (write_kind kind slot id time r)
unfolding write_kind
write_kind-Reads (call_event location u) k symbol slot id time r v known name room =
    Reads-weaken (write_by_id-Reads k symbol 2 slot id time r v known name).0
write_kind-Reads ret_event k symbol slot id time r v known name room =
    Reads-weaken (write_by_id-Reads k symbol 3 slot id time r v known name).0
write_kind-Reads (ret_from_untraced reset_time) k symbol slot id time r v known name room =
    let (r', unknown_id) = intern_symbol unknown_symbol r in
    let (interned, name', same) = intern_symbol-Reads unknown_symbol r v room in
    let (begun, known') =
      write_by_id-Reads k unknown_symbol 2 slot unknown_id reset_time r' interned.named
        (ap (λ f. f slot) same ∙ known) name' in
    let r'' = write_by_id 2 slot unknown_id reset_time r' in
    let (ended, known'') =
      write_by_id-Reads k unknown_symbol 3 slot unknown_id time r'' begun.named known' (
        Knows-Grows 0 r'.writer r''.writer (shorten_symbol unknown_symbol) unknown_id begun.grows
          name') in
    Reads-trans 1 0 [] _ interned
      (Reads-trans 0 0 (symbol_event 2 k unknown_symbol reset_time ∷ []) _ begun ended)
