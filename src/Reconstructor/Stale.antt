-- ===== src/Reconstructor/Stale.antt =====
-- The cache of symbols once the writer takes numbers back.
use tracey_mctraceface.Base.{
  ◌<◌, ◌≡◌, ◌≢◌, refl, sym, ap, false, ◌∷◌, some, none, Bytes, equal, equal_refl, is_empty, ℕ,
  Bool-cases, inl, inr,
}
use tracey_mctraceface.Symbol.{shorten_symbol}
use tracey_mctraceface.Table.{find}
use tracey_mctraceface.Writer.{truncate, intern_string, max_string_id}
use tracey_mctraceface.Writer.Reader.{reader, resolve}
use tracey_mctraceface.Writer.Invariant.{StringsValid, equal_eq}
use tracey_mctraceface.Writer.Eviction.{intern_string_takes_newest}
use tracey_mctraceface.Reconstructor.{Reconstructor, intern_symbol}

-- The reconstructor with a new symbol.
abbrev added : Bytes → Reconstructor → Reconstructor
added a r = record r {
  writer = (intern_string (shorten_symbol a) r.writer).0;
  symbol_id_cache = (a, (intern_string (shorten_symbol a) r.writer).1) ∷ r.symbol_id_cache;
}

intern_symbol_new :
    (a : Bytes) (r : Reconstructor)
    → find equal a r.symbol_id_cache ≡ none
    → intern_symbol a r ≡ (added a r, (intern_string (shorten_symbol a) r.writer).1)
unfolding intern_symbol
intern_symbol_new a r new = rw (new, intern_symbol) refl

intern_symbol_old :
    (a : Bytes) (id : ℕ) (r : Reconstructor)
    → find equal a r.symbol_id_cache ≡ some id
    → intern_symbol a r ≡ (r, id)
unfolding intern_symbol
intern_symbol_old a id r old = rw (old, intern_symbol) refl

differ-equal : (a b : Bytes) → shorten_symbol a ≢ shorten_symbol b → equal a b ≡ false
differ-equal a b ne = elim (Bool-cases (equal a b)) [
  | inl same ↦ absurd (ne (ap shorten_symbol (equal_eq a b same)))
  | inr other ↦ other
]

-- Once the writer has used up its numbers, two new symbols in a row, whose shortened names differ, are
-- not empty and are not in its table, break the cache: when the first one comes again, its cached number
-- is returned, which a reader by then takes for the name of the second one.
pub intern_symbol_goes_stale :
    (a b : Bytes) (r : Reconstructor)
    → StringsValid r.writer
    → max_string_id < r.writer.next_string_id
    → is_empty (shorten_symbol a) ≡ false
    → is_empty (shorten_symbol b) ≡ false
    → shorten_symbol a ≢ shorten_symbol b
    → find equal (shorten_symbol a) r.writer.string_table ≡ none
    → find equal (shorten_symbol b) r.writer.string_table ≡ none
    → find equal a r.symbol_id_cache ≡ none
    → find equal b r.symbol_id_cache ≡ none
    → let (r₁, id₁) = intern_symbol a r in
      let (r₂, id₂) = intern_symbol b r₁ in
      let (r₃, id₃) = intern_symbol a r₂ in
      (id₃ ≡ id₁) × (resolve (reader r₃.writer).strings id₃ ≡ some (truncate (shorten_symbol b)))
unfolding find
intern_symbol_goes_stale a b r v up a_more b_more ne a_new b_new a_fresh b_fresh =
    let r₁ = added a r in
    let r₂ = added b r₁ in
    let id = (intern_string (shorten_symbol a) r.writer).1 in
    let b_missing : find equal b r₁.symbol_id_cache ≡ none = rw (differ-equal a b ne) b_fresh in
    let a_cached : find equal a r₂.symbol_id_cache ≡ some id =
      rw (differ-equal b a (λ e. ne (sym e)), equal_refl a) refl in
    rw
      (
        intern_symbol_new a r a_fresh,
        intern_symbol_new b r₁ b_missing,
        intern_symbol_old a id r₂ a_cached,
      )
      (
        refl,
        (intern_string_takes_newest (shorten_symbol a) (shorten_symbol b) r.writer v up a_more
            b_more ne a_new b_new).1,
      )
