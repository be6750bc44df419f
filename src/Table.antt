-- ===== src/Table.antt =====
-- The hash tables of lib/fxt_writer.cpp, `string_table_` and `thread_table_`: from keys to numbers that
-- are taken back when they run out. A table is the list of its entries in the order of iteration;
-- `emplace` puts an entry first, and no theorem depends on the order.
pub mod Laws
use tracey_mctraceface.Base.{
  ℕ, suc, ◌≡◌, Bool, false, true, ◌||◌, List, [], ◌∷◌, Option, none, some, if◌then◌else◌, ◌==◌, ltb,
}

abbrev pub Table {ℓ} : Type ℓ → Type ℓ
Table K = List (K × ℕ)

module _ {ℓ} {K : Type ℓ} where
  -- Is the number in use?
  unfoldable pub has_id : ℕ → Table K → Bool
  has_id id [] = false
  has_id id ((k, i) ∷ t) = i == id || has_id id t

  -- Erase the first entry with this number.
  unfoldable pub erase_id : ℕ → Table K → Table K
  erase_id id [] = []
  erase_id id ((k, i) ∷ t) = if i == id then t else (k, i) ∷ erase_id id t

  -- The loop that looks for the entry with the smallest number, `least` so far.
  unfoldable pub min_id : ℕ → Table K → ℕ
  min_id least [] = least
  min_id least ((k, i) ∷ t) = min_id (if ltb i least then i else least) t

  abbrev pub size : Table K → ℕ
  size [] = 0
  size (e ∷ t) = suc (size t)

  module _ (same : K → K → Bool) where
    unfoldable pub find : K → Table K → Option ℕ
    find k [] = none
    find k ((j, i) ∷ t) = if same j k then some i else find k t

    -- No key and no number stands twice.
    abbrev pub Distinct : Table K → Type 0
    Distinct [] = Unit {0}
    Distinct ((k, i) ∷ t) = (has_id i t ≡ false) × (find k t ≡ none) × Distinct t
