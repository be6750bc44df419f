-- ===== src/Table/Laws.antt =====
-- The laws of a table with distinct keys and numbers.
use tracey_mctraceface.Base.{
  ℕ, ◌≤◌, ◌≡◌, ◌≢◌, ◌⊎◌, refl, sym, ◌∙◌, Bool, false, true, [], ◌∷◌, none, some, if◌then◌else◌,
  ◌==◌, ltb, arith, Bool-cases, inl, inr, subst,
}
use tracey_mctraceface.Table.{Table, has_id, erase_id, min_id, find, Distinct}

module _ {ℓ} {K : Type ℓ} where
  pub min_id-le : (least : ℕ) (t : Table K) → min_id least t ≤ least
  unfolding min_id
  min_id-le least [] = omega arith
  min_id-le least ((k, i) ∷ t) = ground (arith, min_id-le (if ltb i least then i else least) t)

  -- The smallest number is that of an entry, or the start of the search.
  pub min_id-in :
      (least : ℕ) (t : Table K) → (min_id least t ≡ least) ⊎ (has_id (min_id least t) t ≡ true)
  unfolding min_id has_id
  min_id-in least [] = inl refl
  min_id-in least ((k, i) ∷ t) = ground (arith, min_id-in (if ltb i least then i else least) t)

  pub has_id-erase_id :
      (id j : ℕ) (t : Table K) → has_id j t ≡ false → has_id j (erase_id id t) ≡ false
  unfolding has_id erase_id
  has_id-erase_id id j [] h = refl
  has_id-erase_id id j ((k, i) ∷ t) h = ground (arith, has_id-erase_id id j t)

  module _ (same : K → K → Bool) where
    -- A found number is in use.
    pub has_id-find : (k : K) (id : ℕ) (t : Table K) → find same k t ≡ some id → has_id id t ≡ true
    unfolding has_id find
    has_id-find k id [] e = cc
    has_id-find k id ((j, i) ∷ t) e = ground (arith, has_id-find k id t)

    pub find-erase_id-none :
        (k : K) (id : ℕ) (t : Table K) → find same k t ≡ none → find same k (erase_id id t) ≡ none
    unfolding find erase_id
    find-erase_id-none k id [] e = refl
    find-erase_id-none k id ((j, i) ∷ t) e = ground (arith, find-erase_id-none k id t)

    pub erase_id-Distinct : (id : ℕ) (t : Table K) → Distinct same t → Distinct same (erase_id id t)
    unfolding erase_id
    erase_id-Distinct id [] d = tt
    erase_id-Distinct id ((k, i) ∷ t) d =
        ground (arith, has_id-erase_id id i t, find-erase_id-none k id t, erase_id-Distinct id t)

    -- Afterwards the number is free.
    pub has_id-erase_id_self :
        (id : ℕ) (t : Table K) → Distinct same t → has_id id (erase_id id t) ≡ false
    unfolding has_id erase_id
    has_id-erase_id_self id [] d = refl
    has_id-erase_id_self id ((k, i) ∷ t) d = ground (arith, has_id-erase_id_self id t)

    module _ (same_eq : (a b : K) → same a b ≡ true → a ≡ b) where
      -- A key that is still there keeps its number, and it is not the erased one.
      pub find-erase_id :
          (k : K) (id i : ℕ) (t : Table K)
          → Distinct same t
          → find same k (erase_id id t) ≡ some i
          → (find same k t ≡ some i) × (i ≢ id)
      unfolding find erase_id
      find-erase_id k id i [] d e = cc
      find-erase_id k id i ((j, n) ∷ t) d e = elim (Bool-cases (n == id)) [
        | inl hit ↦ elim (Bool-cases (same j k)) [
          | inl eq ↦
              absurd (
                ground (arith, subst (λ x. find same x t ≡ none) (same_eq j k eq) d.1, rw hit at e))
          | inr ne ↦ ground (arith, has_id-find k i t, rw hit at e)
        ]
        | inr miss ↦ ground (arith, find-erase_id k id i t d.2)
      ]

      -- Two keys never share a number.
      pub find-injective :
          (j k : K) (i : ℕ) (t : Table K)
          → Distinct same t
          → find same j t ≡ some i
          → find same k t ≡ some i
          → j ≡ k
      unfolding find
      find-injective j k i [] d e f = cc
      find-injective j k i ((l, n) ∷ t) d e f = elim (Bool-cases (same l j)) [
        | inl x ↦ elim (Bool-cases (same l k)) [
          | inl y ↦ sym (same_eq l j x) ∙ same_eq l k y
          | inr y ↦ ground (arith, has_id-find k i t)
        ]
        | inr x ↦ elim (Bool-cases (same l k)) [
          | inl y ↦ ground (arith, has_id-find j i t)
          | inr y ↦ find-injective j k i t d.2 (ground arith) (ground arith)
        ]
      ]

  -- No number in the table is below the smallest.
  pub min_id-le-has_id : (least j : ℕ) (t : Table K) → has_id j t ≡ true → min_id least t ≤ j
  unfolding min_id has_id
  min_id-le-has_id least j [] h = cc
  min_id-le-has_id least j ((k, i) ∷ t) h = ground (
    arith,
    min_id-le (if ltb i least then i else least) t,
    min_id-le-has_id (if ltb i least then i else least) j t,
  )

  pub has_id_of_erase_id :
      (id j : ℕ) (t : Table K) → has_id j (erase_id id t) ≡ true → has_id j t ≡ true
  unfolding has_id erase_id
  has_id_of_erase_id id j [] h = h
  has_id_of_erase_id id j ((k, i) ∷ t) h = ground (arith, has_id_of_erase_id id j t)
