-- ===== src/Base/Outcome.antt =====
-- What a call that may throw gives: a value, or the message of the exception. The state comes back on
-- both ways, since what has been done stays done.
use mathlib.Core.List.{List}
use Prim.Native.Nat.{ℕ}
use mathlib.Core.Path.{◌≡◌, refl}
use mathlib.Core.Logic.{◌⊎◌, inl, inr}

pub data Result {ℓ} (A : Type ℓ) : Type ℓ where
  ok : A → Result A
  throws : List ℕ → Result A

-- `void`
pub data Void : Type 0 where
  done : Void

abbrev pub Action : Type 0 → Type 0 → Type 0
Action S A = S → Result A × S

module _ {S : Type 0} {A : Type 0} where
  unfoldable pub pure : A → Action S A
  pure a s = (ok a, s)

  unfoldable pub throw : List ℕ → Action S A
  throw e s = (throws e, s)

-- What follows a call: nothing once it has thrown.
abbrev pub continue : {S A B : Type 0} → (A → Action S B) → Result A × S → Result B × S
continue f (ok a, s) = f a s
continue f (throws e, s) = (throws e, s)

infixl 5 ◌>>=◌ ◌>>◌
unfoldable pub ◌>>=◌ : {S A B : Type 0} → Action S A → (A → Action S B) → Action S B
◌>>=◌ m f s = continue f (m s)

abbrev pub ◌>>◌ : {S A B : Type 0} → Action S A → Action S B → Action S B
m >> k = m >>= λ _. k

-- How a call ended.
pub Outcome-cases :
    {S A : Type 0} (p : Result A × S)
    → ((a : A) × (s : S) × (p ≡ (ok a, s))) ⊎ ((e : List ℕ) × (s : S) × (p ≡ (throws e, s)))
Outcome-cases (ok a, s) = inl (a, s, refl)
Outcome-cases (throws e, s) = inr (e, s, refl)

pub ok-throws : {A : Type 0} {a : A} {e : List ℕ} → ok a ≡ throws e → ⊥
ok-throws h = cc h
