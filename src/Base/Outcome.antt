-- ===== src/Base/Outcome.antt =====
-- A call that returns, or panics.
use mathlib.Core.Bool.{Bool, true, false}
use mathlib.Core.Path.{◌≡◌, refl}
use mathlib.Core.Logic.{◌⊎◌, inl, inr}

pub data Outcome {ℓ} (A : Type ℓ) : Type ℓ where
  returns : A → Outcome A
  panics : Outcome A

infixl 5 ◌>>=◌
abbrev pub ◌>>=◌ {ℓ κ} : {A : Type ℓ} {B : Type κ} → Outcome A → (A → Outcome B) → Outcome B
returns a >>= f = f a
panics >>= f = panics

infixl 5 ◌>>◌
abbrev pub ◌>>◌ {ℓ} : {B : Type ℓ} → Outcome (Unit {0}) → Outcome B → Outcome B
m >> k = m >>= λ _. k

-- `assert!`
abbrev pub assert : Bool → Outcome (Unit {0})
assert true = returns tt
assert false = panics

pub Outcome-cases {ℓ} : {A : Type ℓ} (m : Outcome A) → (m ≡ panics) ⊎ ((a : A) × (m ≡ returns a))
Outcome-cases panics = inl refl
Outcome-cases (returns a) = inr (a, refl)
