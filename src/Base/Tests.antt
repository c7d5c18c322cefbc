-- ===== src/Base/Tests.antt =====
-- Boolean tests on the native numbers, the conditional, and equality of map keys.
use Prim.Native.Nat.{ℕ, ◌≤◌, ◌<◌, compare, Ordering}
use mathlib.Core.Path.{◌≡◌, refl}
use mathlib.Core.Logic.{◌↔◌, ◌⊎◌, inl, inr}
use mathlib.Core.Bool.{Bool, true, false, ◌&&◌}
use mathlib.Core.List.{List, [], ◌∷◌}
use mathlib.Core.Option.{Option, none, some}
use native.Mathlib.Omega.{arith}

abbrev pub ltb : ℕ → ℕ → Bool
ltb a b = elim (compare a b) [ Ordering.lt ↦ true | _ ↦ false ]

abbrev pub leb : ℕ → ℕ → Bool
leb a b = elim (compare a b) [ Ordering.gt ↦ false | _ ↦ true ]

infix 50 ◌==◌
abbrev pub ◌==◌ : ℕ → ℕ → Bool
a == b = elim (compare a b) [ Ordering.eq ↦ true | _ ↦ false ]

infix 1 if◌then◌else◌
abbrev pub if◌then◌else◌ {ℓ} : {A : Type ℓ} → Bool → A → A → A
if true then x else y = x
if false then x else y = y

pub ltb→lt : (a b : ℕ) → ltb a b ≡ true → a < b
ltb→lt a b h = ground arith

pub lt→ltb : (a b : ℕ) → a < b → ltb a b ≡ true
lt→ltb a b h = ground arith

pub le→ltb : (a b : ℕ) → b ≤ a → ltb a b ≡ false
le→ltb a b h = ground arith

pub le→leb : (a b : ℕ) → a ≤ b → leb a b ≡ true
le→leb a b h = ground arith

pub leb→le : (a b : ℕ) → leb a b ≡ true → a ≤ b
leb→le a b h = ground arith

pub ==_iff : (a b : ℕ) → ((a == b) ≡ true) ↔ (a ≡ b)
==_iff a b = ground arith

pub Bool-cases : (b : Bool) → (b ≡ true) ⊎ (b ≡ false)
Bool-cases true = inl refl
Bool-cases false = inr refl

pub Option-cases {ℓ} : {A : Type ℓ} (o : Option A) → (o ≡ none) ⊎ ((a : A) × (o ≡ some a))
Option-cases none = inl refl
Option-cases (some a) = inr (a, refl)

pub List-cases {ℓ} :
    {A : Type ℓ} (xs : List A) → (xs ≡ []) ⊎ ((y : A) × (ys : List A) × (xs ≡ y ∷ ys))
List-cases [] = inl refl
List-cases (x ∷ xs) = inr (x, xs, refl)

-- `==` of a key type, with its meaning.
pub record KeyEq {ℓ} (A : Type ℓ) : Type ℓ where
  pub same : A → A → Bool
  pub same_iff : (a b : A) → (same a b ≡ true) ↔ (a ≡ b)

-- A text is the list of its UTF-8 bytes, and `==` compares the bytes.
abbrev pub Text : Type 0
Text = List ℕ

abbrev pub text_same : Text → Text → Bool
text_same [] [] = true
text_same [] (y ∷ ys) = false
text_same (x ∷ xs) [] = false
text_same (x ∷ xs) (y ∷ ys) = (x == y) && text_same xs ys

pub text_same_iff : (a b : Text) → (text_same a b ≡ true) ↔ (a ≡ b)
text_same_iff [] [] = ground arith
text_same_iff [] (y ∷ ys) = ground arith
text_same_iff (x ∷ xs) [] = ground arith
text_same_iff (x ∷ xs) (y ∷ ys) = ground (arith, text_same_iff xs ys)

instance abbrev pub text_eq : KeyEq Text
text_eq = record { same = text_same; same_iff = text_same_iff }

instance abbrev pub nat_eq : KeyEq ℕ
nat_eq = record { same = ◌==◌; same_iff = ==_iff }

abbrev pub pair_same : Text × Text → Text × Text → Bool
pair_same a b = text_same a.0 b.0 && text_same a.1 b.1

pub pair_same_iff : (a b : Text × Text) → (pair_same a b ≡ true) ↔ (a ≡ b)
pair_same_iff (a, b) (c, d) = ground (arith, text_same_iff a c, text_same_iff b d)

instance abbrev pub pair_eq : KeyEq (Text × Text)
pair_eq = record { same = pair_same; same_iff = pair_same_iff }
