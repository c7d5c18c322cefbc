-- ===== src/Persist/Files/FreeList.antt =====
-- Lists of slots: what `Vec::push` and `Vec::pop` do to what is on it.
use my_no_sql_server_grpc.Base.{
  ℕ, ◌≡◌, refl, arith, Bool, true, false, ◌||◌, List, [], ◌∷◌, ◌++◌, inl, inr, some, none, ◌==◌,
  KeyEq, nat_eq, Option-cases,
}
use my_no_sql_server_grpc.Persist.Files.{pop}

-- What stands in a list of slots.
module _ {A : Type 0} ⦃e : KeyEq A⦄ where
  abbrev pub contains : A → List A → Bool
  contains i [] = false
  contains i (x ∷ xs) = e.same x i || contains i xs

  -- No slot is on the list twice.
  abbrev pub Unique : List A → Type 0
  Unique [] = Unit {0}
  Unique (x ∷ xs) = (contains x xs ≡ false) × Unique xs

  pub contains-append :
      (i : A) (xs ys : List A) → contains i (xs ++ ys) ≡ (contains i xs || contains i ys)
  contains-append i [] ys = refl
  contains-append i (x ∷ xs) ys = ground (arith, contains-append i xs ys)

  pub Unique-append :
      (xs ys : List A)
      → Unique xs
      → Unique ys
      → ((i : A) → contains i ys ≡ true → contains i xs ≡ false)
      → Unique (xs ++ ys)
  Unique-append [] ys u v apart = v
  Unique-append (x ∷ xs) ys u v apart = (
    ground (arith, contains-append x xs ys, apart x, e.same_iff x x),
    Unique-append xs ys u.1 v (λ i h. ground (arith, apart i h)),
  )

  pub Unique-push :
      (xs : List A) (x : A) → Unique xs → contains x xs ≡ false → Unique (xs ++ (x ∷ []))
  Unique-push [] x u fresh = (refl, tt)
  Unique-push (y ∷ ys) x u fresh = (
    ground (arith, contains-append y ys (x ∷ []), e.same_iff x y, e.same_iff y x),
    Unique-push ys x u.1 (ground arith),
  )

pub pop-eq-none : (xs : List ℕ) → pop xs ≡ none → xs ≡ []
unfolding pop
pop-eq-none [] h = refl
pop-eq-none (x ∷ xs) h = elim (Option-cases (pop xs)) [
  | inl e ↦ absurd (ground arith)
  | inr (last, e) ↦ absurd (ground arith)
]

pub contains-pop :
    (xs : List ℕ) (last : ℕ) (rest : List ℕ) (i : ℕ)
    → pop xs ≡ some (last, rest)
    → contains i xs ≡ ((last == i) || contains i rest)
unfolding pop
contains-pop [] last rest i h = cc
contains-pop (x ∷ xs) last rest i h = elim (Option-cases (pop xs)) [
  | inl e ↦ ground (arith, pop-eq-none xs)
  | inr ((y, ys), e) ↦ ground (arith, contains-pop xs y ys i e)
]

pub Unique-pop :
    (xs : List ℕ) (last : ℕ) (rest : List ℕ)
    → pop xs ≡ some (last, rest)
    → Unique xs
    → (contains last rest ≡ false) × Unique rest
unfolding pop
Unique-pop [] last rest h u = cc
Unique-pop (x ∷ xs) last rest h u = elim (Option-cases (pop xs)) [
  | inl e ↦ ground (arith, pop-eq-none xs)
  | inr ((y, ys), e) ↦ ground (arith, contains-pop xs y ys x e, Unique-pop xs y ys e u.1)
]
