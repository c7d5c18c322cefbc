-- ===== src/Persist/Files/Vacuum/Count.antt =====
-- The free slots and the live ones of a file below some end are as many as there are slots below it.
use my_no_sql_server_grpc.Base.{
  ℕ, zero, suc, ◌+◌, ◌≡◌, ◌<◌, refl, arith, true, not, inl, inr, List, [], ◌∷◌, ltb, leb, ◌==◌,
  ==_iff, if◌then◌else◌, length, nat_eq, Bool-cases,
}
use my_no_sql_server_grpc.Persist.Files.FreeList.{contains, Unique}

-- How many of a list lie below, and how many at or beyond.
abbrev pub below : ℕ → List ℕ → ℕ
below m [] = 0
below m (x ∷ xs) = if ltb x m then suc (below m xs) else below m xs

abbrev pub beyond : ℕ → List ℕ → ℕ
beyond m [] = 0
beyond m (x ∷ xs) = if leb m x then suc (beyond m xs) else beyond m xs

pub below-beyond : (m : ℕ) (xs : List ℕ) → below m xs + beyond m xs ≡ length xs
below-beyond m [] = refl
below-beyond m (x ∷ xs) = ground (arith, below-beyond m xs)

below-suc :
    (m : ℕ) (xs : List ℕ)
    → Unique xs
    → below (suc m) xs ≡ (if contains m xs then suc (below m xs) else below m xs)
below-suc m [] u = refl
below-suc m (x ∷ xs) u = elim (Bool-cases (x == m)) [
  | inl same ↦ ground (arith, below-suc m xs u.1, ==_iff x m)
  | inr other ↦ ground (arith, below-suc m xs u.1, ==_iff x m)
]

below-zero : (xs : List ℕ) → below zero xs ≡ 0
below-zero [] = refl
below-zero (x ∷ xs) = ground (arith, below-zero xs)

-- Two lists without repetitions of which exactly one has each number below `m`.
pub below-both :
    (m : ℕ) (xs ys : List ℕ)
    → Unique xs
    → Unique ys
    → ((i : ℕ) → i < m → contains i xs ≡ not (contains i ys))
    → below m xs + below m ys ≡ m
below-both zero xs ys u v split = ground (arith, below-zero xs, below-zero ys)
below-both (suc m) xs ys u v split = ground (
  arith,
  below-both m xs ys u v (λ i h. split i (omega arith)),
  below-suc m xs u,
  below-suc m ys v,
  split m,
)

pub below-all :
    (m : ℕ) (xs : List ℕ) → ((i : ℕ) → contains i xs ≡ true → i < m) → below m xs ≡ length xs
below-all m [] h = refl
below-all m (x ∷ xs) h = ground (arith, h x, ==_iff x x, below-all m xs (λ i e. h i (ground arith)))
