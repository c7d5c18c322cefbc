-- ===== src/Persist/Files/Vacuum/Pairs.antt =====
-- The slots that are moved, paired with the places that they go to.
use my_no_sql_server_grpc.Base.{
  ℕ, ◌≡◌, refl, sym, ap, ◌∙◌, arith, true, false, inl, inr, List, [], ◌∷◌, Option, none, some, ◌==◌,
  ==_iff, if◌then◌else◌, length, Text, nat_eq, pair_eq, pair_same, pair_same_iff, Bool-cases,
  Option-cases,
}
use my_no_sql_server_grpc.Base.Assoc.{lookup, insert, Distinct, lookup-insert, insert-Distinct}
use my_no_sql_server_grpc.Persist.Files.{SlotLocation}
use my_no_sql_server_grpc.Persist.Files.FreeList.{contains, Unique}
use my_no_sql_server_grpc.Persist.Files.Vacuum.{repoint}

abbrev pub Lives : Type 0
Lives = List ((Text × Text) × ℕ)

-- Which slot goes to `i`, and where the slot of a key goes.
abbrev pub moved : Lives → List ℕ → ℕ → Option ℕ
moved [] frees i = none
moved (live ∷ lives) [] i = none
moved ((key, from_index) ∷ lives) (to_index ∷ frees) i =
    if to_index == i then some from_index else moved lives frees i

abbrev pub target : Lives → List ℕ → Text × Text → Option ℕ
target [] frees k = none
target (live ∷ lives) [] k = none
target ((key, from_index) ∷ lives) (to_index ∷ frees) k =
    if pair_same key k then some to_index else target lives frees k

target-contains :
    (lives : Lives) (frees : List ℕ) (k : Text × Text) (i : ℕ)
    → target lives frees k ≡ some i
    → contains i frees ≡ true
target-contains [] frees k i h = absurd (ground arith)
target-contains (live ∷ lives) [] k i h = absurd (ground arith)
target-contains ((key, f) ∷ lives) (t ∷ frees) k i h =
    ground (arith, ==_iff t i, target-contains lives frees k i)

target-lookup :
    (lives : Lives) (frees : List ℕ) (k : Text × Text) (i : ℕ)
    → target lives frees k ≡ some i
    → (f : ℕ) × (lookup k lives ≡ some f)
target-lookup [] frees k i h = absurd (ground arith)
target-lookup (live ∷ lives) [] k i h = absurd (ground arith)
target-lookup ((key, f) ∷ lives) (t ∷ frees) k i h = elim (Bool-cases (pair_same key k)) [
  | inl same ↦ (f, rw same refl)
  | inr other ↦ let (g, e) = target-lookup lives frees k i (ground arith) in (g, rw other e)
]

-- A key goes to the place that its slot is moved to.
pub target-moved :
    (lives : Lives) (frees : List ℕ) (k : Text × Text) (i : ℕ)
    → Distinct lives
    → Unique frees
    → target lives frees k ≡ some i
    → (f : ℕ) × (lookup k lives ≡ some f)
      × (moved lives frees i ≡ some f)
      × (contains i frees ≡ true)
target-moved [] frees k i d u h = absurd (ground arith)
target-moved (live ∷ lives) [] k i d u h = absurd (ground arith)
target-moved ((key, f) ∷ lives) (t ∷ frees) k i d u h = elim (Bool-cases (pair_same key k)) [
  | inl same ↦ (f, ground arith, ground (arith, ==_iff t i), ground (arith, ==_iff t i))
  | inr other ↦
      let (g, e, m, inside) = target-moved lives frees k i d.1 u.1 (ground arith) in
      (g, ground arith, ground (arith, ==_iff t i), ground arith)
]

pub moved-target :
    (lives : Lives) (frees : List ℕ) (i f : ℕ)
    → Distinct lives
    → moved lives frees i ≡ some f
    → (k : Text × Text) × (lookup k lives ≡ some f) × (target lives frees k ≡ some i)
moved-target [] frees i f d h = absurd (ground arith)
moved-target (live ∷ lives) [] i f d h = absurd (ground arith)
moved-target ((key, g) ∷ lives) (t ∷ frees) i f d h = elim (Bool-cases (t == i)) [
  | inl same ↦ (
    key,
    ground (arith, pair_same_iff key key),
    ground (arith, pair_same_iff key key, ==_iff t i),
  )
  | inr other ↦
      let (k, e, m) = moved-target lives frees i f d.1 (ground arith) in
      let apart : pair_same key k ≡ false = elim (Bool-cases (pair_same key k)) [
        | inl same ↦ absurd (
            ground
              (arith, d.0, ap (λ (j : Text × Text). lookup j lives) ((pair_same_iff key k).0 same)))
        | inr different ↦ different
      ] in
      (k, rw apart e, rw apart m)
]

pub target-none :
    (lives : Lives) (frees : List ℕ) (k : Text × Text)
    → length lives ≡ length frees
    → target lives frees k ≡ none
    → lookup k lives ≡ none
target-none [] frees k e h = refl
target-none (live ∷ lives) [] k e h = absurd (omega arith)
target-none ((key, f) ∷ lives) (t ∷ frees) k e h = ground (arith, target-none lives frees k)

pub moved-none :
    (lives : Lives) (frees : List ℕ) (i : ℕ)
    → length lives ≡ length frees
    → moved lives frees i ≡ none
    → contains i frees ≡ false
moved-none [] [] i e h = refl
moved-none [] (t ∷ frees) i e h = absurd (omega arith)
moved-none (live ∷ lives) [] i e h = refl
moved-none ((key, f) ∷ lives) (t ∷ frees) i e h = ground (arith, moved-none lives frees i)

pub not_moved :
    (lives : Lives) (frees : List ℕ) (i : ℕ) → contains i frees ≡ false → moved lives frees i ≡ none
not_moved [] frees i h = refl
not_moved (live ∷ lives) [] i h = refl
not_moved ((key, f) ∷ lives) (t ∷ frees) i h = ground (arith, not_moved lives frees i)

-- The index after the moves.
pub lookup-repoint :
    (c : ℕ) (lives : Lives) (frees : List ℕ) (index : List ((Text × Text) × SlotLocation))
    (k : Text × Text)
    → Distinct lives
    → lookup k (repoint c lives frees index) ≡ elim (target lives frees k) [
      | none ↦ lookup k index
      | some i ↦ some (record { size_class = c; slot_index = i })
    ]
unfolding repoint
lookup-repoint c [] frees index k d = refl
lookup-repoint c (live ∷ lives) [] index k d = refl
lookup-repoint c ((key, f) ∷ lives) (t ∷ frees) index k d =
    let there : SlotLocation = record { size_class = c; slot_index = t } in
    let rest = lookup-repoint c lives frees (insert key there index) k d.1 in
    elim (Bool-cases (pair_same key k)) [
      | inl same ↦
          let eq : key ≡ k = (pair_same_iff key k).0 same in
          let gone : lookup k lives ≡ none =
            ap (λ (j : Text × Text). lookup j lives) (sym eq) ∙ d.0 in
          let free : target lives frees k ≡ none = elim (Option-cases (target lives frees k)) [
            | inl e ↦ e
            | inr (i, e) ↦ let (g, found) = target-lookup lives frees k i e in absurd (ground arith)
          ] in
          ground (arith, rest, lookup-insert key k there index)
      | inr other ↦ ground (arith, rest, lookup-insert key k there index)
    ]

pub repoint-Distinct :
    (c : ℕ) (lives : Lives) (frees : List ℕ) (index : List ((Text × Text) × SlotLocation))
    → Distinct index
    → Distinct (repoint c lives frees index)
unfolding repoint
repoint-Distinct c [] frees index d = d
repoint-Distinct c (live ∷ lives) [] index d = d
repoint-Distinct c ((key, f) ∷ lives) (t ∷ frees) index d =
    repoint-Distinct c lives frees (insert key (record { size_class = c; slot_index = t }) index)
      (insert-Distinct key (record { size_class = c; slot_index = t }) index d)
