-- ===== src/Persist/Files/Vacuum/Places.antt =====
-- The slots of a class that the index names, and those that the compaction picks.
use my_no_sql_server_grpc.Base.{
  ℕ, ◌≡◌, refl, sym, ap, ◌∙◌, arith, true, false, ◌&&◌, inl, inr, List, [], ◌∷◌, none, some, ltb,
  leb, ◌==◌, ==_iff, if◌then◌else◌, length, Text, nat_eq, pair_eq, pair_same, pair_same_iff,
  Bool-cases,
}
use my_no_sql_server_grpc.Base.Assoc.{lookup, Distinct}
use my_no_sql_server_grpc.Persist.Files.{SlotLocation}
use my_no_sql_server_grpc.Persist.Files.FreeList.{contains, Unique}
use my_no_sql_server_grpc.Persist.Files.Vacuum.{head_frees, tail_lives}
use my_no_sql_server_grpc.Persist.Files.Vacuum.Count.{below, beyond}

abbrev pub Index : Type 0
Index = List ((Text × Text) × SlotLocation)

-- The slots of the class `c` that the index names.
abbrev pub places : ℕ → Index → List ℕ
places c [] = []
places c ((key, l) ∷ index) =
    let rest = places c index in if l.size_class == c then l.slot_index ∷ rest else rest

abbrev pub at : ℕ → ℕ → SlotLocation
at c i = record { size_class = c; slot_index = i }

-- A key of a shorter index is not the one in front of it.
later :
    (key k : Text × Text) (l m : SlotLocation) (index : Index)
    → lookup key index ≡ none
    → lookup k index ≡ some m
    → lookup k ((key, l) ∷ index) ≡ some m
later key k l m index new e = elim (Bool-cases (pair_same key k)) [
  | inl same ↦
      absurd
        (ground (arith, ap (λ (j : Text × Text). lookup j index) ((pair_same_iff key k).0 same)))
  | inr other ↦ rw other e
]

pub contains-places :
    (c i : ℕ) (index : Index)
    → Distinct index
    → contains i (places c index) ≡ true
    → (k : Text × Text) × (lookup k index ≡ some (at c i))
contains-places c i [] d h = absurd (ground arith)
contains-places c i ((key, l) ∷ index) d h =
    elim (Bool-cases ((l.size_class == c) && (l.slot_index == i))) [
      | inl here ↦
          (key, ground (arith, pair_same_iff key key, ==_iff l.size_class c, ==_iff l.slot_index i))
      | inr other ↦
          let (k, e) = contains-places c i index d.1 (ground arith) in
          (k, later key k l (at c i) index d.0 e)
    ]

pub places-contains :
    (c i : ℕ) (k : Text × Text) (index : Index)
    → lookup k index ≡ some (at c i)
    → contains i (places c index) ≡ true
places-contains c i k [] e = absurd (ground arith)
places-contains c i k ((key, l) ∷ index) e =
    ground (arith, ==_iff c c, ==_iff i i, places-contains c i k index)

pub places-Unique :
    (c : ℕ) (index : Index)
    → Distinct index
    → ((a b : Text × Text) (l : SlotLocation)
        → lookup a index ≡ some l
        → lookup b index ≡ some l
        → a ≡ b)
    → Unique (places c index)
places-Unique c [] d one = tt
places-Unique c ((key, l) ∷ index) d one =
    let rest =
      places-Unique c index d.1
        (λ a b m ha hb. one a b m (later key a l m index d.0 ha) (later key b l m index d.0 hb)) in
    elim (Bool-cases (l.size_class == c)) [
      | inl same ↦
          let fresh : contains l.slot_index (places c index) ≡ false =
            elim (Bool-cases (contains l.slot_index (places c index))) [
              | inl again ↦
                  let (k, e) = contains-places c l.slot_index index d.1 again in
                  let whole : at c l.slot_index ≡ l = ground (arith, ==_iff l.size_class c) in
                  let equal : key ≡ k =
                    one key k l (rw ((pair_same_iff key key).1 refl) refl)
                      (later key k l l index d.0 (e ∙ ap some whole)) in
                  absurd (ground (arith, d.0, ap (λ (j : Text × Text). lookup j index) equal))
              | inr new ↦ new
            ] in
          rw same (fresh, rest)
      | inr other ↦ rw other rest
    ]

pub length-tail_lives :
    (c live : ℕ) (index : Index) → length (tail_lives c live index) ≡ beyond live (places c index)
unfolding tail_lives
length-tail_lives c live [] = refl
length-tail_lives c live ((key, l) ∷ index) = ground (arith, length-tail_lives c live index)

pub length-head_frees : (live : ℕ) (free : List ℕ) → length (head_frees live free) ≡ below live free
unfolding head_frees
length-head_frees live [] = refl
length-head_frees live (i ∷ free) = ground (arith, length-head_frees live free)

pub contains-head_frees :
    (live i : ℕ) (free : List ℕ)
    → contains i (head_frees live free) ≡ (ltb i live && contains i free)
unfolding head_frees
contains-head_frees live i [] = ground arith
contains-head_frees live i (j ∷ free) = ground (arith, ==_iff j i, contains-head_frees live i free)

pub head_frees-Unique : (live : ℕ) (free : List ℕ) → Unique free → Unique (head_frees live free)
unfolding head_frees
head_frees-Unique live [] u = tt
head_frees-Unique live (j ∷ free) u =
    ground (arith, contains-head_frees live j free, head_frees-Unique live free u.1)

pub lookup-tail_lives :
    (c live : ℕ) (index : Index) (k : Text × Text)
    → Distinct index
    → lookup k (tail_lives c live index) ≡ elim (lookup k index) [
      | none ↦ none
      | some l ↦ if (l.size_class == c) && leb live l.slot_index then some l.slot_index else none
    ]
unfolding tail_lives
lookup-tail_lives c live [] k d = refl
lookup-tail_lives c live ((key, l) ∷ index) k d = elim (Bool-cases (pair_same key k)) [
  | inl same ↦
      let gone : lookup k index ≡ none =
        ap (λ (j : Text × Text). lookup j index) (sym ((pair_same_iff key k).0 same)) ∙ d.0 in
      ground (arith, lookup-tail_lives c live index k d.1)
  | inr other ↦ ground (arith, lookup-tail_lives c live index k d.1)
]

pub tail_lives-Distinct :
    (c live : ℕ) (index : Index) → Distinct index → Distinct (tail_lives c live index)
unfolding tail_lives
tail_lives-Distinct c live [] d = tt
tail_lives-Distinct c live ((key, l) ∷ index) d =
    ground (arith, lookup-tail_lives c live index key d.1, tail_lives-Distinct c live index d.1)
