-- ===== src/Persist/Files/Loaded.antt =====
-- The winners of the scan: their index, and the partitions that are handed out.
use my_no_sql_server_grpc.Base.{
  ℕ, ◌≡◌, refl, sym, ap, ◌∙◌, arith, inl, inr, List, [], ◌∷◌, Option, none, some, if◌then◌else◌,
  Text, pair_eq, pair_same, pair_same_iff, Bool-cases, All,
}
use my_no_sql_server_grpc.Base.Assoc.{lookup, insert, Distinct, lookup-insert, insert-Distinct}
use my_no_sql_server_grpc.Persist.Files.{SlotLocation, Winners, index_all, loaded, LoadedPartition}

-- The payload that was loaded for a partition.
abbrev pub payload_of : Text × Text → List LoadedPartition → Option (List ℕ)
payload_of key [] = none
payload_of key (p ∷ ps) =
    if pair_same (p.table_name, p.partition_key) key then some p.payload else payload_of key ps

pub payload_of-loaded :
    (winners : Winners) (key : Text × Text)
    → payload_of key (loaded winners)
      ≡ elim (lookup key winners) [ none ↦ none | some slot ↦ some slot.payload ]
unfolding loaded
payload_of-loaded [] key = refl
payload_of-loaded ((k, slot) ∷ winners) key = ground (arith, payload_of-loaded winners key)

abbrev pub partition_key_of : LoadedPartition → Text × Text
partition_key_of p = (p.table_name, p.partition_key)

-- No partition is loaded twice.
abbrev pub OnePerKey : List LoadedPartition → Type 0
OnePerKey [] = Unit {0}
OnePerKey (p ∷ ps) = (payload_of (partition_key_of p) ps ≡ none) × OnePerKey ps

pub loaded-OnePerKey : (winners : Winners) → Distinct winners → OnePerKey (loaded winners)
unfolding loaded
loaded-OnePerKey [] d = tt
loaded-OnePerKey ((k, slot) ∷ winners) (fresh, d) =
    (ground (arith, payload_of-loaded winners k), loaded-OnePerKey winners d)

-- What holds of all payloads that are found holds of all that were loaded.
pub All-found :
    (Q : LoadedPartition → Type 0) (partitions : List LoadedPartition)
    → OnePerKey partitions
    → ((p : LoadedPartition) → payload_of (partition_key_of p) partitions ≡ some p.payload → Q p)
    → All Q partitions
All-found Q [] apart each = tt
All-found Q (p ∷ ps) (fresh, apart) each = (
  each p (ground (arith, pair_same_iff (partition_key_of p) (partition_key_of p))),
  All-found Q ps apart (λ q e.
      each q (elim (Bool-cases (pair_same (partition_key_of p) (partition_key_of q))) [
        | inl same ↦ absurd (
            ground (
              arith,
              ap (λ (k : Text × Text). payload_of k ps)
                  ((pair_same_iff (partition_key_of p) (partition_key_of q)).0 same),
            ))
        | inr other ↦ rw other e
      ])),
)

-- The index of the winners.
pub lookup-index_all :
    (winners : Winners) (index : List ((Text × Text) × SlotLocation)) (key : Text × Text)
    → Distinct winners
    → lookup key (index_all winners index)
      ≡ elim (lookup key winners) [ none ↦ lookup key index | some slot ↦ some slot.location ]
unfolding index_all
lookup-index_all [] index key d = refl
lookup-index_all ((k, slot) ∷ winners) index key d = elim (Bool-cases (pair_same k key)) [
  | inl same ↦
      let eq : k ≡ key = (pair_same_iff k key).0 same in
      let gone : lookup key winners ≡ none =
        ap (λ (j : Text × Text). lookup j winners) (sym eq) ∙ d.0 in
      ground (
        arith,
        lookup-index_all winners (insert k slot.location index) key d.1,
        lookup-insert k key slot.location index,
      )
  | inr other ↦ ground (
    arith,
    lookup-index_all winners (insert k slot.location index) key d.1,
    lookup-insert k key slot.location index,
  )
]

pub index_all-Distinct :
    (winners : Winners) (index : List ((Text × Text) × SlotLocation))
    → Distinct index
    → Distinct (index_all winners index)
unfolding index_all
index_all-Distinct [] index d = d
index_all-Distinct ((k, slot) ∷ winners) index d =
    index_all-Distinct winners (insert k slot.location index)
      (insert-Distinct k slot.location index d)
