-- ===== src/Base/Assoc.antt =====
-- `AHashMap` as an association list: at most one entry for a key, in an order that nothing fixes.
use mathlib.Core.Path.{◌≡◌, refl}
use mathlib.Core.List.{List, [], ◌∷◌}
use mathlib.Core.Option.{Option, none, some}
use native.Mathlib.Omega.{arith}
use my_no_sql_server_grpc.Base.Tests.{KeyEq, if◌then◌else◌}
use my_no_sql_server_grpc.Base.Lists.{length}
use Prim.Native.Nat.{suc}

module _ {ℓ κ} {K : Type ℓ} {V : Type κ} ⦃e : KeyEq K⦄ where
  -- `map.get(key)`
  abbrev pub lookup : K → List (K × V) → Option V
  lookup k [] = none
  lookup k ((j, v) ∷ m) = if e.same j k then some v else lookup k m

  -- `map.insert(key, value)`: the value is replaced where the key stands already.
  abbrev pub insert : K → V → List (K × V) → List (K × V)
  insert k v [] = (k, v) ∷ []
  insert k v ((j, w) ∷ m) = if e.same j k then (j, v) ∷ m else (j, w) ∷ insert k v m

  -- `map.remove(key)`
  abbrev pub remove : K → List (K × V) → List (K × V)
  remove k [] = []
  remove k ((j, w) ∷ m) = if e.same j k then remove k m else (j, w) ∷ remove k m

  -- No key has two entries.
  abbrev pub Distinct : List (K × V) → Type κ
  Distinct [] = Unit
  Distinct ((k, v) ∷ m) = (lookup k m ≡ none) × Distinct m

  pub lookup-insert :
      (k j : K) (v : V) (m : List (K × V))
      → lookup j (insert k v m) ≡ (if e.same k j then some v else lookup j m)
  lookup-insert k j v [] = refl
  lookup-insert k j v ((i, w) ∷ m) =
      ground (arith, e.same_iff k j, e.same_iff i k, e.same_iff i j, lookup-insert k j v m)

  pub lookup-remove :
      (k j : K) (m : List (K × V))
      → lookup j (remove k m) ≡ (if e.same k j then none else lookup j m)
  lookup-remove k j [] = ground arith
  lookup-remove k j ((i, w) ∷ m) =
      ground (arith, e.same_iff k j, e.same_iff i k, e.same_iff i j, lookup-remove k j m)

  pub insert-Distinct : (k : K) (v : V) (m : List (K × V)) → Distinct m → Distinct (insert k v m)
  insert-Distinct k v [] d = ground arith
  insert-Distinct k v ((j, w) ∷ m) d =
      ground (arith, e.same_iff j k, e.same_iff k j, lookup-insert k j v m, insert-Distinct k v m)

  pub remove-Distinct : (k : K) (m : List (K × V)) → Distinct m → Distinct (remove k m)
  remove-Distinct k [] d = d
  remove-Distinct k ((j, w) ∷ m) d =
      ground (arith, e.same_iff j k, lookup-remove k j m, remove-Distinct k m)

  pub remove_absent : (k : K) (m : List (K × V)) → lookup k m ≡ none → remove k m ≡ m
  remove_absent k [] h = refl
  remove_absent k ((j, w) ∷ m) h = ground (arith, remove_absent k m)

  -- A key that is there has one entry.
  pub length-remove :
      (k : K) (m : List (K × V)) (v : V)
      → Distinct m
      → lookup k m ≡ some v
      → length m ≡ suc (length (remove k m))
  length-remove k [] v d h = cc
  length-remove k ((j, w) ∷ m) v d h =
      ground (arith, e.same_iff j k, remove_absent k m, length-remove k m v d.1)
