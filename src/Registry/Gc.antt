-- ===== src/Registry/Gc.antt =====
-- What the collection of the entries that went quiet leaves.
use my_no_sql_server_grpc.Base.{
  ℕ, ◌≡◌, refl, ◌∙◌, arith, Bool, false, ◌||◌, List, [], ◌∷◌, inl, inr, none, some, if◌then◌else◌,
  Bool-cases, Option-cases, Text, text_eq, text_same, text_same_iff,
}
use my_no_sql_server_grpc.Base.Assoc.{lookup, Distinct}
use my_no_sql_server_grpc.Registry.{
  Registry, get, remove_id, is_expired, expired_ids, remove_all, gc,
}
use my_no_sql_server_grpc.Registry.Create.{IsValid, remove_id-IsRemoved}

abbrev pub is_in : Text → List Text → Bool
is_in id [] = false
is_in id (j ∷ ids) = text_same j id || is_in id ids

module _ {V : Type 0} (id_of : V → Text) (last_incoming_of : V → ℕ) where
  remove_all-found :
      (ids : List Text) (r : Registry V)
      → IsValid id_of r
      → IsValid id_of (remove_all id_of last_incoming_of ids r)
        × ((id : Text)
            → get id (remove_all id_of last_incoming_of ids r)
              ≡ (if is_in id ids then none else get id r))
  remove_all-found [] r h = (h, λ id. refl)
  remove_all-found (j ∷ ids) r h =
      let one = remove_id-IsRemoved id_of j r h in
      let (valid, found) = remove_all-found ids (remove_id j r).1 one.valid in
      (valid, λ id. ground (arith, found id, one.found id))

  -- The ids that are collected are those of the entries that went quiet.
  expired_ids-lookup :
      (now ttl_secs : ℕ) (m : List (Text × V)) (id : Text)
      → Distinct m
      → ((j : Text) (v : V) → lookup j m ≡ some v → id_of v ≡ j)
      → is_in id (expired_ids id_of last_incoming_of now ttl_secs m) ≡ elim (lookup id m) [
        | none ↦ false
        | some v ↦ is_expired now ttl_secs (last_incoming_of v)
      ]
  expired_ids-lookup now ttl_secs [] id d own = refl
  expired_ids-lookup now ttl_secs ((j, v) ∷ m) id d own =
      let rest =
        expired_ids-lookup now ttl_secs m id d.1
          (λ i w found. own i w (ground (arith, text_same_iff j i, d.0))) in
      let e : id_of v ≡ j = own j v (ground (arith, text_same_iff j j)) in
      elim (Bool-cases (is_expired now ttl_secs (last_incoming_of v))) [
        | inl old ↦ rw (e, old) (ground (arith, text_same_iff j id))
        | inr young ↦ rw (e, young) (ground (arith, text_same_iff j id))
      ]

  -- A collection removes exactly what nobody asked for in longer than `ttl_secs`, answers its ids, and keeps the
  -- registry well formed.
  pub gc-found :
      (now ttl_secs : ℕ) (r : Registry V)
      → IsValid id_of r
      → IsValid id_of (gc id_of last_incoming_of now ttl_secs r).1
        × ((id : Text)
            → (is_in id (gc id_of last_incoming_of now ttl_secs r).0 ≡ elim (get id r) [
              | none ↦ false
              | some v ↦ is_expired now ttl_secs (last_incoming_of v)
            ])
              × (get id (gc id_of last_incoming_of now ttl_secs r).1 ≡ elim (get id r) [
                | none ↦ none
                | some v ↦ if is_expired now ttl_secs (last_incoming_of v) then none else some v
              ]))
  unfolding gc get
  gc-found now ttl_secs r h =
      let ids = expired_ids id_of last_incoming_of now ttl_secs r.inner in
      let (valid, found) = remove_all-found ids r h in
      (
        valid,
        λ id.
            let e = expired_ids-lookup now ttl_secs r.inner id h.distinct h.own_id in
            (
              e,
              elim (Option-cases (lookup id r.inner)) [
                | inl absent ↦ found id ∙ rw absent (ground arith)
                | inr (v, present) ↦ found id ∙ ground arith
              ],
            ),
      )
