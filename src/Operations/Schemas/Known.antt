-- ===== src/Operations/Schemas/Known.antt =====
-- An id stands for one schema, whoever sends it.
use my_no_sql_server_grpc.Base.{
  ℕ, ◌≡◌, ◌≢◌, refl, arith, ◌⊎◌, inl, inr, none, some, Bool-cases, Option-cases, Text, text_same,
  text_same_iff,
}
use my_no_sql_server_grpc.Base.Result.{ok, err}
use my_no_sql_server_grpc.Operations.Core.{DbTableOps}
use my_no_sql_server_grpc.Operations.Write.{World}
use my_no_sql_server_grpc.Operations.Schemas.{
  EntitySchema, schema_id_is_already_taken_by_another_schema, Entities, check_it_is_the_same_schema,
  register_schema,
}

module _ {T R A Act : Type 0} (db : DbTableOps T R A EntitySchema Act) (table_name : Text)
    {E F : Type 0} (entities : Entities E R F) where
  -- What a schema that is not known becomes, and what it leaves of the others.
  pub record KeepsSchemas : Type 0 where
    pub registered :
        (s : EntitySchema) (t : T)
        → db.get_schema s.id t ≡ none
        → db.get_schema s.id (db.register_schema s t).1 ≡ some s
    pub others :
        (s : EntitySchema) (t : T) (id : ℕ)
        → id ≢ s.id
        → db.get_schema id (db.register_schema s t).1 ≡ db.get_schema id t

  -- What the table knows afterwards.
  pub record IsKnown (schema : EntitySchema) (w w' : World T R A) : Type 0 where
    pub known : EntitySchema
    pub found : db.get_schema schema.id w'.db_table ≡ some known
    pub same_bytes : known.schema ≡ schema.schema
    pub others :
        (id : ℕ) → id ≢ schema.id → db.get_schema id w'.db_table ≡ db.get_schema id w.db_table

  -- `register_schema` takes a schema whose id is free, or is known with the same bytes, and then the table knows the id with
  -- these bytes and every other id as before; and it refuses one whose id is known with other bytes, with nothing changed.
  pub register_schema-IsKnown :
      (schema : EntitySchema) (now : ℕ) (w : World T R A)
      → KeepsSchemas
      → (((register_schema db table_name entities schema now w).0 ≡ ok schema.id)
          × IsKnown schema w (register_schema db table_name entities schema now w).1)
        ⊎ ((register_schema db table_name entities schema now w
              ≡ (err (schema_id_is_already_taken_by_another_schema schema.id), w))
            × ((known : EntitySchema) × (db.get_schema schema.id w.db_table ≡ some known)
                × (known.schema ≢ schema.schema)))
  unfolding register_schema check_it_is_the_same_schema
  register_schema-IsKnown schema now w law =
      elim (Option-cases (db.get_schema schema.id w.db_table)) [
        | inl free ↦ elim (Bool-cases (db.register_schema schema w.db_table).0) [
          | inl fresh ↦ inl (
              rw (register_schema, free, fresh)
                (
                  refl,
                  record {
                    known = schema;
                    found = law.registered schema w.db_table free;
                    same_bytes = refl;
                    others = law.others schema w.db_table;
                  },
                ))
          | inr stale ↦ inl (
              rw (register_schema, free, stale)
                (
                  refl,
                  record {
                    known = schema;
                    found = law.registered schema w.db_table free;
                    same_bytes = refl;
                    others = law.others schema w.db_table;
                  },
                ))
        ]
        | inr (known, taken) ↦ elim (Bool-cases (text_same known.schema schema.schema)) [
          | inl same ↦ inl (
              rw (register_schema, taken, same)
                (
                  refl,
                  record {
                    known = known;
                    found = taken;
                    same_bytes = (text_same_iff known.schema schema.schema).0 same;
                    others = λ id other. refl;
                  },
                ))
          | inr different ↦ inr (
            rw (register_schema, taken, different) refl,
            (known, taken, λ e. ground (arith, text_same_iff known.schema schema.schema)),
          )
        ]
      ]
