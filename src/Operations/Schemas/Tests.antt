-- ===== src/Operations/Schemas/Tests.antt =====
-- A table of which only the schemas matter, and a schema that comes under a known id.
use my_no_sql_server_grpc.Base.{
  ℕ, ◌≡◌, ◌≢◌, arith, Bool, true, false, List, [], ◌∷◌, ◌⊎◌, Option, none, some, ◌==◌, ==_iff,
  if◌then◌else◌,
}
use my_no_sql_server_grpc.Base.Result.{ok, err}
use my_no_sql_server_grpc.Persist.Markers
use my_no_sql_server_grpc.Registry.{no_entries}
use my_no_sql_server_grpc.Operations.Core.{DbTableOps, GcResult, row_not_found}
use my_no_sql_server_grpc.Operations.Write.{World}
use my_no_sql_server_grpc.Operations.Schemas.{
  EntitySchema, schema_id_is_already_taken_by_another_schema, Entities, register_schema,
}
use my_no_sql_server_grpc.Operations.Schemas.Known.{KeepsSchemas, IsKnown, register_schema-IsKnown}

abbrev nothing : GcResult
nothing = record { partitions_removed = []; rows_removed = []; partitions_to_persist = [] }

abbrev find : ℕ → List EntitySchema → Option EntitySchema
find id [] = none
find id (s ∷ t) = if s.id == id then some s else find id t

abbrev schemas : DbTableOps (List EntitySchema) ℕ Bool EntitySchema ℕ
schemas = record {
  get_partition_key = λ r. [];
  get_row_key = λ r. [];
  get_content_size = λ r. 0;
  get_time_stamp = λ r. 0;
  insert_if_not_exists = λ r t. (false, t);
  insert_or_replace = λ r t. t;
  bulk_write = λ mode rows t. (record { written = []; partitions_to_persist = [] }, t);
  replace_if_version_matches = λ r version t. (row_not_found, t);
  delete_row = λ p k t. (none, t);
  delete_partitions = λ keys t. ([], t);
  clean = λ t. ([], t);
  delete_rows_action = λ partition. 0;
  apply_transaction = λ actions t. (record { changes = []; partitions_to_persist = [] }, t);
  gc = λ now t. (nothing, t);
  keep_max_partitions_amount = λ max t. (nothing, t);
  keep_max_rows_in_partition = λ p max t. (nothing, t);
  gc_result_is_empty = λ result. true;
  gc_schemas = λ t. (false, t);
  get_attributes = λ t. true;
  set_attributes = λ a t. t;
  with_created = λ old new. new;
  is_persisted = λ a. a;
  get_schema = find;
  register_schema = λ s t. (true, s ∷ t);
  get_rows = λ p t. [];
}

abbrev entities : Entities (List ℕ) ℕ ℕ
entities = record {
  parse = λ bytes. ok bytes;
  time_stamp = λ e. none;
  get_partition_key = λ e. [];
  get_row_key = λ e. [];
  new_row = λ e schema_id time_stamp. time_stamp;
}

abbrev world : World (List EntitySchema) ℕ Bool
world = record {
  reader_sessions = no_entries;
  persist_markers = Markers.new;
  db_table = record { id = 7; schema = 1 ∷ 2 ∷ [] } ∷ [];
}

schemas-KeepsSchemas : KeepsSchemas schemas (116 ∷ []) entities
schemas-KeepsSchemas = record {
  registered = λ s t free. ground (arith, ==_iff s.id s.id);
  others = λ s t id other. ground (arith, ==_iff s.id id);
}

abbrev other_shape : EntitySchema
other_shape = record { id = 7; schema = 1 ∷ 3 ∷ [] }

register_schema-IsKnown_example :
    (((register_schema schemas (116 ∷ []) entities other_shape 5 world).0 ≡ ok 7)
      × IsKnown schemas
          (116 ∷ [])
          entities
          other_shape
          world
          (register_schema schemas (116 ∷ []) entities other_shape 5 world).1)
    ⊎ ((register_schema schemas (116 ∷ []) entities other_shape 5 world
          ≡ (err (schema_id_is_already_taken_by_another_schema 7), world))
        × ((known : EntitySchema) × (find 7 world.db_table ≡ some known)
            × (known.schema ≢ 1 ∷ 3 ∷ [])))
register_schema-IsKnown_example =
    register_schema-IsKnown schemas (116 ∷ []) entities other_shape 5 world schemas-KeepsSchemas
