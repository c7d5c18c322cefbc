-- ===== src/Operations/Schemas.antt =====
-- server/src/db_operations/write/build_db_row.rs: a row of the database out of what arrived. The crates' parser of an entity
-- and constructor of a row are parameters.
pub mod Known
mod Tests
use my_no_sql_server_grpc.Base.{
  ℕ, ◌≡◌, Bool, true, false, List, [], ◌∷◌, Option, none, some, if◌then◌else◌, Text, text_same,
}
use my_no_sql_server_grpc.Base.Result.{Result, ok, err, ◌>>=◌}
use my_no_sql_server_grpc.App.Periods.{DataSyncPeriod, get_sync_moment}
use my_no_sql_server_grpc.Operations.Core.{DbTableOps}
use my_no_sql_server_grpc.Operations.Write.{World, mark_table_metadata_to_persist}

-- Of my_no_sql_grpc_abstractions: a schema is its id and its bytes.
pub record EntitySchema : Type 0 where
  pub id : ℕ
  pub schema : List ℕ

pub data EntityParseFail (F : Type 0) : Type 0 where
  can_not_parse : F → EntityParseFail F
  schema_id_is_already_taken_by_another_schema : ℕ → EntityParseFail F
  time_stamp_is_required : Text → Text → EntityParseFail F

pub record Entities (E R F : Type 0) : Type 0 where
  pub parse : List ℕ → Result (EntityParseFail F) E
  pub time_stamp : E → Option ℕ
  pub get_partition_key : E → Text
  pub get_row_key : E → Text
  pub new_row : E → ℕ → ℕ → R

pub record WriteRowRequest : Type 0 where
  pub row : List ℕ
  pub schema : EntitySchema
  pub sync_period : DataSyncPeriod
  pub use_client_time_stamp : Bool

pub record PreparedRow (R : Type 0) : Type 0 where
  pub db_row : R
  pub persist_moment : ℕ

unfoldable pub check_it_is_the_same_schema :
    {F : Type 0} → EntitySchema → EntitySchema → Result (EntityParseFail F) (Unit {0})
check_it_is_the_same_schema already arriving =
    if text_same already.schema arriving.schema
    then ok tt
    else err (schema_id_is_already_taken_by_another_schema arriving.id)

unfoldable pub build_row :
    {E R F : Type 0} → Entities E R F → E → ℕ → Bool → ℕ → Result (EntityParseFail F) R
build_row entities parsed schema_id use_client_time_stamp now =
    if use_client_time_stamp
    then elim (entities.time_stamp parsed) [
      | some time_stamp ↦ ok (entities.new_row parsed schema_id time_stamp)
      | none ↦
          err (
            time_stamp_is_required (entities.get_partition_key parsed)
              (entities.get_row_key parsed))
    ]
    else ok (entities.new_row parsed schema_id now)

module _ {T R A Act : Type 0} (db : DbTableOps T R A EntitySchema Act) (table_name : Text)
    {E F : Type 0} (entities : Entities E R F) where
  unfoldable pub register_schema :
      EntitySchema → ℕ → World T R A → Result (EntityParseFail F) ℕ × World T R A
  register_schema schema now w = elim (db.get_schema schema.id w.db_table) [
    | some already ↦ (check_it_is_the_same_schema already schema >>= λ _. ok schema.id, w)
    | none ↦
        let (registered, db_table) = db.register_schema schema w.db_table in
        let w' = record w { db_table = db_table } in
        (
          ok schema.id,
          if registered
              then record w' {
                persist_markers = mark_table_metadata_to_persist table_name now w.persist_markers;
              }
              else w',
        )
  ]

  -- The row of a request, once its schema is registered.
  abbrev pub prepared :
      WriteRowRequest
      → ℕ
      → E
      → Result (EntityParseFail F) ℕ
      → Result (EntityParseFail F) (PreparedRow R)
  prepared request now parsed registered = do
    schema_id ← registered
    db_row ← build_row entities parsed schema_id request.use_client_time_stamp now
    ok (record { db_row = db_row; persist_moment = get_sync_moment request.sync_period now })

  unfoldable pub build_db_row :
      WriteRowRequest → ℕ → World T R A → Result (EntityParseFail F) (PreparedRow R) × World T R A
  unfolding build_row
  build_db_row request now w = elim (entities.parse request.row) [
    | err e ↦ (err e, w)
    | ok parsed ↦
        let (registered, w') = register_schema request.schema now w in
        (prepared request now parsed registered, w')
  ]

  -- `for row in rows`
  unfoldable pub build_rows : ℕ → Bool → ℕ → List (List ℕ) → Result (EntityParseFail F) (List R)
  build_rows schema_id use_client_time_stamp now [] = ok []
  build_rows schema_id use_client_time_stamp now (row ∷ rows) = do
    parsed ← entities.parse row
    db_row ← build_row entities parsed schema_id use_client_time_stamp now
    db_rows ← build_rows schema_id use_client_time_stamp now rows
    ok (db_row ∷ db_rows)

  unfoldable pub build_db_rows :
      EntitySchema
      → List (List ℕ)
      → Bool
      → ℕ
      → World T R A
      → Result (EntityParseFail F) (List R) × World T R A
  unfolding build_rows
  build_db_rows schema rows use_client_time_stamp now w =
      let (registered, w') = register_schema schema now w in
      (do schema_id ← registered; build_rows schema_id use_client_time_stamp now rows, w')
