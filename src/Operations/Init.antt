-- ===== src/Operations/Init.antt =====
-- server/src/operations/init.rs: what the page-files and `tables.meta` hold is made the tables of a namespace again. The parser of
-- an entity, the table and the partition are the crates', and parameters.
pub mod Restored
pub mod Rows
pub mod Recovered
mod Tests
use my_no_sql_server_grpc.Base.{
  ℕ, Bool, true, false, List, [], ◌∷◌, Option, none, some, if◌then◌else◌, Text, text_eq,
}
use my_no_sql_server_grpc.Base.Assoc.{lookup, insert}
use my_no_sql_server_grpc.Base.Outcome.{Outcome, returns, panics, ◌>>=◌}
use my_no_sql_server_grpc.Base.Result.{ok, err}
use my_no_sql_server_grpc.Persist.PartitionBlob.{Zstd, PersistedRow, deserialize}
use my_no_sql_server_grpc.Persist.Files.{LoadedPartition}

-- `T` is the table, `P` its partition, `R` a row, `A` the attributes and `E` a parsed entity.
pub record Restores (T P R A E : Type 0) : Type 0 where
  pub new_table : Text → A → T
  pub default_attributes : A
  pub new_partition : Text → P
  pub insert_or_replace : R → P → P
  pub restore_partition : P → T → T
  -- `none` is an entity that can not be parsed.
  pub parse : List ℕ → Option E
  pub time_stamp : E → Option ℕ
  pub new_row : E → ℕ → ℕ → R

module _ {T P R A E : Type 0} (ops : Restores T P R A E) (zstd : Zstd) (skip_errors : Bool)
    (now : ℕ) where
  -- `DbInstance::get_or_create`, and the table that it hands out.
  unfoldable pub get_or_create : Text → A → List (Text × T) → T × List (Text × T)
  get_or_create table_name attributes tables = elim (lookup table_name tables) [
    | some db_table ↦ (db_table, tables)
    | none ↦
        let db_table = ops.new_table table_name attributes in
        (db_table, insert table_name db_table tables)
  ]

  unfoldable pub create_tables : List (Text × A) → List (Text × T) → List (Text × T)
  create_tables [] tables = tables
  create_tables ((table_name, attr) ∷ loaded) tables =
      create_tables loaded (get_or_create table_name attr tables).1

  abbrev time_stamp_of : E → ℕ
  time_stamp_of parsed = elim (ops.time_stamp parsed) [ some time_stamp ↦ time_stamp | none ↦ now ]

  -- `for persisted in rows`
  unfoldable pub restore_rows : List PersistedRow → P → Outcome P
  restore_rows [] db_partition = returns db_partition
  restore_rows (persisted ∷ rows) db_partition = elim (ops.parse persisted.row) [
    | none ↦ elim skip_errors [ true ↦ restore_rows rows db_partition | false ↦ panics ]
    | some parsed ↦ restore_rows rows (
        ops.insert_or_replace (ops.new_row parsed persisted.schema_id (time_stamp_of parsed))
          db_partition)
  ]

  unfoldable pub restore : LoadedPartition → List (Text × T) → Outcome (List (Text × T))
  restore loaded tables = elim (deserialize zstd loaded.payload) [
    | err e ↦ if skip_errors then returns tables else panics
    | ok rows ↦
        let (db_table, tables') = get_or_create loaded.table_name ops.default_attributes tables in
        do
          db_partition ← restore_rows rows (ops.new_partition loaded.partition_key)
          returns (insert loaded.table_name (ops.restore_partition db_partition db_table) tables')
  ]

  unfoldable pub restore_all : List LoadedPartition → List (Text × T) → Outcome (List (Text × T))
  restore_all [] tables = returns tables
  restore_all (loaded ∷ partitions) tables = do
    tables ← restore loaded tables
    restore_all partitions tables

  unfoldable pub load_namespace : List (Text × A) → List LoadedPartition → Outcome (List (Text × T))
  load_namespace metadata partitions = restore_all partitions (create_tables metadata [])
