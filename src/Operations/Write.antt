-- ===== src/Operations/Write.antt =====
-- server/src/db_operations/write and gc.rs: the writes of one table. The locks of the table, of the queue and of
-- the sessions are taken one after the other, so a write is a function of the state they guard.
pub mod Announced
pub mod Rows
pub mod Tables
pub mod History
mod Tests
use my_no_sql_server_grpc.Base.{
  ℕ, ◌+◌, Bool, true, false, List, [], ◌∷◌, ◌++◌, Option, none, some, map, length, Text,
}
use my_no_sql_server_grpc.Base.Result.{Result, ok, err}
use my_no_sql_server_grpc.Persist.Markers.{
  PersistMarkersInner, persist_partition, persist_table_metadata, is_nil,
}
use my_no_sql_server_grpc.Reader.Chunker.{PartitionItems}
use my_no_sql_server_grpc.Reader.SyncChunk.{SyncChunk}
use my_no_sql_server_grpc.Reader.Sessions.{ReaderSessions}
use my_no_sql_server_grpc.Operations.Core.{
  BulkWriteMode, insert_or_replace_rows_if_new, AppliedChange, table_cleaned, partitions_deleted,
  rows_deleted, rows_written, ReplaceIfVersionMatchesResult, replaced, row_not_found,
  version_mismatch, GcResult, DbTableOps, gc_changes,
}
use my_no_sql_server_grpc.Operations.Sync

-- The errors of these writes, of those of `DbOperationError`.
pub data DbOperationError : Type 0 where
  row_does_not_exist : DbOperationError
  row_already_exists : DbOperationError
  optimistic_concurrency_update_fails : DbOperationError

-- A table, the queue of its namespace, and the readers of the server.
pub record World (T R A : Type 0) : Type 0 where
  pub reader_sessions : ReaderSessions (SyncChunk R A)
  pub persist_markers : PersistMarkersInner
  pub db_table : T

unfoldable pub mark_partition_to_persist :
    Text → Text → ℕ → PersistMarkersInner → PersistMarkersInner
mark_partition_to_persist table_name partition_key persist_moment m =
    persist_partition table_name partition_key persist_moment m

unfoldable pub mark_partitions_to_persist :
    Text → List Text → ℕ → PersistMarkersInner → PersistMarkersInner
mark_partitions_to_persist table_name [] persist_moment m = m
mark_partitions_to_persist table_name (key ∷ keys) persist_moment m =
    mark_partitions_to_persist table_name keys persist_moment
      (persist_partition table_name key persist_moment m)

unfoldable pub mark_table_metadata_to_persist : Text → ℕ → PersistMarkersInner → PersistMarkersInner
mark_table_metadata_to_persist table_name persist_moment m =
    persist_table_metadata table_name persist_moment m

module _ {T R A S Act : Type 0} (db : DbTableOps T R A S Act) (namespace table_name : Text)
    (persist_moment : ℕ) where
  unfoldable pub written : R → World T R A → World T R A
  written db_row w = record w {
    persist_markers =
        mark_partition_to_persist table_name (db.get_partition_key db_row) persist_moment
          w.persist_markers;
    reader_sessions =
        Sync.rows_updated db.get_partition_key db.get_content_size namespace table_name
          (db_row ∷ []) w.reader_sessions;
  }

  unfoldable pub insert : R → World T R A → Result DbOperationError (Unit {0}) × World T R A
  insert db_row w =
      let (inserted, db_table) = db.insert_if_not_exists db_row w.db_table in
      let w' = record w { db_table = db_table } in
      elim inserted [ false ↦ (err row_already_exists, w') | true ↦ (ok tt, written db_row w') ]

  unfoldable pub insert_or_replace : R → World T R A → World T R A
  insert_or_replace db_row w =
      written db_row (record w { db_table = db.insert_or_replace db_row w.db_table })

  unfoldable pub insert_or_replace_if_new : R → World T R A → Bool × World T R A
  insert_or_replace_if_new db_row w =
      let (result, db_table) =
        db.bulk_write insert_or_replace_rows_if_new (db_row ∷ []) w.db_table in
      let w' = record w { db_table = db_table } in
      elim result.written [ [] ↦ (false, w') | r ∷ rs ↦ (true, written db_row w') ]

  unfoldable pub replace : R → ℕ → World T R A → Result DbOperationError (Unit {0}) × World T R A
  replace db_row expected_time_stamp w =
      let (result, db_table) =
        db.replace_if_version_matches db_row expected_time_stamp w.db_table in
      let w' = record w { db_table = db_table } in
      elim result [
        | replaced ↦ (ok tt, written db_row w')
        | row_not_found ↦ (err row_does_not_exist, w')
        | version_mismatch ↦ (err optimistic_concurrency_update_fails, w')
      ]

  unfoldable pub delete_row : Text → Text → World T R A → Bool × World T R A
  delete_row partition_key row_key w =
      let (deleted, db_table) = db.delete_row partition_key row_key w.db_table in
      let w' = record w { db_table = db_table } in
      let keys = record { partition_key = partition_key; items = row_key ∷ [] } ∷ [] in
      elim deleted [
        | none ↦ (false, w')
        | some r ↦ (
          true,
          record w' {
            persist_markers =
                mark_partition_to_persist table_name partition_key persist_moment w.persist_markers;
            reader_sessions =
                Sync.rows_deleted_told db.get_partition_key db.get_content_size namespace table_name
                  keys w.reader_sessions;
          },
        )
      ]

  unfoldable pub bulk_write : BulkWriteMode → List R → World T R A → World T R A
  bulk_write mode rows w =
      let (result, db_table) = db.bulk_write mode rows w.db_table in
      record {
        db_table = db_table;
        persist_markers =
            mark_partitions_to_persist table_name result.partitions_to_persist persist_moment
              w.persist_markers;
        reader_sessions =
            Sync.bulk_written db.get_partition_key db.get_content_size namespace table_name mode
              result.written w.reader_sessions;
      }

  -- `partitions.iter().map(|itm| itm.row_keys.len()).sum()`
  abbrev pub count_keys : List (PartitionItems Text) → ℕ
  count_keys [] = 0
  count_keys (p ∷ ps) = length p.items + count_keys ps

  abbrev count_deleted : AppliedChange R → ℕ
  count_deleted table_cleaned = 0
  count_deleted (partitions_deleted keys) = 0
  count_deleted (rows_deleted partitions) = count_keys partitions
  count_deleted (rows_written rows) = 0

  abbrev pub sum_deleted : List (AppliedChange R) → ℕ
  sum_deleted [] = 0
  sum_deleted (change ∷ changes) = count_deleted change + sum_deleted changes

  unfoldable pub commit_transaction : List Act → World T R A → World T R A
  commit_transaction actions w =
      let (result, db_table) = db.apply_transaction actions w.db_table in
      record {
        db_table = db_table;
        persist_markers =
            mark_partitions_to_persist table_name result.partitions_to_persist persist_moment
              w.persist_markers;
        reader_sessions =
            Sync.changes_applied db.get_partition_key db.get_content_size namespace table_name
              result.changes w.reader_sessions;
      }

  unfoldable pub bulk_delete : List (PartitionItems Text) → World T R A → ℕ × World T R A
  bulk_delete partitions w =
      let (result, db_table) =
        db.apply_transaction (map db.delete_rows_action partitions) w.db_table in
      (
        sum_deleted result.changes,
        record {
          db_table = db_table;
          persist_markers =
              mark_partitions_to_persist table_name result.partitions_to_persist persist_moment
                w.persist_markers;
          reader_sessions =
              Sync.changes_applied db.get_partition_key db.get_content_size namespace table_name
                result.changes w.reader_sessions;
        },
      )

  unfoldable pub delete_partitions : List Text → World T R A → World T R A
  delete_partitions partition_keys w =
      let (removed, db_table) = db.delete_partitions partition_keys w.db_table in
      let w' = record w { db_table = db_table } in
      elim removed [
        | [] ↦ w'
        | key ∷ keys ↦ record w' {
          persist_markers =
              mark_partitions_to_persist table_name (key ∷ keys) persist_moment w.persist_markers;
          reader_sessions =
              Sync.partitions_deleted_told db.get_partition_key db.get_content_size namespace
                table_name (key ∷ keys) w.reader_sessions;
        }
      ]

  unfoldable pub clean_table : World T R A → World T R A
  clean_table w =
      let (partition_keys, db_table) = db.clean w.db_table in
      record {
        db_table = db_table;
        persist_markers =
            mark_partitions_to_persist table_name partition_keys persist_moment w.persist_markers;
        reader_sessions =
            Sync.table_cleaned_told db.get_partition_key db.get_content_size namespace table_name
              w.reader_sessions;
      }

  unfoldable pub set_table_attributes : A → World T R A → World T R A
  set_table_attributes attributes w =
      let db_table =
        db.set_attributes (db.with_created (db.get_attributes w.db_table) attributes) w.db_table in
      record {
        db_table = db_table;
        persist_markers = persist_table_metadata table_name persist_moment w.persist_markers;
        reader_sessions =
            Sync.table_attributes_updated db.get_partition_key db.get_content_size namespace
              table_name (db.get_attributes db_table) w.reader_sessions;
      }

  -- `gc::applied`: `w` is the state before the collection, but for its table.
  unfoldable pub applied : GcResult → World T R A → Bool × World T R A
  applied result w = elim (db.gc_result_is_empty result) [
    | true ↦ (false, w)
    | false ↦ (
      true,
      record w {
        persist_markers =
            mark_partitions_to_persist table_name result.partitions_to_persist persist_moment
              w.persist_markers;
        reader_sessions =
            Sync.changes_applied db.get_partition_key db.get_content_size namespace table_name
              (gc_changes result) w.reader_sessions;
      },
    )
  ]

  unfoldable pub collect : ℕ → World T R A → Bool × World T R A
  collect now w =
      let (result, db_table) = db.gc now w.db_table in
      applied result (record w { db_table = db_table })

  unfoldable pub collect_schemas : World T R A → Bool × World T R A
  collect_schemas w =
      let (changed, db_table) = db.gc_schemas w.db_table in
      let w' = record w { db_table = db_table } in
      elim changed [
        | false ↦ (false, w')
        | true ↦ (
          true,
          record w' {
            persist_markers =
                mark_table_metadata_to_persist table_name persist_moment w.persist_markers;
          },
        )
      ]

  unfoldable pub keep_max_partitions_amount : ℕ → World T R A → World T R A
  keep_max_partitions_amount max w =
      let (result, db_table) = db.keep_max_partitions_amount max w.db_table in
      (applied result (record w { db_table = db_table })).1

  unfoldable pub keep_max_rows_in_partition : Text → ℕ → World T R A → World T R A
  keep_max_rows_in_partition partition_key max w =
      let (result, db_table) = db.keep_max_rows_in_partition partition_key max w.db_table in
      (applied result (record w { db_table = db_table })).1
