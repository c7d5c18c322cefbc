-- ===== src/Operations/Sync.antt =====
-- server/src/db_operations/sync.rs: what the subscribers of a table are told about a write. `R` is a
-- `DbRow`, of which the chunks need the partition and the size, and `A` the attributes of a table.
pub mod Mirror
pub mod Batches
pub mod Subscribers
mod Tests
use my_no_sql_server_grpc.Base.{ℕ, ◌≡◌, Bool, true, false, List, [], ◌∷◌, ◌++◌, map, Text}
use my_no_sql_server_grpc.Reader.Chunker.{
  PartitionItems, split_rows, split_partition_rows, split_partition_row_keys,
}
use my_no_sql_server_grpc.Reader.SyncChunk.{
  SyncChunk, clean_table, update_table_attributes, delete_table, clean_partitions, init_partitions,
  init_partitions_end, update_rows, update_rows_end, delete_rows, delete_rows_end,
}
use my_no_sql_server_grpc.Reader.Session.{ReaderSession}
use my_no_sql_server_grpc.Reader.Sessions.{ReaderSessions, get_subscribed}
use my_no_sql_server_grpc.Reader.Sessions.Told.{enqueue_to}
use my_no_sql_server_grpc.Operations.Core.{
  BulkWriteMode, insert_or_replace_rows, insert_or_replace_rows_if_new, clean_partitions_and_insert,
  clean_table_and_insert, AppliedChange, table_cleaned, partitions_deleted, rows_deleted,
  rows_written,
}

-- The chunks of a batch, and its end. An empty batch has neither.
abbrev pub closed : {B C : Type 0} → (B → C) → C → List B → List C
closed chunk end [] = []
closed chunk end (b ∷ bs) = map chunk (b ∷ bs) ++ (end ∷ [])

module _ {R A : Type 0} (get_partition_key : R → Text) (get_content_size : R → ℕ) where
  unfoldable pub push_updated_rows : List (SyncChunk R A) → Text → List R → List (SyncChunk R A)
  push_updated_rows dest table_name rows =
      dest
      ++ closed (update_rows table_name) (update_rows_end table_name)
          (split_rows get_content_size rows)

  unfoldable pub push_deleted_rows :
      List (SyncChunk R A) → Text → List (PartitionItems Text) → List (SyncChunk R A)
  push_deleted_rows dest table_name partitions =
      dest
      ++ closed (delete_rows table_name) (delete_rows_end table_name)
          (split_partition_row_keys partitions)

  -- What the closure of `bulk_written` builds.
  unfoldable pub bulk_chunks : Text → BulkWriteMode → List R → List (SyncChunk R A)
  bulk_chunks table_name insert_or_replace_rows rows = push_updated_rows [] table_name rows
  bulk_chunks table_name insert_or_replace_rows_if_new rows = push_updated_rows [] table_name rows
  bulk_chunks table_name clean_partitions_and_insert rows =
      closed (init_partitions table_name) (init_partitions_end table_name)
        (split_partition_rows get_partition_key get_content_size rows)
  bulk_chunks table_name clean_table_and_insert rows =
      push_updated_rows (clean_table table_name ∷ []) table_name rows

  -- One round of the loop of `changes_applied`.
  unfoldable pub push_change : List (SyncChunk R A) → Text → AppliedChange R → List (SyncChunk R A)
  push_change result table_name table_cleaned = result ++ (clean_table table_name ∷ [])
  push_change result table_name (partitions_deleted partition_keys) =
      result ++ (clean_partitions table_name partition_keys ∷ [])
  push_change result table_name (rows_deleted partitions) =
      push_deleted_rows result table_name partitions
  push_change result table_name (rows_written rows) = push_updated_rows result table_name rows

  unfoldable pub push_changes :
      List (SyncChunk R A) → Text → List (AppliedChange R) → List (SyncChunk R A)
  push_changes result table_name [] = result
  push_changes result table_name (change ∷ changes) =
      push_changes (push_change result table_name change) table_name changes

  -- The loop over the sessions, which is not reached without sessions or without chunks.
  abbrev pub enqueue_each :
      List (SyncChunk R A)
      → List (ReaderSession (SyncChunk R A))
      → ReaderSessions (SyncChunk R A)
      → ReaderSessions (SyncChunk R A)
  enqueue_each chunks [] r = r
  enqueue_each [] (s ∷ sessions) r = r
  enqueue_each (c ∷ chunks) (s ∷ sessions) r = enqueue_to (c ∷ chunks) (s ∷ sessions) r

  -- `chunks` is what `build_chunks` gives.
  unfoldable pub enqueue :
      Text
      → Text
      → List (SyncChunk R A)
      → ReaderSessions (SyncChunk R A)
      → ReaderSessions (SyncChunk R A)
  enqueue namespace table_name chunks sessions =
      enqueue_each chunks (get_subscribed namespace table_name sessions) sessions

  unfoldable pub rows_updated :
      Text → Text → List R → ReaderSessions (SyncChunk R A) → ReaderSessions (SyncChunk R A)
  rows_updated namespace table_name rows =
      enqueue namespace table_name (push_updated_rows [] table_name rows)

  unfoldable pub rows_deleted_told :
      Text
      → Text
      → List (PartitionItems Text)
      → ReaderSessions (SyncChunk R A)
      → ReaderSessions (SyncChunk R A)
  rows_deleted_told namespace table_name partitions =
      enqueue namespace table_name (push_deleted_rows [] table_name partitions)

  unfoldable pub bulk_written :
      Text
      → Text
      → BulkWriteMode
      → List R
      → ReaderSessions (SyncChunk R A)
      → ReaderSessions (SyncChunk R A)
  bulk_written namespace table_name mode rows =
      enqueue namespace table_name (bulk_chunks table_name mode rows)

  unfoldable pub table_cleaned_told :
      Text → Text → ReaderSessions (SyncChunk R A) → ReaderSessions (SyncChunk R A)
  table_cleaned_told namespace table_name =
      enqueue namespace table_name (clean_table table_name ∷ [])

  unfoldable pub table_attributes_updated :
      Text → Text → A → ReaderSessions (SyncChunk R A) → ReaderSessions (SyncChunk R A)
  table_attributes_updated namespace table_name attributes =
      enqueue namespace table_name (update_table_attributes table_name attributes ∷ [])

  unfoldable pub table_deleted :
      Text → Text → ReaderSessions (SyncChunk R A) → ReaderSessions (SyncChunk R A)
  table_deleted namespace table_name = enqueue namespace table_name (delete_table table_name ∷ [])

  unfoldable pub partitions_deleted_told :
      Text → Text → List Text → ReaderSessions (SyncChunk R A) → ReaderSessions (SyncChunk R A)
  partitions_deleted_told namespace table_name partition_keys =
      enqueue namespace table_name (clean_partitions table_name partition_keys ∷ [])

  unfoldable pub changes_applied :
      Text
      → Text
      → List (AppliedChange R)
      → ReaderSessions (SyncChunk R A)
      → ReaderSessions (SyncChunk R A)
  changes_applied namespace table_name changes =
      enqueue namespace table_name (push_changes [] table_name changes)
