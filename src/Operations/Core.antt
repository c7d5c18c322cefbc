-- ===== src/Operations/Core.antt =====
-- The types of my_no_sql_grpc_core that the operations take apart, and its `DbTable` as an interface. `T` is
-- the table, `R` its row, `A` its attributes, `S` a schema and `Act` an action of a transaction.
use my_no_sql_server_grpc.Base.{ℕ, Bool, List, [], ◌∷◌, ◌++◌, Option, Text}
use my_no_sql_server_grpc.Reader.Chunker.{PartitionItems}

pub data BulkWriteMode : Type 0 where
  insert_or_replace_rows : BulkWriteMode
  insert_or_replace_rows_if_new : BulkWriteMode
  clean_partitions_and_insert : BulkWriteMode
  clean_table_and_insert : BulkWriteMode

pub data AppliedChange (R : Type 0) : Type 0 where
  table_cleaned : AppliedChange R
  partitions_deleted : List Text → AppliedChange R
  rows_deleted : List (PartitionItems Text) → AppliedChange R
  rows_written : List R → AppliedChange R

pub data ReplaceIfVersionMatchesResult : Type 0 where
  replaced : ReplaceIfVersionMatchesResult
  row_not_found : ReplaceIfVersionMatchesResult
  version_mismatch : ReplaceIfVersionMatchesResult

pub record BulkWriteResult (R : Type 0) : Type 0 where
  pub written : List R
  pub partitions_to_persist : List Text

pub record TransactionResult (R : Type 0) : Type 0 where
  pub changes : List (AppliedChange R)
  pub partitions_to_persist : List Text

pub record GcResult : Type 0 where
  pub partitions_removed : List Text
  pub rows_removed : List (PartitionItems Text)
  pub partitions_to_persist : List Text

pub record DbTableOps (T R A S Act : Type 0) : Type 0 where
  pub get_partition_key : R → Text
  pub get_row_key : R → Text
  pub get_content_size : R → ℕ
  -- The version of a row.
  pub get_time_stamp : R → ℕ
  pub insert_if_not_exists : R → T → Bool × T
  pub insert_or_replace : R → T → T
  pub bulk_write : BulkWriteMode → List R → T → BulkWriteResult R × T
  pub replace_if_version_matches : R → ℕ → T → ReplaceIfVersionMatchesResult × T
  pub delete_row : Text → Text → T → Option R × T
  pub delete_partitions : List Text → T → List Text × T
  pub clean : T → List Text × T
  pub delete_rows_action : PartitionItems Text → Act
  pub apply_transaction : List Act → T → TransactionResult R × T
  pub gc : ℕ → T → GcResult × T
  pub keep_max_partitions_amount : ℕ → T → GcResult × T
  pub keep_max_rows_in_partition : Text → ℕ → T → GcResult × T
  pub gc_result_is_empty : GcResult → Bool
  pub gc_schemas : T → Bool × T
  pub get_attributes : T → A
  pub set_attributes : A → T → T
  -- `attributes.created = created_of`
  pub with_created : A → A → A
  pub is_persisted : A → Bool
  pub get_schema : ℕ → T → Option S
  pub register_schema : S → T → Bool × T
  -- `get_rows` of one partition.
  pub get_rows : Text → T → List R

-- `changes` of `gc::applied`: the partitions go first and the rows after them, each only if there are any.
abbrev removed_rows : {R : Type 0} → List (PartitionItems Text) → List (AppliedChange R)
removed_rows [] = []
removed_rows (p ∷ ps) = rows_deleted (p ∷ ps) ∷ []

abbrev removed_partitions : {R : Type 0} → List Text → List (AppliedChange R)
removed_partitions [] = []
removed_partitions (k ∷ ks) = partitions_deleted (k ∷ ks) ∷ []

abbrev pub gc_changes : {R : Type 0} → GcResult → List (AppliedChange R)
gc_changes result = removed_partitions result.partitions_removed ++ removed_rows result.rows_removed
