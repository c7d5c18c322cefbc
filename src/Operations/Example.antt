-- ===== src/Operations/Example.antt =====
-- A table that the laws of `DbTable` hold of: a list of rows, of which a later one hides an earlier one.
pub mod Hold
use my_no_sql_server_grpc.Base.{
  ℕ, ◌≡◌, Bool, true, false, ◌&&◌, List, [], ◌∷◌, ◌++◌, Option, none, some, ltb, ◌==◌, drop,
  if◌then◌else◌, length, Text, text_same,
}
use my_no_sql_server_grpc.Reader.Chunker.{PartitionItems, group_by_partition}
use my_no_sql_server_grpc.Reader.Chunker.Partitions.{flat}
use my_no_sql_server_grpc.Registry.Gc.{is_in}
use my_no_sql_server_grpc.Operations.Core.{
  BulkWriteMode, insert_or_replace_rows, insert_or_replace_rows_if_new, clean_partitions_and_insert,
  clean_table_and_insert, BulkWriteResult, TransactionResult, GcResult, DbTableOps, replaced,
  row_not_found, version_mismatch, rows_deleted, ReplaceIfVersionMatchesResult,
}
use my_no_sql_server_grpc.Operations.Laws.{Content, is_key}

pub record Row : Type 0 where
  pub partition_key : Text
  pub row_key : Text
  pub time_stamp : ℕ

abbrev pub key_of : Row → Text
key_of r = r.partition_key

abbrev pub row_key_of : Row → Text
row_key_of r = r.row_key

abbrev pub size_of : Row → ℕ
size_of r = length r.row_key

abbrev pub content : List Row → Content Row
content [] p k = none
content (r ∷ t) p k =
    if text_same r.partition_key p && text_same r.row_key k then some r else content t p k

abbrev pub keys_of : List Row → List Text
keys_of [] = []
keys_of (r ∷ t) = r.partition_key ∷ keys_of t

abbrev pub add : List Row → List Row → List Row
add [] t = t
add (r ∷ rows) t = add rows (r ∷ t)

abbrev pub without_keys : List (Text × Text) → List Row → List Row
without_keys keys [] = []
without_keys keys (r ∷ t) =
    let rest = without_keys keys t in
    if is_key r.partition_key r.row_key keys then rest else r ∷ rest

abbrev pub without_partitions : List Text → List Row → List Row
without_partitions keys [] = []
without_partitions keys (r ∷ t) =
    let rest = without_partitions keys t in if is_in r.partition_key keys then rest else r ∷ rest

abbrev is_newer : Row → Option Row → Bool
is_newer r none = true
is_newer r (some stored) = ltb stored.time_stamp r.time_stamp

abbrev pub newer_of : List Row → List Row → List Row
newer_of t [] = []
newer_of t (r ∷ rows) =
    let rest = newer_of t rows in
    if is_newer r (content t r.partition_key r.row_key) then r ∷ rest else rest

abbrev batch : List Row → List Row → List Row → BulkWriteResult Row × List Row
batch written before after =
    (record { written = written; partitions_to_persist = keys_of (before ++ after) }, after)

abbrev write_batch : BulkWriteMode → List Row → List Row → BulkWriteResult Row × List Row
write_batch insert_or_replace_rows rows t = batch rows t (add rows t)
write_batch insert_or_replace_rows_if_new rows t =
    batch (newer_of t rows) t (add (newer_of t rows) t)
write_batch clean_partitions_and_insert rows t =
    batch rows t (add rows (without_partitions (keys_of rows) t))
write_batch clean_table_and_insert rows t = batch rows t (add rows [])

abbrev insert_row : Row → List Row → Option Row → Bool × List Row
insert_row r t none = (true, r ∷ t)
insert_row r t (some stored) = (false, t)

abbrev replace_row : Row → ℕ → List Row → Option Row → ReplaceIfVersionMatchesResult × List Row
replace_row r version t none = (row_not_found, t)
replace_row r version t (some stored) =
    if stored.time_stamp == version then (replaced, r ∷ t) else (version_mismatch, t)

abbrev remove_row : Text → Text → List Row → Option Row → Option Row × List Row
remove_row p k t none = (none, t)
remove_row p k t (some stored) = (some stored, without_keys ((p, k) ∷ []) t)

-- The keys of rows, and of those that were written before a moment.
abbrev pub items_of : List Row → List (PartitionItems Text)
items_of [] = []
items_of (r ∷ rows) =
    record { partition_key = r.partition_key; items = r.row_key ∷ [] } ∷ items_of rows

abbrev pub expired : ℕ → List Row → List Row
expired now [] = []
expired now (r ∷ t) = let rest = expired now t in if ltb r.time_stamp now then r ∷ rest else rest

abbrev pub collect_rows : List Row → List Row → GcResult × List Row
collect_rows rows t =
    let after = without_keys (flat (items_of rows)) t in
    (
      record {
        partitions_removed = [];
        rows_removed = items_of rows;
        partitions_to_persist = keys_of (t ++ after);
      },
      after,
    )

abbrev pub collect_partitions : List Text → List Row → GcResult × List Row
collect_partitions keys t =
    let after = without_partitions keys t in
    (
      record {
        partitions_removed = keys;
        rows_removed = [];
        partitions_to_persist = keys_of (t ++ after);
      },
      after,
    )

abbrev pub result_is_empty : GcResult → Bool
result_is_empty result =
    (length result.partitions_removed == 0) && (length result.rows_removed == 0)

abbrev pub rows_in : Text → List Row → List Row
rows_in p [] = []
rows_in p (r ∷ t) = let rest = rows_in p t in if text_same r.partition_key p then r ∷ rest else rest

abbrev pub table : DbTableOps (List Row) Row Bool ℕ (PartitionItems Text)
table = record {
  get_partition_key = key_of;
  get_row_key = row_key_of;
  get_content_size = size_of;
  get_time_stamp = λ r. r.time_stamp;
  insert_if_not_exists = λ r t. insert_row r t (content t r.partition_key r.row_key);
  insert_or_replace = λ r t. r ∷ t;
  bulk_write = write_batch;
  replace_if_version_matches =
      λ r version t. replace_row r version t (content t r.partition_key r.row_key);
  delete_row = λ p k t. remove_row p k t (content t p k);
  delete_partitions = λ keys t. (keys, without_partitions keys t);
  clean = λ t. (keys_of t, []);
  delete_rows_action = λ partition. partition;
  apply_transaction = λ actions t. (
    record {
      changes = rows_deleted actions ∷ [];
      partitions_to_persist = keys_of (t ++ without_keys (flat actions) t);
    },
    without_keys (flat actions) t,
  );
  gc = λ now t. collect_rows (expired now t) t;
  keep_max_partitions_amount = λ max t. collect_partitions (drop max (keys_of t)) t;
  keep_max_rows_in_partition = λ p max t. collect_rows (drop max (rows_in p t)) t;
  gc_result_is_empty = result_is_empty;
  gc_schemas = λ t. (false, t);
  get_attributes = λ t. true;
  set_attributes = λ a t. t;
  with_created = λ old new. new;
  is_persisted = λ a. a;
  get_schema = λ id t. none;
  register_schema = λ schema t. (false, t);
  get_rows = rows_in;
}
