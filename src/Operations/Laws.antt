-- ===== src/Operations/Laws.antt =====
-- What the operations rely on of `DbTable`: its content, and that what a call returns is what it did.
use my_no_sql_server_grpc.Base.{
  ℕ, ◌≡◌, ◌≢◌, Bool, true, false, ◌&&◌, ◌||◌, List, [], ◌∷◌, ◌⊎◌, Option, none, some, if◌then◌else◌,
  Text, text_same,
}
use my_no_sql_server_grpc.Registry.Gc.{is_in}
use my_no_sql_server_grpc.Reader.Chunker.Partitions.{flat}
use my_no_sql_server_grpc.Reader.Chunker.Group.{matching}
use my_no_sql_server_grpc.Reader.Chunker.Delivery.{select}
use my_no_sql_server_grpc.Operations.Core.{
  BulkWriteMode, insert_or_replace_rows, insert_or_replace_rows_if_new, clean_partitions_and_insert,
  clean_table_and_insert, replaced, row_not_found, version_mismatch, AppliedChange, GcResult,
  DbTableOps,
}
use my_no_sql_server_grpc.Operations.Sync.Mirror.{
  Instruction, forget_table, take_attributes, drop_table, forget_partitions, replace_partitions,
  write_rows, remove_rows,
}
use my_no_sql_server_grpc.Operations.Sync.Batches.{instructions}

-- A table as what stands under a partition key and a row key.
abbrev pub Content : Type 0 → Type 0
Content R = Text → Text → Option R

abbrev pub Same : {R : Type 0} → Content R → Content R → Type 0
Same c d = (p k : Text) → c p k ≡ d p k

abbrev pub is_key : Text → Text → List (Text × Text) → Bool
is_key p k [] = false
is_key p k ((q, j) ∷ keys) = (text_same q p && text_same j k) || is_key p k keys

module _ {R : Type 0} (partition_key row_key : R → Text) where
  abbrev pub upsert : R → Content R → Content R
  upsert r c p k =
      if text_same (partition_key r) p && text_same (row_key r) k then some r else c p k

  abbrev pub upsert_all : List R → Content R → Content R
  upsert_all [] c = c
  upsert_all (r ∷ rows) c = upsert_all rows (upsert r c)

  abbrev pub forget : List Text → Content R → Content R
  forget keys c p k = if is_in p keys then none else c p k

  -- The row of a key among the rows of a partition, of which a later one hides an earlier one.
  abbrev pub last_of : Text → List R → Option R
  last_of k [] = none
  last_of k (r ∷ rows) = elim (last_of k rows) [
    | some later ↦ some later
    | none ↦ if text_same (row_key r) k then some r else none
  ]

  -- The rows are the whole of a partition, if there are any.
  abbrev pub whole_or : List R → Text → Option R → Option R
  whole_or [] k before = before
  whole_or (r ∷ rows) k before = last_of k (r ∷ rows)

  -- What a batch makes of a table.
  abbrev pub after_bulk : BulkWriteMode → List R → Content R → Content R
  after_bulk insert_or_replace_rows rows c p k = upsert_all rows c p k
  after_bulk insert_or_replace_rows_if_new rows c p k = upsert_all rows c p k
  after_bulk clean_partitions_and_insert rows c p k =
      whole_or (matching partition_key p rows) k (c p k)
  after_bulk clean_table_and_insert rows c p k = upsert_all rows (λ q j. none) p k

  -- What a subscriber does with one instruction.
  abbrev pub follow : {A : Type 0} → Instruction R A → Content R → Content R
  follow forget_table c p k = none
  follow (take_attributes a) c p k = c p k
  follow drop_table c p k = none
  follow (forget_partitions keys) c p k = forget keys c p k
  follow (replace_partitions rows) c p k = whole_or (select p rows) k (c p k)
  follow (write_rows rows) c p k = upsert_all rows c p k
  follow (remove_rows keys) c p k = if is_key p k keys then none else c p k

  abbrev pub follow_all : {A : Type 0} → List (Instruction R A) → Content R → Content R
  follow_all [] c = c
  follow_all (i ∷ is) c = follow_all is (follow i c)

module _ {T R A S Act : Type 0} (db : DbTableOps T R A S Act) where
  abbrev pub replay : List (Instruction R A) → Content R → Content R
  replay is = follow_all db.get_partition_key db.get_row_key is

  abbrev pub told_of : List (AppliedChange R) → List (Instruction R A)
  told_of changes = instructions db.get_partition_key db.get_content_size changes

  -- A call changed no partition outside of `keys`.
  abbrev pub IsWithin : List Text → Content R → Content R → Type 0
  IsWithin keys before after = (p k : Text) → is_in p keys ≡ false → after p k ≡ before p k

  -- What a collection did, by its result.
  pub record IsCollected (before : Content R) (result : GcResult) (after : Content R) : Type 0 where
    pub happened :
        (p k : Text)
        → after p k ≡ (
            if is_in p result.partitions_removed || is_key p k (flat result.rows_removed)
            then none
            else before p k)
    pub within : IsWithin result.partitions_to_persist before after
    pub idle : db.gc_result_is_empty result ≡ true → Same after before

  -- What stands under the key of a row.
  abbrev pub stored_at : (T → Content R) → R → T → Option R
  stored_at content r t = content t (db.get_partition_key r) (db.get_row_key r)

  pub record IsDbTable (content : T → Content R) : Type 0 where
    pub insert_if_not_exists_taken :
        (r : R) (t : T)
        → (db.insert_if_not_exists r t).0 ≡ true
        → Same
            (content (db.insert_if_not_exists r t).1)
            (upsert db.get_partition_key db.get_row_key r (content t))
    pub insert_if_not_exists_refused :
        (r : R) (t : T)
        → (db.insert_if_not_exists r t).0 ≡ false
        → Same (content (db.insert_if_not_exists r t).1) (content t)
    pub insert_or_replace_taken :
        (r : R) (t : T)
        → Same
            (content (db.insert_or_replace r t))
            (upsert db.get_partition_key db.get_row_key r (content t))
    pub bulk_write_happened :
        (mode : BulkWriteMode) (rows : List R) (t : T)
        → Same (content (db.bulk_write mode rows t).1) (
            after_bulk db.get_partition_key db.get_row_key mode
              (db.bulk_write mode rows t).0.written
              (content t))
    pub bulk_write_within :
        (mode : BulkWriteMode) (rows : List R) (t : T)
        → IsWithin
            (db.bulk_write mode rows t).0.partitions_to_persist
            (content t)
            (content (db.bulk_write mode rows t).1)
    -- Of a batch of one row, that row is written or nothing is.
    pub if_new_written :
        (r : R) (t : T)
        → ((db.bulk_write insert_or_replace_rows_if_new (r ∷ []) t).0.written ≡ [])
          ⊎ ((db.bulk_write insert_or_replace_rows_if_new (r ∷ []) t).0.written ≡ r ∷ [])
    pub replace_taken :
        (r : R) (version : ℕ) (t : T)
        → (db.replace_if_version_matches r version t).0 ≡ replaced
        → Same
            (content (db.replace_if_version_matches r version t).1)
            (upsert db.get_partition_key db.get_row_key r (content t))
          × (stored : R) × (stored_at content r t ≡ some stored)
          × (db.get_time_stamp stored ≡ version)
    pub replace_not_found :
        (r : R) (version : ℕ) (t : T)
        → (db.replace_if_version_matches r version t).0 ≡ row_not_found
        → Same (content (db.replace_if_version_matches r version t).1) (content t)
          × (stored_at content r t ≡ none)
    pub replace_mismatch :
        (r : R) (version : ℕ) (t : T)
        → (db.replace_if_version_matches r version t).0 ≡ version_mismatch
        → Same (content (db.replace_if_version_matches r version t).1) (content t)
          × (stored : R) × (stored_at content r t ≡ some stored)
          × (db.get_time_stamp stored ≢ version)
    pub delete_row_done :
        (p k : Text) (t : T) (r : R)
        → (db.delete_row p k t).0 ≡ some r
        → Same
            (content (db.delete_row p k t).1)
            (replay (remove_rows ((p, k) ∷ []) ∷ []) (content t))
    pub delete_row_absent :
        (p k : Text) (t : T)
        → (db.delete_row p k t).0 ≡ none
        → Same (content (db.delete_row p k t).1) (content t)
    pub delete_partitions_done :
        (keys : List Text) (t : T)
        → Same
            (content (db.delete_partitions keys t).1)
            (replay (forget_partitions (db.delete_partitions keys t).0 ∷ []) (content t))
    -- `clean` returns every partition that the table held.
    pub clean_done : (t : T) → Same (content (db.clean t).1) (λ p k. none)
    pub clean_known : (t : T) (p k : Text) → is_in p (db.clean t).0 ≡ false → content t p k ≡ none
    pub apply_transaction_happened :
        (actions : List Act) (t : T)
        → Same
            (content (db.apply_transaction actions t).1)
            (replay (told_of (db.apply_transaction actions t).0.changes) (content t))
    pub apply_transaction_within :
        (actions : List Act) (t : T)
        → IsWithin
            (db.apply_transaction actions t).0.partitions_to_persist
            (content t)
            (content (db.apply_transaction actions t).1)
    pub gc_collected :
        (now : ℕ) (t : T) → IsCollected (content t) (db.gc now t).0 (content (db.gc now t).1)
    pub keep_max_partitions_collected :
        (max : ℕ) (t : T)
        → IsCollected
            (content t)
            (db.keep_max_partitions_amount max t).0
            (content (db.keep_max_partitions_amount max t).1)
    pub keep_max_rows_collected :
        (p : Text) (max : ℕ) (t : T)
        → IsCollected
            (content t)
            (db.keep_max_rows_in_partition p max t).0
            (content (db.keep_max_rows_in_partition p max t).1)
    pub set_attributes_kept : (a : A) (t : T) → Same (content (db.set_attributes a t)) (content t)
    pub gc_schemas_kept : (t : T) → Same (content (db.gc_schemas t).1) (content t)
