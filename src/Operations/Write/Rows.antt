-- ===== src/Operations/Write/Rows.antt =====
-- The writes of rows: rows.rs and bulk.rs, on every branch.
use my_no_sql_server_grpc.Base.{
  ℕ, ◌≡◌, ◌≢◌, refl, sym, ◌∙◌, arith, true, false, List, [], ◌∷◌, map, ◌⊎◌, inl, inr, none, some,
  Bool-cases, Option-cases, Text,
}
use my_no_sql_server_grpc.Base.Result.{Result, ok, err}
use my_no_sql_server_grpc.Registry.Create.{IsValid}
use my_no_sql_server_grpc.Reader.Chunker.{PartitionItems}
use my_no_sql_server_grpc.Reader.Sessions.{id_of}
use my_no_sql_server_grpc.Operations.Core.{
  BulkWriteMode, insert_or_replace_rows, insert_or_replace_rows_if_new, clean_partitions_and_insert,
  clean_table_and_insert, DbTableOps, rows_written, rows_deleted, replaced, row_not_found,
  version_mismatch, ReplaceIfVersionMatchesResult,
}
use my_no_sql_server_grpc.Operations.Laws.{
  Content, Same, IsWithin, IsDbTable, upsert, after_bulk, replay,
}
use my_no_sql_server_grpc.Operations.Sync
use my_no_sql_server_grpc.Operations.Sync.Subscribers.{enqueue-told}
use my_no_sql_server_grpc.Operations.Sync.Batches.{bulk-received, IsReplacedBy}
use my_no_sql_server_grpc.Operations.Sync.Mirror.{Instruction}
use my_no_sql_server_grpc.Operations.Write.{
  World, DbOperationError, row_already_exists, row_does_not_exist,
  optimistic_concurrency_update_fails, mark_partition_to_persist, mark_partitions_to_persist,
  written, insert, insert_or_replace, insert_or_replace_if_new, replace, delete_row, bulk_write,
  commit_transaction, bulk_delete,
}
use my_no_sql_server_grpc.Operations.Write.Announced.{
  IsAnnounced, unchanged-IsAnnounced, changes-IsAnnounced, mark_partitions-none,
}

module _ {T R A S Act : Type 0} (db : DbTableOps T R A S Act) where
  -- What `replace` answers, by what stood under the key of the row.
  pub data IsReplaced (r : R) (version : ℕ) (before after : Content R)
      : Result DbOperationError (Unit {0}) → Type 0 where
    was_replaced :
        (stored : R)
        → before (db.get_partition_key r) (db.get_row_key r) ≡ some stored
        → db.get_time_stamp stored ≡ version
        → Same after (upsert db.get_partition_key db.get_row_key r before)
        → IsReplaced r version before after (ok tt)
    was_missing :
        before (db.get_partition_key r) (db.get_row_key r) ≡ none
        → Same after before
        → IsReplaced r version before after (err row_does_not_exist)
    was_rewritten :
        (stored : R)
        → before (db.get_partition_key r) (db.get_row_key r) ≡ some stored
        → db.get_time_stamp stored ≢ version
        → Same after before
        → IsReplaced r version before after (err optimistic_concurrency_update_fails)

module _ {T R A S Act : Type 0} (db : DbTableOps T R A S Act) (content : T → Content R)
    (namespace table_name : Text) (moment : ℕ) where
  upsert-IsWithin :
      (r : R) (before after : Content R)
      → Same after (upsert db.get_partition_key db.get_row_key r before)
      → IsWithin db (db.get_partition_key r ∷ []) before after
  upsert-IsWithin r before after h p k outside = ground (arith, h p k)

  written-IsAnnounced :
      (w : World T R A) (t : T) (r : R)
      → IsValid id_of w.reader_sessions
      → Same (content t) (upsert db.get_partition_key db.get_row_key r (content w.db_table))
      → IsAnnounced db content namespace table_name w
          (written db namespace table_name moment r (record w { db_table = t }))
  unfolding written mark_partition_to_persist mark_partitions_to_persist Sync.rows_updated
      Sync.changes_applied Sync.push_changes Sync.push_change
  written-IsAnnounced w t r valid happened =
      changes-IsAnnounced db content namespace table_name moment w t (db.get_partition_key r ∷ [])
        (rows_written (r ∷ []) ∷ []) valid happened
        (upsert-IsWithin r (content w.db_table) (content t) happened)

  module _ (laws : IsDbTable db content) (w : World T R A)
      (valid : IsValid id_of w.reader_sessions) where
    -- `insert` writes the row and announces it if its key is free, and otherwise answers that the row
    -- already exists, with the content, the queue of the disk and the readers as they were.
    pub insert-IsAnnounced :
        (r : R)
        → IsAnnounced db content namespace table_name w
            (insert db namespace table_name moment r w).1
          × (((insert db namespace table_name moment r w).0 ≡ ok tt)
              ⊎ (((insert db namespace table_name moment r w).0 ≡ err row_already_exists)
                  × Same
                      (content (insert db namespace table_name moment r w).1.db_table)
                      (content w.db_table)))
    unfolding insert
    insert-IsAnnounced r = elim (Bool-cases (db.insert_if_not_exists r w.db_table).0) [
      | inl taken ↦
          rw (insert, taken)
            (
              written-IsAnnounced w (db.insert_if_not_exists r w.db_table).1 r valid
                  (laws.insert_if_not_exists_taken r w.db_table taken),
              inl refl,
            )
      | inr refused ↦
          let same = laws.insert_if_not_exists_refused r w.db_table refused in
          rw (insert, refused)
            (
              unchanged-IsAnnounced db content namespace table_name w
                  (db.insert_if_not_exists r w.db_table).1 valid same,
              inr (refl, same),
            )
    ]

    pub insert_or_replace-IsAnnounced :
        (r : R)
        → IsAnnounced db content namespace table_name w
            (insert_or_replace db namespace table_name moment r w)
    unfolding insert_or_replace
    insert_or_replace-IsAnnounced r =
        written-IsAnnounced w (db.insert_or_replace r w.db_table) r valid
          (laws.insert_or_replace_taken r w.db_table)

    if_new_taken :
        (r : R)
        → (db.bulk_write insert_or_replace_rows_if_new (r ∷ []) w.db_table).0.written ≡ r ∷ []
        → Same
            (content (db.bulk_write insert_or_replace_rows_if_new (r ∷ []) w.db_table).1)
            (upsert db.get_partition_key db.get_row_key r (content w.db_table))
    if_new_taken r e p k =
        laws.bulk_write_happened insert_or_replace_rows_if_new (r ∷ []) w.db_table p k ∙ rw e refl

    if_new_refused :
        (r : R)
        → (db.bulk_write insert_or_replace_rows_if_new (r ∷ []) w.db_table).0.written ≡ []
        → Same
            (content (db.bulk_write insert_or_replace_rows_if_new (r ∷ []) w.db_table).1)
            (content w.db_table)
    if_new_refused r e p k =
        laws.bulk_write_happened insert_or_replace_rows_if_new (r ∷ []) w.db_table p k ∙ rw e refl

    -- `insert_or_replace_if_new` says which of the two happened: the row was taken and announced, or the content
    -- of the table is as it was, and nobody is told anything.
    pub insert_or_replace_if_new-IsAnnounced :
        (r : R)
        → IsAnnounced db content namespace table_name w
            (insert_or_replace_if_new db namespace table_name moment r w).1
          × (((insert_or_replace_if_new db namespace table_name moment r w).0 ≡ true)
              ⊎ (((insert_or_replace_if_new db namespace table_name moment r w).0 ≡ false)
                  × Same
                      (content
                        (insert_or_replace_if_new db namespace table_name moment r w).1.db_table)
                      (content w.db_table)))
    unfolding insert_or_replace_if_new
    insert_or_replace_if_new-IsAnnounced r = elim (laws.if_new_written r w.db_table) [
      | inl refused ↦
          let same = if_new_refused r refused in
          rw (insert_or_replace_if_new, refused)
            (
              unchanged-IsAnnounced db content namespace table_name w
                  (db.bulk_write insert_or_replace_rows_if_new (r ∷ []) w.db_table).1 valid same,
              inr (refl, same),
            )
      | inr taken ↦
          rw (insert_or_replace_if_new, taken)
            (
              written-IsAnnounced w
                  (db.bulk_write insert_or_replace_rows_if_new (r ∷ []) w.db_table).1 r valid
                  (if_new_taken r taken),
              inl refl,
            )
    ]

    replace_result :
        (o : ReplaceIfVersionMatchesResult)
        → (o ≡ replaced) ⊎ ((o ≡ row_not_found) ⊎ (o ≡ version_mismatch))
    replace_result replaced = inl refl
    replace_result row_not_found = inr (inl refl)
    replace_result version_mismatch = inr (inr refl)

    -- Over a table that keeps the laws of `IsDbTable`, and with a registry of sessions that is
    -- well formed: `replace` writes the row, and answers so, only if a
    -- row with the version stands under its key. Where no row stands it answers that the row
    -- does not exist, and where one with another version stands it answers the failure of the
    -- optimistic update; both leave the content as it was. In every case what the readers that
    -- follow the table are told leads a copy from the old content to the new one, and a
    -- partition that is not marked afterwards is as it was.
    pub replace-IsAnnounced :
        (r : R) (version : ℕ)
        → IsAnnounced db content namespace table_name w
            (replace db namespace table_name moment r version w).1
          × IsReplaced db r version
              (content w.db_table)
              (content (replace db namespace table_name moment r version w).1.db_table)
              (replace db namespace table_name moment r version w).0
    unfolding replace written
    replace-IsAnnounced r version =
        let t = (db.replace_if_version_matches r version w.db_table).1 in
        elim (replace_result (db.replace_if_version_matches r version w.db_table).0) [
          | inl done ↦
              let (same, stored, there, matches) = laws.replace_taken r version w.db_table done in
              rw (replace, done)
                (written-IsAnnounced w t r valid same, was_replaced stored there matches same)
          | inr (inl none_there) ↦
              let (same, there) = laws.replace_not_found r version w.db_table none_there in
              rw (replace, none_there)
                (
                  unchanged-IsAnnounced db content namespace table_name w t valid same,
                  was_missing there same,
                )
          | inr (inr newer) ↦
              let (same, stored, there, differs) =
                laws.replace_mismatch r version w.db_table newer in
              rw (replace, newer)
                (
                  unchanged-IsAnnounced db content namespace table_name w t valid same,
                  was_rewritten stored there differs same,
                )
        ]

    delete_row_within :
        (p k : Text) (r : R)
        → (db.delete_row p k w.db_table).0 ≡ some r
        → IsWithin db (p ∷ []) (content w.db_table) (content (db.delete_row p k w.db_table).1)
    delete_row_within p k r e q j outside =
        ground (arith, laws.delete_row_done p k w.db_table r e q j)

    -- `delete_row` announces the deletion of a row that was there, and changes nothing for one that was not.
    pub delete_row-IsAnnounced :
        (p k : Text)
        → IsAnnounced db content namespace table_name w
            (delete_row db namespace table_name moment p k w).1
          × (((delete_row db namespace table_name moment p k w).0 ≡ true)
              ⊎ (((delete_row db namespace table_name moment p k w).0 ≡ false)
                  × Same
                      (content (delete_row db namespace table_name moment p k w).1.db_table)
                      (content w.db_table)))
    unfolding delete_row mark_partition_to_persist mark_partitions_to_persist Sync.rows_deleted_told
        Sync.changes_applied Sync.push_changes Sync.push_change
    delete_row-IsAnnounced p k =
        let t = (db.delete_row p k w.db_table).1 in
        elim (Option-cases (db.delete_row p k w.db_table).0) [
          | inl absent ↦
              let same = laws.delete_row_absent p k w.db_table absent in
              rw (delete_row, absent)
                (
                  unchanged-IsAnnounced db content namespace table_name w t valid same,
                  inr (refl, same),
                )
          | inr (r, present) ↦
              rw (delete_row, present)
                (
                  changes-IsAnnounced db content namespace table_name moment w t (p ∷ [])
                      (rows_deleted (record { partition_key = p; items = k ∷ [] } ∷ []) ∷ []) valid
                      (laws.delete_row_done p k w.db_table r present)
                      (delete_row_within p k r present),
                  inl refl,
                )
        ]

    -- What a batch is to a subscriber makes of its copy what it made of the table.
    replay-bulk :
        (mode : BulkWriteMode) (rows : List R) (told : List (Instruction R A)) (c : Content R)
        → IsReplacedBy db.get_partition_key db.get_content_size mode rows told
        → Same (after_bulk db.get_partition_key db.get_row_key mode rows c) (replay db told c)
    replay-bulk insert_or_replace_rows [] told c e p k = rw e refl
    replay-bulk insert_or_replace_rows (r ∷ rows) told c e p k = rw e refl
    replay-bulk insert_or_replace_rows_if_new [] told c e p k = rw e refl
    replay-bulk insert_or_replace_rows_if_new (r ∷ rows) told c e p k = rw e refl
    replay-bulk clean_table_and_insert [] told c e p k = rw e refl
    replay-bulk clean_table_and_insert (r ∷ rows) told c e p k = rw e refl
    replay-bulk clean_partitions_and_insert rows told c ([], e, same) p k =
        rw (e, sym (same p)) refl
    replay-bulk clean_partitions_and_insert rows told c (x ∷ xs, e, same) p k =
        rw (e, sym (same p)) refl

    -- A batch does to the table what its mode says with the rows that were written, and is announced as that.
    pub bulk_write-IsAnnounced :
        (mode : BulkWriteMode) (rows : List R)
        → IsAnnounced db content namespace table_name w
            (bulk_write db namespace table_name moment mode rows w)
    unfolding bulk_write Sync.bulk_written
    bulk_write-IsAnnounced mode rows =
        let result = (db.bulk_write mode rows w.db_table).0 in
        let chunks =
          Sync.bulk_chunks db.get_partition_key db.get_content_size table_name mode
            result.written in
        let (valid', queued) =
          enqueue-told db.get_partition_key db.get_content_size namespace table_name chunks
            w.reader_sessions valid in
        let (told, is_bulk, received) =
          bulk-received {A = A} db.get_partition_key db.get_content_size table_name mode
            result.written in
        record {
          told = told;
          chunks = chunks;
          happened = λ p k.
              laws.bulk_write_happened mode rows w.db_table p k
              ∙ replay-bulk mode result.written told (content w.db_table) is_bulk p k;
          received = received;
          sessions_valid = valid';
          queued = queued;
          marked = λ p h.
              let (outside, due) =
                mark_partitions-none table_name result.partitions_to_persist moment
                  w.persist_markers p h in
              (due, λ k. laws.bulk_write_within mode rows w.db_table p k outside);
        }

    -- A transaction is one run of instructions, in the order of its changes.
    pub commit_transaction-IsAnnounced :
        (actions : List Act)
        → IsAnnounced db content namespace table_name w
            (commit_transaction db namespace table_name moment actions w)
    unfolding commit_transaction
    commit_transaction-IsAnnounced actions =
        let result = (db.apply_transaction actions w.db_table).0 in
        changes-IsAnnounced db content namespace table_name moment w
          (db.apply_transaction actions w.db_table).1 result.partitions_to_persist result.changes
          valid (laws.apply_transaction_happened actions w.db_table)
          (laws.apply_transaction_within actions w.db_table)

    pub bulk_delete-IsAnnounced :
        (partitions : List (PartitionItems Text))
        → IsAnnounced db content namespace table_name w
            (bulk_delete db namespace table_name moment partitions w).1
    unfolding bulk_delete commit_transaction
    bulk_delete-IsAnnounced partitions =
        commit_transaction-IsAnnounced (map db.delete_rows_action partitions)
