-- ===== src/Operations/Write/Tables.antt =====
-- The writes of whole partitions and tables, and the collections: partitions.rs, table.rs and gc.rs.
use my_no_sql_server_grpc.Base.{
  ℕ, ◌≡◌, refl, sym, ◌∙◌, arith, ◌||◌, if◌then◌else◌, none, List, [], ◌∷◌, inl, inr, Bool-cases,
  List-cases, Text,
}
use my_no_sql_server_grpc.Registry.Create.{IsValid}
use my_no_sql_server_grpc.Registry.Gc.{is_in}
use my_no_sql_server_grpc.Reader.Chunker.Partitions.{flat}
use my_no_sql_server_grpc.Persist.Markers.{partition, table_metadata}
use my_no_sql_server_grpc.Persist.Markers.Mark.{due_moment-mark}
use my_no_sql_server_grpc.Reader.SyncChunk.{update_table_attributes}
use my_no_sql_server_grpc.Reader.Sessions.{id_of}
use my_no_sql_server_grpc.Operations.Core.{
  DbTableOps, table_cleaned, partitions_deleted, GcResult, gc_changes,
}
use my_no_sql_server_grpc.Operations.Laws.{
  Content, Same, IsWithin, IsCollected, IsDbTable, is_key, replay, told_of,
}
use my_no_sql_server_grpc.Operations.Sync
use my_no_sql_server_grpc.Operations.Sync.Subscribers.{enqueue-told}
use my_no_sql_server_grpc.Operations.Sync.Mirror.{take_attributes, Names-IsTold}
use my_no_sql_server_grpc.Operations.Write.{
  World, delete_partitions, clean_table, set_table_attributes, applied, collect,
  keep_max_partitions_amount, keep_max_rows_in_partition,
}
use my_no_sql_server_grpc.Operations.Write.Announced.{
  IsAnnounced, unchanged-IsAnnounced, changes-IsAnnounced,
}

module _ {T R A S Act : Type 0} (db : DbTableOps T R A S Act) (content : T → Content R)
    (namespace table_name : Text) (moment : ℕ) where
  module _ (laws : IsDbTable db content) (w : World T R A)
      (valid : IsValid id_of w.reader_sessions) where
    deleted_within :
        (keys : List Text)
        → IsWithin db
            (db.delete_partitions keys w.db_table).0
            (content w.db_table)
            (content (db.delete_partitions keys w.db_table).1)
    deleted_within keys p k outside =
        ground (arith, laws.delete_partitions_done keys w.db_table p k)

    nothing_deleted :
        (keys : List Text)
        → (db.delete_partitions keys w.db_table).0 ≡ []
        → Same (content (db.delete_partitions keys w.db_table).1) (content w.db_table)
    nothing_deleted keys e p k = ground (arith, laws.delete_partitions_done keys w.db_table p k)

    -- Only the partitions that were there are marked and announced; when none was, nothing is.
    pub delete_partitions-IsAnnounced :
        (keys : List Text)
        → IsAnnounced db content namespace table_name w
            (delete_partitions db namespace table_name moment keys w)
    unfolding delete_partitions Sync.partitions_deleted_told Sync.changes_applied Sync.push_changes
        Sync.push_change
    delete_partitions-IsAnnounced keys =
        let t = (db.delete_partitions keys w.db_table).1 in
        let removed = (db.delete_partitions keys w.db_table).0 in
        let done = laws.delete_partitions_done keys w.db_table in
        let within = deleted_within keys in
        elim (List-cases removed) [
          | inl nothing ↦
              rw (delete_partitions, nothing)
                (unchanged-IsAnnounced db content namespace table_name w t valid
                  (nothing_deleted keys nothing))
          | inr (q, qs, some_gone) ↦
              let announced =
                changes-IsAnnounced db content namespace table_name moment w t removed
                  (partitions_deleted removed ∷ []) valid done within in
              rw (delete_partitions, some_gone) (rw⁻¹ some_gone announced)
        ]

    pub clean_table-IsAnnounced :
        IsAnnounced db content namespace table_name w (clean_table db namespace table_name moment w)
    unfolding clean_table Sync.table_cleaned_told Sync.changes_applied Sync.push_changes
        Sync.push_change
    clean_table-IsAnnounced =
        changes-IsAnnounced db content namespace table_name moment w (db.clean w.db_table).1
          (db.clean w.db_table).0 (table_cleaned ∷ []) valid (laws.clean_done w.db_table)
          (λ p k outside.
            laws.clean_done w.db_table p k ∙ sym (laws.clean_known w.db_table p k outside))

    pub set_table_attributes-IsAnnounced :
        (attributes : A)
        → IsAnnounced db content namespace table_name w
            (set_table_attributes db namespace table_name moment attributes w)
    unfolding set_table_attributes Sync.table_attributes_updated
    set_table_attributes-IsAnnounced attributes =
        let new_attributes = db.with_created (db.get_attributes w.db_table) attributes in
        let t = db.set_attributes new_attributes w.db_table in
        let chunks = update_table_attributes table_name (db.get_attributes t) ∷ [] in
        let (valid', queued) =
          enqueue-told db.get_partition_key db.get_content_size namespace table_name chunks
            w.reader_sessions valid in
        record {
          told = take_attributes (db.get_attributes t) ∷ [];
          chunks = chunks;
          happened = laws.set_attributes_kept new_attributes w.db_table;
          received =
              Names-IsTold table_name (take_attributes (db.get_attributes t) ∷ []) chunks (refl, tt)
                (λ before. refl);
          sessions_valid = valid';
          queued = queued;
          marked = λ p h. (
            sym (
                  due_moment-mark (table_metadata table_name) (partition table_name p) moment
                    w.persist_markers)
                ∙ h,
            laws.set_attributes_kept new_attributes w.db_table p,
          );
        }

    -- What the subscribers are told of a collection does to a copy what the collection did to the table.
    collected_replay :
        (result : GcResult) (c : Content R)
        → Same
            (λ p k.
              if is_in p result.partitions_removed || is_key p k (flat result.rows_removed)
              then none
              else c p k)
            (replay db (told_of db (gc_changes result)) c)
    collected_replay result c p k = elim (List-cases result.partitions_removed) [
      | inl no_partitions ↦ elim (List-cases result.rows_removed) [
        | inl no_rows ↦ rw (no_partitions, no_rows) refl
        | inr (q, qs, rows) ↦ elim (List-cases (flat (q ∷ qs))) [
          | inl empty ↦ rw (no_partitions, rows, empty) refl
          | inr (x, xs, keys) ↦ rw (no_partitions, rows, keys) refl
        ]
      ]
      | inr (j, js, partitions) ↦ elim (List-cases result.rows_removed) [
        | inl no_rows ↦ rw (partitions, no_rows) (ground arith)
        | inr (q, qs, rows) ↦ elim (List-cases (flat (q ∷ qs))) [
          | inl empty ↦ rw (partitions, rows, empty) (ground arith)
          | inr (x, xs, keys) ↦ rw (partitions, rows, keys) (ground arith)
        ]
      ]
    ]

    applied-IsAnnounced :
        (result : GcResult) (t : T)
        → IsCollected db (content w.db_table) result (content t)
        → IsAnnounced db content namespace table_name w
            (applied db namespace table_name moment result (record w { db_table = t })).1
    unfolding applied
    applied-IsAnnounced result t h = elim (Bool-cases (db.gc_result_is_empty result)) [
      | inl idle ↦
          rw (applied, idle)
            (unchanged-IsAnnounced db content namespace table_name w t valid (h.idle idle))
      | inr busy ↦
          rw (applied, busy)
            (changes-IsAnnounced db content namespace table_name moment w t
              result.partitions_to_persist (gc_changes result) valid
              (λ p k. h.happened p k ∙ collected_replay result (content w.db_table) p k) h.within)
    ]

    pub collect-IsAnnounced :
        (now : ℕ)
        → IsAnnounced db content namespace table_name w
            (collect db namespace table_name moment now w).1
    unfolding collect
    collect-IsAnnounced now =
        applied-IsAnnounced (db.gc now w.db_table).0 (db.gc now w.db_table).1
          (laws.gc_collected now w.db_table)

    pub keep_max_partitions_amount-IsAnnounced :
        (max : ℕ)
        → IsAnnounced db content namespace table_name w
            (keep_max_partitions_amount db namespace table_name moment max w)
    unfolding keep_max_partitions_amount
    keep_max_partitions_amount-IsAnnounced max =
        applied-IsAnnounced (db.keep_max_partitions_amount max w.db_table).0
          (db.keep_max_partitions_amount max w.db_table).1
          (laws.keep_max_partitions_collected max w.db_table)

    pub keep_max_rows_in_partition-IsAnnounced :
        (p : Text) (max : ℕ)
        → IsAnnounced db content namespace table_name w
            (keep_max_rows_in_partition db namespace table_name moment p max w)
    unfolding keep_max_rows_in_partition
    keep_max_rows_in_partition-IsAnnounced p max =
        applied-IsAnnounced (db.keep_max_rows_in_partition p max w.db_table).0
          (db.keep_max_rows_in_partition p max w.db_table).1
          (laws.keep_max_rows_collected p max w.db_table)
