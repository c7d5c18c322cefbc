-- ===== src/Operations/Write/Announced.antt =====
-- What every write owes: the disk has to learn about it, and so do the readers.
use my_no_sql_server_grpc.Base.{
  ℕ, ◌≡◌, refl, arith, false, ◌&&◌, List, [], ◌∷◌, inl, inr, none, Bool-cases, Text, text_same,
  text_same_iff,
}
use my_no_sql_server_grpc.Registry.Create.{IsValid}
use my_no_sql_server_grpc.Registry.Gc.{is_in}
use my_no_sql_server_grpc.Persist.Markers.{PersistMarkersInner, partition, persist_partition}
use my_no_sql_server_grpc.Persist.Markers.Mark.{due_moment, due_moment-mark}
use my_no_sql_server_grpc.Reader.SyncChunk.{SyncChunk}
use my_no_sql_server_grpc.Reader.Sessions
use my_no_sql_server_grpc.Reader.Sessions.{ReaderSessions, id_of}
use my_no_sql_server_grpc.Operations.Core.{DbTableOps, AppliedChange}
use my_no_sql_server_grpc.Operations.Laws.{Content, Same, IsWithin, replay, told_of}
use my_no_sql_server_grpc.Operations.Sync
use my_no_sql_server_grpc.Operations.Sync.Subscribers.{after_told, enqueue-told}
use my_no_sql_server_grpc.Operations.Sync.Mirror.{Instruction, IsTold, nothing-IsTold}
use my_no_sql_server_grpc.Operations.Sync.Batches.{changes-received}
use my_no_sql_server_grpc.Operations.Write.{World, mark_partitions_to_persist}

pub mark_partitions-none :
    (t : Text) (keys : List Text) (moment : ℕ) (m : PersistMarkersInner) (p : Text)
    → due_moment (mark_partitions_to_persist t keys moment m) (partition t p) ≡ none
    → (is_in p keys ≡ false) × (due_moment m (partition t p) ≡ none)
unfolding mark_partitions_to_persist
mark_partitions-none t [] moment m p h = (refl, h)
mark_partitions-none t (key ∷ keys) moment m p h =
    let (rest, due) = mark_partitions-none t keys moment (persist_partition t key moment m) p h in
    let e = due_moment-mark (partition t key) (partition t p) moment m in
    elim (Bool-cases (text_same t t && text_same key p)) [
      | inl same ↦ absurd (ground arith)
      | inr other ↦ (ground (arith, text_same_iff t t), ground arith)
    ]

module _ {T R A S Act : Type 0} (db : DbTableOps T R A S Act) (content : T → Content R)
    (namespace table_name : Text) where
  -- What happened between two states: some instructions.
  pub record IsAnnounced (w w' : World T R A) : Type 0 where
    pub told : List (Instruction R A)
    pub chunks : List (SyncChunk R A)
    -- The table did what the instructions say.
    pub happened : Same (content w'.db_table) (replay db told (content w.db_table))
    -- Every subscriber has the instructions in its queue, in one run, and no other session has anything new.
    pub received : IsTold table_name told chunks
    pub sessions_valid : IsValid id_of w'.reader_sessions
    pub queued :
        (id : Text)
        → Sessions.get id w'.reader_sessions
          ≡ after_told db.get_partition_key db.get_content_size namespace table_name chunks
              (Sessions.get id w.reader_sessions)
    -- A partition that is not marked now was not marked before, and is as it was.
    pub marked :
        (p : Text)
        → due_moment w'.persist_markers (partition table_name p) ≡ none
        → (due_moment w.persist_markers (partition table_name p) ≡ none)
          × ((k : Text) → content w'.db_table p k ≡ content w.db_table p k)

  -- Nothing at all happened, but for what the table itself does not show.
  pub unchanged-IsAnnounced :
      (w : World T R A) (t : T)
      → IsValid id_of w.reader_sessions
      → Same (content t) (content w.db_table)
      → IsAnnounced w (record w { db_table = t })
  unchanged-IsAnnounced w t valid same = record {
    told = [];
    chunks = [];
    happened = same;
    received = nothing-IsTold table_name;
    sessions_valid = valid;
    queued = λ id. ground arith;
    marked = λ p h. (h, same p);
  }

  pub changes-IsAnnounced :
      (moment : ℕ) (w : World T R A) (t : T) (keys : List Text) (changes : List (AppliedChange R))
      → IsValid id_of w.reader_sessions
      → Same (content t) (replay db (told_of db changes) (content w.db_table))
      → IsWithin db keys (content w.db_table) (content t)
      → IsAnnounced w (record {
        db_table = t;
        persist_markers = mark_partitions_to_persist table_name keys moment w.persist_markers;
        reader_sessions =
            Sync.changes_applied db.get_partition_key db.get_content_size namespace table_name
              changes w.reader_sessions;
      })
  unfolding Sync.changes_applied
  changes-IsAnnounced moment w t keys changes valid happened within =
      let chunks =
        Sync.push_changes db.get_partition_key db.get_content_size [] table_name changes in
      let (valid', queued) =
        enqueue-told db.get_partition_key db.get_content_size namespace table_name chunks
          w.reader_sessions valid in
      record {
        told = told_of db changes;
        chunks = chunks;
        happened = happened;
        received = changes-received db.get_partition_key db.get_content_size table_name changes;
        sessions_valid = valid';
        queued = queued;
        marked = λ p h.
            let (outside, due) =
              mark_partitions-none table_name keys moment w.persist_markers p h in
            (due, λ k. within p k outside);
      }
