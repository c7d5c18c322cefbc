-- ===== src/Operations/Write/History.antt =====
-- Any number of writes, in the order in which they enter the table: the readers' copies follow it, and no partition
-- that they changed is missed by the queue of the disk.
use my_no_sql_server_grpc.Base.{
  ℕ, ◌≡◌, refl, sym, ap, ◌∙◌, arith, true, false, List, [], ◌∷◌, ◌++◌, append_assoc, append-nil,
  none, some, Text,
}
use my_no_sql_server_grpc.Registry.Create.{IsValid}
use my_no_sql_server_grpc.Persist.Markers.{partition}
use my_no_sql_server_grpc.Persist.Markers.Mark.{due_moment}
use my_no_sql_server_grpc.Reader.Chunker.{PartitionItems}
use my_no_sql_server_grpc.Reader.SyncChunk.{SyncChunk}
use my_no_sql_server_grpc.Reader.Session.{ReaderSession}
use my_no_sql_server_grpc.Reader.Sessions
use my_no_sql_server_grpc.Reader.Sessions.{id_of, follows}
use my_no_sql_server_grpc.Operations.Sync.Subscribers.{told, told-follows, told-queue}
use my_no_sql_server_grpc.Operations.Core.{BulkWriteMode, DbTableOps}
use my_no_sql_server_grpc.Operations.Laws.{Content, Same, IsDbTable, replay, follow}
use my_no_sql_server_grpc.Operations.Sync.Mirror.{
  Instruction, IsTold, nothing-IsTold, IsTold-append,
}
use my_no_sql_server_grpc.Operations.Write.{
  World, insert, insert_or_replace, insert_or_replace_if_new, replace, delete_row, bulk_write,
  commit_transaction, bulk_delete, delete_partitions, clean_table, set_table_attributes, collect,
  keep_max_partitions_amount, keep_max_rows_in_partition,
}
use my_no_sql_server_grpc.Operations.Write.Announced.{IsAnnounced}
use my_no_sql_server_grpc.Operations.Write.Rows.{
  insert-IsAnnounced, insert_or_replace-IsAnnounced, insert_or_replace_if_new-IsAnnounced,
  replace-IsAnnounced, delete_row-IsAnnounced, bulk_write-IsAnnounced,
  commit_transaction-IsAnnounced, bulk_delete-IsAnnounced,
}
use my_no_sql_server_grpc.Operations.Write.Tables.{
  delete_partitions-IsAnnounced, clean_table-IsAnnounced, set_table_attributes-IsAnnounced,
  collect-IsAnnounced, keep_max_partitions_amount-IsAnnounced,
  keep_max_rows_in_partition-IsAnnounced,
}

module _ {T R A S Act : Type 0} (db : DbTableOps T R A S Act) (namespace table_name : Text) where
  -- One write, each with the moment by which it has to be on disk.
  pub data Write (w : World T R A) : World T R A → Type 0 where
    inserted : (at : ℕ) (r : R) → Write w (insert db namespace table_name at r w).1
    inserted_or_replaced :
        (at : ℕ) (r : R) → Write w (insert_or_replace db namespace table_name at r w)
    replaced_if_new :
        (at : ℕ) (r : R) → Write w (insert_or_replace_if_new db namespace table_name at r w).1
    replaced_version :
        (at version : ℕ) (r : R) → Write w (replace db namespace table_name at r version w).1
    row_deleted : (at : ℕ) (p k : Text) → Write w (delete_row db namespace table_name at p k w).1
    bulk_written :
        (at : ℕ) (mode : BulkWriteMode) (rows : List R)
        → Write w (bulk_write db namespace table_name at mode rows w)
    committed :
        (at : ℕ) (actions : List Act)
        → Write w (commit_transaction db namespace table_name at actions w)
    bulk_deleted :
        (at : ℕ) (partitions : List (PartitionItems Text))
        → Write w (bulk_delete db namespace table_name at partitions w).1
    partitions_gone :
        (at : ℕ) (keys : List Text) → Write w (delete_partitions db namespace table_name at keys w)
    cleaned : (at : ℕ) → Write w (clean_table db namespace table_name at w)
    attributes_set :
        (at : ℕ) (a : A) → Write w (set_table_attributes db namespace table_name at a w)
    collected : (at now : ℕ) → Write w (collect db namespace table_name at now w).1
    partitions_kept :
        (at max : ℕ) → Write w (keep_max_partitions_amount db namespace table_name at max w)
    rows_kept :
        (at max : ℕ) (p : Text)
        → Write w (keep_max_rows_in_partition db namespace table_name at p max w)

  module _ (content : T → Content R) (laws : IsDbTable db content) where
    Write-IsAnnounced :
        {w v : World T R A}
        → IsValid id_of w.reader_sessions
        → Write w v
        → IsAnnounced db content namespace table_name w v
    Write-IsAnnounced {w} h (inserted at r) =
        (insert-IsAnnounced db content namespace table_name at laws w h r).0
    Write-IsAnnounced {w} h (inserted_or_replaced at r) =
        insert_or_replace-IsAnnounced db content namespace table_name at laws w h r
    Write-IsAnnounced {w} h (replaced_if_new at r) =
        (insert_or_replace_if_new-IsAnnounced db content namespace table_name at laws w h r).0
    Write-IsAnnounced {w} h (replaced_version at version r) =
        (replace-IsAnnounced db content namespace table_name at laws w h r version).0
    Write-IsAnnounced {w} h (row_deleted at p k) =
        (delete_row-IsAnnounced db content namespace table_name at laws w h p k).0
    Write-IsAnnounced {w} h (bulk_written at mode rows) =
        bulk_write-IsAnnounced db content namespace table_name at laws w h mode rows
    Write-IsAnnounced {w} h (committed at actions) =
        commit_transaction-IsAnnounced db content namespace table_name at laws w h actions
    Write-IsAnnounced {w} h (bulk_deleted at partitions) =
        bulk_delete-IsAnnounced db content namespace table_name at laws w h partitions
    Write-IsAnnounced {w} h (partitions_gone at keys) =
        delete_partitions-IsAnnounced db content namespace table_name at laws w h keys
    Write-IsAnnounced {w} h (cleaned at) =
        clean_table-IsAnnounced db content namespace table_name at laws w h
    Write-IsAnnounced {w} h (attributes_set at a) =
        set_table_attributes-IsAnnounced db content namespace table_name at laws w h a
    Write-IsAnnounced {w} h (collected at now) =
        collect-IsAnnounced db content namespace table_name at laws w h now
    Write-IsAnnounced {w} h (partitions_kept at max) =
        keep_max_partitions_amount-IsAnnounced db content namespace table_name at laws w h max
    Write-IsAnnounced {w} h (rows_kept at max p) =
        keep_max_rows_in_partition-IsAnnounced db content namespace table_name at laws w h p max

    pub data Writes (w : World T R A) : World T R A → Type 0 where
      here : Writes w w
      next : {u v : World T R A} → Writes w u → Write u v → Writes w v

    -- A session that follows the table still does, and if it was not thrown away, its queue went on by `chunks`.
    abbrev IsQueued : List (SyncChunk R A) → World T R A → World T R A → Type 0
    IsQueued chunks w v =
        (id : Text) (s : ReaderSession (SyncChunk R A))
        → Sessions.get id w.reader_sessions ≡ some s
        → follows namespace table_name s ≡ true
        → (s' : ReaderSession (SyncChunk R A)) × (Sessions.get id v.reader_sessions ≡ some s')
          × (follows namespace table_name s' ≡ true)
          × (s'.overflowed ≡ false → (s.overflowed ≡ false) × (s'.queue ≡ s.queue ++ chunks))

    -- What the subscribers were told leads from the old content to the new one, and a partition that is not
    -- marked was not marked before and is as it was.
    pub record IsFollowed (w v : World T R A) : Type 0 where
      pub valid : IsValid id_of v.reader_sessions
      pub told : List (Instruction R A)
      pub chunks : List (SyncChunk R A)
      pub received : IsTold table_name told chunks
      pub queued : IsQueued chunks w v
      pub mirrored : content v.db_table ≡ replay db told (content w.db_table)
      pub marked :
          (p : Text)
          → due_moment v.persist_markers (partition table_name p) ≡ none
          → (due_moment w.persist_markers (partition table_name p) ≡ none)
            × ((k : Text) → content v.db_table p k ≡ content w.db_table p k)

    follow_all-append :
        (is js : List (Instruction R A)) (c : Content R)
        → replay db (is ++ js) c ≡ replay db js (replay db is c)
    follow_all-append [] js c = refl
    follow_all-append (i ∷ is) js c =
        follow_all-append is js (follow db.get_partition_key db.get_row_key i c)

    Same-path : (c d : Content R) → Same c d → c ≡ d
    Same-path c d h = λ i p k. h p k i

    told_once :
        (w v : World T R A) (a : IsAnnounced db content namespace table_name w v)
        → IsQueued a.chunks w v
    told_once w v a id s found at =
        let e = a.queued id in
        (
          told a.chunks s,
          ground arith,
          told-follows namespace table_name a.chunks s ∙ at,
          told-queue a.chunks s,
        )

    told_again :
        (xs ys : List (SyncChunk R A)) (w u v : World T R A)
        → IsQueued xs w u
        → IsQueued ys u v
        → IsQueued (xs ++ ys) w v
    told_again xs ys w u v h k id s found at =
        let (s', found', at', queue') = h id s found at in
        let (s'', found'', at'', queue'') = k id s' found' at' in
        (
          s'',
          found'',
          at'',
          λ live.
              let (live', e) = queue'' live in
              let (live'', e') = queue' live' in
              (
                live'',
                e ∙ ap (λ (t : List (SyncChunk R A)). t ++ ys) e' ∙ append_assoc s.queue xs ys,
              ),
        )

    -- Over a table that keeps the laws of `IsDbTable`, and with a registry of sessions that is
    -- well formed: after any sequence of writes to the table, whatever each of them does, every
    -- session that follows the table and was not thrown away has in its queue, behind what was
    -- there, chunks that lead a copy of the old content to the new content of the table, and
    -- that a copy of any other table passes over; and a partition that the disk is not told
    -- about was not marked before and is as it was.
    pub Writes-IsFollowed :
        {w v : World T R A} → IsValid id_of w.reader_sessions → Writes w v → IsFollowed w v
    Writes-IsFollowed {w} h here = record {
      valid = h;
      told = [];
      chunks = [];
      received = nothing-IsTold table_name;
      queued = λ id s found there. (s, found, there, λ live. (live, sym (append-nil s.queue)));
      mirrored = refl;
      marked = λ p due. (due, λ k. refl);
    }
    Writes-IsFollowed {w} h (next {u} {v} before write) =
        let f = Writes-IsFollowed h before in
        let a = Write-IsAnnounced f.valid write in
        record {
          valid = a.sessions_valid;
          told = f.told ++ a.told;
          chunks = f.chunks ++ a.chunks;
          received = IsTold-append table_name f.told a.told f.chunks a.chunks f.received a.received;
          queued = told_again f.chunks a.chunks w u v f.queued (told_once u v a);
          mirrored =
              Same-path (content v.db_table) (replay db a.told (content u.db_table)) a.happened
              ∙ ap (replay db a.told) f.mirrored
              ∙ sym (follow_all-append f.told a.told (content w.db_table));
          marked = λ p due.
              let (due', same) = a.marked p due in
              let (due'', same') = f.marked p due' in (due'', λ k. same k ∙ same' k);
        }
