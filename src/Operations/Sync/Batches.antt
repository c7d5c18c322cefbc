-- ===== src/Operations/Sync/Batches.antt =====
-- What a subscriber makes of the chunks: it collects a batch up to its end and then applies it whole.
use my_no_sql_server_grpc.Base.{
  ℕ, ◌≡◌, refl, sym, ap, ◌∙◌, List, [], ◌∷◌, ◌++◌, map, concat, append_assoc, append-nil, Text,
}
use my_no_sql_server_grpc.Reader.Chunker.{
  PartitionItems, group_by_partition, split_rows, split_loop, push_last, split_groups,
  split_partition_rows, split_partition_row_keys,
}
use my_no_sql_server_grpc.Reader.Chunker.Rows.{split_rows-IsSplit}
use my_no_sql_server_grpc.Reader.Chunker.Partitions.{
  flat, flat-concat, keyed_size, split_groups-flat,
}
use my_no_sql_server_grpc.Reader.Chunker.Delivery.{
  select, split_partition_rows-delivers, split_partition_row_keys-delivers,
}
use my_no_sql_server_grpc.Reader.Chunker.Group.{matching}
use my_no_sql_server_grpc.Reader.SyncChunk.{
  SyncChunk, clean_table, clean_partitions, init_partitions, init_partitions_end, update_rows,
  update_rows_end, delete_rows, delete_rows_end,
}
use my_no_sql_server_grpc.Operations.Core.{
  BulkWriteMode, insert_or_replace_rows, insert_or_replace_rows_if_new, clean_partitions_and_insert,
  clean_table_and_insert, AppliedChange, table_cleaned, partitions_deleted, rows_deleted,
  rows_written,
}
use my_no_sql_server_grpc.Operations.Sync.{
  closed, push_updated_rows, push_deleted_rows, bulk_chunks, push_change, push_changes,
}
use my_no_sql_server_grpc.Operations.Sync.Mirror.{
  Instruction, forget_table, forget_partitions, replace_partitions, write_rows, remove_rows, Mirror,
  apply, apply_all, apply_all-append, at_rest, Names, Names-append, Names-map, table_of, IsTold,
  Names-IsTold,
}

module _ {R A : Type 0} where
  rows_received :
      (m : Mirror R A) (t : Text) (cs : List (List R))
      → apply_all m (map (update_rows t) cs) ≡ record m { rows = m.rows ++ concat cs }
  rows_received m t [] = rw (append-nil m.rows) refl
  rows_received m t (c ∷ cs) =
      rows_received (record m { rows = m.rows ++ c }) t cs
      ∙ rw (append_assoc m.rows c (concat cs)) refl

  keys_received :
      (m : Mirror R A) (t : Text) (cs : List (List (PartitionItems Text)))
      → apply_all m (map (delete_rows t) cs) ≡ record m { keys = m.keys ++ concat (map flat cs) }
  keys_received m t [] = rw (append-nil m.keys) refl
  keys_received m t (c ∷ cs) =
      keys_received (record m { keys = m.keys ++ flat c }) t cs
      ∙ rw (append_assoc m.keys (flat c) (concat (map flat cs))) refl

  initial_received :
      (m : Mirror R A) (t : Text) (cs : List (List (PartitionItems R)))
      → apply_all m (map (init_partitions t) cs)
        ≡ record m { initial = m.initial ++ concat (map flat cs) }
  initial_received m t [] = rw (append-nil m.initial) refl
  initial_received m t (c ∷ cs) =
      initial_received (record m { initial = m.initial ++ flat c }) t cs
      ∙ rw (append_assoc m.initial (flat c) (concat (map flat cs))) refl

abbrev pub unless_empty : {B I : Type 0} → List B → I → List I
unless_empty [] i = []
unless_empty (b ∷ bs) i = i ∷ []

map-nil : {B C : Type 0} (f : B → C) (xs : List B) → map f xs ≡ [] → xs ≡ []
map-nil f [] h = refl
map-nil f (x ∷ xs) h = absurd (cc)

split_rows-nil : {R : Type 0} (size : R → ℕ) (rows : List R) → rows ≡ [] → split_rows size rows ≡ []
unfolding split_rows push_last split_loop
split_rows-nil size rows h = rw h (refl)

module _ {R A : Type 0} where
  -- A batch whose chunks carry `rows`, closed by its end, is applied as one instruction.
  rows_closed :
      (applied : List (Instruction R A)) (t : Text) (rows : List R) (cs : List (List R))
      → concat cs ≡ rows
      → (rows ≡ [] → cs ≡ [])
      → apply_all (at_rest applied) (closed (update_rows t) (update_rows_end t) cs)
        ≡ at_rest (applied ++ unless_empty rows (write_rows rows))
  rows_closed applied t [] cs h k = rw (k refl, append-nil applied) refl
  rows_closed applied t (r ∷ rows) [] h k = absurd (cc)
  rows_closed applied t (r ∷ rows) (c ∷ cs) h k =
      apply_all-append (at_rest applied) (map (update_rows t) (c ∷ cs)) (update_rows_end t ∷ [])
      ∙ ap (λ (m : Mirror R A). apply m (update_rows_end t))
          (rows_received (at_rest applied) t (c ∷ cs))
      ∙ ap (λ (rs : List R). at_rest (applied ++ (write_rows rs ∷ []))) h

  keys_closed :
      (applied : List (Instruction R A)) (t : Text) (keys : List (Text × Text))
      (cs : List (List (PartitionItems Text)))
      → concat (map flat cs) ≡ keys
      → (keys ≡ [] → cs ≡ [])
      → apply_all (at_rest applied) (closed (delete_rows t) (delete_rows_end t) cs)
        ≡ at_rest (applied ++ unless_empty keys (remove_rows keys))
  keys_closed applied t [] cs h k = rw (k refl, append-nil applied) refl
  keys_closed applied t (r ∷ keys) [] h k = absurd (cc)
  keys_closed applied t (r ∷ keys) (c ∷ cs) h k =
      apply_all-append (at_rest applied) (map (delete_rows t) (c ∷ cs)) (delete_rows_end t ∷ [])
      ∙ ap (λ (m : Mirror R A). apply m (delete_rows_end t))
          (keys_received (at_rest applied) t (c ∷ cs))
      ∙ ap (λ (rs : List (Text × Text)). at_rest (applied ++ (remove_rows rs ∷ []))) h

  initial_closed :
      (applied : List (Instruction R A)) (t : Text) (rows : List (Text × R))
      (cs : List (List (PartitionItems R)))
      → concat (map flat cs) ≡ rows
      → (rows ≡ [] → cs ≡ [])
      → apply_all (at_rest applied) (closed (init_partitions t) (init_partitions_end t) cs)
        ≡ at_rest (applied ++ unless_empty rows (replace_partitions rows))
  initial_closed applied t [] cs h k = rw (k refl, append-nil applied) refl
  initial_closed applied t (r ∷ rows) [] h k = absurd (cc)
  initial_closed applied t (r ∷ rows) (c ∷ cs) h k =
      apply_all-append (at_rest applied) (map (init_partitions t) (c ∷ cs))
        (init_partitions_end t ∷ [])
      ∙ ap (λ (m : Mirror R A). apply m (init_partitions_end t))
          (initial_received (at_rest applied) t (c ∷ cs))
      ∙ ap (λ (rs : List (Text × R)). at_rest (applied ++ (replace_partitions rs ∷ []))) h

module _ {R A : Type 0} (get_partition_key : R → Text) (get_content_size : R → ℕ) where
  -- What a change is to a subscriber: one instruction, or none if it names no row.
  abbrev pub instructions_of : AppliedChange R → List (Instruction R A)
  instructions_of table_cleaned = forget_table ∷ []
  instructions_of (partitions_deleted keys) = forget_partitions keys ∷ []
  instructions_of (rows_deleted partitions) =
      unless_empty (flat partitions) (remove_rows (flat partitions))
  instructions_of (rows_written rows) = unless_empty rows (write_rows rows)

  abbrev pub instructions : List (AppliedChange R) → List (Instruction R A)
  instructions [] = []
  instructions (change ∷ changes) = instructions_of change ++ instructions changes

  written :
      (applied : List (Instruction R A)) (t : Text) (rows : List R)
      → apply_all
          (at_rest applied)
          (closed (update_rows t) (update_rows_end t) (split_rows get_content_size rows))
        ≡ at_rest (applied ++ unless_empty rows (write_rows rows))
  written applied t rows =
      let cut = split_rows-IsSplit get_content_size rows in
      rows_closed applied t rows (split_rows get_content_size rows) cut.kept
        (split_rows-nil get_content_size rows)

  removed :
      (applied : List (Instruction R A)) (t : Text) (partitions : List (PartitionItems Text))
      → apply_all
          (at_rest applied)
          (closed (delete_rows t) (delete_rows_end t) (split_partition_row_keys partitions))
        ≡ at_rest (applied ++ unless_empty (flat partitions) (remove_rows (flat partitions)))
  unfolding split_partition_row_keys
  removed applied t partitions =
      let size : Text → ℕ = λ _. 0 in
      let cut = split_partition_row_keys-delivers partitions in
      keys_closed applied t (flat partitions) (split_partition_row_keys partitions) cut.kept (λ e.
        map-nil flat (split_partition_row_keys partitions) (
          split_groups-flat size partitions ∙ split_rows-nil (keyed_size size) (flat partitions) e))

  push_change-received :
      (m : Mirror R A) (before : List (SyncChunk R A)) (t : Text) (change : AppliedChange R)
      (applied : List (Instruction R A))
      → apply_all m before ≡ at_rest applied
      → apply_all m (push_change get_partition_key get_content_size before t change)
        ≡ at_rest (applied ++ instructions_of change)
  unfolding push_change push_updated_rows push_deleted_rows
  push_change-received m before t table_cleaned applied h =
      apply_all-append m before (clean_table t ∷ []) ∙ rw h refl
  push_change-received m before t (partitions_deleted keys) applied h =
      apply_all-append m before (clean_partitions t keys ∷ []) ∙ rw h refl
  push_change-received m before t (rows_deleted partitions) applied h =
      apply_all-append m before
        (closed (delete_rows t) (delete_rows_end t) (split_partition_row_keys partitions))
      ∙ rw h (removed applied t partitions)
  push_change-received m before t (rows_written rows) applied h =
      apply_all-append m before
        (closed (update_rows t) (update_rows_end t) (split_rows get_content_size rows))
      ∙ rw h (written applied t rows)

  push_changes-received :
      (m : Mirror R A) (before : List (SyncChunk R A)) (t : Text) (changes : List (AppliedChange R))
      (applied : List (Instruction R A))
      → apply_all m before ≡ at_rest applied
      → apply_all m (push_changes get_partition_key get_content_size before t changes)
        ≡ at_rest (applied ++ instructions changes)
  unfolding push_changes
  push_changes-received m before t [] applied h = h ∙ rw (append-nil applied) refl
  push_changes-received m before t (change ∷ changes) applied h =
      push_changes-received m (push_change get_partition_key get_content_size before t change) t
        changes (applied ++ instructions_of change)
        (push_change-received m before t change applied h)
      ∙ ap (λ (is : List (Instruction R A)). at_rest is)
          (append_assoc applied (instructions_of change) (instructions changes))

  closed-Names :
      {B : Type 0} (t : Text) (chunk : B → SyncChunk R A) (end : SyncChunk R A) (bs : List B)
      → ((b : B) → table_of (chunk b) ≡ t)
      → table_of end ≡ t
      → Names t (closed chunk end bs)
  closed-Names t chunk end [] h k = tt
  closed-Names t chunk end (b ∷ bs) h k =
      Names-append t (map chunk (b ∷ bs)) (end ∷ []) (Names-map t chunk (b ∷ bs) h) (k, tt)

  push_change-Names :
      (t : Text) (before : List (SyncChunk R A)) (change : AppliedChange R)
      → Names t before
      → Names t (push_change get_partition_key get_content_size before t change)
  unfolding push_change push_updated_rows push_deleted_rows
  push_change-Names t before table_cleaned h =
      Names-append t before (clean_table t ∷ []) h (refl, tt)
  push_change-Names t before (partitions_deleted keys) h =
      Names-append t before (clean_partitions t keys ∷ []) h (refl, tt)
  push_change-Names t before (rows_deleted partitions) h =
      Names-append t before
        (closed (delete_rows t) (delete_rows_end t) (split_partition_row_keys partitions)) h
        (closed-Names t (delete_rows t) (delete_rows_end t) (split_partition_row_keys partitions)
          (λ b. refl) refl)
  push_change-Names t before (rows_written rows) h =
      Names-append t before
        (closed (update_rows t) (update_rows_end t) (split_rows get_content_size rows)) h
        (closed-Names t (update_rows t) (update_rows_end t) (split_rows get_content_size rows)
          (λ b. refl) refl)

  push_changes-Names :
      (t : Text) (before : List (SyncChunk R A)) (changes : List (AppliedChange R))
      → Names t before
      → Names t (push_changes get_partition_key get_content_size before t changes)
  unfolding push_changes
  push_changes-Names t before [] h = h
  push_changes-Names t before (change ∷ changes) h =
      push_changes-Names t (push_change get_partition_key get_content_size before t change) changes
        (push_change-Names t before change h)

  -- A subscriber of the table that receives the chunks of a list of changes applies them one by one in their order, each of
  -- them whole, a change without rows not at all, and is left with no batch open; a subscriber of another table applies nothing.
  pub changes-received :
      (t : Text) (changes : List (AppliedChange R))
      → IsTold t
          (instructions changes)
          (push_changes get_partition_key get_content_size [] t changes)
  changes-received t changes =
      Names-IsTold t (instructions changes)
        (push_changes get_partition_key get_content_size [] t changes)
        (push_changes-Names t [] changes tt)
        (λ applied. push_changes-received (at_rest applied) [] t changes applied refl)

  -- What a batch is to a subscriber, by its mode. A batch that replaces partitions is one instruction, which has for every
  -- partition exactly its rows of the batch, in their order.
  abbrev pub IsReplacedBy : BulkWriteMode → List R → List (Instruction R A) → Type 0
  IsReplacedBy insert_or_replace_rows rows told = told ≡ unless_empty rows (write_rows rows)
  IsReplacedBy insert_or_replace_rows_if_new rows told = told ≡ unless_empty rows (write_rows rows)
  IsReplacedBy clean_partitions_and_insert rows told =
      (replaced : List (Text × R)) × (told ≡ unless_empty replaced (replace_partitions replaced))
      × ((key : Text) → select key replaced ≡ matching get_partition_key key rows)
  IsReplacedBy clean_table_and_insert rows told =
      told ≡ forget_table ∷ unless_empty rows (write_rows rows)

  updated-IsTold :
      (t : Text) (rows : List R)
      → IsTold {R = R} {A = A} t
          (unless_empty rows (write_rows rows))
          (closed (update_rows t) (update_rows_end t) (split_rows get_content_size rows))
  updated-IsTold t rows =
      Names-IsTold t (unless_empty rows (write_rows rows))
        (closed (update_rows t) (update_rows_end t) (split_rows get_content_size rows))
        (closed-Names t (update_rows t) (update_rows_end t) (split_rows get_content_size rows)
          (λ b. refl) refl)
        (λ applied. written applied t rows)

  -- A subscriber of the table that receives the chunks of a batch is left with no batch open, and
  -- applies, by the mode of the batch: its rows as an update; or, as the whole content of each
  -- partition that it names, exactly the rows of that partition in their order; or the removal of
  -- everything, even for a batch without rows, and then its rows. A subscriber of another table
  -- applies nothing.
  pub bulk-received :
      (t : Text) (mode : BulkWriteMode) (rows : List R)
      → (told : List (Instruction R A)) × IsReplacedBy mode rows told
        × IsTold t told (bulk_chunks get_partition_key get_content_size t mode rows)
  unfolding bulk_chunks push_updated_rows split_partition_rows
  bulk-received t insert_or_replace_rows rows =
      (unless_empty rows (write_rows rows), refl, updated-IsTold t rows)
  bulk-received t insert_or_replace_rows_if_new rows =
      (unless_empty rows (write_rows rows), refl, updated-IsTold t rows)
  bulk-received t clean_partitions_and_insert rows =
      let groups = group_by_partition get_partition_key rows in
      let cs = split_partition_rows get_partition_key get_content_size rows in
      let (select_kept, cut) =
        split_partition_rows-delivers get_partition_key get_content_size rows in
      let whole : flat (concat cs) ≡ flat groups = flat-concat cs ∙ cut.kept in
      (
        unless_empty (flat groups) (replace_partitions (flat groups)),
        (flat groups, refl, λ key. ap (select key) (sym whole) ∙ select_kept key),
        Names-IsTold t (unless_empty (flat groups) (replace_partitions (flat groups)))
            (closed (init_partitions t) (init_partitions_end t) cs)
            (closed-Names t (init_partitions t) (init_partitions_end t) cs (λ b. refl) refl)
            (λ applied. initial_closed applied t (flat groups) cs cut.kept (λ e.
              map-nil flat (split_groups get_content_size groups) (
                split_groups-flat get_content_size groups
                ∙ split_rows-nil (keyed_size get_content_size) (flat groups) e))),
      )
  bulk-received t clean_table_and_insert rows = (
    forget_table ∷ unless_empty rows (write_rows rows),
    refl,
    Names-IsTold t (forget_table ∷ unless_empty rows (write_rows rows))
        (clean_table t
          ∷ closed (update_rows t) (update_rows_end t) (split_rows get_content_size rows))
        (
          refl,
          closed-Names t (update_rows t) (update_rows_end t) (split_rows get_content_size rows)
              (λ b. refl) refl,
        )
        (λ applied.
          written (applied ++ (forget_table ∷ [])) t rows
          ∙ ap (λ (is : List (Instruction R A)). at_rest is)
              (append_assoc applied (forget_table ∷ []) (unless_empty rows (write_rows rows)))),
  )
