-- ===== src/Operations/Init/Recovered.antt =====
-- The start of a namespace on the page-files that a stop or a crash left.
use mathlib.Core.Path.{subst}
use my_no_sql_server_grpc.Base.{
  ℕ, ◌≡◌, ◌+◌, ◌<◌, ◌^◌, refl, sym, ◌∙◌, arith, Bool, true, ◌||◌, inl, inr, List, [], Option, none,
  some, Text, Option-cases, All,
}
use my_no_sql_server_grpc.Base.Result.{ok}
use my_no_sql_server_grpc.Base.Outcome.{returns, panics}
use my_no_sql_server_grpc.Persist.PartitionBlob.{Zstd, PersistedRow, deserialize}
use my_no_sql_server_grpc.Persist.Slot.{OccupiedSlot}
use my_no_sql_server_grpc.Persist.Files.{
  SlotLocation, PageFiles, FilesRepoInner, LoadedPartition, open_files, load_all_partitions,
}
use my_no_sql_server_grpc.Persist.Files.Slots.{occupant}
use my_no_sql_server_grpc.Persist.Files.Consistent.{saved}
use my_no_sql_server_grpc.Persist.Files.Open.{IsFolder}
use my_no_sql_server_grpc.Persist.Files.Loaded.{payload_of, partition_key_of, All-found}
use my_no_sql_server_grpc.Persist.Files.Load.{IsRecovered, load_all_partitions-IsRecovered}
use my_no_sql_server_grpc.Operations.Init.{Restores, create_tables, load_namespace}
use my_no_sql_server_grpc.Operations.Init.Rows.{IsOfRows, last_row, all_parsed, restored_partition}
use my_no_sql_server_grpc.Operations.Init.Restored.{
  key-restore_rows, IsRestoring, shown, partition_from, IsReadable, shown-create_tables,
  restore_all-shown,
}

-- A slot as it is handed out.
abbrev pub handed_out : OccupiedSlot → LoadedPartition
handed_out slot = record {
  table_name = slot.table_name;
  partition_key = slot.partition_key;
  payload = slot.payload;
}

module _ {T P R A E : Type 0} (ops : Restores T P R A E) (get_partition : Text → T → Option P)
    (key : P → Text) (law : IsRestoring ops get_partition key) (zstd : Zstd) (hash : List ℕ → ℕ)
    (skip : Bool) (now : ℕ) where
  -- The partition that is made of the payload that is kept.
  abbrev pub kept_partition : FilesRepoInner → Text × Text → Option P
  kept_partition r k = elim (saved hash r k) [
    | none ↦ none
    | some payload ↦ elim (partition_from ops get_partition key zstd skip now k.1 payload) [
      | panics ↦ none
      | returns q ↦ some q
    ]
  ]

  -- The same by the code's own reading of the rows.
  load_namespace-kept :
      (metadata : List (Text × A)) (files : PageFiles)
      → IsFolder hash skip files
      → ((l : SlotLocation) (slot : OccupiedSlot)
          → occupant hash files l ≡ some slot
          → slot.version + 1 < 2 ^ 64)
      → ((l : SlotLocation) (slot : OccupiedSlot)
          → occupant hash files l ≡ some slot
          → IsReadable ops get_partition key zstd skip now (handed_out slot))
      → (partitions : List LoadedPartition) × (r : FilesRepoInner) × (tables : List (Text × T))
        × (load_all_partitions hash skip (open_files files) ≡ returns (partitions, r))
        × (load_namespace ops zstd skip now metadata partitions ≡ returns tables)
        × IsRecovered hash files partitions r
        × ((k : Text × Text) → shown ops get_partition key k tables ≡ kept_partition r k)
  unfolding load_namespace
  load_namespace-kept metadata files folder small readable =
      let (partitions, r, scanned, back) =
        load_all_partitions-IsRecovered hash skip files folder small in
      let whole : All (IsReadable ops get_partition key zstd skip now) partitions =
        All-found (IsReadable ops get_partition key zstd skip now) partitions back.apart (λ p e.
          let (l, slot, at, named, same) =
            back.only (partition_key_of p) p.payload (sym (back.loads (partition_key_of p)) ∙ e) in
          let as_p : handed_out slot ≡ p = ground arith in
          subst (IsReadable ops get_partition key zstd skip now) as_p (readable l slot at)) in
      let made = create_tables ops zstd skip now metadata [] in
      let (tables, went, shows) =
        restore_all-shown ops get_partition key zstd skip now law partitions made back.apart
          whole in
      (
        partitions,
        r,
        tables,
        scanned,
        went,
        back,
        λ k.
            let bare : shown ops get_partition key k made ≡ none =
              shown-create_tables ops get_partition key zstd skip now law metadata [] k in
            elim (Option-cases (payload_of k partitions)) [
              | inl nothing ↦ ground (arith, shows k, back.loads k)
              | inr (payload, there) ↦ ground (arith, shows k, back.loads k)
            ],
      )

  module _ (get_row : Text → P → Option R) (row_key : R → Text)
      (row_law : IsOfRows ops get_row row_key) where
    -- A payload whose rows can be read, but for those that are to be skipped.
    abbrev pub IsWhole : List ℕ → Type 0
    IsWhole payload =
        (rows : List PersistedRow) × (deserialize zstd payload ≡ ok rows)
        × ((skip || all_parsed ops get_row row_key now rows) ≡ true)

    -- A partition is shown where a payload is kept: it holds for each row key the last of the rows of the payload that has it, and
    -- nothing else.
    abbrev pub Shows : Text × Text → Option (List ℕ) → Option P → Type 0
    Shows k none partition = partition ≡ none
    Shows k (some payload) partition =
        (rows : List PersistedRow) × (q : P) × (deserialize zstd payload ≡ ok rows)
        × (partition ≡ some q)
        × (key q ≡ k.1)
        × ((j : Text) → get_row j q ≡ last_row ops get_row row_key now j rows)

    -- Over tables and partitions that keep the laws of `IsRestoring` and `IsOfRows`: if the
    -- slots are a folder that can be scanned, no version is the last of the 64 bits, and every
    -- slot holds a payload whose rows can be parsed, or the rows that can not are to be
    -- skipped, then the start of the namespace goes through. The scan says what is on disk and
    -- each of its keys is kept at the payload of its newest slot; and then, for each key, its
    -- table shows a partition exactly if a payload is kept, whether or not `tables.meta` names
    -- the table, and the partition has under each row key the last row of the payload with that
    -- key, made of its entity, its schema, and the moment of the entity or else of the start,
    -- and no other row.
    pub load_namespace-IsRecovered :
        (metadata : List (Text × A)) (files : PageFiles)
        → IsFolder hash skip files
        → ((l : SlotLocation) (slot : OccupiedSlot)
            → occupant hash files l ≡ some slot
            → slot.version + 1 < 2 ^ 64)
        → ((l : SlotLocation) (slot : OccupiedSlot)
            → occupant hash files l ≡ some slot
            → IsWhole slot.payload)
        → (partitions : List LoadedPartition) × (r : FilesRepoInner) × (tables : List (Text × T))
          × (load_all_partitions hash skip (open_files files) ≡ returns (partitions, r))
          × (load_namespace ops zstd skip now metadata partitions ≡ returns tables)
          × IsRecovered hash files partitions r
          × ((k : Text × Text) → Shows k (saved hash r k) (shown ops get_partition key k tables))
    load_namespace-IsRecovered metadata files folder small whole =
        let (partitions, r, tables, scanned, went, back, shows) =
          load_namespace-kept metadata files folder small (λ l slot at.
            let (rows, read, tolerable) = whole l slot at in
            let (q, made, _) =
              restored_partition ops get_row row_key now row_law zstd skip rows slot.partition_key
                tolerable in
            (rows, q, read, made)) in
        (
          partitions,
          r,
          tables,
          scanned,
          went,
          back,
          λ k. elim (Option-cases (saved hash r k)) [
            | inl nothing ↦ rw nothing (shows k ∙ rw (kept_partition, nothing) refl)
            | inr (payload, there) ↦
                let (l, slot, at, _, same) = back.only k payload there in
                let (rows, read, tolerable) = subst IsWhole same (whole l slot at) in
                let (q, made, all) =
                  restored_partition ops get_row row_key now row_law zstd skip rows k.1 tolerable in
                let named : key q ≡ k.1 =
                  key-restore_rows ops get_partition key zstd skip now law rows
                    (ops.new_partition k.1) {q' = q} made
                  ∙ law.named k.1 in
                rw there
                  (rows, q, read, shows k ∙ rw (kept_partition, there, read, made) refl, named, all)
          ],
        )
