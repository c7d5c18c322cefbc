-- ===== src/Operations/Init/Restored.antt =====
-- Every partition that was loaded stands in its table, and nothing else does.
use my_no_sql_server_grpc.Base.{
  ℕ, ◌≡◌, refl, sym, ap, ◌∙◌, arith, Bool, inl, inr, List, [], ◌∷◌, Option, none, some,
  if◌then◌else◌, Text, text_eq, text_same, text_same_iff, pair_same, pair_same_iff, Option-cases,
  Bool-cases, All,
}
use my_no_sql_server_grpc.Base.Assoc.{lookup, insert, lookup-insert}
use my_no_sql_server_grpc.Base.Outcome.{Outcome, returns, panics}
use my_no_sql_server_grpc.Base.Result.{ok, err}
use my_no_sql_server_grpc.Persist.PartitionBlob.{Zstd, PersistedRow, deserialize}
use my_no_sql_server_grpc.Persist.Files.{LoadedPartition}
use my_no_sql_server_grpc.Persist.Files.Loaded.{payload_of, OnePerKey, partition_key_of}
use my_no_sql_server_grpc.Operations.Init.{
  Restores, get_or_create, create_tables, restore_rows, restore, restore_all,
}

module _ {T P R A E : Type 0} (ops : Restores T P R A E) (get_partition : Text → T → Option P)
    (key : P → Text) where
  -- What a partition that is restored becomes of a table, and that rows do not change its key.
  pub record IsRestoring : Type 0 where
    pub restored :
        (q : P) (t : T) (k : Text)
        → get_partition k (ops.restore_partition q t)
          ≡ (if text_same (key q) k then some q else get_partition k t)
    pub empty : (name k : Text) (a : A) → get_partition k (ops.new_table name a) ≡ none
    pub named : (k : Text) → key (ops.new_partition k) ≡ k
    pub rows : (r : R) (q : P) → key (ops.insert_or_replace r q) ≡ key q

  -- The partition of a table of the namespace.
  abbrev pub shown : Text × Text → List (Text × T) → Option P
  shown k tables = elim (lookup k.0 tables) [ none ↦ none | some t ↦ get_partition k.1 t ]

  module _ (zstd : Zstd) (skip : Bool) (now : ℕ) where
    -- The partition that the rows of a payload make.
    abbrev pub partition_from : Text → List ℕ → Outcome P
    partition_from k payload = elim (deserialize zstd payload) [
      | err e ↦ panics
      | ok rows ↦ restore_rows ops zstd skip now rows (ops.new_partition k)
    ]

    abbrev pub partition_of : Text × Text → List LoadedPartition → Option P
    partition_of k partitions = elim (payload_of k partitions) [
      | none ↦ none
      | some payload ↦ elim (partition_from k.1 payload) [ panics ↦ none | returns q ↦ some q ]
    ]

    -- A payload that is whole.
    abbrev pub IsReadable : LoadedPartition → Type 0
    IsReadable loaded =
        (rows : List PersistedRow) × (q : P) × (deserialize zstd loaded.payload ≡ ok rows)
        × (restore_rows ops zstd skip now rows (ops.new_partition loaded.partition_key) ≡ returns q)

    module _ (law : IsRestoring) where
      pub key-restore_rows :
          (rows : List PersistedRow) (q : P) {q' : P}
          → restore_rows ops zstd skip now rows q ≡ returns q'
          → key q' ≡ key q
      unfolding restore_rows
      key-restore_rows [] q e = ground arith
      key-restore_rows (persisted ∷ rows) q {q'} e = elim (Option-cases (ops.parse persisted.row)) [
        | inl broken ↦ elim (Bool-cases skip) [
          | inl tolerant ↦ key-restore_rows rows q {q' = q'} (ground arith)
          | inr strict ↦ absurd (ground arith)
        ]
        | inr (parsed, read) ↦
            let stamp : ℕ = elim (ops.time_stamp parsed) [
              | some time_stamp ↦ time_stamp
              | none ↦ now
            ] in
            let row = ops.new_row parsed persisted.schema_id stamp in
            let step : restore_rows ops zstd skip now (persisted ∷ rows) q
                ≡ restore_rows ops zstd skip now rows (ops.insert_or_replace row q) =
              rw (restore_rows, read) refl in
            key-restore_rows rows (ops.insert_or_replace row q) {q' = q'} (sym step ∙ e)
            ∙ law.rows row q
      ]

      shown-get_or_create :
          (name : Text) (a : A) (tables : List (Text × T)) (k : Text × Text)
          → shown k (get_or_create ops zstd skip now name a tables).1 ≡ shown k tables
      unfolding get_or_create
      shown-get_or_create name a tables k = elim (Option-cases (lookup name tables)) [
        | inr (t, there) ↦ rw (get_or_create, there) refl
        | inl new ↦ ground (
          arith,
          lookup-insert name k.0 (ops.new_table name a) tables,
          text_same_iff name k.0,
          law.empty name k.1 a,
        )
      ]

      -- What the table of `name` shows is what it showed before it was asked for.
      got-get_or_create :
          (name k : Text) (a : A) (tables : List (Text × T))
          → get_partition k (get_or_create ops zstd skip now name a tables).0
            ≡ shown (name, k) tables
      unfolding get_or_create
      got-get_or_create name k a tables = elim (Option-cases (lookup name tables)) [
        | inr (t, there) ↦ ground arith
        | inl new ↦ ground (arith, law.empty name k a)
      ]

      pub shown-create_tables :
          (metadata : List (Text × A)) (tables : List (Text × T)) (k : Text × Text)
          → shown k (create_tables ops zstd skip now metadata tables) ≡ shown k tables
      unfolding create_tables
      shown-create_tables [] tables k = refl
      shown-create_tables ((name, a) ∷ metadata) tables k =
          shown-create_tables metadata (get_or_create ops zstd skip now name a tables).1 k
          ∙ shown-get_or_create name a tables k

      restore-shown :
          (loaded : LoadedPartition) (tables : List (Text × T))
          → IsReadable loaded
          → (tables' : List (Text × T)) × (restore ops zstd skip now loaded tables
              ≡ returns tables')
            × ((k : Text × Text)
                → shown k tables' ≡ (
                    if pair_same (partition_key_of loaded) k
                    then partition_of k (loaded ∷ [])
                    else shown k tables))
      unfolding restore
      restore-shown loaded tables (rows, q, whole, made) =
          let name = loaded.table_name in
          let (t, tables1) = get_or_create ops zstd skip now name ops.default_attributes tables in
          let t' = ops.restore_partition q t in
          let named : key q ≡ loaded.partition_key =
            key-restore_rows rows (ops.new_partition loaded.partition_key) {q' = q} made
            ∙ law.named loaded.partition_key in
          let here = λ (k : Text × Text). lookup-insert name k.0 t' tables1 in
          (
            insert name t' tables1,
            rw (restore, whole, made) refl,
            λ k. elim (Bool-cases (text_same name k.0)) [
              | inr other ↦
                  ground (arith, here k, shown-get_or_create name ops.default_attributes tables k)
              | inl same ↦
                  let table : name ≡ k.0 = (text_same_iff name k.0).0 same in
                  let found : shown k (insert name t' tables1) ≡ get_partition k.1 t' =
                    ground (arith, here k) in
                  let before : get_partition k.1 t ≡ shown k tables =
                    got-get_or_create name k.1 ops.default_attributes tables
                    ∙ ap (λ (n : Text). shown (n, k.1) tables) table in
                  found
                  ∙ (law.restored q t k.1 ∙ elim (Bool-cases (text_same loaded.partition_key k.1)) [
                    | inr other ↦ rw (named, same, other) before
                    | inl mine ↦
                        let key' : loaded.partition_key ≡ k.1 =
                          (text_same_iff loaded.partition_key k.1).0 mine in
                        let read : partition_from loaded.partition_key loaded.payload ≡ returns q =
                          ground arith in
                        let made' : partition_from k.1 loaded.payload ≡ returns q =
                          ap (λ (j : Text). partition_from j loaded.payload) (sym key') ∙ read in
                        rw (named, same, mine) (ground arith)
                  ])
            ],
          )

      pub restore_all-shown :
          (partitions : List LoadedPartition) (tables : List (Text × T))
          → OnePerKey partitions
          → All IsReadable partitions
          → (tables' : List (Text × T)) × (restore_all ops zstd skip now partitions tables
              ≡ returns tables')
            × ((k : Text × Text)
                → shown k tables' ≡ elim (payload_of k partitions) [
                  | none ↦ shown k tables
                  | some payload ↦ partition_of k partitions
                ])
      unfolding restore_all
      restore_all-shown [] tables apart readable = (tables, refl, λ k. refl)
      restore_all-shown (loaded ∷ partitions) tables (fresh, apart) (whole, readable) =
          let (tables1, went, first) = restore-shown loaded tables whole in
          let (tables2, all, others) = restore_all-shown partitions tables1 apart readable in
          (
            tables2,
            rw went all,
            λ k. elim (Bool-cases (pair_same (partition_key_of loaded) k)) [
              | inl same ↦
                  let key' : partition_key_of loaded ≡ k =
                    (pair_same_iff (partition_key_of loaded) k).0 same in
                  let gone : payload_of k partitions ≡ none =
                    ap (λ (j : Text × Text). payload_of j partitions) (sym key') ∙ fresh in
                  ground (arith, others k, first k)
              | inr other ↦ ground (arith, others k, first k)
            ],
          )
