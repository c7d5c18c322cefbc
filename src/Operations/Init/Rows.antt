-- ===== src/Operations/Init/Rows.antt =====
-- What the rows of a payload are in the partition that is restored from it.
use my_no_sql_server_grpc.Base.{
  ℕ, ◌≡◌, refl, ◌∙◌, arith, Bool, true, false, ◌||◌, ◌&&◌, inl, inr, List, [], ◌∷◌, Option, none,
  some, if◌then◌else◌, Text, text_same, Option-cases, Bool-cases,
}
use my_no_sql_server_grpc.Base.Outcome.{returns}
use my_no_sql_server_grpc.Persist.PartitionBlob.{Zstd, PersistedRow}
use my_no_sql_server_grpc.Operations.Init.{Restores, restore_rows, time_stamp_of}

module _ {T P R A E : Type 0} (ops : Restores T P R A E) (get_row : Text → P → Option R)
    (row_key : R → Text) where
  -- A partition as what stands under a row key.
  pub record IsOfRows : Type 0 where
    pub no_rows : (k j : Text) → get_row j (ops.new_partition k) ≡ none
    pub one_more :
        (r : R) (q : P) (j : Text)
        → get_row j (ops.insert_or_replace r q)
          ≡ (if text_same (row_key r) j then some r else get_row j q)

  module _ (now : ℕ) where
    -- The row that was stored, if its entity can be parsed: of its schema, and of the moment that the entity carries, or of now.
    abbrev pub stored_row : PersistedRow → Option R
    stored_row persisted = elim (ops.parse persisted.row) [
      | none ↦ none
      | some parsed ↦ elim (ops.time_stamp parsed) [
        | none ↦ some (ops.new_row parsed persisted.schema_id now)
        | some moment ↦ some (ops.new_row parsed persisted.schema_id moment)
      ]
    ]

    abbrev pub if_of : Text → Option R → Option R
    if_of j none = none
    if_of j (some r) = if text_same (row_key r) j then some r else none

    -- The last row of a key, among those that can be parsed.
    abbrev pub last_row : Text → List PersistedRow → Option R
    last_row j [] = none
    last_row j (persisted ∷ rows) = elim (last_row j rows) [
      | some later ↦ some later
      | none ↦ if_of j (stored_row persisted)
    ]

    abbrev pub can_be_parsed : PersistedRow → Bool
    can_be_parsed persisted = elim (ops.parse persisted.row) [ none ↦ false | some parsed ↦ true ]

    abbrev pub all_parsed : List PersistedRow → Bool
    all_parsed [] = true
    all_parsed (persisted ∷ rows) = can_be_parsed persisted && all_parsed rows

    abbrev or_row : Option R → Option R → Option R
    or_row none before = before
    or_row (some r) before = some r

    module _ (law : IsOfRows) (zstd : Zstd) (skip : Bool) where
      or_later :
          (j : Text) (r : R) (rows : List PersistedRow) (q : P) (persisted : PersistedRow)
          → stored_row persisted ≡ some r
          → or_row (last_row j rows) (get_row j (ops.insert_or_replace r q))
            ≡ or_row (last_row j (persisted ∷ rows)) (get_row j q)
      or_later j r rows q persisted e = elim (Option-cases (last_row j rows)) [
        | inr (later, there) ↦ rw there refl
        | inl nobody ↦
            rw (nobody, e, law.one_more r q j)
              (elim (Bool-cases (text_same (row_key r) j)) [
                | inl same ↦ rw same refl
                | inr other ↦ rw other refl
              ])
      ]

      or_broken :
          (j : Text) (rows : List PersistedRow) (before : Option R) (persisted : PersistedRow)
          → stored_row persisted ≡ none
          → or_row (last_row j rows) before ≡ or_row (last_row j (persisted ∷ rows)) before
      or_broken j rows before persisted e = elim (Option-cases (last_row j rows)) [
        | inr (later, there) ↦ rw there refl
        | inl nobody ↦ rw (nobody, e) refl
      ]

      -- If every row can be parsed, or those that can not are to be skipped, the rows are restored, and each key has its last.
      pub restored_rows :
          (rows : List PersistedRow) (q : P)
          → (skip || all_parsed rows) ≡ true
          → (q' : P) × (restore_rows ops zstd skip now rows q ≡ returns q')
            × ((j : Text) → get_row j q' ≡ or_row (last_row j rows) (get_row j q))
      unfolding restore_rows
      restored_rows [] q h = (q, refl, λ j. refl)
      restored_rows (persisted ∷ rows) q h = elim (Option-cases (ops.parse persisted.row)) [
        | inl broken ↦
            let tolerant : skip ≡ true = ground arith in
            let (q', went, all) = restored_rows rows q (ground arith) in
            let step : restore_rows ops zstd skip now (persisted ∷ rows) q
                ≡ restore_rows ops zstd skip now rows q =
              ground arith in
            (
              q',
              step ∙ went,
              λ j. all j ∙ or_broken j rows (get_row j q) persisted (rw (stored_row, broken) refl),
            )
        | inr (parsed, read) ↦ elim (Option-cases (ops.time_stamp parsed)) [
          | inl unstamped ↦
              let r = ops.new_row parsed persisted.schema_id now in
              let (q', went, all) = restored_rows rows (ops.insert_or_replace r q) (ground arith) in
              (
                q',
                rw (restore_rows, read, time_stamp_of, unstamped) went,
                λ j. all j ∙ or_later j r rows q persisted (rw (stored_row, read, unstamped) refl),
              )
          | inr (moment, stamped) ↦
              let r = ops.new_row parsed persisted.schema_id moment in
              let (q', went, all) = restored_rows rows (ops.insert_or_replace r q) (ground arith) in
              (
                q',
                rw (restore_rows, read, time_stamp_of, stamped) went,
                λ j. all j ∙ or_later j r rows q persisted (rw (stored_row, read, stamped) refl),
              )
        ]
      ]

      -- Of a new partition they are all that it holds.
      pub restored_partition :
          (rows : List PersistedRow) (k : Text)
          → (skip || all_parsed rows) ≡ true
          → (q : P) × (restore_rows ops zstd skip now rows (ops.new_partition k) ≡ returns q)
            × ((j : Text) → get_row j q ≡ last_row j rows)
      restored_partition rows k h =
          let (q, went, all) = restored_rows rows (ops.new_partition k) h in
          (
            q,
            went,
            λ j. all j ∙ elim (Option-cases (last_row j rows)) [
              | inl nobody ↦ rw nobody (law.no_rows k j)
              | inr (r, there) ↦ rw there refl
            ],
          )
