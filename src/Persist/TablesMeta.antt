-- ===== src/Persist/TablesMeta.antt =====
-- server/src/persist/files_repo_inner.rs: `tables.meta`, which mirrors the attributes of the tables. The yaml of serde is a
-- parameter; a write of the file is atomic (`atomic_write`: a temporary file that is renamed).
pub mod Example
mod Tests
use my_no_sql_server_grpc.Base.{
  ℕ, ◌≡◌, refl, sym, ap, ◌∙◌, arith, Bool, true, false, ◌⊎◌, inl, inr, List, [], ◌∷◌, Option, none,
  some, if◌then◌else◌, Text, text_eq, text_same, text_same_iff, Option-cases, Bool-cases,
}
use my_no_sql_server_grpc.Base.Assoc.{lookup, insert, remove, lookup-insert, lookup-remove}
use my_no_sql_server_grpc.Base.Outcome.{Outcome, returns, panics, ◌>>=◌}

pub record TablesYaml (C : Type 0) : Type 0 where
  pub to_string : List (Text × C) → List ℕ
  pub from_slice : List ℕ → Option (List (Text × C))

-- The map in memory, and the bytes of the file, if it is there.
pub record TablesMeta (C : Type 0) : Type 0 where
  pub tables : List (Text × C)
  pub file : Option (List ℕ)

module _ {C : Type 0} (yaml : TablesYaml C) where
  unfoldable pub load_tables_meta : Bool → Option (List ℕ) → Outcome (List (Text × C))
  load_tables_meta skip_errors none = returns []
  load_tables_meta skip_errors (some bytes) = elim (yaml.from_slice bytes) [
    | some tables ↦ returns tables
    | none ↦ if skip_errors then returns [] else panics
  ]

  unfoldable pub open_tables : Bool → Option (List ℕ) → Outcome (TablesMeta C)
  open_tables skip_errors file = do
    tables ← load_tables_meta skip_errors file
    returns (record { tables = tables; file = file })

  unfoldable pub persist_tables_meta : TablesMeta C → TablesMeta C
  persist_tables_meta m = record m { file = some (yaml.to_string m.tables) }

  unfoldable pub save_table_metadata : Text → C → TablesMeta C → TablesMeta C
  unfolding persist_tables_meta
  save_table_metadata table_name contract m =
      persist_tables_meta (record m { tables = insert table_name contract m.tables })

  unfoldable pub delete_table_metadata : Text → TablesMeta C → TablesMeta C
  unfolding persist_tables_meta
  delete_table_metadata table_name m = elim (lookup table_name m.tables) [
    | none ↦ m
    | some contract ↦ persist_tables_meta (record m { tables = remove table_name m.tables })
  ]

  -- Calls on the metadata, and starts of the process.
  pub data MetaEdit : Type 0 where
    save : Text → C → MetaEdit
    delete : Text → MetaEdit
    restart : MetaEdit

  abbrev pub run : Bool → MetaEdit → TablesMeta C → Outcome (TablesMeta C)
  run skip (save name contract) m = returns (save_table_metadata name contract m)
  run skip (delete name) m = returns (delete_table_metadata name m)
  run skip restart m = open_tables skip m.file

  abbrev pub run_all : Bool → List MetaEdit → TablesMeta C → Outcome (TablesMeta C)
  run_all skip [] m = returns m
  run_all skip (e ∷ es) m = do m ← run skip e m; run_all skip es m

  -- The map that the calls describe.
  abbrev pub edited : MetaEdit → (Text → Option C) → Text → Option C
  edited (save name contract) kept k = if text_same name k then some contract else kept k
  edited (delete name) kept k = if text_same name k then none else kept k
  edited restart kept k = kept k

  abbrev pub all_edited : List MetaEdit → (Text → Option C) → Text → Option C
  all_edited [] kept = kept
  all_edited (e ∷ es) kept = all_edited es (edited e kept)

  module _
      (round_trip : (tables : List (Text × C))
        → yaml.from_slice (yaml.to_string tables) ≡ some tables)
      (skip : Bool) where
    -- A start would find what is in memory.
    abbrev pub IsMirrored : TablesMeta C → Type 0
    IsMirrored m = load_tables_meta skip m.file ≡ returns m.tables

    pub run-IsMirrored :
        (e : MetaEdit) (m : TablesMeta C)
        → IsMirrored m
        → (m' : TablesMeta C) × (run skip e m ≡ returns m')
          × IsMirrored m'
          × ((k : Text) → lookup k m'.tables ≡ edited e (λ j. lookup j m.tables) k)
    unfolding load_tables_meta save_table_metadata delete_table_metadata open_tables
        persist_tables_meta
    run-IsMirrored (save name contract) m h = (
      save_table_metadata name contract m,
      refl,
      rw (load_tables_meta, round_trip (insert name contract m.tables)) refl,
      λ k. lookup-insert name k contract m.tables,
    )
    run-IsMirrored (delete name) m h = elim (Option-cases (lookup name m.tables)) [
      | inl absent ↦
          (m, rw (delete_table_metadata, absent) refl, h, λ k. ground (arith, text_same_iff name k))
      | inr (contract, there) ↦ (
        persist_tables_meta (record m { tables = remove name m.tables }),
        rw (delete_table_metadata, there) refl,
        rw (load_tables_meta, round_trip (remove name m.tables)) refl,
        λ k. lookup-remove name k m.tables,
      )
    ]
    run-IsMirrored restart m h = (m, rw (open_tables, h) refl, h, λ k. refl)

    all_edited_congr :
        (es : List MetaEdit) (a b : Text → Option C)
        → ((k : Text) → a k ≡ b k)
        → (k : Text) → all_edited es a k ≡ all_edited es b k
    all_edited_congr [] a b same = same
    all_edited_congr (save name contract ∷ es) a b same =
        all_edited_congr es _ _ (λ k. ground (arith, same k))
    all_edited_congr (delete name ∷ es) a b same =
        all_edited_congr es _ _ (λ k. ground (arith, same k))
    all_edited_congr (restart ∷ es) a b same = all_edited_congr es _ _ same

    -- From a `tables.meta` that a start can read, saves, deletions and restarts in any order all go through, a table's attributes are
    -- those that these calls say, and the next start reads the same. Of the yaml it takes that it reads what it wrote.
    pub run_all-IsMirrored :
        (edits : List MetaEdit) (m : TablesMeta C)
        → IsMirrored m
        → (m' : TablesMeta C) × (run_all skip edits m ≡ returns m')
          × IsMirrored m'
          × ((k : Text) → lookup k m'.tables ≡ all_edited edits (λ j. lookup j m.tables) k)
    run_all-IsMirrored [] m h = (m, refl, h, λ k. refl)
    run_all-IsMirrored (e ∷ es) m h =
        let (m1, one, h1, step) = run-IsMirrored e m h in
        let (m', all, h', rest) = run_all-IsMirrored es m1 h1 in
        (
          m',
          rw one all,
          h',
          λ k.
              rest k
              ∙ all_edited_congr es (λ j. lookup j m1.tables) (edited e (λ j. lookup j m.tables))
                  step k,
        )
