-- ===== src/Operations/Disk/Stored.antt =====
-- server/src/operations/persist.rs, as calls on the repository of Persist/Repo: what the two maps hold is what the page-files and
-- `tables.meta` keep.
mod Tests
use mathlib.Core.Path.{subst}
use my_no_sql_server_grpc.Base.{
  ℕ, ◌+◌, ◌^◌, ◌≡◌, ◌<◌, refl, sym, ap, ◌∙◌, arith, Bool, true, false, not, ◌⊎◌, inl, inr, List, [],
  ◌∷◌, Option, none, some, if◌then◌else◌, length, map, Text, text_eq, text_same, text_same_iff,
  pair_eq, pair_same, pair_same_iff, Option-cases, Bool-cases, All,
}
use my_no_sql_server_grpc.Base.Assoc.{lookup, lookup-insert, lookup-remove}
use my_no_sql_server_grpc.Base.Outcome.{returns}
use my_no_sql_server_grpc.Persist.PartitionBlob.{Zstd, DbRow}
use my_no_sql_server_grpc.Persist.Files.{LoadedPartition}
use my_no_sql_server_grpc.Persist.Markers.{PersistTask, table_metadata, partition}
use my_no_sql_server_grpc.Persist.TablesMeta.{TablesYaml}
use my_no_sql_server_grpc.Persist.Repo.{folder_of, start, get_tables}
use my_no_sql_server_grpc.Persist.Repo
use my_no_sql_server_grpc.Persist.Repo.History.{
  RepoEdit, save_rows, delete_rows, save_attributes, delete_attributes, reclaim, restart, Promise,
  promised, all_promised, run_all, IsStorable, IsKeeping, Hands, run_all-handed,
}
use my_no_sql_server_grpc.Operations.Core.{DbTableOps}
use my_no_sql_server_grpc.Operations.Disk.{PersistRepo, delete_partition, execute}
use my_no_sql_server_grpc.Operations.Disk

-- Two promises of the same rows and attributes.
abbrev pub Same : {C : Type 0} → Promise C → Promise C → Type 0
Same {C} a b =
    ((k : Text × Text) → a.rows k ≡ b.rows k)
    × ((name : Text) → a.attributes name ≡ b.attributes name)

promised_congr :
    {C : Type 0} (e : RepoEdit C) (a b : Promise C) → Same a b → Same (promised e a) (promised e b)
promised_congr (save_rows t p db_rows) a b (rows, attributes) =
    (λ k. ground (arith, rows k), attributes)
promised_congr (delete_rows t p) a b (rows, attributes) = (λ k. ground (arith, rows k), attributes)
promised_congr (save_attributes name attr) a b (rows, attributes) =
    (rows, λ n. ground (arith, attributes n))
promised_congr (delete_attributes name) a b (rows, attributes) =
    (rows, λ n. ground (arith, attributes n))
promised_congr (reclaim removes) a b same = same
promised_congr restart a b same = same

all_promised_congr :
    {C : Type 0} (es : List (RepoEdit C)) (a b : Promise C)
    → Same a b
    → Same (all_promised es a) (all_promised es b)
all_promised_congr [] a b same = same
all_promised_congr (e ∷ es) a b same =
    all_promised_congr es (promised e a) (promised e b) (promised_congr e a b same)

module _ {T R A S Act : Type 0} (db : DbTableOps T R A S Act) (row_of : R → DbRow) where
  -- `if db_rows.is_empty()`
  abbrev edit_of_rows : Text → Text → List R → RepoEdit A
  edit_of_rows table_name partition_key [] = delete_rows table_name partition_key
  edit_of_rows table_name partition_key (r ∷ rows) =
      save_rows table_name partition_key (map row_of (r ∷ rows))

  -- The call that `execute` makes for a task.
  abbrev pub edit_of : (Text → Option T) × PersistTask → RepoEdit A
  edit_of (get_table, table_metadata table_name) = elim (get_table table_name) [
    | none ↦ delete_attributes table_name
    | some db_table ↦ save_attributes table_name (db.get_attributes db_table)
  ]
  edit_of (get_table, partition table_name partition_key) = elim (get_table table_name) [
    | none ↦ delete_rows table_name partition_key
    | some db_table ↦
        if not (db.is_persisted (db.get_attributes db_table))
        then delete_rows table_name partition_key
        else edit_of_rows table_name partition_key (db.get_rows partition_key db_table)
  ]

  abbrev pub rows_for : Option (List R) → Option (List DbRow)
  rows_for none = none
  rows_for (some rows) = some (map row_of rows)

  -- What the two maps promise.
  abbrev pub promise_of : PersistRepo R A → Promise A
  promise_of repo = record {
    rows = λ k. rows_for (lookup k repo.partitions);
    attributes = λ name. lookup name repo.tables;
  }

  -- The tasks one after the other, each over the tables of its moment.
  abbrev pub execute_all :
      List ((Text → Option T) × PersistTask) → PersistRepo R A → PersistRepo R A
  execute_all [] repo = repo
  execute_all ((get_table, task) ∷ tasks) repo = execute_all tasks (execute db get_table task repo)

  Same-deleted :
      (name key : Text) (repo : PersistRepo R A)
      → Same
          (promised (delete_rows name key) (promise_of repo))
          (promise_of (delete_partition name key repo))
  Same-deleted name key repo =
      (λ k. ground (arith, lookup-remove (name, key) k repo.partitions), λ n. refl)

  Same-saved :
      (name key : Text) (rows : List R) (repo : PersistRepo R A)
      → Same
          (promised (edit_of_rows name key rows) (promise_of repo))
          (promise_of (Disk.save_rows name key rows repo))
  Same-saved name key [] repo = Same-deleted name key repo
  Same-saved name key (r ∷ rows) repo =
      (λ k. ground (arith, lookup-insert (name, key) k (r ∷ rows) repo.partitions), λ n. refl)

  promised-edit_of :
      (get_table : Text → Option T) (task : PersistTask) (repo : PersistRepo R A)
      → Same
          (promised (edit_of (get_table, task)) (promise_of repo))
          (promise_of (execute db get_table task repo))
  unfolding execute
  promised-edit_of get_table (table_metadata name) repo = elim (Option-cases (get_table name)) [
    | inl gone ↦ (
      λ k. rw (execute, gone) refl,
      λ n. rw (execute, gone) (sym (lookup-remove name n repo.tables)),
    )
    | inr (t, there) ↦ (
      λ k. rw (execute, there) refl,
      λ n. rw (execute, there) (sym (lookup-insert name n (db.get_attributes t) repo.tables)),
    )
  ]
  promised-edit_of get_table (partition name key) repo = elim (Option-cases (get_table name)) [
    | inl gone ↦
        let deleted = Same-deleted name key repo in
        (λ k. rw (execute, gone) (deleted.0 k), λ n. rw (execute, gone) refl)
    | inr (t, there) ↦ elim (Bool-cases (db.is_persisted (db.get_attributes t))) [
      | inl kept ↦
          let saved = Same-saved name key (db.get_rows key t) repo in
          (λ k. rw (execute, there, kept) (saved.0 k), λ n. rw (execute, there, kept) (saved.1 n))
      | inr memory ↦
          let deleted = Same-deleted name key repo in
          (λ k. rw (execute, there, memory) (deleted.0 k), λ n. rw (execute, there, memory) refl)
    ]
  ]

  all_promised-execute_all :
      (tasks : List ((Text → Option T) × PersistTask)) (repo : PersistRepo R A)
      → Same
          (all_promised (map edit_of tasks) (promise_of repo))
          (promise_of (execute_all tasks repo))
  all_promised-execute_all [] repo = (λ k. refl, λ n. refl)
  all_promised-execute_all ((get_table, task) ∷ tasks) repo =
      let step =
        all_promised_congr (map edit_of tasks)
          (promised (edit_of (get_table, task)) (promise_of repo))
          (promise_of (execute db get_table task repo)) (promised-edit_of get_table task repo) in
      let rest = all_promised-execute_all tasks (execute db get_table task repo) in
      (λ k. step.0 k ∙ rest.0 k, λ n. step.1 n ∙ rest.1 n)

  module _ (yaml : TablesYaml A) (hash : List ℕ → ℕ) (zstd : Zstd) (skip compress : Bool)
      (round_trip : (tables : List (Text × A))
        → yaml.from_slice (yaml.to_string tables) ≡ some tables)
      (law : (bytes : List ℕ) → hash bytes < 2 ^ 32) where
    -- If a repository keeps what two maps hold, and the tasks of some passes are executed on
    -- both, each over the tables of its moment, then every
    -- call on the repository goes through, and a start after them hands out for each key a payload that reads as exactly the rows
    -- that the map of rows then holds, and none where it holds none, and for each table the
    -- attributes that the map of attributes holds.
    -- The rows are such as the format can count and a slot has room for, what was compressed
    -- decompresses, the yaml reads what it wrote,
    -- the crc is a `u32` and the 64-bit counter does not run out.
    pub execute_all-handed :
        (unzip : (bytes : List ℕ) → zstd.decode_all (zstd.encode_all bytes) ≡ some bytes)
        (tasks : List ((Text → Option T) × PersistTask)) (maps : PersistRepo R A)
        (repo : Repo.PersistRepo A)
        → All (IsStorable yaml hash zstd skip compress) (map edit_of tasks)
        → IsKeeping yaml hash zstd skip compress round_trip repo (promise_of maps)
        → repo.files.next_version + length (map edit_of tasks) < 2 ^ 64
        → (repo' : Repo.PersistRepo A) × (partitions : List LoadedPartition)
          × (repo'' : Repo.PersistRepo A) × (run_all yaml hash zstd skip compress
                (map edit_of tasks)
                repo
              ≡ returns repo')
          × (start yaml hash zstd (folder_of repo') skip compress ≡ returns (partitions, repo''))
          × ((k : Text × Text)
              → Hands yaml hash zstd skip compress round_trip law partitions k
                  (rows_for (lookup k (execute_all tasks maps).partitions)))
          × ((name : Text)
              → lookup name (get_tables yaml hash zstd repo'')
                ≡ lookup name (execute_all tasks maps).tables)
    execute_all-handed unzip tasks maps repo fits h room =
        let (repo', partitions, repo'', all, done, hands, attributes) =
          run_all-handed yaml hash zstd skip compress round_trip law unzip (map edit_of tasks) repo
            (promise_of maps) fits h room in
        let same = all_promised-execute_all tasks maps in
        (
          repo',
          partitions,
          repo'',
          all,
          done,
          λ k.
              subst (Hands yaml hash zstd skip compress round_trip law partitions k) (same.0 k)
                (hands k),
          λ name. attributes name ∙ same.1 name,
        )
