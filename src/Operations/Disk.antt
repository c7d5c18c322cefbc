-- ===== src/Operations/Disk.antt =====
-- server/src/operations/persist.rs and shutdown.rs: the queue is written to disk. The repository of a namespace is
-- its two maps: the rows that are saved for a partition, and the attributes that are saved for a table. The
-- persist lock makes a pass one step.
pub mod Saved
pub mod Drain
pub mod Stored
mod Tests
use my_no_sql_server_grpc.Base.{
  ℕ, zero, suc, ◌+◌, ◌≡◌, Bool, true, false, not, ◌||◌, List, [], ◌∷◌, Option, none, some,
  if◌then◌else◌, length, Text, text_eq, pair_eq,
}
use my_no_sql_server_grpc.Base.Assoc.{lookup, insert, remove}
use my_no_sql_server_grpc.Persist.Markers.{
  PersistTask, table_metadata, partition, PersistMarkersInner, get_task, take_all,
}
use my_no_sql_server_grpc.Operations.Core.{DbTableOps}

pub record PersistRepo (R A : Type 0) : Type 0 where
  pub partitions : List ((Text × Text) × List R)
  pub tables : List (Text × A)

pub record DbNamespace (T R A : Type 0) : Type 0 where
  -- `DbInstance::get_table`
  pub get_table : Text → Option T
  pub persist_markers : PersistMarkersInner
  pub persist_repo : PersistRepo R A
  pub last_persisted : ℕ
  pub persisted_total : ℕ

module _ {R A : Type 0} where
  abbrev pub save_partition : Text → Text → List R → PersistRepo R A → PersistRepo R A
  save_partition table_name partition_key db_rows repo = record repo {
    partitions = insert (table_name, partition_key) db_rows repo.partitions;
  }

  abbrev pub delete_partition : Text → Text → PersistRepo R A → PersistRepo R A
  delete_partition table_name partition_key repo = record repo {
    partitions = remove (table_name, partition_key) repo.partitions;
  }

  abbrev pub save_table_metadata : Text → A → PersistRepo R A → PersistRepo R A
  save_table_metadata table_name attributes repo = record repo {
    tables = insert table_name attributes repo.tables;
  }

  abbrev pub delete_table_metadata : Text → PersistRepo R A → PersistRepo R A
  delete_table_metadata table_name repo = record repo { tables = remove table_name repo.tables }

  -- `if db_rows.is_empty()`
  abbrev pub save_rows : Text → Text → List R → PersistRepo R A → PersistRepo R A
  save_rows table_name partition_key [] repo = delete_partition table_name partition_key repo
  save_rows table_name partition_key (r ∷ rows) repo =
      save_partition table_name partition_key (r ∷ rows) repo

module _ {T R A S Act : Type 0} (db : DbTableOps T R A S Act) where
  unfoldable pub execute : (Text → Option T) → PersistTask → PersistRepo R A → PersistRepo R A
  execute get_table (table_metadata table_name) repo = elim (get_table table_name) [
    | none ↦ delete_table_metadata table_name repo
    | some db_table ↦ save_table_metadata table_name (db.get_attributes db_table) repo
  ]
  execute get_table (partition table_name partition_key) repo = elim (get_table table_name) [
    | none ↦ delete_partition table_name partition_key repo
    | some db_table ↦
        if not (db.is_persisted (db.get_attributes db_table))
        then delete_partition table_name partition_key repo
        else save_rows table_name partition_key (db.get_rows partition_key db_table) repo
  ]

  unfoldable pub persisted : ℕ → ℕ → DbNamespace T R A → DbNamespace T R A
  persisted now tasks n = record n {
    last_persisted = now;
    persisted_total = n.persisted_total + tasks;
  }

  -- One round of the loop of `persist`; `clock` is the moment at which the task is written.
  unfoldable pub persist_namespace : Option ℕ → ℕ → DbNamespace T R A → Bool × DbNamespace T R A
  persist_namespace now clock n =
      let (task, markers) = get_task now n.persist_markers in
      elim task [
        | none ↦ (false, record n { persist_markers = markers })
        | some t ↦ (
          true,
          persisted clock 1 (record n {
            persist_markers = markers;
            persist_repo = execute n.get_table t n.persist_repo;
          }),
        )
      ]

  unfoldable pub persist : Option ℕ → ℕ → List (DbNamespace T R A) → Bool × List (DbNamespace T R A)
  persist now clock [] = (false, [])
  persist now clock (n ∷ ns) =
      let (did_work, n') = persist_namespace now clock n in
      let (rest, ns') = persist now clock ns in (did_work || rest, n' ∷ ns')

  unfoldable pub execute_all :
      (Text → Option T) → List PersistTask → PersistRepo R A → PersistRepo R A
  execute_all get_table [] repo = repo
  execute_all get_table (task ∷ tasks) repo =
      execute_all get_table tasks (execute get_table task repo)

  -- One round of the loop of `flush`.
  unfoldable pub flush_namespace : ℕ → DbNamespace T R A → ℕ × DbNamespace T R A
  flush_namespace clock n =
      let (tasks, markers) = take_all n.persist_markers in
      elim tasks [
        | [] ↦ (0, record n { persist_markers = markers })
        | t ∷ ts ↦ (
          length (t ∷ ts),
          persisted clock (length (t ∷ ts)) (record n {
            persist_markers = markers;
            persist_repo = execute_all n.get_table (t ∷ ts) n.persist_repo;
          }),
        )
      ]

  unfoldable pub flush : ℕ → List (DbNamespace T R A) → ℕ × List (DbNamespace T R A)
  flush clock [] = (0, [])
  flush clock (n ∷ ns) =
      let (written, n') = flush_namespace clock n in
      let (rest, ns') = flush clock ns in (written + rest, n' ∷ ns')

  -- The loop of `shutdown`: how many passes wrote something. `fuel` bounds them, and is enough if it is at least what
  -- the queues owe: see Disk/Drain.
  unfoldable pub drain : ℕ → ℕ → List (DbNamespace T R A) → ℕ × List (DbNamespace T R A)
  drain zero clock ns = (0, ns)
  drain (suc fuel) clock ns =
      let (did_work, ns') = persist none clock ns in
      let (written, left) = drain fuel clock ns' in
      if did_work then (suc written, left) else (0, ns')
