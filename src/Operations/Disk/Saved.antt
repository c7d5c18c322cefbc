-- ===== src/Operations/Disk/Saved.antt =====
-- What is on disk, against what the tables hold.
use my_no_sql_server_grpc.Base.{
  ℕ, suc, ◌≡◌, refl, sym, ap, ◌∙◌, arith, Bool, true, false, not, List, [], ◌∷◌, ◌⊎◌, inl, inr,
  Option, none, some, if◌then◌else◌, length, Bool-cases, Option-cases, List-cases, Text, text_eq,
  pair_eq, text_same_iff,
}
use my_no_sql_server_grpc.Base.Assoc.{lookup, lookup-insert, lookup-remove}
use my_no_sql_server_grpc.Persist.Markers.{
  PersistTask, table_metadata, partition, get_task, take_all, new, is_due,
}
use my_no_sql_server_grpc.Persist.Markers.Mark.{due_moment, task_same}
use my_no_sql_server_grpc.Persist.Markers.Take.{IsValid, get_task-IsTaken, get_task-none}
use my_no_sql_server_grpc.Persist.Markers.Size.{owed, get_task-owed}
use my_no_sql_server_grpc.Persist.Markers.Flush.{among, take_all_marks}
use my_no_sql_server_grpc.Operations.Core.{DbTableOps}
use my_no_sql_server_grpc.Operations.Disk.{
  PersistRepo, DbNamespace, delete_partition, save_rows, execute, execute_all, persisted,
  persist_namespace, flush_namespace,
}

-- What the disk keeps for a task: rows for a partition, attributes for the metadata of a table.
pub data Kept (R A : Type 0) : Type 0 where
  rows : Option (List R) → Kept R A
  attributes : Option A → Kept R A

abbrev pub unless_nil : {R : Type 0} → List R → Option (List R)
unless_nil [] = none
unless_nil (r ∷ rs) = some (r ∷ rs)

abbrev pub on_disk : {R A : Type 0} → PersistRepo R A → PersistTask → Kept R A
on_disk repo (table_metadata n) = attributes (lookup n repo.tables)
on_disk repo (partition n k) = rows (lookup (n, k) repo.partitions)

pub pair_of : {P Q : Type 0} {x : P × Q} {p : P} → x.0 ≡ p → x ≡ (p, x.1)
pair_of {x = (a, b)} e = ap (λ q. (q, b)) e

module _ {R A : Type 0} (n k : Text) (repo : PersistRepo R A) where
  deleted-on_disk :
      (other : PersistTask)
      → on_disk (delete_partition n k repo) other
        ≡ (if task_same (partition n k) other then rows none else on_disk repo other)
  deleted-on_disk (table_metadata n') = refl
  deleted-on_disk (partition n' k') = ground (arith, lookup-remove (n, k) (n', k') repo.partitions)

  saved-on_disk :
      (rs : List R) (other : PersistTask)
      → on_disk (save_rows n k rs repo) other
        ≡ (if task_same (partition n k) other then rows (unless_nil rs) else on_disk repo other)
  saved-on_disk [] other = deleted-on_disk other
  saved-on_disk (r ∷ rs) (table_metadata n') = refl
  saved-on_disk (r ∷ rs) (partition n' k') =
      ground (arith, lookup-insert (n, k) (n', k') (r ∷ rs) repo.partitions)

module _ {T R A S Act : Type 0} (db : DbTableOps T R A S Act) where
  -- What it should keep: the rows of a partition of a persisted table, if there are any, and the attributes of every table.
  abbrev pub in_memory : (Text → Option T) → PersistTask → Kept R A
  in_memory get_table (table_metadata n) = elim (get_table n) [
    | none ↦ attributes none
    | some t ↦ attributes (some (db.get_attributes t))
  ]
  in_memory get_table (partition n k) = elim (get_table n) [
    | none ↦ rows none
    | some t ↦
        if not (db.is_persisted (db.get_attributes t))
        then rows none
        else rows (unless_nil (db.get_rows k t))
  ]

  -- What the disk is to keep once the queue is worked off: what memory holds of what is marked, and what it kept of
  -- everything else.
  abbrev pub to_keep : DbNamespace T R A → PersistTask → Kept R A
  to_keep n task = elim (due_moment n.persist_markers task) [
    | none ↦ on_disk n.persist_repo task
    | some moment ↦ in_memory n.get_table task
  ]

  -- Whatever is not marked is on disk as it is in memory.
  pub record IsSaved (n : DbNamespace T R A) : Type 0 where
    pub valid : IsValid n.persist_markers
    pub saved :
        (task : PersistTask)
        → due_moment n.persist_markers task ≡ none
        → on_disk n.persist_repo task ≡ in_memory n.get_table task

  -- A task makes its own entry what it should be, and leaves every other.
  pub execute-on_disk :
      (get_table : Text → Option T) (task other : PersistTask) (repo : PersistRepo R A)
      → on_disk (execute db get_table task repo) other
        ≡ (if task_same task other then in_memory get_table task else on_disk repo other)
  unfolding execute
  execute-on_disk get_table (table_metadata n) (table_metadata n') repo =
      elim (Option-cases (get_table n)) [
        | inl absent ↦ ground (arith, lookup-remove n n' repo.tables)
        | inr (t, present) ↦ ground (arith, lookup-insert n n' (db.get_attributes t) repo.tables)
      ]
  execute-on_disk get_table (table_metadata n) (partition n' k') repo =
      elim (Option-cases (get_table n)) [
        | inl absent ↦ ground arith
        | inr (t, present) ↦ ground arith
      ]
  execute-on_disk get_table (partition n k) other repo = elim (Option-cases (get_table n)) [
    | inl absent ↦ rw (execute, in_memory, absent) (deleted-on_disk n k repo other)
    | inr (t, present) ↦ elim (Bool-cases (db.is_persisted (db.get_attributes t))) [
      | inl on ↦
          rw (execute, in_memory, present, on) (saved-on_disk n k repo (db.get_rows k t) other)
      | inr off ↦ rw (execute, in_memory, present, off) (deleted-on_disk n k repo other)
    ]
  ]

  task_same-≡ : (task other : PersistTask) → task_same task other ≡ true → task ≡ other
  task_same-≡ (table_metadata n) (table_metadata n') h = ground (arith, text_same_iff n n')
  task_same-≡ (table_metadata n) (partition n' k') h = absurd (cc)
  task_same-≡ (partition n k) (table_metadata n') h = absurd (cc)
  task_same-≡ (partition n k) (partition n' k') h =
      ground (arith, text_same_iff n n', text_same_iff k k')

  -- What is to be kept, before and after a task: `a` is on disk before it, `b` after it, and `c` in memory.
  kept_step :
      (due due' : Option ℕ) (a b c : Kept R A) (same : Bool)
      → due' ≡ (if same then none else due)
      → b ≡ (if same then c else a)
      → (now : Option ℕ) → (same ≡ true → is_due due now ≡ true)
      → ◌≡◌ {A = Kept R A}
          (elim due' [ none ↦ b | some moment ↦ c ])
          (elim due [ none ↦ a | some moment ↦ c ])
  kept_step none due' a b c true h e now marked = absurd (ground (arith, marked refl))
  kept_step (some moment) due' a b c true h e now marked = rw h e
  kept_step none due' a b c false h e now marked = rw h e
  kept_step (some moment) due' a b c false h e now marked = rw h refl

  -- A pass does not change what the disk is to keep.
  pub persist_namespace-kept :
      (now : Option ℕ) (clock : ℕ) (n : DbNamespace T R A)
      → IsValid n.persist_markers
      → IsValid (persist_namespace db now clock n).1.persist_markers
        × ((task : PersistTask)
            → to_keep (persist_namespace db now clock n).1 task ≡ to_keep n task)
  unfolding persist_namespace persisted
  persist_namespace-kept now clock n h = elim (Option-cases (get_task now n.persist_markers).0) [
    | inl nothing ↦
        let (same, idle) =
          get_task-none now n.persist_markers (get_task now n.persist_markers).1
            (pair_of nothing) in
        rw (persist_namespace, nothing, same) (h, λ task. refl)
    | inr (task, taken) ↦
        let m' = (get_task now n.persist_markers).1 in
        let e = pair_of taken in
        let t = get_task-IsTaken now n.persist_markers m' task h e in
        let (valid, less) = get_task-owed now n.persist_markers m' task h e in
        rw (persist_namespace, taken)
          (
            valid,
            λ other.
                kept_step (due_moment n.persist_markers other) (due_moment m' other)
                  (on_disk n.persist_repo other)
                  (on_disk (execute db n.get_table task n.persist_repo) other)
                  (in_memory n.get_table other) (task_same task other) (t.marks other)
                  (execute-on_disk n.get_table task other n.persist_repo
                    ∙ elim (Bool-cases (task_same task other)) [
                      | inl same ↦
                          rw same (ap (in_memory n.get_table) (task_same-≡ task other same))
                      | inr different ↦ rw different refl
                    ])
                  now
                  (λ same.
                    sym (
                      ap (λ (j : PersistTask). is_due (due_moment n.persist_markers j) now)
                        (task_same-≡ task other same))
                    ∙ t.was_due),
          )
  ]

  table_kept :
      (now : Option ℕ) (clock : ℕ) (n : DbNamespace T R A)
      → (persist_namespace db now clock n).1.get_table ≡ n.get_table
  unfolding persist_namespace persisted
  table_kept now clock n = ground arith

  pub persist_namespace-owed :
      (now : Option ℕ) (clock : ℕ) (n : DbNamespace T R A)
      → IsValid n.persist_markers
      → ((persist_namespace db now clock n).0 ≡ false)
          × (owed (persist_namespace db now clock n).1.persist_markers ≡ owed n.persist_markers)
        ⊎ ((persist_namespace db now clock n).0 ≡ true)
          × (owed n.persist_markers
              ≡ suc (owed (persist_namespace db now clock n).1.persist_markers))
  unfolding persist_namespace persisted
  persist_namespace-owed now clock n h = elim (Option-cases (get_task now n.persist_markers).0) [
    | inl nothing ↦
        let (same, idle) =
          get_task-none now n.persist_markers (get_task now n.persist_markers).1
            (pair_of nothing) in
        rw (persist_namespace, nothing, same) (inl (refl, refl))
    | inr (task, taken) ↦
        let m' = (get_task now n.persist_markers).1 in
        let (valid, less) = get_task-owed now n.persist_markers m' task h (pair_of taken) in
        rw (persist_namespace, taken) (inr (refl, less))
  ]

  -- One pass over a namespace keeps everything that is not marked on disk as it is in memory; it answers
  -- that it wrote something exactly when it took a task, and the queue is then shorter by one.
  pub persist_namespace-IsSaved :
      (now : Option ℕ) (clock : ℕ) (n : DbNamespace T R A)
      → IsSaved n
      → IsSaved (persist_namespace db now clock n).1
        × (((persist_namespace db now clock n).0 ≡ false)
              × (owed (persist_namespace db now clock n).1.persist_markers ≡ owed n.persist_markers)
            ⊎ ((persist_namespace db now clock n).0 ≡ true)
              × (owed n.persist_markers
                  ≡ suc (owed (persist_namespace db now clock n).1.persist_markers)))
  persist_namespace-IsSaved now clock n h =
      let (valid, kept) = persist_namespace-kept now clock n h.valid in
      (
        record {
          valid = valid;
          saved = λ task due. elim (Option-cases (due_moment n.persist_markers task)) [
            | inl unmarked ↦
                ground (arith, kept task, h.saved task unmarked, table_kept now clock n)
            | inr (moment, marked) ↦ ground (arith, kept task, table_kept now clock n)
          ];
        },
        persist_namespace-owed now clock n h.valid,
      )

  execute_all-on_disk :
      (get_table : Text → Option T) (tasks : List PersistTask) (other : PersistTask)
      (repo : PersistRepo R A)
      → on_disk (execute_all db get_table tasks repo) other
        ≡ (if among other tasks then in_memory get_table other else on_disk repo other)
  unfolding execute_all
  execute_all-on_disk get_table [] other repo = refl
  execute_all-on_disk get_table (task ∷ tasks) other repo =
      let one = execute-on_disk get_table task other repo in
      let rest = execute_all-on_disk get_table tasks other (execute db get_table task repo) in
      elim (Bool-cases (task_same task other)) [
        | inl same ↦ ground (arith, task_same-≡ task other)
        | inr different ↦ ground arith
      ]

  flushed :
      (n : DbNamespace T R A)
      → IsValid n.persist_markers
      → (task : PersistTask)
      → on_disk (execute_all db n.get_table (take_all n.persist_markers).0 n.persist_repo) task
        ≡ to_keep n task
  flushed n h task =
      let (taken, counted, left) = take_all_marks n.persist_markers task h in
      let e = execute_all-on_disk n.get_table (take_all n.persist_markers).0 task n.persist_repo in
      elim (Option-cases (due_moment n.persist_markers task)) [
        | inl unmarked ↦ ground arith
        | inr (moment, marked) ↦ ground arith
      ]

  -- If the queue is well formed: after a flush the disk keeps exactly what memory holds of
  -- everything that was marked, and what it kept before of everything else; its queue is empty,
  -- and the answer is how many marks there were.
  pub flush_namespace-saved :
      (clock : ℕ) (n : DbNamespace T R A)
      → IsValid n.persist_markers
      → ((task : PersistTask)
          → on_disk (flush_namespace db clock n).1.persist_repo task ≡ to_keep n task)
        × ((flush_namespace db clock n).1.persist_markers ≡ new)
        × ((flush_namespace db clock n).0 ≡ owed n.persist_markers)
  unfolding flush_namespace persisted execute_all
  flush_namespace-saved clock n h =
      let all = flushed n h in
      let (taken, counted, left) = take_all_marks n.persist_markers (table_metadata []) h in
      elim (List-cases (take_all n.persist_markers).0) [
        | inl nothing ↦
            rw (flush_namespace, nothing, left)
              (
                λ task.
                    sym (
                      ap (λ ts. on_disk (execute_all db n.get_table ts n.persist_repo) task)
                        nothing)
                    ∙ all task,
                refl,
                sym (ap length nothing) ∙ counted,
              )
        | inr (t, ts, some_left) ↦
            rw (flush_namespace, some_left, left)
              (
                λ task.
                    sym (
                      ap (λ us. on_disk (execute_all db n.get_table us n.persist_repo) task)
                        some_left)
                    ∙ all task,
                refl,
                sym (ap length some_left) ∙ counted,
              )
      ]
