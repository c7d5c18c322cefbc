-- ===== src/Persist/Markers/Take.antt =====
-- Taking one task out of the queue.
use my_no_sql_server_grpc.Base.{
  ℕ, ◌≡◌, refl, arith, Bool, true, false, List, [], ◌∷◌, Option, none, some, if◌then◌else◌,
  text_same, text_same_iff, Text, text_eq, inl, inr, All, Bool-cases, Option-cases,
}
use my_no_sql_server_grpc.Base.Assoc.{
  lookup, insert, remove, lookup-insert, lookup-remove, Distinct,
}
use my_no_sql_server_grpc.Persist.Markers.{
  PersistTask, table_metadata, partition, TableMarkers, PersistMarkersInner, is_empty, is_due,
  due_partition, take_of_table, first_due, get_task, table_of, no_markers,
}
use my_no_sql_server_grpc.Persist.Markers.Mark.{due_moment, task_same}

abbrev pub table_name_of : PersistTask → Text
table_name_of (table_metadata n) = n
table_name_of (partition n k) = n

abbrev pub is_metadata : PersistTask → Bool
is_metadata (table_metadata n) = true
is_metadata (partition n k) = false

-- Every table has something marked, and no key is marked twice.
abbrev pub IsMarkedTable : Text × TableMarkers → Type 0
IsMarkedTable e = (is_empty e.1 ≡ false) × Distinct e.1.partitions

pub record IsValid (m : PersistMarkersInner) : Type 0 where
  pub distinct : Distinct m.tables
  pub marked : All IsMarkedTable m.tables

-- What taking `task` out at `now` leaves: the mark was due and is gone, every other mark stays as it
-- was, and a partition is given out only while the metadata of its table is not due.
pub record IsTaken (now : Option ℕ) (m : PersistMarkersInner) (task : PersistTask)
    (m' : PersistMarkersInner) : Type 0 where
  pub was_due : is_due (due_moment m task) now ≡ true
  pub metadata_first :
      is_due (due_moment m (table_metadata (table_name_of task))) now ≡ is_metadata task
  pub marks :
      (other : PersistTask)
      → due_moment m' other ≡ (if task_same task other then none else due_moment m other)

pub due_partition-some :
    (now : Option ℕ) (ps : List (Text × ℕ)) (k : Text)
    → Distinct ps
    → due_partition now ps ≡ some k
    → is_due (lookup k ps) now ≡ true
unfolding due_partition
due_partition-some now [] k d h = cc
due_partition-some now ((j, moment) ∷ ps) k d h =
    ground (arith, due_partition-some now ps k, text_same_iff j k)

pub first_due-some :
    (now : Option ℕ) (ts : List (Text × TableMarkers)) (n : Text) (task : PersistTask)
    (t' : TableMarkers)
    → Distinct ts
    → All IsMarkedTable ts
    → first_due now ts ≡ some (n, task, t')
    → (t : TableMarkers) × (lookup n ts ≡ some t)
      × (take_of_table now n t ≡ some (task, t'))
      × Distinct t.partitions
unfolding first_due
first_due-some now [] n task t' d v h = cc
first_due-some now ((j, t) ∷ ts) n task t' d v h = elim (Option-cases (take_of_table now j t)) [
  | inl nothing ↦
      let (u, found, taken, du) = first_due-some now ts n task t' d.1 v.1 (ground arith) in
      (u, ground (arith, text_same_iff j n), taken, du)
  | inr ((task1, t1), something) ↦ (t, ground (arith, text_same_iff j n), ground arith, v.0.1)
]

pub is_empty-no_markers : (t : TableMarkers) → is_empty t ≡ true → t ≡ no_markers
unfolding is_empty
is_empty-no_markers t h = ground arith

-- The queue after the table `n` became `t'`.
abbrev pub put_table : Text → TableMarkers → PersistMarkersInner → PersistMarkersInner
put_table n t' m = record {
  tables = if is_empty t' then remove n m.tables else insert n t' m.tables;
}

table_of-put_table :
    (n j : Text) (t' : TableMarkers) (m : PersistMarkersInner)
    → table_of j (put_table n t' m) ≡ (if text_same n j then t' else table_of j m)
table_of-put_table n j t' m = elim (Bool-cases (is_empty t')) [
  | inl e ↦ ground (arith, is_empty-no_markers t' e, lookup-remove n j m.tables)
  | inr e ↦ ground (arith, lookup-insert n j t' m.tables)
]

pub get_task-cases :
    (now : Option ℕ) (m m' : PersistMarkersInner) (task : PersistTask)
    → get_task now m ≡ (some task, m')
    → (n : Text) × (t' : TableMarkers) × (first_due now m.tables ≡ some (n, task, t'))
      × (m' ≡ put_table n t' m)
unfolding get_task
get_task-cases now m m' task h = elim (Option-cases (first_due now m.tables)) [
  | inl nothing ↦ absurd (ground arith)
  | inr ((n, task1, t'), something) ↦ (n, t', ground arith, ground arith)
]

module _ (now : Option ℕ) (m : PersistMarkersInner) (n : Text) (t : TableMarkers) where
  abbrev without_metadata : TableMarkers
  without_metadata = record t { metadata = none }

  metadata_marks :
      lookup n m.tables ≡ some t
      → (other : PersistTask)
      → due_moment (put_table n without_metadata m) other
        ≡ (if task_same (table_metadata n) other then none else due_moment m other)
  metadata_marks found (table_metadata j) =
      ground (arith, table_of-put_table n j without_metadata m, text_same_iff n j)
  metadata_marks found (partition j k) =
      ground (arith, table_of-put_table n j without_metadata m, text_same_iff n j)

  abbrev without : Text → TableMarkers
  without k = record t { partitions = remove k t.partitions }

  partition_marks :
      (k : Text)
      → lookup n m.tables ≡ some t
      → (other : PersistTask)
      → due_moment (put_table n (without k) m) other
        ≡ (if task_same (partition n k) other then none else due_moment m other)
  partition_marks k found (table_metadata j) =
      ground (arith, table_of-put_table n j (without k) m, text_same_iff n j)
  partition_marks k found (partition j q) = ground (
    arith,
    table_of-put_table n j (without k) m,
    text_same_iff n j,
    lookup-remove k q t.partitions,
  )

  metadata-IsTaken :
      lookup n m.tables ≡ some t
      → is_due t.metadata now ≡ true
      → IsTaken now m (table_metadata n) (put_table n without_metadata m)
  metadata-IsTaken found due = record {
    was_due = ground arith;
    metadata_first = ground arith;
    marks = metadata_marks found;
  }

  partition-IsTaken :
      (k : Text)
      → lookup n m.tables ≡ some t
      → Distinct t.partitions
      → is_due t.metadata now ≡ false
      → due_partition now t.partitions ≡ some k
      → IsTaken now m (partition n k) (put_table n (without k) m)
  partition-IsTaken k found d later first = record {
    was_due = ground (arith, due_partition-some now t.partitions k d first);
    metadata_first = ground arith;
    marks = partition_marks k found;
  }

put_table-IsTaken :
    (now : Option ℕ) (m : PersistMarkersInner) (n : Text) (task : PersistTask) (t t' : TableMarkers)
    → lookup n m.tables ≡ some t
    → take_of_table now n t ≡ some (task, t')
    → Distinct t.partitions
    → IsTaken now m task (put_table n t' m)
unfolding take_of_table
put_table-IsTaken now m n task t t' found taken d = elim (Bool-cases (is_due t.metadata now)) [
  | inl meta ↦
      let e : table_metadata n ≡ task = ground arith in
      let e' : without_metadata now m n t ≡ t' = ground arith in
      rw (← e, ← e') (metadata-IsTaken now m n t found meta)
  | inr later ↦ elim (Option-cases (due_partition now t.partitions)) [
    | inl nothing ↦ absurd (ground arith)
    | inr (k, something) ↦
        let e : partition n k ≡ task = ground arith in
        let e' : without now m n t k ≡ t' = ground arith in
        rw (← e, ← e') (partition-IsTaken now m n t k found d later something)
  ]
]

-- A task that `get_task` gives out was due, it is not marked any more, and nothing else changed.
pub get_task-IsTaken :
    (now : Option ℕ) (m m' : PersistMarkersInner) (task : PersistTask)
    → IsValid m
    → get_task now m ≡ (some task, m')
    → IsTaken now m task m'
get_task-IsTaken now m m' task v h =
    let (n, t', first, e) = get_task-cases now m m' task h in
    let (t, found, taken, d) = first_due-some now m.tables n task t' v.distinct v.marked first in
    rw e (put_table-IsTaken now m n task t t' found taken d)

due_partition-none :
    (now : Option ℕ) (ps : List (Text × ℕ)) (k : Text)
    → due_partition now ps ≡ none
    → is_due (lookup k ps) now ≡ false
unfolding due_partition
due_partition-none now [] k h = refl
due_partition-none now ((j, moment) ∷ ps) k h = ground (arith, due_partition-none now ps k)

first_due-none :
    (now : Option ℕ) (ts : List (Text × TableMarkers)) (n : Text)
    → first_due now ts ≡ none
    → (t : TableMarkers) → lookup n ts ≡ some t
    → take_of_table now n t ≡ none
unfolding first_due
first_due-none now [] n h t found = absurd (cc)
first_due-none now ((j, u) ∷ ts) n h t found = elim (Option-cases (take_of_table now j u)) [
  | inl nothing ↦ elim (Bool-cases (text_same j n)) [
    | inl here ↦ ground (arith, text_same_iff j n)
    | inr there ↦ first_due-none now ts n (ground arith) t (ground arith)
  ]
  | inr (x, something) ↦ absurd (ground arith)
]

nothing_due_in_table :
    (now : Option ℕ) (n : Text) (t : TableMarkers) (k : Text)
    → take_of_table now n t ≡ none
    → (is_due t.metadata now ≡ false) × (is_due (lookup k t.partitions) now ≡ false)
unfolding take_of_table
nothing_due_in_table now n t k h = ground (arith, due_partition-none now t.partitions k)

nothing_due :
    (now : Option ℕ) (m : PersistMarkersInner)
    → first_due now m.tables ≡ none
    → (task : PersistTask) → is_due (due_moment m task) now ≡ false
nothing_due now m h (table_metadata n) = elim (Option-cases (lookup n m.tables)) [
  | inl e ↦ ground arith
  | inr (t, e) ↦
      ground (arith, nothing_due_in_table now n t [] (first_due-none now m.tables n h t e))
]
nothing_due now m h (partition n k) = elim (Option-cases (lookup n m.tables)) [
  | inl e ↦ ground arith
  | inr (t, e) ↦
      ground (arith, nothing_due_in_table now n t k (first_due-none now m.tables n h t e))
]

-- `get_task` gives nothing out only when nothing is due, and then the queue stays as it is.
pub get_task-none :
    (now : Option ℕ) (m m' : PersistMarkersInner)
    → get_task now m ≡ (none, m')
    → (m' ≡ m) × ((task : PersistTask) → is_due (due_moment m task) now ≡ false)
unfolding get_task
get_task-none now m m' h = elim (Option-cases (first_due now m.tables)) [
  | inl e ↦ (ground arith, nothing_due now m e)
  | inr ((n, task, t'), e) ↦ absurd (ground arith)
]
