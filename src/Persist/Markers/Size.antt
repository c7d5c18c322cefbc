-- ===== src/Persist/Markers/Size.antt =====
-- The queue's invariant, and how much it holds.
use my_no_sql_server_grpc.Base.{
  ℕ, suc, ◌+◌, ◌<◌, ◌≡◌, refl, arith, true, false, List, [], ◌∷◌, Option, none, some, text_same,
  text_same_iff, Text, text_eq, ◌↔◌, inl, inr, All, Bool-cases, Option-cases, length,
}
use my_no_sql_server_grpc.Base.Assoc.{
  lookup, insert, remove, Distinct, insert-Distinct, remove-Distinct, remove_absent, length-remove,
}
use my_no_sql_server_grpc.Persist.Markers.{
  PersistTask, table_metadata, partition, TableMarkers, PersistMarkersInner, is_empty, is_due,
  due_partition, take_of_table, first_due, get_task, table_of, new, earliest, persist_partition,
  persist_table_metadata, has_something_to_persist, metadata_count, get_queue_metrics, any_marked,
  is_none, is_nil,
}
use my_no_sql_server_grpc.Persist.Markers.Mark.{mark}
use my_no_sql_server_grpc.Persist.Markers.Take.{
  IsMarkedTable, IsValid, get_task-cases, put_table, first_due-some, due_partition-some,
  is_empty-no_markers,
}

module _ (n : Text) (t : TableMarkers) where
  insert-marked :
      (ts : List (Text × TableMarkers))
      → IsMarkedTable (n, t)
      → All IsMarkedTable ts
      → All IsMarkedTable (insert n t ts)
  insert-marked [] h v = ground arith
  insert-marked ((j, u) ∷ ts) h v = ground (arith, insert-marked ts h v.1)

remove-marked :
    (n : Text) (ts : List (Text × TableMarkers))
    → All IsMarkedTable ts
    → All IsMarkedTable (remove n ts)
remove-marked n [] v = tt
remove-marked n ((j, u) ∷ ts) v = ground (arith, remove-marked n ts v.1)

lookup-marked :
    (n : Text) (ts : List (Text × TableMarkers)) (t : TableMarkers)
    → All IsMarkedTable ts
    → lookup n ts ≡ some t
    → IsMarkedTable (n, t)
lookup-marked n [] t v h = absurd (cc)
lookup-marked n ((j, u) ∷ ts) t v h = elim (Bool-cases (text_same j n)) [
  | inl here ↦ let e : u ≡ t = ground arith in rw (← e) v.0
  | inr there ↦ lookup-marked n ts t v.1 (ground arith)
]

table_of-Distinct :
    (n : Text) (m : PersistMarkersInner) → IsValid m → Distinct (table_of n m).partitions
table_of-Distinct n m v = elim (Option-cases (lookup n m.tables)) [
  | inl e ↦ ground arith
  | inr (t, e) ↦ ground (arith, lookup-marked n m.tables t v.marked e)
]

put-IsValid :
    (n : Text) (t : TableMarkers) (m : PersistMarkersInner)
    → IsMarkedTable (n, t)
    → IsValid m
    → IsValid (record { tables = insert n t m.tables })
put-IsValid n t m h v = record {
  distinct = insert-Distinct n t m.tables v.distinct;
  marked = insert-marked n t m.tables h v.marked;
}

insert-ne-nil :
    {V : Type 0} (k : Text) (v : V) (m : List (Text × V)) → is_nil (insert k v m) ≡ false
unfolding is_nil
insert-ne-nil k v [] = refl
insert-ne-nil k v ((j, w) ∷ m) = ground arith

-- A fresh queue is valid, and marking keeps it so.
pub mark-IsValid :
    (task : PersistTask) (moment : ℕ) (m : PersistMarkersInner)
    → IsValid m
    → IsValid (mark task moment m)
unfolding persist_partition persist_table_metadata is_empty
mark-IsValid (table_metadata n) moment m v = put-IsValid n _ m (refl, table_of-Distinct n m v) v
mark-IsValid (partition n k) moment m v =
    let t = table_of n m in
    let moment' = earliest (lookup k t.partitions) moment in
    put-IsValid n (record t { partitions = insert k moment' t.partitions }) m
      (
        ground (arith, insert-ne-nil k moment' t.partitions),
        insert-Distinct k moment' t.partitions (table_of-Distinct n m v),
      )
      v

pub new-IsValid : IsValid new
unfolding new
new-IsValid = record { distinct = tt; marked = tt }

-- How many marks the queue holds, as `get_queue_metrics` counts them.
abbrev pub owed : PersistMarkersInner → ℕ
owed m = (get_queue_metrics m).partitions + (get_queue_metrics m).tables_metadata

abbrev pub weight : TableMarkers → ℕ
weight t = length t.partitions + metadata_count t.metadata

abbrev pub total : List (Text × TableMarkers) → ℕ
total [] = 0
total ((n, t) ∷ ts) = weight t + total ts

pub owed-total : (ts : List (Text × TableMarkers)) → owed (record { tables = ts }) ≡ total ts
unfolding get_queue_metrics
owed-total [] = refl
owed-total ((n, t) ∷ ts) = omega (arith, owed-total ts)

total-insert :
    (n : Text) (t t' : TableMarkers) (ts : List (Text × TableMarkers))
    → lookup n ts ≡ some t
    → total (insert n t' ts) + weight t ≡ total ts + weight t'
total-insert n t t' [] h = absurd (cc)
total-insert n t t' ((j, u) ∷ ts) h = ground (arith, total-insert n t t' ts)

total-remove :
    (n : Text) (t : TableMarkers) (ts : List (Text × TableMarkers))
    → Distinct ts
    → lookup n ts ≡ some t
    → total (remove n ts) + weight t ≡ total ts
total-remove n t [] d h = absurd (cc)
total-remove n t ((j, u) ∷ ts) d h =
    ground (arith, text_same_iff j n, remove_absent n ts, total-remove n t ts d.1)

-- What is taken of a table leaves one mark less, and the partitions stay distinct.
take_of_table-weight :
    (now : Option ℕ) (n : Text) (t t' : TableMarkers) (task : PersistTask)
    → Distinct t.partitions
    → take_of_table now n t ≡ some (task, t')
    → (weight t ≡ suc (weight t')) × Distinct t'.partitions
unfolding take_of_table
take_of_table-weight now n t t' task d h = elim (Bool-cases (is_due t.metadata now)) [
  | inl meta ↦ ground arith
  | inr later ↦ elim (Option-cases (due_partition now t.partitions)) [
    | inl nothing ↦ absurd (ground arith)
    | inr (k, first) ↦ elim (Option-cases (lookup k t.partitions)) [
      | inl absent ↦ absurd (ground (arith, due_partition-some now t.partitions k d first))
      | inr (moment, there) ↦
          let e : record t { partitions = remove k t.partitions } ≡ t' = ground arith in
          rw (← e) (
            omega (arith, length-remove k t.partitions moment d there),
            remove-Distinct k t.partitions d,
          )
    ]
  ]
]

weight_empty : (t : TableMarkers) → is_empty t ≡ true → weight t ≡ 0
weight_empty t h = ground (arith, is_empty-no_markers t h)

-- Taking a task keeps the queue valid, and leaves one mark less.
pub get_task-owed :
    (now : Option ℕ) (m m' : PersistMarkersInner) (task : PersistTask)
    → IsValid m
    → get_task now m ≡ (some task, m')
    → IsValid m' × (owed m ≡ suc (owed m'))
get_task-owed now m m' task v h =
    let (n, t', first, e) = get_task-cases now m m' task h in
    let (t, found, taken, d) = first_due-some now m.tables n task t' v.distinct v.marked first in
    let (less, d') = take_of_table-weight now n t t' task d taken in
    elim (Bool-cases (is_empty t')) [
      | inl empty ↦
          let e' : m' ≡ record { tables = remove n m.tables } = rw (e, empty) in
          rw e' (
            record {
              distinct = remove-Distinct n m.tables v.distinct;
              marked = remove-marked n m.tables v.marked;
            },
            omega (
              arith,
              owed-total m.tables,
              owed-total (remove n m.tables),
              total-remove n t m.tables v.distinct found,
              weight_empty t' empty,
            ),
          )
      | inr some_left ↦
          let e' : m' ≡ record { tables = insert n t' m.tables } = rw (e, some_left) in
          rw e' (
            put-IsValid n t' m (some_left, d') v,
            omega (
              arith,
              owed-total m.tables,
              owed-total (insert n t' m.tables),
              total-insert n t t' m.tables found,
            ),
          )
    ]

is_marked_weight : (t : TableMarkers) → is_empty t ≡ false → 0 < weight t
unfolding is_empty is_none is_nil
is_marked_weight t h = ground arith

any_marked-total :
    (ts : List (Text × TableMarkers))
    → All IsMarkedTable ts
    → (any_marked ts ≡ true) ↔ (0 < total ts)
unfolding any_marked
any_marked-total [] v = ground arith
any_marked-total ((n, t) ∷ ts) v = ground (arith, is_marked_weight t)

-- There is something to persist exactly when the queue owes something.
pub has_something_to_persist-owed :
    (m : PersistMarkersInner) → IsValid m → (has_something_to_persist m ≡ true) ↔ (0 < owed m)
unfolding has_something_to_persist
has_something_to_persist-owed m v =
    ground (arith, any_marked-total m.tables v.marked, owed-total m.tables)

due_partition-drain : (ps : List (Text × ℕ)) → due_partition none ps ≡ none → ps ≡ []
unfolding due_partition
due_partition-drain [] h = refl
due_partition-drain ((k, moment) ∷ ps) h = absurd (ground arith)

first_due-drain : (ts : List (Text × TableMarkers)) → first_due none ts ≡ none → total ts ≡ 0
unfolding first_due take_of_table
first_due-drain [] h = refl
first_due-drain ((n, t) ∷ ts) h =
    ground (arith, first_due-drain ts, due_partition-drain t.partitions)

-- With no moment given, as at shutdown, a queue that owes something gives a task out.
pub get_task_drain :
    (m : PersistMarkersInner)
    → 0 < owed m
    → (task : PersistTask) × (m' : PersistMarkersInner) × (get_task none m ≡ (some task, m'))
unfolding get_task
get_task_drain m h = elim (Option-cases (first_due none m.tables)) [
  | inl nothing ↦ absurd (omega (arith, first_due-drain m.tables nothing, owed-total m.tables))
  | inr ((n, task, t'), something) ↦ (task, put_table n t' m, rw (something, get_task))
]
