-- ===== src/Persist/Markers.antt =====
-- server/src/persist/markers: the write-behind queue of one namespace. `PersistMarkers` is
-- `PersistMarkersInner` behind a mutex, so its methods are these functions. A moment is a count of
-- microseconds since 1970.
pub mod Mark
pub mod Take
pub mod Size
pub mod Flush
mod Tests
use my_no_sql_server_grpc.Base.{
  ℕ, ◌+◌, ◌≡◌, Bool, true, false, not, ◌&&◌, ◌||◌, List, [], ◌∷◌, ◌++◌, map, Option, none, some,
  ltb, leb, if◌then◌else◌, length, Text, text_eq,
}
use my_no_sql_server_grpc.Base.Assoc.{lookup, insert, remove}

pub data PersistTask : Type 0 where
  table_metadata : Text → PersistTask
  partition : Text → Text → PersistTask

pub record PersistQueueMetrics : Type 0 where
  pub partitions : ℕ
  pub tables_metadata : ℕ

pub record TableMarkers : Type 0 where
  pub metadata : Option ℕ
  pub partitions : List (Text × ℕ)

pub record PersistMarkersInner : Type 0 where
  pub tables : List (Text × TableMarkers)

unfoldable pub new : PersistMarkersInner
new = record { tables = [] }

abbrev pub no_markers : TableMarkers
no_markers = record { metadata = none; partitions = [] }

pub is_none {ℓ} : {A : Type ℓ} → Option A → Bool
is_none none = true
is_none (some a) = false

pub is_nil {ℓ} : {A : Type ℓ} → List A → Bool
is_nil [] = true
is_nil (x ∷ xs) = false

unfoldable pub is_empty : TableMarkers → Bool
unfolding is_none is_nil
is_empty t = is_none t.metadata && is_nil t.partitions

unfoldable pub keep_earliest : ℕ → ℕ → ℕ
keep_earliest current candidate = if ltb candidate current then candidate else current

-- The moment that a mark has after it was marked for `moment`.
abbrev pub earliest : Option ℕ → ℕ → ℕ
earliest none moment = moment
earliest (some existing) moment = keep_earliest existing moment

-- `self.tables.entry(table_name).or_default()`, as it stands before the change.
abbrev pub table_of : Text → PersistMarkersInner → TableMarkers
table_of table_name m = elim (lookup table_name m.tables) [ none ↦ no_markers | some t ↦ t ]

unfoldable pub persist_partition : Text → Text → ℕ → PersistMarkersInner → PersistMarkersInner
unfolding keep_earliest
persist_partition table_name partition_key moment m =
    let t = table_of table_name m in
    let moment' = earliest (lookup partition_key t.partitions) moment in
    record {
      tables =
          insert table_name (record t { partitions = insert partition_key moment' t.partitions })
            m.tables;
    }

unfoldable pub persist_table_metadata : Text → ℕ → PersistMarkersInner → PersistMarkersInner
unfolding keep_earliest
persist_table_metadata table_name moment m =
    let t = table_of table_name m in
    record {
      tables =
          insert table_name (record t { metadata = some (earliest t.metadata moment) }) m.tables;
    }

pub any_marked : List (Text × TableMarkers) → Bool
any_marked [] = false
any_marked ((_, t) ∷ ts) = not (is_empty t) || any_marked ts

unfoldable pub has_something_to_persist : PersistMarkersInner → Bool
unfolding any_marked is_empty
has_something_to_persist m = any_marked m.tables

-- `usize::from(markers.metadata.is_some())`
abbrev pub metadata_count : Option ℕ → ℕ
metadata_count none = 0
metadata_count (some moment) = 1

abbrev pub count_marks : List (Text × TableMarkers) → PersistQueueMetrics
count_marks [] = record { partitions = 0; tables_metadata = 0 }
count_marks ((_, t) ∷ ts) =
    let rest = count_marks ts in
    record {
      partitions = length t.partitions + rest.partitions;
      tables_metadata = metadata_count t.metadata + rest.tables_metadata;
    }

unfoldable pub get_queue_metrics : PersistMarkersInner → PersistQueueMetrics
get_queue_metrics m = count_marks m.tables

-- `into_keys`, as tasks.
pub partition_tasks : Text → List (Text × ℕ) → List PersistTask
partition_tasks table_name [] = []
partition_tasks table_name ((k, _) ∷ ps) = partition table_name k ∷ partition_tasks table_name ps

pub metadata_tasks : Text → Option ℕ → List PersistTask
metadata_tasks table_name none = []
metadata_tasks table_name (some moment) = table_metadata table_name ∷ []

pub drain_tables : List (Text × TableMarkers) → List PersistTask
drain_tables [] = []
drain_tables ((n, t) ∷ ts) =
    metadata_tasks n t.metadata ++ (partition_tasks n t.partitions ++ drain_tables ts)

-- `take_all`: what it takes, and the queue that it leaves.
unfoldable pub take_all : PersistMarkersInner → List PersistTask × PersistMarkersInner
unfolding new drain_tables partition_tasks metadata_tasks
take_all m = (drain_tables m.tables, new)

-- `now` is `none` in the drain at shutdown: everything that is marked is due.
abbrev pub is_due : Option ℕ → Option ℕ → Bool
is_due none now = false
is_due (some moment) none = true
is_due (some moment) (some now) = leb moment now

-- `markers.partitions.iter().find(..)`
pub due_partition : Option ℕ → List (Text × ℕ) → Option Text
due_partition now [] = none
due_partition now ((k, moment) ∷ ps) =
    if is_due (some moment) now then some k else due_partition now ps

-- One round of the loop of `get_task`: what is taken of a table, and what it keeps.
pub take_of_table : Option ℕ → Text → TableMarkers → Option (PersistTask × TableMarkers)
unfolding due_partition
take_of_table now table_name t =
    if is_due t.metadata now
    then some (table_metadata table_name, record t { metadata = none })
    else elim (due_partition now t.partitions) [
      | none ↦ none
      | some k ↦ some (partition table_name k, record t { partitions = remove k t.partitions })
    ]

-- The loop, up to the first table that has something due.
pub first_due : Option ℕ → List (Text × TableMarkers) → Option (Text × PersistTask × TableMarkers)
first_due now [] = none
first_due now ((n, t) ∷ ts) = elim (take_of_table now n t) [
  | none ↦ first_due now ts
  | some (task, t') ↦ some (n, task, t')
]

-- A table whose last mark was taken goes.
unfoldable pub get_task : Option ℕ → PersistMarkersInner → Option PersistTask × PersistMarkersInner
unfolding first_due take_of_table is_empty
get_task now m = elim (first_due now m.tables) [
  | none ↦ (none, m)
  | some (n, task, t') ↦ (
    some task,
    record { tables = if is_empty t' then remove n m.tables else insert n t' m.tables },
  )
]
