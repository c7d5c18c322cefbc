-- ===== src/Persist/Markers/Mark.antt =====
-- Marking: a due moment only ever moves earlier, and no other mark changes.
use my_no_sql_server_grpc.Base.{
  ℕ, ◌≡◌, arith, Bool, false, ◌&&◌, Option, none, some, if◌then◌else◌, text_same, text_same_iff,
  min, text_eq,
}
use my_no_sql_server_grpc.Base.Assoc.{lookup, insert, lookup-insert}
use my_no_sql_server_grpc.Persist.Markers.{
  PersistTask, table_metadata, partition, PersistMarkersInner, earliest, table_of,
  persist_partition, persist_table_metadata,
}

-- The queue as the specification sees it: the due moment of each task that is marked.
abbrev pub due_moment : PersistMarkersInner → PersistTask → Option ℕ
due_moment m (table_metadata n) = (table_of n m).metadata
due_moment m (partition n k) = lookup k (table_of n m).partitions

abbrev pub task_same : PersistTask → PersistTask → Bool
task_same (table_metadata n) (table_metadata n') = text_same n n'
task_same (partition n k) (partition n' k') = text_same n n' && text_same k k'
task_same _ _ = false

abbrev pub mark : PersistTask → ℕ → PersistMarkersInner → PersistMarkersInner
mark (table_metadata n) = persist_table_metadata n
mark (partition n k) = persist_partition n k

-- The earlier of the old moment and the new one.
abbrev pub min_with : Option ℕ → ℕ → ℕ
min_with none moment = moment
min_with (some existing) moment = min existing moment

-- A mark sets the due moment of its task to the earlier of the two moments, and leaves the due
-- moment of every other task.
pub due_moment-mark :
    (task other : PersistTask) (moment : ℕ) (m : PersistMarkersInner)
    → due_moment (mark task moment m) other ≡ (
        if task_same task other
        then some (min_with (due_moment m task) moment)
        else due_moment m other)
unfolding persist_partition persist_table_metadata
due_moment-mark (table_metadata n) (table_metadata n') moment m = ground (
  arith,
  lookup-insert n n'
      (record (table_of n m) { metadata = some (earliest (table_of n m).metadata moment) })
      m.tables,
  text_same_iff n n',
)
due_moment-mark (table_metadata n) (partition n' k') moment m = ground (
  arith,
  lookup-insert n n'
      (record (table_of n m) { metadata = some (earliest (table_of n m).metadata moment) })
      m.tables,
  text_same_iff n n',
)
due_moment-mark (partition n k) (table_metadata n') moment m =
    let v = earliest (lookup k (table_of n m).partitions) moment in
    ground (
      arith,
      lookup-insert n n'
          (record (table_of n m) { partitions = insert k v (table_of n m).partitions }) m.tables,
      text_same_iff n n',
    )
due_moment-mark (partition n k) (partition n' k') moment m =
    let v = earliest (lookup k (table_of n m).partitions) moment in
    ground (
      arith,
      lookup-insert n n'
          (record (table_of n m) { partitions = insert k v (table_of n m).partitions }) m.tables,
      text_same_iff n n',
      lookup-insert k k' v (table_of n m).partitions,
    )
