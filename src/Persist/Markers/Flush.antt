-- ===== src/Persist/Markers/Flush.antt =====
-- `take_all`: a flush takes every mark once, and leaves an empty queue.
use my_no_sql_server_grpc.Base.{
  ℕ, ◌≡◌, refl, ◌∙◌, arith, Bool, true, false, ◌&&◌, ◌||◌, List, [], ◌∷◌, ◌++◌, Option, none, some,
  text_same, text_same_iff, Text, text_eq, length, length-append,
}
use my_no_sql_server_grpc.Base.Assoc.{lookup, Distinct}
use my_no_sql_server_grpc.Persist.Markers.{
  PersistTask, table_metadata, partition, TableMarkers, PersistMarkersInner, new, metadata_count,
  take_all, drain_tables, partition_tasks, metadata_tasks,
}
use my_no_sql_server_grpc.Persist.Markers.Mark.{due_moment, task_same}
use my_no_sql_server_grpc.Persist.Markers.Take.{IsValid, table_name_of}
use my_no_sql_server_grpc.Persist.Markers.Size.{owed, owed-total, total}

-- Whether a task is among the tasks.
abbrev pub among : PersistTask → List PersistTask → Bool
among task [] = false
among task (x ∷ xs) = task_same x task || among task xs

abbrev pub is_marked : Option ℕ → Bool
is_marked none = false
is_marked (some moment) = true

among-append :
    (task : PersistTask) (xs ys : List PersistTask)
    → among task (xs ++ ys) ≡ (among task xs || among task ys)
among-append task [] ys = refl
among-append task (x ∷ xs) ys = ground (arith, among-append task xs ys)

length-partition_tasks :
    (n : Text) (ps : List (Text × ℕ)) → length (partition_tasks n ps) ≡ length ps
unfolding partition_tasks
length-partition_tasks n [] = refl
length-partition_tasks n ((k, moment) ∷ ps) = omega (arith, length-partition_tasks n ps)

length-metadata_tasks : (n : Text) (o : Option ℕ) → length (metadata_tasks n o) ≡ metadata_count o
unfolding metadata_tasks
length-metadata_tasks n none = refl
length-metadata_tasks n (some moment) = refl

length-drain_tables : (ts : List (Text × TableMarkers)) → length (drain_tables ts) ≡ total ts
unfolding drain_tables
length-drain_tables [] = refl
length-drain_tables ((n, t) ∷ ts) = omega (
  arith,
  length-append (metadata_tasks n t.metadata) (partition_tasks n t.partitions ++ drain_tables ts),
  length-append (partition_tasks n t.partitions) (drain_tables ts),
  length-metadata_tasks n t.metadata,
  length-partition_tasks n t.partitions,
  length-drain_tables ts,
)

among-metadata_tasks :
    (n : Text) (o : Option ℕ) (task : PersistTask)
    → among task (metadata_tasks n o) ≡ (is_marked o && task_same (table_metadata n) task)
unfolding metadata_tasks
among-metadata_tasks n none task = refl
among-metadata_tasks n (some moment) task = ground arith

among-partition_tasks :
    (n : Text) (ps : List (Text × ℕ)) (j k : Text)
    → among (partition j k) (partition_tasks n ps) ≡ (text_same n j && is_marked (lookup k ps))
unfolding partition_tasks
among-partition_tasks n [] j k = ground arith
among-partition_tasks n ((i, moment) ∷ ps) j k = ground (arith, among-partition_tasks n ps j k)

no_metadata_among :
    (n : Text) (ps : List (Text × ℕ)) (j : Text)
    → among (table_metadata j) (partition_tasks n ps) ≡ false
unfolding partition_tasks
no_metadata_among n [] j = refl
no_metadata_among n ((i, moment) ∷ ps) j = ground (arith, no_metadata_among n ps j)

-- Whether a task of a table is marked there.
abbrev marked_in : PersistTask → Option TableMarkers → Bool
marked_in task none = false
marked_in (table_metadata n) (some t) = is_marked t.metadata
marked_in (partition n k) (some t) = is_marked (lookup k t.partitions)

among-drain_tables :
    (task : PersistTask) (ts : List (Text × TableMarkers))
    → Distinct ts
    → among task (drain_tables ts) ≡ marked_in task (lookup (table_name_of task) ts)
unfolding drain_tables
among-drain_tables task [] d = ground arith
among-drain_tables (table_metadata j) ((n, t) ∷ ts) d = ground (
  arith,
  among-append (table_metadata j) (metadata_tasks n t.metadata)
      (partition_tasks n t.partitions ++ drain_tables ts),
  among-append (table_metadata j) (partition_tasks n t.partitions) (drain_tables ts),
  among-metadata_tasks n t.metadata (table_metadata j),
  no_metadata_among n t.partitions j,
  text_same_iff n j,
  among-drain_tables (table_metadata j) ts d.1,
)
among-drain_tables (partition j k) ((n, t) ∷ ts) d = ground (
  arith,
  among-append (partition j k) (metadata_tasks n t.metadata)
      (partition_tasks n t.partitions ++ drain_tables ts),
  among-append (partition j k) (partition_tasks n t.partitions) (drain_tables ts),
  among-metadata_tasks n t.metadata (partition j k),
  among-partition_tasks n t.partitions j k,
  text_same_iff n j,
  among-drain_tables (partition j k) ts d.1,
)

marked_in-due_moment :
    (task : PersistTask) (m : PersistMarkersInner)
    → marked_in task (lookup (table_name_of task) m.tables) ≡ is_marked (due_moment m task)
marked_in-due_moment (table_metadata n) m = ground arith
marked_in-due_moment (partition n k) m = ground arith

-- A flush takes exactly the tasks that are marked, as many as the queue owes, so none twice; and the
-- queue that it leaves is a fresh one.
pub take_all_marks :
    (m : PersistMarkersInner) (task : PersistTask)
    → IsValid m
    → (among task (take_all m).0 ≡ is_marked (due_moment m task))
      × (length (take_all m).0 ≡ owed m)
      × ((take_all m).1 ≡ new)
unfolding take_all
take_all_marks m task v = (
  among-drain_tables task m.tables v.distinct ∙ marked_in-due_moment task m,
  omega (arith, length-drain_tables m.tables, owed-total m.tables),
  refl,
)
