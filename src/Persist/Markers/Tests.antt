-- ===== src/Persist/Markers/Tests.antt =====
-- A queue with three marks, and its theorems at concrete inputs.
use my_no_sql_server_grpc.Base.{
  suc, ◌<◌, ◌≡◌, refl, ◌↔◌, true, false, [], ◌∷◌, none, some, if◌then◌else◌, length, Text, text_eq,
}
use my_no_sql_server_grpc.Persist.Markers.{
  PersistTask, table_metadata, partition, PersistMarkersInner, new, persist_partition,
  persist_table_metadata, keep_earliest, get_task, take_all, has_something_to_persist, is_due,
  first_due, take_of_table, due_partition,
}
use my_no_sql_server_grpc.Persist.Markers.Mark.{
  due_moment, task_same, mark, min_with, due_moment-mark,
}
use my_no_sql_server_grpc.Persist.Markers.Take.{IsValid, IsTaken, get_task-IsTaken, get_task-none}
use my_no_sql_server_grpc.Persist.Markers.Size.{
  new-IsValid, mark-IsValid, owed, get_task-owed, has_something_to_persist-owed,
}
use my_no_sql_server_grpc.Persist.Markers.Flush.{among, is_marked, take_all_marks}

abbrev a_table : Text
a_table = 116 ∷ []

abbrev task_a : PersistTask
task_a = partition a_table (97 ∷ [])

-- Two partitions and the metadata of a table, due at 5, 9 and 7.
abbrev queue : PersistMarkersInner
queue = mark (table_metadata a_table) 7 (mark (partition a_table (98 ∷ [])) 9 (mark task_a 5 new))

queue-IsValid : IsValid queue
queue-IsValid =
    mark-IsValid (table_metadata a_table) 7 _
      (mark-IsValid (partition a_table (98 ∷ [])) 9 _ (mark-IsValid task_a 5 new new-IsValid))

-- At 5 the metadata is not due, and the first partition is.
taken_at_5 : get_task (some 5) queue ≡ (some task_a, (get_task (some 5) queue).1)
unfolding get_task first_due take_of_table due_partition persist_partition persist_table_metadata
    keep_earliest new
taken_at_5 = refl

idle_at_4 : get_task (some 4) queue ≡ (none, (get_task (some 4) queue).1)
unfolding get_task first_due take_of_table due_partition persist_partition persist_table_metadata
    keep_earliest new
idle_at_4 = refl

due_moment-mark_example : due_moment (mark task_a 3 queue) task_a ≡ (
    if task_same task_a task_a
    then some (min_with (due_moment queue task_a) 3)
    else due_moment queue task_a)
due_moment-mark_example = due_moment-mark task_a task_a 3 queue

get_task-IsTaken_example : IsTaken (some 5) queue task_a (get_task (some 5) queue).1
get_task-IsTaken_example =
    get_task-IsTaken (some 5) queue (get_task (some 5) queue).1 task_a queue-IsValid taken_at_5

get_task-none_example :
    ((get_task (some 4) queue).1 ≡ queue)
    × ((task : PersistTask) → is_due (due_moment queue task) (some 4) ≡ false)
get_task-none_example = get_task-none (some 4) queue (get_task (some 4) queue).1 idle_at_4

get_task-owed_example :
    IsValid (get_task (some 5) queue).1 × (owed queue ≡ suc (owed (get_task (some 5) queue).1))
get_task-owed_example =
    get_task-owed (some 5) queue (get_task (some 5) queue).1 task_a queue-IsValid taken_at_5

has_something_to_persist-owed_example : (has_something_to_persist queue ≡ true) ↔ (0 < owed queue)
has_something_to_persist-owed_example = has_something_to_persist-owed queue queue-IsValid

take_all_marks_example :
    (among task_a (take_all queue).0 ≡ is_marked (due_moment queue task_a))
    × (length (take_all queue).0 ≡ owed queue)
    × ((take_all queue).1 ≡ new)
take_all_marks_example = take_all_marks queue task_a queue-IsValid
