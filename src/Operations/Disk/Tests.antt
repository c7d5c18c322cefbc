-- ===== src/Operations/Disk/Tests.antt =====
-- A namespace with one table, whose two partitions are marked.
use my_no_sql_server_grpc.Base.{
  suc, ◌≤◌, ◌≡◌, arith, Bool, true, false, List, [], ◌∷◌, ◌⊎◌, Option, none, some, if◌then◌else◌,
  Bool-cases, inl, inr, Text, text_same,
}
use my_no_sql_server_grpc.Persist.Markers.{
  PersistTask, partition, table_metadata, PersistMarkersInner, new, persist_partition,
  persist_table_metadata, get_queue_metrics,
}
use my_no_sql_server_grpc.Persist.Markers.Mark.{mark, due_moment, due_moment-mark}
use my_no_sql_server_grpc.Persist.Markers.Size.{owed, new-IsValid, mark-IsValid}
use my_no_sql_server_grpc.Reader.Example.{a_table}
use my_no_sql_server_grpc.Operations.Example.{Row, table}
use my_no_sql_server_grpc.Operations.Disk.{
  DbNamespace, PersistRepo, persist_namespace, flush_namespace, drain,
}
use my_no_sql_server_grpc.Operations.Disk.Saved.{
  IsSaved, on_disk, in_memory, to_keep, persist_namespace-IsSaved, flush_namespace-saved,
}
use my_no_sql_server_grpc.Operations.Disk.Drain.{AllOnDisk, total_owed, drain-AllOnDisk}

abbrev db_table : List Row
db_table = record { partition_key = 1 ∷ []; row_key = 1 ∷ []; time_stamp = 5 } ∷ []

abbrev get_table : Text → Option (List Row)
get_table name = if text_same a_table name then some db_table else none

-- The partition that the table holds, the metadata, and a partition that it holds no longer.
abbrev one_mark : PersistMarkersInner
one_mark = mark (partition a_table (1 ∷ [])) 5 new

abbrev two_marks : PersistMarkersInner
two_marks = mark (partition a_table (2 ∷ [])) 9 one_mark

abbrev markers : PersistMarkersInner
markers = mark (table_metadata a_table) 7 two_marks

abbrev repo : PersistRepo Row Bool
repo = record { partitions = ((a_table, 2 ∷ []), db_table) ∷ []; tables = [] }

abbrev namespace : DbNamespace (List Row) Row Bool
namespace = record {
  get_table = get_table;
  persist_markers = markers;
  persist_repo = repo;
  last_persisted = 0;
  persisted_total = 0;
}

saved :
    (task : PersistTask)
    → due_moment markers task ≡ none
    → on_disk repo task ≡ in_memory table get_table task
saved (table_metadata n) h = elim (Bool-cases (text_same a_table n)) [
  | inl same ↦
      absurd
        (ground (arith, due_moment-mark (table_metadata a_table) (table_metadata n) 7 two_marks))
  | inr other ↦ ground arith
]
saved (partition n k) h =
    let by_meta = due_moment-mark (table_metadata a_table) (partition n k) 7 two_marks in
    let by_two = due_moment-mark (partition a_table (2 ∷ [])) (partition n k) 9 one_mark in
    let by_one = due_moment-mark (partition a_table (1 ∷ [])) (partition n k) 5 new in
    elim (Bool-cases (text_same a_table n)) [
      | inr other ↦ ground arith
      | inl same ↦ elim (Bool-cases (text_same (1 ∷ []) k)) [
        | inl first ↦ absurd (ground arith)
        | inr not_first ↦ elim (Bool-cases (text_same (2 ∷ []) k)) [
          | inl second ↦ absurd (ground arith)
          | inr not_second ↦ ground arith
        ]
      ]
    ]

namespace-IsSaved : IsSaved table namespace
namespace-IsSaved = record {
  valid = mark-IsValid (table_metadata a_table) 7 _ (
      mark-IsValid (partition a_table (2 ∷ [])) 9 _
        (mark-IsValid (partition a_table (1 ∷ [])) 5 new new-IsValid));
  saved = saved;
}

persist_namespace-IsSaved_example :
    IsSaved table (persist_namespace table (some 6) 11 namespace).1
    × (((persist_namespace table (some 6) 11 namespace).0 ≡ false)
          × (owed (persist_namespace table (some 6) 11 namespace).1.persist_markers ≡ owed markers)
        ⊎ ((persist_namespace table (some 6) 11 namespace).0 ≡ true)
          × (owed markers
              ≡ suc (owed (persist_namespace table (some 6) 11 namespace).1.persist_markers)))
persist_namespace-IsSaved_example =
    persist_namespace-IsSaved table (some 6) 11 namespace namespace-IsSaved

-- A namespace whose disk keeps rows that nothing has marked and that memory does not hold.
abbrev behind : DbNamespace (List Row) Row Bool
behind = record namespace {
  persist_repo = record repo { partitions = ((a_table, 3 ∷ []), db_table) ∷ repo.partitions };
}

flush_namespace-saved_example :
    ((task : PersistTask)
      → on_disk (flush_namespace table 11 behind).1.persist_repo task ≡ to_keep table behind task)
    × ((flush_namespace table 11 behind).1.persist_markers ≡ new)
    × ((flush_namespace table 11 behind).0 ≡ owed markers)
flush_namespace-saved_example = flush_namespace-saved table 11 behind namespace-IsSaved.valid

owes_six : total_owed table (namespace ∷ behind ∷ []) ≤ 6
unfolding get_queue_metrics persist_partition persist_table_metadata new
owes_six = omega arith

drain-AllOnDisk_example :
    (total_owed table (drain table 6 11 (namespace ∷ behind ∷ [])).1 ≡ 0)
    × AllOnDisk table (namespace ∷ behind ∷ []) (drain table 6 11 (namespace ∷ behind ∷ [])).1
    × ((drain table 6 11 (namespace ∷ behind ∷ [])).0 ≤ total_owed table (namespace ∷ behind ∷ []))
drain-AllOnDisk_example =
    drain-AllOnDisk table 6 11 (namespace ∷ behind ∷ [])
      (namespace-IsSaved.valid, (namespace-IsSaved.valid, tt)) owes_six
