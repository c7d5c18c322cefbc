-- ===== src/Operations/Write/Tests.antt =====
-- Writes of a concrete table with one reader.
use my_no_sql_server_grpc.Base.{ℕ, ◌≡◌, refl, Bool, List, [], ◌∷◌}
use my_no_sql_server_grpc.Base.Result.{err}
use my_no_sql_server_grpc.Persist.Markers
use my_no_sql_server_grpc.Reader.Example.{a_namespace, a_table, one_session, one_session-IsValid}
use my_no_sql_server_grpc.Operations.Example.{Row, content, table}
use my_no_sql_server_grpc.Operations.Example.Hold.{table_laws}
use my_no_sql_server_grpc.Operations.Write.{
  World, insert, replace, delete_row, collect, applied, written, mark_partition_to_persist,
  keep_max_partitions_amount, row_already_exists, optimistic_concurrency_update_fails,
}
use my_no_sql_server_grpc.Operations.Write.Announced.{IsAnnounced}
use my_no_sql_server_grpc.Operations.Write.Rows.{IsReplaced, replace-IsAnnounced}
use my_no_sql_server_grpc.Operations.Write.History.{
  here, next, inserted, row_deleted, collected, partitions_kept, IsFollowed, Writes-IsFollowed,
}

abbrev row : ℕ → ℕ → ℕ → Row
row p k stamp = record { partition_key = p ∷ []; row_key = k ∷ []; time_stamp = stamp }

abbrev world : World (List Row) Row Bool
world = record {
  reader_sessions = one_session;
  persist_markers = Markers.new;
  db_table = row 1 1 5 ∷ row 2 1 5 ∷ [];
}

-- The key of the row is taken.
insert_taken : (insert table a_namespace a_table 9 (row 1 1 6) world).0 ≡ err row_already_exists
unfolding insert
insert_taken = refl

replace_stale :
    (replace table a_namespace a_table 9 (row 1 1 6) 4 world).0
    ≡ err optimistic_concurrency_update_fails
unfolding replace
replace_stale = refl

replace-IsAnnounced_example :
    IsAnnounced table content a_namespace a_table world
      (replace table a_namespace a_table 9 (row 1 1 6) 4 world).1
    × IsReplaced table
        (row 1 1 6)
        4
        (content world.db_table)
        (content (replace table a_namespace a_table 9 (row 1 1 6) 4 world).1.db_table)
        (replace table a_namespace a_table 9 (row 1 1 6) 4 world).0
replace-IsAnnounced_example =
    replace-IsAnnounced table content a_namespace a_table 9 table_laws world one_session-IsValid
      (row 1 1 6) 4

abbrev after_insert : World (List Row) Row Bool
after_insert = (insert table a_namespace a_table 9 (row 3 1 6) world).1

abbrev after_delete : World (List Row) Row Bool
after_delete = (delete_row table a_namespace a_table 9 (2 ∷ []) (1 ∷ []) after_insert).1

-- The row that was written at 5 has expired, and then no partition may stay.
abbrev after_collect : World (List Row) Row Bool
after_collect = (collect table a_namespace a_table 9 6 after_delete).1

abbrev after_keep : World (List Row) Row Bool
after_keep = keep_max_partitions_amount table a_namespace a_table 9 0 after_collect

one_expired : (collect table a_namespace a_table 9 6 after_delete).1.db_table ≡ row 3 1 6 ∷ []
unfolding collect applied insert delete_row written mark_partition_to_persist
one_expired = refl

Writes-IsFollowed_example : IsFollowed table a_namespace a_table content table_laws world after_keep
Writes-IsFollowed_example =
    Writes-IsFollowed table a_namespace a_table content table_laws one_session-IsValid (
      next
        (next (next (next here (inserted 9 (row 3 1 6))) (row_deleted 9 (2 ∷ []) (1 ∷ [])))
          (collected 9 6))
        (partitions_kept 9 0))
