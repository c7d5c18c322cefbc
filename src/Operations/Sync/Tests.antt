-- ===== src/Operations/Sync/Tests.antt =====
-- What one subscriber is told about concrete writes. A row is its partition and its size.
use my_no_sql_server_grpc.Base.{ℕ, ◌≡◌, refl, Bool, List, [], ◌∷◌, Text}
use my_no_sql_server_grpc.Registry.Create.{IsValid}
use my_no_sql_server_grpc.Reader.Chunker.{split_rows, split_loop, split_step, push_last}
use my_no_sql_server_grpc.Reader.SyncChunk.{SyncChunk, update_rows, update_rows_end, clean_table}
use my_no_sql_server_grpc.Reader.Sessions.{id_of, get}
use my_no_sql_server_grpc.Reader.Example.{a_namespace, a_table, one_session, one_session-IsValid}
use my_no_sql_server_grpc.Operations.Core.{
  AppliedChange, table_cleaned, rows_written, clean_partitions_and_insert,
}
use my_no_sql_server_grpc.Operations.Sync.{
  enqueue, push_changes, push_change, push_updated_rows, bulk_chunks,
}
use my_no_sql_server_grpc.Operations.Sync.Subscribers.{after_told, enqueue-told}
use my_no_sql_server_grpc.Operations.Sync.Mirror.{Instruction, IsTold}
use my_no_sql_server_grpc.Operations.Sync.Batches.{
  instructions, IsReplacedBy, changes-received, bulk-received,
}

abbrev Row : Type 0
Row = Text × ℕ

abbrev key : Row → Text
key r = r.0

abbrev size : Row → ℕ
size r = r.1

abbrev changes : List (AppliedChange Row)
changes = table_cleaned ∷ rows_written [] ∷ rows_written ((1 ∷ [], 5) ∷ []) ∷ []

abbrev chunks : List (SyncChunk Row Bool)
chunks = clean_table a_table ∷ update_rows a_table ((1 ∷ [], 5) ∷ []) ∷ update_rows_end a_table ∷ []

-- The change without rows is not told at all.
told_chunks : push_changes key size [] a_table changes ≡ chunks
unfolding push_changes push_change push_updated_rows split_rows split_loop split_step push_last
told_chunks = refl

enqueue-told_example :
    IsValid id_of (enqueue key size a_namespace a_table chunks one_session)
    × ((id : Text)
        → get id (enqueue key size a_namespace a_table chunks one_session)
          ≡ after_told key size a_namespace a_table chunks (get id one_session))
enqueue-told_example =
    enqueue-told key size a_namespace a_table chunks one_session one_session-IsValid

changes-received_example :
    IsTold {A = Bool} a_table
      (instructions key size changes)
      (push_changes key size [] a_table changes)
changes-received_example = changes-received key size a_table changes

bulk-received_example :
    (told : List (Instruction Row Bool)) × IsReplacedBy key size clean_partitions_and_insert
      ((1 ∷ [], 5) ∷ (2 ∷ [], 5) ∷ (1 ∷ [], 6) ∷ [])
      told
    × IsTold a_table told (
        bulk_chunks key size a_table clean_partitions_and_insert
          ((1 ∷ [], 5) ∷ (2 ∷ [], 5) ∷ (1 ∷ [], 6) ∷ []))
bulk-received_example =
    bulk-received key size a_table clean_partitions_and_insert
      ((1 ∷ [], 5) ∷ (2 ∷ [], 5) ∷ (1 ∷ [], 6) ∷ [])
