-- ===== src/Reader/SyncChunk.antt =====
-- server/src/reader/sync_chunk.rs: what one answer to `GetChange` carries. `R` is the row and `A` the
-- attributes of a table, both of my_no_sql_grpc_core.
use my_no_sql_server_grpc.Base.{List, Text}
use my_no_sql_server_grpc.Reader.Chunker.{PartitionItems}

pub data SyncChunk (R A : Type 0) : Type 0 where
  clean_table : Text → SyncChunk R A
  update_table_attributes : Text → A → SyncChunk R A
  delete_table : Text → SyncChunk R A
  clean_partitions : Text → List Text → SyncChunk R A
  init_partitions : Text → List (PartitionItems R) → SyncChunk R A
  init_partitions_end : Text → SyncChunk R A
  update_rows : Text → List R → SyncChunk R A
  update_rows_end : Text → SyncChunk R A
  delete_rows : Text → List (PartitionItems Text) → SyncChunk R A
  delete_rows_end : Text → SyncChunk R A
