-- ===== src/Reader/Chunker/Tests.antt =====
-- Batches of concrete rows, and the theorems at them. A row is its partition and its size.
use my_no_sql_server_grpc.Base.{ℕ, ◌≡◌, refl, List, [], ◌∷◌, concat, map, Text}
use my_no_sql_server_grpc.Reader.Chunker.{
  PartitionItems, split_rows, group_by_partition, split_partition_rows, split_partition_row_keys,
  split_loop, split_step, push_last,
}
use my_no_sql_server_grpc.Reader.Chunker.Rows.{IsSplit, split_rows-IsSplit}
use my_no_sql_server_grpc.Reader.Chunker.Group.{matching}
use my_no_sql_server_grpc.Reader.Chunker.Partitions.{flat, keyed_size}
use my_no_sql_server_grpc.Reader.Chunker.Delivery.{
  select, split_partition_rows-delivers, split_partition_row_keys-delivers,
}

abbrev Row : Type 0
Row = Text × ℕ

abbrev key : Row → Text
key r = r.0

abbrev size : Row → ℕ
size r = r.1

abbrev rows : List Row
rows = (1 ∷ [], 1000000) ∷ (2 ∷ [], 48576) ∷ (1 ∷ [], 5) ∷ []

-- The second row brings the first chunk to exactly one MB.
cut_at_a_megabyte :
    split_rows size rows ≡ ((1 ∷ [], 1000000) ∷ (2 ∷ [], 48576) ∷ []) ∷ ((1 ∷ [], 5) ∷ []) ∷ []
unfolding split_rows split_loop split_step push_last
cut_at_a_megabyte = refl

split_rows-IsSplit_example : IsSplit size rows (split_rows size rows)
split_rows-IsSplit_example = split_rows-IsSplit size rows

split_partition_rows-delivers_example :
    ((k : Text)
      → select k (flat (concat (split_partition_rows key size rows))) ≡ matching key k rows)
    × IsSplit
        (keyed_size size)
        (flat (group_by_partition key rows))
        (map flat (split_partition_rows key size rows))
split_partition_rows-delivers_example = split_partition_rows-delivers key size rows

abbrev partitions : List (PartitionItems Text)
partitions = record { partition_key = 1 ∷ []; items = (5 ∷ []) ∷ (6 ∷ []) ∷ [] } ∷ []

split_partition_row_keys-delivers_example :
    IsSplit (keyed_size (λ _. 0)) (flat partitions) (map flat (split_partition_row_keys partitions))
split_partition_row_keys-delivers_example = split_partition_row_keys-delivers partitions
