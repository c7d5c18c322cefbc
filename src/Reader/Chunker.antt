-- ===== src/Reader/Chunker.antt =====
-- server/src/reader/chunker.rs: a batch is cut into chunks of bounded size.
pub mod Rows
pub mod Group
pub mod Partitions
pub mod Delivery
mod Tests
use my_no_sql_server_grpc.Base.{
  ℕ, zero, suc, ◌+◌, ◌*◌, ◌≡◌, Bool, true, false, ◌||◌, List, [], ◌∷◌, ◌++◌, Option, none, some,
  leb, if◌then◌else◌, length, Text, text_eq, text_same,
}
use my_no_sql_server_grpc.Base.Assoc.{lookup, insert}

abbrev pub max_rows_per_chunk : ℕ
max_rows_per_chunk = 1000

abbrev pub max_chunk_size : ℕ
max_chunk_size = 1024 * 1024

-- `PartitionRows`, with `items` for its rows, and `PartitionRowKeys`, with `items` for its row keys.
pub record PartitionItems (A : Type 0) : Type 0 where
  pub partition_key : Text
  pub items : List A

-- `match chunk.last_mut()`: an item joins the last partition if it belongs there.
unfoldable pub push_item :
    {A : Type 0} → List (PartitionItems A) → Text → A → List (PartitionItems A)
push_item [] key item = record { partition_key = key; items = item ∷ [] } ∷ []
push_item (p ∷ []) key item =
    if text_same p.partition_key key
    then record p { items = p.items ++ (item ∷ []) } ∷ []
    else p ∷ record { partition_key = key; items = item ∷ [] } ∷ []
push_item (p ∷ q ∷ ps) key item = p ∷ push_item (q ∷ ps) key item

module _ {R : Type 0} (get_content_size : R → ℕ) where
  pub record Splitting : Type 0 where
    pub result : List (List R)
    pub chunk : List R
    pub chunk_size : ℕ

  -- One round of the loop of `split_rows`.
  unfoldable pub split_step : Splitting → R → Splitting
  split_step s db_row =
      let chunk_size = s.chunk_size + get_content_size db_row in
      let chunk = s.chunk ++ (db_row ∷ []) in
      if leb max_rows_per_chunk (length chunk) || leb max_chunk_size chunk_size
      then record { result = s.result ++ (chunk ∷ []); chunk = []; chunk_size = 0 }
      else record { result = s.result; chunk = chunk; chunk_size = chunk_size }

  unfoldable pub split_loop : Splitting → List R → Splitting
  split_loop s [] = s
  split_loop s (db_row ∷ rows) = split_loop (split_step s db_row) rows

-- `if !chunk.is_empty() { result.push(chunk) }`
unfoldable pub push_last {ℓ} : {A : Type ℓ} → List (List A) → List A → List (List A)
push_last result [] = result
push_last result (x ∷ chunk) = result ++ ((x ∷ chunk) ∷ [])

unfoldable pub split_rows : {R : Type 0} → (R → ℕ) → List R → List (List R)
split_rows get_content_size rows =
    let s = split_loop get_content_size (record { result = []; chunk = []; chunk_size = 0 }) rows in
    push_last s.result s.chunk

-- `result[index].rows.push(db_row)`
unfoldable pub push_at : {R : Type 0} → ℕ → R → List (PartitionItems R) → List (PartitionItems R)
push_at index db_row [] = []
push_at zero db_row (p ∷ ps) = record p { items = p.items ++ (db_row ∷ []) } ∷ ps
push_at (suc index) db_row (p ∷ ps) = p ∷ push_at index db_row ps

module _ {R : Type 0} (get_partition_key : R → Text) where
  pub record Grouping : Type 0 where
    pub result : List (PartitionItems R)
    pub at : List (Text × ℕ)

  -- One round of the loop of `group_by_partition`.
  unfoldable pub group_step : Grouping → R → Grouping
  group_step g db_row =
      let key = get_partition_key db_row in
      elim (lookup key g.at) [
        | some index ↦ record { result = push_at index db_row g.result; at = g.at }
        | none ↦ record {
          result = g.result ++ (record { partition_key = key; items = db_row ∷ [] } ∷ []);
          at = insert key (length g.result) g.at;
        }
      ]

  unfoldable pub group_loop : Grouping → List R → Grouping
  group_loop g [] = g
  group_loop g (db_row ∷ rows) = group_loop (group_step g db_row) rows

  unfoldable pub group_by_partition : List R → List (PartitionItems R)
  group_by_partition rows = (group_loop (record { result = []; at = [] }) rows).result

-- The loops of `split_partition_rows` and of `split_partition_row_keys`. An item has a size, which is
-- 0 for a row key: of those only the count is bounded.
module _ {A : Type 0} (get_content_size : A → ℕ) where
  pub record PartitionSplitting : Type 0 where
    pub result : List (List (PartitionItems A))
    pub chunk : List (PartitionItems A)
    pub chunk_rows : ℕ
    pub chunk_size : ℕ

  unfoldable pub partition_step : PartitionSplitting → Text → A → PartitionSplitting
  partition_step s key item =
      let chunk_rows = s.chunk_rows + 1 in
      let chunk_size = s.chunk_size + get_content_size item in
      let chunk = push_item s.chunk key item in
      if leb max_rows_per_chunk chunk_rows || leb max_chunk_size chunk_size
      then record { result = s.result ++ (chunk ∷ []); chunk = []; chunk_rows = 0; chunk_size = 0 }
      else record {
        result = s.result;
        chunk = chunk;
        chunk_rows = chunk_rows;
        chunk_size = chunk_size;
      }

  unfoldable pub items_loop : PartitionSplitting → Text → List A → PartitionSplitting
  items_loop s key [] = s
  items_loop s key (item ∷ items) = items_loop (partition_step s key item) key items

  unfoldable pub groups_loop : PartitionSplitting → List (PartitionItems A) → PartitionSplitting
  groups_loop s [] = s
  groups_loop s (group ∷ groups) = groups_loop (items_loop s group.partition_key group.items) groups

  unfoldable pub split_groups : List (PartitionItems A) → List (List (PartitionItems A))
  split_groups groups =
      let s =
        groups_loop (record { result = []; chunk = []; chunk_rows = 0; chunk_size = 0 }) groups in
      push_last s.result s.chunk

unfoldable pub split_partition_rows :
    {R : Type 0} → (R → Text) → (R → ℕ) → List R → List (List (PartitionItems R))
split_partition_rows get_partition_key get_content_size rows =
    split_groups get_content_size (group_by_partition get_partition_key rows)

unfoldable pub split_partition_row_keys :
    List (PartitionItems Text) → List (List (PartitionItems Text))
split_partition_row_keys partitions = split_groups (λ _. 0) partitions
