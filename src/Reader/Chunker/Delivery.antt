-- ===== src/Reader/Chunker/Delivery.antt =====
-- What a reader gets out of the chunks of a batch that is cut partition by partition.
use my_no_sql_server_grpc.Base.{
  ℕ, ◌≡◌, refl, sym, ap, ◌∙◌, arith, List, [], ◌∷◌, ◌++◌, inl, inr, none, concat, map,
  if◌then◌else◌, append-nil, Bool-cases, Text, text_eq, text_same, text_same_iff,
}
use my_no_sql_server_grpc.Base.Assoc.{lookup, Distinct}
use my_no_sql_server_grpc.Reader.Chunker.{
  PartitionItems, group_by_partition, split_groups, split_partition_rows, split_partition_row_keys,
}
use my_no_sql_server_grpc.Reader.Chunker.Rows.{IsSplit, split_rows-IsSplit}
use my_no_sql_server_grpc.Reader.Chunker.Group.{as_map, rows_at, matching, group_by_partition-kept}
use my_no_sql_server_grpc.Reader.Chunker.Partitions.{
  keyed, flat, flat-concat, keyed_size, split_groups-flat,
}

-- The items of one partition, of all the items that arrived.
abbrev pub select : {A : Type 0} → Text → List (Text × A) → List A
select key [] = []
select key ((j, x) ∷ xs) = if text_same j key then x ∷ select key xs else select key xs

module _ {A : Type 0} where
  select-append :
      (key : Text) (xs ys : List (Text × A))
      → select key (xs ++ ys) ≡ select key xs ++ select key ys
  select-append key [] ys = refl
  select-append key ((j, x) ∷ xs) ys = ground (arith, select-append key xs ys)

  select-keyed :
      (key j : Text) (xs : List A) → select key (keyed j xs) ≡ (if text_same j key then xs else [])
  select-keyed key j [] = ground arith
  select-keyed key j (x ∷ xs) = ground (arith, select-keyed key j xs)

  flat-select :
      (key : Text) (ps : List (PartitionItems A))
      → Distinct (as_map ps)
      → select key (flat ps) ≡ rows_at key (as_map ps)
  flat-select key [] d = refl
  flat-select key (p ∷ ps) d =
      let e = select-append key (keyed p.partition_key p.items) (flat ps) in
      let e' = select-keyed key p.partition_key p.items in
      let rest : select key (flat ps) ≡ rows_at key (as_map ps) = flat-select key ps d.1 in
      elim (Bool-cases (text_same p.partition_key key)) [
        | inl same ↦
            let here : p.partition_key ≡ key = ground (arith, text_same_iff p.partition_key key) in
            let gone : lookup key (as_map ps) ≡ none =
              ap (λ j. lookup j (as_map ps)) (sym here) ∙ d.0 in
            ground (arith, append-nil p.items)
        | inr other ↦ ground arith
      ]

-- A subscriber that collects the chunks up to the closing message holds, for every partition, the rows
-- of the batch in their order; and the chunks are bounded in rows and bytes as those of `split_rows`.
pub split_partition_rows-delivers :
    {R : Type 0} (key_of : R → Text) (size : R → ℕ) (rows : List R)
    → ((key : Text)
        → select key (flat (concat (split_partition_rows key_of size rows)))
          ≡ matching key_of key rows)
      × IsSplit
          (keyed_size size)
          (flat (group_by_partition key_of rows))
          (map flat (split_partition_rows key_of size rows))
unfolding split_partition_rows
split_partition_rows-delivers key_of size rows =
    let groups = group_by_partition key_of rows in
    let (distinct, kept) = group_by_partition-kept key_of rows in
    let cut = split_rows-IsSplit (keyed_size size) (flat groups) in
    let e = split_groups-flat size groups in
    let whole : flat (concat (split_groups size groups)) ≡ flat groups =
      flat-concat (split_groups size groups) ∙ ap concat e ∙ cut.kept in
    (λ key. ap (select key) whole ∙ flat-select key groups distinct ∙ kept key, rw e cut)

-- The row keys of a delete arrive in the order of the call, at most a thousand in a chunk.
pub split_partition_row_keys-delivers :
    (partitions : List (PartitionItems Text))
    → IsSplit
        (keyed_size (λ _. 0))
        (flat partitions)
        (map flat (split_partition_row_keys partitions))
unfolding split_partition_row_keys
split_partition_row_keys-delivers partitions =
    rw (split_groups-flat (λ _. 0) partitions)
      (split_rows-IsSplit (keyed_size (λ _. 0)) (flat partitions))
