-- ===== src/Reader/Chunker/Group.antt =====
-- `group_by_partition`: one group for a partition, with its rows in their order.
use my_no_sql_server_grpc.Base.{
  ℕ, zero, suc, ◌≡◌, refl, sym, ap, ◌∙◌, arith, List, [], ◌∷◌, ◌++◌, inl, inr, Option, none, some,
  length, if◌then◌else◌, append_assoc, append-nil, Option-cases, Text, text_eq, text_same,
  text_same_iff,
}
use my_no_sql_server_grpc.Base.Assoc.{lookup, insert, lookup-insert, Distinct, insert-Distinct}
use my_no_sql_server_grpc.Reader.Chunker.{
  PartitionItems, push_at, Grouping, group_step, group_loop, group_by_partition,
}

module _ {R : Type 0} where
  -- The groups as a map, and the index of a group.
  abbrev pub as_map : List (PartitionItems R) → List (Text × List R)
  as_map [] = []
  as_map (p ∷ ps) = (p.partition_key, p.items) ∷ as_map ps

  abbrev pub rows_at : Text → List (Text × List R) → List R
  rows_at key m = elim (lookup key m) [ none ↦ [] | some rows ↦ rows ]

  abbrev index_of : Text → List (PartitionItems R) → Option ℕ
  index_of key [] = none
  index_of key (p ∷ ps) =
      if text_same p.partition_key key
      then some 0
      else elim (index_of key ps) [ none ↦ none | some i ↦ some (suc i) ]

  abbrev new_group : Text → R → PartitionItems R
  new_group key row = record { partition_key = key; items = row ∷ [] }

  as_map-push_at :
      (key : Text) (row : R) (index : ℕ) (ps : List (PartitionItems R))
      → index_of key ps ≡ some index
      → as_map (push_at index row ps)
        ≡ insert key (rows_at key (as_map ps) ++ (row ∷ [])) (as_map ps)
  unfolding push_at
  as_map-push_at key row index [] h = absurd (cc)
  as_map-push_at key row zero (p ∷ ps) h = ground (arith, text_same_iff p.partition_key key)
  as_map-push_at key row (suc index) (p ∷ ps) h =
      ground (arith, text_same_iff p.partition_key key, as_map-push_at key row index ps)

  as_map-new :
      (key : Text) (row : R) (ps : List (PartitionItems R))
      → index_of key ps ≡ none
      → as_map (ps ++ (new_group key row ∷ []))
        ≡ insert key (rows_at key (as_map ps) ++ (row ∷ [])) (as_map ps)
  as_map-new key row [] h = refl
  as_map-new key row (p ∷ ps) h =
      ground (arith, text_same_iff p.partition_key key, as_map-new key row ps)

  index_of-push_at :
      (index : ℕ) (row : R) (ps : List (PartitionItems R)) (key : Text)
      → index_of key (push_at index row ps) ≡ index_of key ps
  unfolding push_at
  index_of-push_at index row [] key = refl
  index_of-push_at zero row (p ∷ ps) key = refl
  index_of-push_at (suc index) row (p ∷ ps) key = rw (index_of-push_at index row ps key)

  index_of-new :
      (key : Text) (row : R) (ps : List (PartitionItems R)) (j : Text)
      → index_of key ps ≡ none
      → index_of j (ps ++ (new_group key row ∷ []))
        ≡ (if text_same key j then some (length ps) else index_of j ps)
  index_of-new key row [] j h = refl
  index_of-new key row (p ∷ ps) j h = ground (
    arith,
    text_same_iff p.partition_key key,
    text_same_iff p.partition_key j,
    text_same_iff key j,
    index_of-new key row ps j,
  )

  abbrev pub matching : (R → Text) → Text → List R → List R
  matching key_of key [] = []
  matching key_of key (row ∷ rows) =
      if text_same (key_of row) key
      then row ∷ matching key_of key rows
      else matching key_of key rows

module _ {R : Type 0} (key_of : R → Text) where
  matching-append :
      (key : Text) (xs ys : List R)
      → matching key_of key (xs ++ ys) ≡ matching key_of key xs ++ matching key_of key ys
  matching-append key [] ys = refl
  matching-append key (x ∷ xs) ys = ground (arith, matching-append key xs ys)

  record IsGrouping (seen : List R) (g : Grouping key_of) : Type 0 where
    indexed : (key : Text) → lookup key g.at ≡ index_of key g.result
    distinct : Distinct (as_map g.result)
    kept : (key : Text) → rows_at key (as_map g.result) ≡ matching key_of key seen

  kept_after :
      (seen : List R) (row : R) (m : List (Text × List R)) (key : Text)
      → rows_at key m ≡ matching key_of key seen
      → rows_at (key_of row) m ≡ matching key_of (key_of row) seen
      → rows_at key (insert (key_of row) (rows_at (key_of row) m ++ (row ∷ [])) m)
        ≡ matching key_of key (seen ++ (row ∷ []))
  kept_after seen row m key h k = ground (
    arith,
    text_same_iff (key_of row) key,
    matching-append key seen (row ∷ []),
    lookup-insert (key_of row) key (rows_at (key_of row) m ++ (row ∷ [])) m,
    append-nil (matching key_of key seen),
  )

  group_step-IsGrouping :
      (seen : List R) (row : R) (g : Grouping key_of)
      → IsGrouping seen g
      → IsGrouping (seen ++ (row ∷ [])) (group_step key_of g row)
  unfolding group_step
  group_step-IsGrouping seen row g h =
      let key = key_of row in
      let m = as_map g.result in
      let rows = rows_at key m ++ (row ∷ []) in
      elim (Option-cases (lookup key g.at)) [
        | inl absent ↦
            let e : index_of key g.result ≡ none = sym (h.indexed key) ∙ absent in
            let e' = as_map-new key row g.result e in
            rw (group_step, absent)
              (record {
                indexed = λ j.
                    lookup-insert key j (length g.result) g.at
                    ∙ ap (λ (t : Option ℕ). if text_same key j then some (length g.result) else t)
                        (h.indexed j)
                    ∙ sym (index_of-new key row g.result j e);
                distinct = rw e' (insert-Distinct key rows m h.distinct);
                kept = λ j. ap (rows_at j) e' ∙ kept_after seen row m j (h.kept j) (h.kept key);
              })
        | inr (index, present) ↦
            let e : index_of key g.result ≡ some index = sym (h.indexed key) ∙ present in
            let e' = as_map-push_at key row index g.result e in
            rw (group_step, present)
              (record {
                indexed = λ j. h.indexed j ∙ sym (index_of-push_at index row g.result j);
                distinct = rw e' (insert-Distinct key rows m h.distinct);
                kept = λ j. ap (rows_at j) e' ∙ kept_after seen row m j (h.kept j) (h.kept key);
              })
      ]

  group_loop-IsGrouping :
      (seen rows : List R) (g : Grouping key_of)
      → IsGrouping seen g
      → IsGrouping (seen ++ rows) (group_loop key_of g rows)
  unfolding group_loop
  group_loop-IsGrouping seen [] g h = rw (append-nil seen) h
  group_loop-IsGrouping seen (row ∷ rows) g h = rw (← append_assoc seen (row ∷ []) rows) (
      group_loop-IsGrouping (seen ++ (row ∷ [])) rows (group_step key_of g row)
        (group_step-IsGrouping seen row g h))

  -- No partition has two groups, and a group holds the rows of its partition in the order of the batch.
  pub group_by_partition-kept :
      (rows : List R)
      → Distinct (as_map (group_by_partition key_of rows))
        × ((key : Text)
            → rows_at key (as_map (group_by_partition key_of rows)) ≡ matching key_of key rows)
  unfolding group_by_partition
  group_by_partition-kept rows =
      let start : Grouping key_of = record { result = []; at = [] } in
      let h =
        group_loop-IsGrouping [] rows start
          (record { indexed = λ key. refl; distinct = tt; kept = λ key. refl }) in
      (h.distinct, h.kept)
