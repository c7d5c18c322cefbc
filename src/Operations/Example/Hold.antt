-- ===== src/Operations/Example/Hold.antt =====
-- The laws hold of the list of rows.
use my_no_sql_server_grpc.Base.{
  ◌≡◌, refl, sym, ap, ◌∙◌, arith, true, false, List, [], ◌∷◌, ◌++◌, ◌⊎◌, inl, inr, none,
  if◌then◌else◌, List-cases, Bool-cases, Option-cases, Text, text_same, text_same_iff, ℕ, ◌≢◌,
  ==_iff, Option, some, drop,
}
use my_no_sql_server_grpc.Reader.Chunker.{PartitionItems}
use my_no_sql_server_grpc.Reader.Chunker.Partitions.{flat}
use my_no_sql_server_grpc.Registry.Gc.{is_in}
use my_no_sql_server_grpc.Operations.Core.{
  BulkWriteMode, insert_or_replace_rows, insert_or_replace_rows_if_new, clean_partitions_and_insert,
  clean_table_and_insert, replaced, row_not_found, version_mismatch,
}
use my_no_sql_server_grpc.Operations.Laws.{
  Content, Same, IsDbTable, is_key, upsert, upsert_all, forget, replay, last_of, whole_or,
  after_bulk, IsCollected,
}
use my_no_sql_server_grpc.Operations.Sync.Batches.{instructions}
use my_no_sql_server_grpc.Reader.Chunker.Group.{matching}
use my_no_sql_server_grpc.Operations.Example.{
  Row, key_of, row_key_of, size_of, content, keys_of, add, without_keys, without_partitions,
  newer_of, table, items_of, expired, rows_in, collect_rows, collect_partitions,
}

Same-path : (c d : Content Row) → Same c d → c ≡ d
Same-path c d h = λ i p k. h p k i

outside : (t : List Row) (p k : Text) → is_in p (keys_of t) ≡ false → content t p k ≡ none
outside [] p k h = refl
outside (r ∷ t) p k h = ground (arith, outside t p k)

is_in-append :
    (xs ys : List Row) (p : Text)
    → is_in p (keys_of (xs ++ ys)) ≡ false
    → (is_in p (keys_of xs) ≡ false) × (is_in p (keys_of ys) ≡ false)
is_in-append [] ys p h = (refl, h)
is_in-append (x ∷ xs) ys p h = ground (arith, is_in-append xs ys p)

within :
    (before after : List Row) (p k : Text)
    → is_in p (keys_of (before ++ after)) ≡ false
    → content after p k ≡ content before p k
within before after p k h =
    let (a, b) = is_in-append before after p h in outside after p k b ∙ sym (outside before p k a)

content-add :
    (rows t : List Row) → content (add rows t) ≡ upsert_all key_of row_key_of rows (content t)
content-add [] t = refl
content-add (r ∷ rows) t = content-add rows (r ∷ t)

content-without_keys :
    (keys : List (Text × Text)) (t : List Row) (p k : Text)
    → content (without_keys keys t) p k ≡ (if is_key p k keys then none else content t p k)
content-without_keys keys [] p k = ground arith
content-without_keys keys (r ∷ t) p k = ground (
  arith,
  content-without_keys keys t p k,
  text_same_iff r.partition_key p,
  text_same_iff r.row_key k,
)

content-without_partitions :
    (keys : List Text) (t : List Row) (p k : Text)
    → content (without_partitions keys t) p k ≡ forget key_of row_key_of keys (content t) p k
content-without_partitions keys [] p k = ground arith
content-without_partitions keys (r ∷ t) p k =
    ground (arith, content-without_partitions keys t p k, text_same_iff r.partition_key p)

forgotten :
    (keys : List Text) (t : List Row)
    → content (without_partitions keys t) ≡ forget key_of row_key_of keys (content t)
forgotten keys t =
    Same-path (content (without_partitions keys t)) (forget key_of row_key_of keys (content t))
      (content-without_partitions keys t)

-- The rows of a partition, one after the other.
upserted :
    (rows : List Row) (c : Content Row) (p k : Text)
    → upsert_all key_of row_key_of rows c p k
      ≡ elim (last_of key_of row_key_of k (matching key_of p rows)) [
        | none ↦ c p k
        | some r ↦ some r
      ]
upserted [] c p k = refl
upserted (r ∷ rows) c p k =
    upserted rows (upsert key_of row_key_of r c) p k
    ∙ elim (Bool-cases (text_same r.partition_key p)) [
      | inl same ↦ elim (Option-cases (last_of key_of row_key_of k (matching key_of p rows))) [
        | inl none_later ↦ ground arith
        | inr (later, there) ↦ ground arith
      ]
      | inr other ↦ ground arith
    ]

keys-matching :
    (rows : List Row) (p : Text)
    → is_in p (keys_of rows) ≡ (elim (matching key_of p rows) [ [] ↦ false | r ∷ rs ↦ true ])
keys-matching [] p = refl
keys-matching (r ∷ rows) p = ground (arith, keys-matching rows p)

abbrev or_last : Row → List Row → Text → Option Row → Option Row
or_last r rows k c = elim (last_of key_of row_key_of k (r ∷ rows)) [ none ↦ c | some s ↦ some s ]

same_option : (o : Option Row) → (elim o [ none ↦ none | some s ↦ some s ]) ≡ o
same_option none = refl
same_option (some s) = refl

last_of-some :
    (r : Row) (rows : List Row) (k : Text) (c : Option Row)
    → or_last r rows k none ≡ whole_or key_of row_key_of (r ∷ rows) k c
last_of-some r rows k c = same_option (last_of key_of row_key_of k (r ∷ rows))

content-replaced :
    (rows t : List Row)
    → Same
        (content (add rows (without_partitions (keys_of rows) t)))
        (after_bulk key_of row_key_of clean_partitions_and_insert rows (content t))
content-replaced rows t p k =
    let t1 = without_partitions (keys_of rows) t in
    let c : content (add rows t1) p k ≡ upsert_all key_of row_key_of rows (content t1) p k =
      ap (λ (d : Content Row). d p k) (content-add rows t1) in
    let e = upserted rows (content t1) p k in
    let f = content-without_partitions (keys_of rows) t p k in
    c
    ∙ (e ∙ elim (List-cases (matching key_of p rows)) [
      | inl nothing ↦ rw nothing (f ∙ rw (keys-matching rows p, nothing) refl)
      | inr (r, rs, some_there) ↦
          let gone : content t1 p k ≡ none = f ∙ rw (keys-matching rows p, some_there) refl in
          rw some_there (ap (or_last r rs k) gone ∙ last_of-some r rs k (content t p k))
    ])

one_or_none : (r : Row) (t : List Row) → (newer_of t (r ∷ []) ≡ []) ⊎ (newer_of t (r ∷ []) ≡ r ∷ [])
one_or_none r t = ground arith

bulk_happened :
    (mode : BulkWriteMode) (rows t : List Row)
    → Same
        (content (table.bulk_write mode rows t).1)
        (after_bulk key_of row_key_of mode (table.bulk_write mode rows t).0.written (content t))
bulk_happened insert_or_replace_rows rows t p k =
    ap (λ (c : Content Row). c p k) (content-add rows t)
bulk_happened insert_or_replace_rows_if_new rows t p k =
    ap (λ (c : Content Row). c p k) (content-add (newer_of t rows) t)
bulk_happened clean_partitions_and_insert rows t p k = content-replaced rows t p k
bulk_happened clean_table_and_insert rows t p k =
    ap (λ (c : Content Row). c p k) (content-add rows [])

bulk_within :
    (mode : BulkWriteMode) (rows t : List Row) (p k : Text)
    → is_in p (table.bulk_write mode rows t).0.partitions_to_persist ≡ false
    → content (table.bulk_write mode rows t).1 p k ≡ content t p k
bulk_within insert_or_replace_rows rows t p k h = within t (add rows t) p k h
bulk_within insert_or_replace_rows_if_new rows t p k h = within t (add (newer_of t rows) t) p k h
bulk_within clean_partitions_and_insert rows t p k h =
    within t (add rows (without_partitions (keys_of rows) t)) p k h
bulk_within clean_table_and_insert rows t p k h = within t (add rows []) p k h

deleted_keys :
    (actions : List (PartitionItems Text)) (t : List Row)
    → Same (content (table.apply_transaction actions t).1) (
        replay table
          (instructions key_of size_of (table.apply_transaction actions t).0.changes)
          (content t))
deleted_keys actions t p k = elim (List-cases (flat actions)) [
  | inl nothing ↦ content-without_keys (flat actions) t p k ∙ rw nothing refl
  | inr (x, xs, some_left) ↦ content-without_keys (flat actions) t p k ∙ rw some_left refl
]

replace_taken_row :
    (r : Row) (version : ℕ) (t : List Row)
    → (table.replace_if_version_matches r version t).0 ≡ replaced
    → Same
        (content (table.replace_if_version_matches r version t).1)
        (upsert key_of row_key_of r (content t))
      × (stored : Row) × (content t r.partition_key r.row_key ≡ some stored)
      × (stored.time_stamp ≡ version)
replace_taken_row r version t done = elim (Option-cases (content t r.partition_key r.row_key)) [
  | inl nobody ↦ absurd (ground arith)
  | inr (stored, there) ↦
      (λ p k. ground arith, stored, there, ground (arith, ==_iff stored.time_stamp version))
]

replace_missing_row :
    (r : Row) (version : ℕ) (t : List Row)
    → (table.replace_if_version_matches r version t).0 ≡ row_not_found
    → Same (content (table.replace_if_version_matches r version t).1) (content t)
      × (content t r.partition_key r.row_key ≡ none)
replace_missing_row r version t missing = (λ p k. ground arith, ground arith)

replace_newer_row :
    (r : Row) (version : ℕ) (t : List Row)
    → (table.replace_if_version_matches r version t).0 ≡ version_mismatch
    → Same (content (table.replace_if_version_matches r version t).1) (content t)
      × (stored : Row) × (content t r.partition_key r.row_key ≡ some stored)
      × (stored.time_stamp ≢ version)
replace_newer_row r version t newer = elim (Option-cases (content t r.partition_key r.row_key)) [
  | inl nobody ↦ absurd (ground arith)
  | inr (stored, there) ↦
      (λ p k. ground arith, stored, there, λ e. ground (arith, ==_iff stored.time_stamp version))
]

rows-IsCollected :
    (rows t : List Row)
    → IsCollected table (content t) (collect_rows rows t).0 (content (collect_rows rows t).1)
rows-IsCollected rows t = record {
  happened = λ p k. content-without_keys (flat (items_of rows)) t p k;
  within = λ p k h. within t (without_keys (flat (items_of rows)) t) p k h;
  idle = λ e p k. elim (List-cases rows) [
    | inl nothing ↦ content-without_keys (flat (items_of rows)) t p k ∙ rw nothing refl
    | inr (r, rs, some_left) ↦ absurd (ground arith)
  ];
}

partitions-IsCollected :
    (keys : List Text) (t : List Row)
    → IsCollected table
        (content t)
        (collect_partitions keys t).0
        (content (collect_partitions keys t).1)
partitions-IsCollected keys t = record {
  happened = λ p k. ground (arith, content-without_partitions keys t p k);
  within = λ p k h. within t (without_partitions keys t) p k h;
  idle = λ e p k. elim (List-cases keys) [
    | inl nothing ↦ content-without_partitions keys t p k ∙ rw nothing refl
    | inr (r, rs, some_left) ↦ absurd (ground arith)
  ];
}

pub table_laws : IsDbTable table content
table_laws = record {
  insert_if_not_exists_taken = λ r t taken p k. ground arith;
  insert_if_not_exists_refused = λ r t refused p k. ground arith;
  insert_or_replace_taken = λ r t p k. refl;
  bulk_write_happened = bulk_happened;
  bulk_write_within = bulk_within;
  if_new_written = one_or_none;
  replace_taken = λ r version t done. replace_taken_row r version t done;
  replace_not_found = λ r version t missing. replace_missing_row r version t missing;
  replace_mismatch = λ r version t newer. replace_newer_row r version t newer;
  delete_row_done = λ p k t r present q j. ground (arith, content-without_keys ((p, k) ∷ []) t q j);
  delete_row_absent = λ p k t absent q j. ground arith;
  delete_partitions_done = λ keys t p k. content-without_partitions keys t p k;
  clean_done = λ t p k. refl;
  clean_known = outside;
  apply_transaction_happened = deleted_keys;
  apply_transaction_within = λ actions t p k h. within t (without_keys (flat actions) t) p k h;
  gc_collected = λ now t. rows-IsCollected (expired now t) t;
  keep_max_partitions_collected = λ max t. partitions-IsCollected (drop max (keys_of t)) t;
  keep_max_rows_collected = λ p max t. rows-IsCollected (drop max (rows_in p t)) t;
  set_attributes_kept = λ a t p k. refl;
  gc_schemas_kept = λ t p k. refl;
}
