-- ===== src/Reader/Chunker/Partitions.antt =====
-- `split_partition_rows` and `split_partition_row_keys` cut where `split_rows` cuts.
use my_no_sql_server_grpc.Base.{
  ℕ, ◌+◌, ◌≡◌, refl, sym, ap, ◌∙◌, arith, ◌||◌, List, [], ◌∷◌, ◌++◌, inl, inr, length, concat, map,
  leb, append_assoc, append-nil, length-append, Bool-cases, List-cases, Text, text_same,
  text_same_iff,
}
use my_no_sql_server_grpc.Reader.Chunker.{
  max_rows_per_chunk, max_chunk_size, PartitionItems, push_item, Splitting, split_step, split_loop,
  push_last, split_rows, PartitionSplitting, partition_step, items_loop, groups_loop, split_groups,
}

-- The items of a list, each with its partition, in the order they are written.
abbrev pub keyed : {A : Type 0} → Text → List A → List (Text × A)
keyed key [] = []
keyed key (x ∷ xs) = (key, x) ∷ keyed key xs

abbrev pub flat : {A : Type 0} → List (PartitionItems A) → List (Text × A)
flat [] = []
flat (p ∷ ps) = keyed p.partition_key p.items ++ flat ps

keyed-append :
    {A : Type 0} (key : Text) (xs ys : List A) → keyed key (xs ++ ys) ≡ keyed key xs ++ keyed key ys
keyed-append key [] ys = refl
keyed-append key (x ∷ xs) ys = ap (◌∷◌ (key, x)) (keyed-append key xs ys)

flat-append : {A : Type 0} (ps qs : List (PartitionItems A)) → flat (ps ++ qs) ≡ flat ps ++ flat qs
flat-append [] qs = refl
flat-append (p ∷ ps) qs = rw (flat-append ps qs, append_assoc)

pub flat-concat :
    {A : Type 0} (chunks : List (List (PartitionItems A)))
    → flat (concat chunks) ≡ concat (map flat chunks)
flat-concat [] = refl
flat-concat (c ∷ chunks) =
    flat-append c (concat chunks) ∙ ap (λ t. flat c ++ t) (flat-concat chunks)

flat-push_item :
    {A : Type 0} (ps : List (PartitionItems A)) (key : Text) (item : A)
    → flat (push_item ps key item) ≡ flat ps ++ ((key, item) ∷ [])
unfolding push_item
flat-push_item [] key item = refl
flat-push_item (p ∷ []) key item = elim (Bool-cases (text_same p.partition_key key)) [
  | inl same ↦
      let e : p.partition_key ≡ key = ground (arith, text_same_iff p.partition_key key) in
      rw (same, push_item)
        (append-nil (keyed p.partition_key (p.items ++ (item ∷ [])))
          ∙ keyed-append p.partition_key p.items (item ∷ [])
          ∙ ap (λ j. keyed p.partition_key p.items ++ ((j, item) ∷ [])) e
          ∙ ap (λ t. t ++ ((key, item) ∷ [])) (sym (append-nil (keyed p.partition_key p.items))))
  | inr other ↦
      rw (other, push_item)
        (ap (λ t. t ++ ((key, item) ∷ [])) (sym (append-nil (keyed p.partition_key p.items))))
]
flat-push_item (p ∷ q ∷ ps) key item =
    ap (λ t. keyed p.partition_key p.items ++ t) (flat-push_item (q ∷ ps) key item)
    ∙ sym (append_assoc (keyed p.partition_key p.items) (flat (q ∷ ps)) ((key, item) ∷ []))

module _ {A : Type 0} (size : A → ℕ) where
  abbrev pub keyed_size : Text × A → ℕ
  keyed_size e = size e.1

  -- What a chunk under construction is to `split_rows`.
  abbrev flat_state : PartitionSplitting size → Splitting keyed_size
  flat_state s = record {
    result = map flat s.result;
    chunk = flat s.chunk;
    chunk_size = s.chunk_size;
  }

  record IsCounted (s : PartitionSplitting size) : Type 0 where
    counted : s.chunk_rows ≡ length (flat s.chunk)
    occupied : length (flat s.chunk) ≡ 0 → s.chunk ≡ []

  map-append :
      (xss yss : List (List (PartitionItems A)))
      → map flat (xss ++ yss) ≡ map flat xss ++ map flat yss
  map-append [] yss = refl
  map-append (xs ∷ xss) yss = ap (◌∷◌ (flat xs)) (map-append xss yss)

  pushed_count :
      (ps : List (PartitionItems A)) (key : Text) (item : A)
      → length (flat (push_item ps key item)) ≡ length (flat ps) + 1
  pushed_count ps key item =
      ap length (flat-push_item ps key item) ∙ length-append (flat ps) ((key, item) ∷ [])

  partition_step-flat :
      (s : PartitionSplitting size) (key : Text) (item : A)
      → IsCounted s
      → (flat_state (partition_step size s key item)
          ≡ split_step keyed_size (flat_state s) (key, item))
        × IsCounted (partition_step size s key item)
  unfolding partition_step split_step
  partition_step-flat s key item h =
      let e = flat-push_item s.chunk key item in
      let n = length-append (flat s.chunk) ((key, item) ∷ []) in
      let counted : s.chunk_rows + 1 ≡ length (flat s.chunk ++ ((key, item) ∷ [])) =
        ground (arith, h.counted) in
      elim (Bool-cases (
        leb max_rows_per_chunk (s.chunk_rows + 1)
        || leb max_chunk_size (s.chunk_size + size item))) [
          | inl cut ↦ (
            rw (partition_step, split_step, ← counted, cut, map-append, e) refl,
            rw (partition_step, cut) (record { counted = refl; occupied = λ z. refl }),
          )
          | inr more ↦ (
            rw (partition_step, split_step, ← counted, more, e) refl,
            rw (partition_step, more)
                (record {
                  counted = counted ∙ ap length (sym e);
                  occupied = λ z. absurd (omega (arith, z, pushed_count s.chunk key item));
                }),
          )
        ]

  items_loop-flat :
      (s : PartitionSplitting size) (key : Text) (items : List A)
      → IsCounted s
      → (flat_state (items_loop size s key items)
          ≡ split_loop keyed_size (flat_state s) (keyed key items))
        × IsCounted (items_loop size s key items)
  unfolding items_loop split_loop
  items_loop-flat s key [] h = (refl, h)
  items_loop-flat s key (item ∷ items) h =
      let (e, h') = partition_step-flat s key item h in
      let (e', h'') = items_loop-flat (partition_step size s key item) key items h' in
      (e' ∙ ap (λ (t : Splitting keyed_size). split_loop keyed_size t (keyed key items)) e, h'')

  split_loop-append :
      (s : Splitting keyed_size) (xs ys : List (Text × A))
      → split_loop keyed_size s (xs ++ ys) ≡ split_loop keyed_size (split_loop keyed_size s xs) ys
  unfolding split_loop
  split_loop-append s [] ys = refl
  split_loop-append s (x ∷ xs) ys = split_loop-append (split_step keyed_size s x) xs ys

  groups_loop-flat :
      (s : PartitionSplitting size) (groups : List (PartitionItems A))
      → IsCounted s
      → (flat_state (groups_loop size s groups)
          ≡ split_loop keyed_size (flat_state s) (flat groups))
        × IsCounted (groups_loop size s groups)
  unfolding groups_loop split_loop
  groups_loop-flat s [] h = (refl, h)
  groups_loop-flat s (g ∷ groups) h =
      let (e, h') = items_loop-flat s g.partition_key g.items h in
      let (e', h'') = groups_loop-flat (items_loop size s g.partition_key g.items) groups h' in
      (
        e'
            ∙ ap (λ (t : Splitting keyed_size). split_loop keyed_size t (flat groups)) e
            ∙ sym (split_loop-append (flat_state s) (keyed g.partition_key g.items) (flat groups)),
        h'',
      )

  push_last-flat :
      (result : List (List (PartitionItems A))) (chunk : List (PartitionItems A))
      → (length (flat chunk) ≡ 0 → chunk ≡ [])
      → map flat (push_last result chunk) ≡ push_last (map flat result) (flat chunk)
  unfolding push_last
  push_last-flat result [] h = refl
  push_last-flat result (p ∷ chunk) h = elim (List-cases (flat (p ∷ chunk))) [
    | inl none_left ↦ absurd (ground (arith, h (ap length none_left)))
    | inr (x, xs, e) ↦
        map-append result ((p ∷ chunk) ∷ [])
        ∙ ap (λ t. map flat result ++ (t ∷ [])) e
        ∙ sym (ap (push_last (map flat result)) e)
  ]

  -- Partition by partition, the cuts fall where `split_rows` makes them in the same items written one
  -- after the other, each with its partition.
  pub split_groups-flat :
      (groups : List (PartitionItems A))
      → map flat (split_groups size groups) ≡ split_rows keyed_size (flat groups)
  unfolding split_groups split_rows
  split_groups-flat groups =
      let start : PartitionSplitting size = record {
        result = [];
        chunk = [];
        chunk_rows = 0;
        chunk_size = 0;
      } in
      let s = groups_loop size start groups in
      let (e, h) =
        groups_loop-flat start groups (record { counted = refl; occupied = λ z. refl }) in
      push_last-flat s.result s.chunk h.occupied
      ∙ ap (λ (t : Splitting keyed_size). push_last t.result t.chunk) e
