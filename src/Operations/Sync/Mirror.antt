-- ===== src/Operations/Sync/Mirror.antt =====
-- A subscriber of one table: it collects a batch up to its end and then applies it whole, and passes over the chunks of
-- other tables.
use my_no_sql_server_grpc.Base.{
  ◌≡◌, refl, sym, ap, ◌∙◌, Bool-cases, inl, inr, false, List, [], ◌∷◌, ◌++◌, map, if◌then◌else◌,
  append_assoc, append-nil, All, Text, text_same, text_same_iff,
}
use my_no_sql_server_grpc.Reader.Chunker.Partitions.{flat}
use my_no_sql_server_grpc.Reader.SyncChunk.{
  SyncChunk, clean_table, update_table_attributes, delete_table, clean_partitions, init_partitions,
  init_partitions_end, update_rows, update_rows_end, delete_rows, delete_rows_end,
}

-- One thing that a subscriber applies.
pub data Instruction (R A : Type 0) : Type 0 where
  forget_table : Instruction R A
  take_attributes : A → Instruction R A
  drop_table : Instruction R A
  forget_partitions : List Text → Instruction R A
  replace_partitions : List (Text × R) → Instruction R A
  write_rows : List R → Instruction R A
  remove_rows : List (Text × Text) → Instruction R A

-- The batches that have not ended, and the instructions applied so far.
pub record Mirror (R A : Type 0) : Type 0 where
  pub initial : List (Text × R)
  pub rows : List R
  pub keys : List (Text × Text)
  pub applied : List (Instruction R A)

module _ {R A : Type 0} where
  -- What a chunk of the table does.
  abbrev pub apply : Mirror R A → SyncChunk R A → Mirror R A
  apply m (clean_table t) = record m { applied = m.applied ++ (forget_table ∷ []) }
  apply m (update_table_attributes t a) = record m {
    applied = m.applied ++ (take_attributes a ∷ []);
  }
  apply m (delete_table t) = record m { applied = m.applied ++ (drop_table ∷ []) }
  apply m (clean_partitions t keys) = record m {
    applied = m.applied ++ (forget_partitions keys ∷ []);
  }
  apply m (init_partitions t partitions) = record m { initial = m.initial ++ flat partitions }
  apply m (init_partitions_end t) = record m {
    initial = [];
    applied = m.applied ++ (replace_partitions m.initial ∷ []);
  }
  apply m (update_rows t rows) = record m { rows = m.rows ++ rows }
  apply m (update_rows_end t) = record m {
    rows = [];
    applied = m.applied ++ (write_rows m.rows ∷ []);
  }
  apply m (delete_rows t partitions) = record m { keys = m.keys ++ flat partitions }
  apply m (delete_rows_end t) = record m {
    keys = [];
    applied = m.applied ++ (remove_rows m.keys ∷ []);
  }

  abbrev pub apply_all : Mirror R A → List (SyncChunk R A) → Mirror R A
  apply_all m [] = m
  apply_all m (c ∷ chunks) = apply_all (apply m c) chunks

  -- Between two batches.
  abbrev pub at_rest : List (Instruction R A) → Mirror R A
  at_rest applied = record { initial = []; rows = []; keys = []; applied = applied }

  pub apply_all-append :
      (m : Mirror R A) (xs ys : List (SyncChunk R A))
      → apply_all m (xs ++ ys) ≡ apply_all (apply_all m xs) ys
  apply_all-append m [] ys = refl
  apply_all-append m (x ∷ xs) ys = apply_all-append (apply m x) xs ys

  -- The table that a chunk names.
  abbrev pub table_of : SyncChunk R A → Text
  table_of (clean_table t) = t
  table_of (update_table_attributes t a) = t
  table_of (delete_table t) = t
  table_of (clean_partitions t keys) = t
  table_of (init_partitions t partitions) = t
  table_of (init_partitions_end t) = t
  table_of (update_rows t rows) = t
  table_of (update_rows_end t) = t
  table_of (delete_rows t partitions) = t
  table_of (delete_rows_end t) = t

  -- The copy of the table `u`.
  abbrev pub receive : Text → Mirror R A → SyncChunk R A → Mirror R A
  receive u m c = if text_same (table_of c) u then apply m c else m

  abbrev pub receive_all : Text → Mirror R A → List (SyncChunk R A) → Mirror R A
  receive_all u m [] = m
  receive_all u m (c ∷ chunks) = receive_all u (receive u m c) chunks

  pub receive_all-append :
      (u : Text) (m : Mirror R A) (xs ys : List (SyncChunk R A))
      → receive_all u m (xs ++ ys) ≡ receive_all u (receive_all u m xs) ys
  receive_all-append u m [] ys = refl
  receive_all-append u m (x ∷ xs) ys = receive_all-append u (receive u m x) xs ys

  -- All the chunks are of one table.
  abbrev pub Names : Text → List (SyncChunk R A) → Type 0
  Names t chunks = All (λ (c : SyncChunk R A). table_of c ≡ t) chunks

  pub Names-append :
      (t : Text) (xs ys : List (SyncChunk R A)) → Names t xs → Names t ys → Names t (xs ++ ys)
  Names-append t [] ys h k = k
  Names-append t (x ∷ xs) ys h k = (h.0, Names-append t xs ys h.1 k)

  pub Names-map :
      {B : Type 0} (t : Text) (chunk : B → SyncChunk R A) (bs : List B)
      → ((b : B) → table_of (chunk b) ≡ t)
      → Names t (map chunk bs)
  Names-map t chunk [] h = tt
  Names-map t chunk (b ∷ bs) h = (h b, Names-map t chunk bs h)

  received_same :
      (t : Text) (m : Mirror R A) (chunks : List (SyncChunk R A))
      → Names t chunks
      → receive_all t m chunks ≡ apply_all m chunks
  received_same t m [] h = refl
  received_same t m (c ∷ chunks) h =
      rw ((text_same_iff (table_of c) t).1 h.0) (received_same t (apply m c) chunks h.1)

  received_other :
      (t u : Text) (m : Mirror R A) (chunks : List (SyncChunk R A))
      → Names t chunks
      → text_same t u ≡ false
      → receive_all u m chunks ≡ m
  received_other t u m [] h apart = refl
  received_other t u m (c ∷ chunks) h apart =
      let other : text_same (table_of c) u ≡ false =
        ap (λ (name : Text). text_same name u) h.0 ∙ apart in
      rw other (received_other t u m chunks h.1 apart)

  -- A subscriber of the table is left with `told` applied, one of another table with nothing.
  abbrev pub IsTold : Text → List (Instruction R A) → List (SyncChunk R A) → Type 0
  IsTold t told chunks =
      (u : Text) (applied : List (Instruction R A))
      → receive_all u (at_rest applied) chunks
        ≡ at_rest (if text_same t u then applied ++ told else applied)

  pub Names-IsTold :
      (t : Text) (told : List (Instruction R A)) (chunks : List (SyncChunk R A))
      → Names t chunks
      → ((applied : List (Instruction R A))
          → apply_all (at_rest applied) chunks ≡ at_rest (applied ++ told))
      → IsTold t told chunks
  Names-IsTold t told chunks h all u applied = elim (Bool-cases (text_same t u)) [
    | inr apart ↦ received_other t u (at_rest applied) chunks h apart ∙ rw apart refl
    | inl same ↦
        let eq : t ≡ u = (text_same_iff t u).0 same in
        ap (λ (v : Text). receive_all v (at_rest applied) chunks) (sym eq)
        ∙ (received_same t (at_rest applied) chunks h ∙ (all applied ∙ rw same refl))
  ]

  pub nothing-IsTold : (t : Text) → IsTold t [] []
  nothing-IsTold t u applied = elim (Bool-cases (text_same t u)) [
    | inl same ↦ rw (same, append-nil applied) refl
    | inr apart ↦ rw apart refl
  ]

  pub IsTold-append :
      (t : Text) (is js : List (Instruction R A)) (xs ys : List (SyncChunk R A))
      → IsTold t is xs
      → IsTold t js ys
      → IsTold t (is ++ js) (xs ++ ys)
  IsTold-append t is js xs ys h k u applied =
      receive_all-append u (at_rest applied) xs ys
      ∙ (ap (λ (m : Mirror R A). receive_all u m ys) (h u applied)
          ∙ elim (Bool-cases (text_same t u)) [
            | inl same ↦ rw same (k u (applied ++ is) ∙ rw (same, append_assoc applied is js) refl)
            | inr apart ↦ rw apart (k u applied ∙ rw apart refl)
          ])
