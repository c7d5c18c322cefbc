-- ===== src/Persist/PartitionBlob/Strict.antt =====
-- `deserialize` takes only what `serialize` writes, and no more rows than there are bytes for.
use native.Mathlib.Nat.{mod-eq_of_lt}
use my_no_sql_server_grpc.Base.{
  ℕ, zero, suc, ◌+◌, ◌*◌, ◌≤◌, ◌≡◌, refl, sym, ap, ◌∙◌, arith, true, false, List, [], ◌∷◌, ◌++◌,
  map, length, All, append_assoc, append-nil, length-append,
}
use my_no_sql_server_grpc.Base.Result.{Result, ok, err, >>=-eq-ok}
use my_no_sql_server_grpc.Base.Word.{to_le_bytes, IsByte, length-to_le_bytes}
use my_no_sql_server_grpc.Persist.BinaryReader.{
  BinaryReader, ReadError, new, is_eof, read_u32, read_u64, read_u32_prefixed_bytes,
}
use my_no_sql_server_grpc.Persist.BinaryReader.Laws.{
  at, prefixed, ReadsOff, ReadsOff-trans, read_u32-ReadsOff, read_u64-ReadsOff,
  read_u32_prefixed_bytes-ReadsOff,
}
use my_no_sql_server_grpc.Persist.PartitionBlob.{
  Zstd, DbRow, PersistedRow, serialize, deserialize, write_rows, body_of, read_rows, read_body,
  reading, format_raw,
}
use my_no_sql_server_grpc.Persist.PartitionBlob.RoundTrip.{
  IsWritable, rows_bytes, row_bytes, write_rows-rows_bytes,
}

-- A row that was read, as a row to be written.
abbrev pub as_db_row : PersistedRow → DbRow
as_db_row r = record { get_schema_id = r.schema_id; to_vec = r.row }

reading-eq-ok {ℓ} : {A : Type ℓ} (m : Result ReadError A) {a : A} → reading m ≡ ok a → m ≡ ok a
unfolding reading
reading-eq-ok (ok a) h = ground arith
reading-eq-ok (err e) h = cc

record ReadsRows (n : ℕ) (result out : List PersistedRow) (done rest : List ℕ) (r : BinaryReader)
    : Type 0 where
  rows : List PersistedRow
  collected : out ≡ result ++ rows
  counted : length rows ≡ n
  are_writable : All IsWritable (map as_db_row rows)
  off : ReadsOff done rest (rows_bytes (map as_db_row rows)) r

read_rows-ReadsRows :
    (n : ℕ) (result out : List PersistedRow) (done rest : List ℕ) (r : BinaryReader)
    → All IsByte rest
    → read_rows n result (at done rest) ≡ ok (out, r)
    → ReadsRows n result out done rest r
unfolding read_rows
read_rows-ReadsRows zero result out done rest r h e = record {
  rows = [];
  collected = rw append-nil (ground arith);
  counted = refl;
  are_writable = tt;
  off = record { after = rest; split = refl; moved = rw append-nil (ground arith); are_bytes = h };
}
read_rows-ReadsRows (suc n) result out done rest r h e =
    let (p, e1, rest1) = >>=-eq-ok (reading (read_u64 (at done rest))) _ e in
    let (q, e2, rest2) = >>=-eq-ok (reading (read_u32_prefixed_bytes p.1)) _ rest1 in
    let (small, off1) = read_u64-ReadsOff done rest p.0 p.1 h (reading-eq-ok _ e1) in
    let id = to_le_bytes 8 p.0 in
    let (short, off2) =
      read_u32_prefixed_bytes-ReadsOff (done ++ id) off1.after q.0 q.1 off1.are_bytes
        (reading-eq-ok _ (rw off1.moved at e2)) in
    let row : PersistedRow = record { schema_id = p.0; row = q.0 } in
    let off = ReadsOff-trans done rest id (prefixed q.0) p.1 q.1 off1 off2 in
    let ih =
      read_rows-ReadsRows n (result ++ (row ∷ [])) out (done ++ (id ++ prefixed q.0)) off.after r
        off.are_bytes (rw off.moved at rest2) in
    record {
      rows = row ∷ ih.rows;
      collected = ih.collected ∙ append_assoc result (row ∷ []) ih.rows;
      counted = ap suc ih.counted;
      are_writable = ((small, short), ih.are_writable);
      off =
          ReadsOff-trans done rest (id ++ prefixed q.0) (rows_bytes (map as_db_row ih.rows)) q.1 r
            off ih.off;
    }

length-map {ℓ κ} :
    {A : Type ℓ} {B : Type κ} (f : A → B) (xs : List A) → length (map f xs) ≡ length xs
length-map f [] = refl
length-map f (x ∷ xs) = ap suc (length-map f xs)

length-rows_bytes : (rs : List DbRow) → 12 * length rs ≤ length (rows_bytes rs)
length-rows_bytes [] = omega arith
length-rows_bytes (r ∷ rs) = omega (
  arith,
  length-rows_bytes rs,
  length-append (row_bytes r) (rows_bytes rs),
  length-append (to_le_bytes 8 r.get_schema_id) (prefixed r.to_vec),
  length-append (to_le_bytes 4 (length r.to_vec)) r.to_vec,
  length-to_le_bytes 8 r.get_schema_id,
  length-to_le_bytes 4 (length r.to_vec),
)

nothing_left : (done rest : List ℕ) → is_eof (at done rest) ≡ true → rest ≡ []
unfolding is_eof
nothing_left done [] h = refl
nothing_left done (b ∷ rest) h = absurd (ground (arith, length-append done (b ∷ rest)))

read_body-Strict :
    (body : List ℕ) (rows : List PersistedRow)
    → All IsByte body
    → read_body body ≡ ok rows
    → (body_of (map as_db_row rows) ≡ body) × (12 * length rows + 4 ≤ length body)
unfolding read_body new body_of
read_body-Strict body rows h e =
    let (p, e1, rest1) = >>=-eq-ok (reading (read_u32 (new body))) _ e in
    let (q, e2, last) = >>=-eq-ok (read_rows p.0 [] p.1) _ rest1 in
    let (small, off) = read_u32-ReadsOff [] body p.0 p.1 h (reading-eq-ok _ e1) in
    let count = to_le_bytes 4 p.0 in
    let t = read_rows-ReadsRows p.0 [] q.0 count off.after q.1 off.are_bytes (rw off.moved at e2) in
    let bytes = rows_bytes (map as_db_row t.rows) in
    let same : q.0 ≡ rows = ground arith in
    let ended : is_eof q.1 ≡ true = ground arith in
    let empty : t.off.after ≡ [] =
      nothing_left (count ++ bytes) t.off.after (rw t.off.moved at ended) in
    let whole : body ≡ count ++ bytes =
      off.split
      ∙ ap (λ (r : List ℕ). count ++ r)
          (t.off.split ∙ ap (λ (r : List ℕ). bytes ++ r) empty ∙ append-nil bytes) in
    let rows' : rows ≡ t.rows = sym same ∙ t.collected in
    let counted : length (map as_db_row t.rows) ≡ p.0 = length-map as_db_row t.rows ∙ t.counted in
    let written : body_of (map as_db_row t.rows) ≡ body =
      ap (λ (n : ℕ). write_rows (to_le_bytes 4 n) (map as_db_row t.rows))
        (rw counted (mod-eq_of_lt small))
      ∙ write_rows-rows_bytes (map as_db_row t.rows) count t.are_writable
      ∙ sym whole in
    (
      ap (λ (r : List PersistedRow). body_of (map as_db_row r)) rows' ∙ written,
      omega (
        arith,
        ap length whole,
        ap length rows',
        length-append count bytes,
        length-to_le_bytes 4 p.0,
        length-rows_bytes (map as_db_row t.rows),
        length-map as_db_row t.rows,
      ),
    )

-- A payload that is not compressed is taken only if `serialize` writes it for the rows that come
-- out, so a row count in front of fewer rows, a cut row and trailing bytes are all refused; and each
-- row answers for twelve bytes of the payload at least.
pub serialize-deserialize :
    (zstd : Zstd) (rest : List ℕ) (rows : List PersistedRow)
    → All IsByte rest
    → deserialize zstd (format_raw ∷ rest) ≡ ok rows
    → (serialize zstd (map as_db_row rows) false ≡ format_raw ∷ rest)
      × (12 * length rows + 5 ≤ length (format_raw ∷ rest))
unfolding deserialize serialize
serialize-deserialize zstd rest rows h e =
    let (written, room) = read_body-Strict rest rows h e in (rw written, omega arith)
