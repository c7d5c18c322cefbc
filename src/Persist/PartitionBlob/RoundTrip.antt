-- ===== src/Persist/PartitionBlob/RoundTrip.antt =====
-- `deserialize` reads back the rows that `serialize` wrote, compressed or not.
use native.Mathlib.Nat.{mod-eq_of_lt}
use my_no_sql_server_grpc.Base.{
  ℕ, ◌^◌, ◌<◌, ◌≡◌, sym, ◌∙◌, arith, Bool, true, false, List, [], ◌∷◌, ◌++◌, some, map, length, All,
  append_assoc, append-nil,
}
use my_no_sql_server_grpc.Base.Result.{ok}
use my_no_sql_server_grpc.Base.Word.{to_le_bytes}
use my_no_sql_server_grpc.Persist.BinaryReader.{new, is_eof}
use my_no_sql_server_grpc.Persist.BinaryReader.Laws.{
  at, Fits, prefixed, read_u32-at, read_u64-at, read_u32_prefixed_bytes-at,
  write_u32_prefixed_bytes-prefixed,
}
use my_no_sql_server_grpc.Persist.PartitionBlob.{
  Zstd, DbRow, PersistedRow, serialize, deserialize, write_rows, body_of, read_rows, read_body,
  reading, decompressed,
}

-- The lengths that the format can write, of a row with a `u64` for its schema.
abbrev pub IsWritable : DbRow → Type 0
IsWritable r = (r.get_schema_id < 2 ^ 64) × (length r.to_vec < 2 ^ 32)

abbrev pub persisted : DbRow → PersistedRow
persisted r = record { schema_id = r.get_schema_id; row = r.to_vec }

-- The bytes of the rows, one after the other.
abbrev pub row_bytes : DbRow → List ℕ
row_bytes r = to_le_bytes 8 r.get_schema_id ++ prefixed r.to_vec

abbrev pub rows_bytes : List DbRow → List ℕ
rows_bytes [] = []
rows_bytes (r ∷ rs) = row_bytes r ++ rows_bytes rs

pub write_rows-rows_bytes :
    (rs : List DbRow) (body : List ℕ)
    → All IsWritable rs
    → write_rows body rs ≡ body ++ rows_bytes rs
unfolding write_rows
write_rows-rows_bytes [] body h = sym (append-nil body)
write_rows-rows_bytes (r ∷ rs) body h =
    rw (write_u32_prefixed_bytes-prefixed (body ++ to_le_bytes 8 r.get_schema_id) r.to_vec h.0.1)
      (write_rows-rows_bytes rs _ h.1 ∙ simp append_assoc)

read_rows-at :
    (rs : List DbRow) (result : List PersistedRow) (done rest : List ℕ)
    → All IsWritable rs
    → Fits (done ++ (rows_bytes rs ++ rest))
    → read_rows (length rs) result (at done (rows_bytes rs ++ rest))
      ≡ ok (result ++ map persisted rs, at (done ++ rows_bytes rs) rest)
unfolding read_rows reading
read_rows-at [] result done rest h fits = rw (append-nil, append-nil)
read_rows-at (r ∷ rs) result done rest h fits =
    let id = to_le_bytes 8 r.get_schema_id in
    let tail = rows_bytes rs ++ rest in
    let regroup : rows_bytes (r ∷ rs) ++ rest ≡ id ++ (prefixed r.to_vec ++ tail) =
      simp append_assoc in
    let fits1 : Fits (done ++ (id ++ (prefixed r.to_vec ++ tail))) = rw regroup at fits in
    let fits2 : Fits ((done ++ id) ++ (prefixed r.to_vec ++ tail)) = rw append_assoc fits1 in
    let fits3 : Fits (((done ++ id) ++ prefixed r.to_vec) ++ tail) = rw append_assoc fits2 in
    rw
      (
        regroup,
        read_u64-at r.get_schema_id done (prefixed r.to_vec ++ tail) h.0.0 fits1,
        read_u32_prefixed_bytes-at r.to_vec (done ++ id) tail h.0.1 fits2,
        read_rows-at rs (result ++ (persisted r ∷ [])) ((done ++ id) ++ prefixed r.to_vec) rest h.1
            fits3,
      )
      (simp append_assoc)

-- What one partition may hold: its rows can be counted and measured by the format's fields, and
-- its body by a `usize`.
pub record IsWritablePartition (db_rows : List DbRow) : Type 0 where
  pub counted : length db_rows < 2 ^ 32
  pub rows : All IsWritable db_rows
  pub measured : length (to_le_bytes 4 (length db_rows) ++ rows_bytes db_rows) < 2 ^ 64

body_of-rows_bytes :
    (rs : List DbRow)
    → IsWritablePartition rs
    → body_of rs ≡ to_le_bytes 4 (length rs) ++ rows_bytes rs
unfolding body_of
body_of-rows_bytes rs h = rw (mod-eq_of_lt h.counted) (write_rows-rows_bytes rs _ h.rows)

read_body-body_of :
    (rs : List DbRow) → IsWritablePartition rs → read_body (body_of rs) ≡ ok (map persisted rs)
unfolding read_body new is_eof reading
read_body-body_of rs h =
    let count = to_le_bytes 4 (length rs) in
    let all = rows_bytes rs in
    let same : rows_bytes rs ++ [] ≡ rows_bytes rs = append-nil all in
    let first = read_u32-at (length rs) [] all h.counted h.measured in
    let second = read_rows-at rs [] count [] h.rows (rw same h.measured) in
    rw (body_of-rows_bytes rs h, first, rw same at second)
      (rw (append-nil (count ++ all)) (ground arith))

-- The rows come back, in order, each with the id of its schema, whether the body was compressed or
-- not. Of the compression it takes that what was compressed decompresses.
pub deserialize-serialize :
    (zstd : Zstd) (db_rows : List DbRow) (compress : Bool)
    → ((bytes : List ℕ) → zstd.decode_all (zstd.encode_all bytes) ≡ some bytes)
    → IsWritablePartition db_rows
    → deserialize zstd (serialize zstd db_rows compress) ≡ ok (map persisted db_rows)
unfolding deserialize serialize decompressed
deserialize-serialize zstd db_rows true law h =
    rw (law (body_of db_rows)) (read_body-body_of db_rows h)
deserialize-serialize zstd db_rows false law h = read_body-body_of db_rows h
