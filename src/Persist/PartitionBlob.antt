-- ===== src/Persist/PartitionBlob.antt =====
-- server/src/persist/partition_blob.rs: the body of one slot, which is all the rows of a partition.
pub mod RoundTrip
mod Strict
mod Tests
use my_no_sql_server_grpc.Base.{
  ℕ, zero, suc, ◌%◌, ◌^◌, ◌≡◌, Bool, true, false, List, [], ◌∷◌, ◌++◌, Option, none, some, ◌==◌,
  if◌then◌else◌, length,
}
use my_no_sql_server_grpc.Base.Result.{Result, ok, err, ◌>>=◌}
use my_no_sql_server_grpc.Base.Word.{to_le_bytes}
use my_no_sql_server_grpc.Persist.BinaryReader.{
  BinaryReader, ReadError, new, is_eof, read_u32, read_u64, read_u32_prefixed_bytes,
  write_u32_prefixed_bytes,
}

-- The crate `zstd`: `encode_all` at level 3, and `decode_all`, which may fail.
pub record Zstd : Type 0 where
  pub encode_all : List ℕ → List ℕ
  pub decode_all : List ℕ → Option (List ℕ)

-- A row of the crate `my_no_sql_grpc_core`: the id of its schema, and its emit form.
pub record DbRow : Type 0 where
  pub get_schema_id : ℕ
  pub to_vec : List ℕ

pub record PersistedRow : Type 0 where
  pub schema_id : ℕ
  pub row : List ℕ

-- The messages of a refusal.
pub data BlobError : Type 0 where
  payload_is_empty : BlobError
  can_not_decompress : BlobError
  unknown_format : ℕ → BlobError
  can_not_read : ReadError → BlobError
  trailing_bytes : BlobError

abbrev pub format_raw : ℕ
format_raw = 1

abbrev pub format_zstd : ℕ
format_zstd = 2

-- The loop over the rows, which extends `body`.
unfoldable pub write_rows : List ℕ → List DbRow → List ℕ
write_rows body [] = body
write_rows body (db_row ∷ db_rows) =
    write_rows (write_u32_prefixed_bytes (body ++ to_le_bytes 8 db_row.get_schema_id) db_row.to_vec)
      db_rows

-- `(db_rows.len() as u32).to_le_bytes()`, then the rows.
unfoldable pub body_of : List DbRow → List ℕ
body_of db_rows = write_rows (to_le_bytes 4 (length db_rows % 2 ^ 32)) db_rows

unfoldable pub serialize : Zstd → List DbRow → Bool → List ℕ
serialize zstd db_rows compress =
    if compress
    then format_zstd ∷ zstd.encode_all (body_of db_rows)
    else format_raw ∷ body_of db_rows

-- `?` on a read.
unfoldable pub reading {ℓ} : {A : Type ℓ} → Result ReadError A → Result BlobError A
reading (ok a) = ok a
reading (err e) = err (can_not_read e)

-- `for _ in 0..rows_count`
unfoldable pub read_rows :
    ℕ → List PersistedRow → BinaryReader → Result BlobError (List PersistedRow × BinaryReader)
read_rows zero result reader = ok (result, reader)
read_rows (suc n) result reader = do
  (schema_id, reader') ← reading (read_u64 reader)
  (row, reader'') ← reading (read_u32_prefixed_bytes reader')
  read_rows n (result ++ (record { schema_id = schema_id; row = row } ∷ [])) reader''

-- The rows of a body that is not compressed, or no longer.
unfoldable pub read_body : List ℕ → Result BlobError (List PersistedRow)
read_body body = do
  (rows_count, reader) ← reading (read_u32 (new body))
  (result, reader') ← read_rows rows_count [] reader
  if is_eof reader' then ok result else err trailing_bytes

unfoldable pub decompressed : Option (List ℕ) → Result BlobError (List ℕ)
decompressed none = err can_not_decompress
decompressed (some body) = ok body

unfoldable pub deserialize : Zstd → List ℕ → Result BlobError (List PersistedRow)
deserialize zstd [] = err payload_is_empty
deserialize zstd (format ∷ rest) = do
  body ←
      if format == format_raw
      then ok rest
      else if format == format_zstd
      then decompressed (zstd.decode_all rest)
      else err (unknown_format format)
  read_body body
