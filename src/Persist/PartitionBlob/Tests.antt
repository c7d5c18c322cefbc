-- ===== src/Persist/PartitionBlob/Tests.antt =====
-- Runs of the format, and its theorems at concrete inputs.
use my_no_sql_server_grpc.Base.{
  ℕ, ◌+◌, ◌*◌, ◌≤◌, ◌≡◌, refl, arith, true, false, List, [], ◌∷◌, map, length, some, All,
}
use my_no_sql_server_grpc.Base.Result.{ok}
use my_no_sql_server_grpc.Base.Word.{IsByte, from_le_bytes, to_le_bytes}
use my_no_sql_server_grpc.Persist.BinaryReader.{
  new, read_u32, read_u64, read_bytes, read_u32_prefixed_bytes, is_eof,
}
use my_no_sql_server_grpc.Persist.PartitionBlob.{
  Zstd, DbRow, PersistedRow, serialize, deserialize, format_raw, read_body, reading, read_rows,
}
use my_no_sql_server_grpc.Persist.PartitionBlob.RoundTrip.{
  persisted, IsWritablePartition, deserialize-serialize,
}
use my_no_sql_server_grpc.Persist.PartitionBlob.Strict.{as_db_row, serialize-deserialize}

-- A compression that changes nothing.
abbrev stored : Zstd
stored = record { encode_all = λ bytes. bytes; decode_all = λ bytes. some bytes }

abbrev two_rows : List DbRow
two_rows =
    record { get_schema_id = 7; to_vec = 1 ∷ 2 ∷ [] }
    ∷ record { get_schema_id = 8; to_vec = [] }
    ∷ []

writable : IsWritablePartition two_rows
unfolding to_le_bytes
writable = record {
  counted = omega arith;
  rows = ((omega arith, omega arith), ((omega arith, omega arith), tt));
  measured = omega arith;
}

deserialize-serialize_example :
    deserialize stored (serialize stored two_rows true) ≡ ok (map persisted two_rows)
deserialize-serialize_example = deserialize-serialize stored two_rows true (λ bytes. refl) writable

-- One row of two bytes, under the schema 7.
abbrev one_row : List ℕ
one_row = 1 ∷ 0 ∷ 0 ∷ 0 ∷ 7 ∷ 0 ∷ 0 ∷ 0 ∷ 0 ∷ 0 ∷ 0 ∷ 0 ∷ 2 ∷ 0 ∷ 0 ∷ 0 ∷ 5 ∷ 6 ∷ []

abbrev as_read : List PersistedRow
as_read = record { schema_id = 7; row = 5 ∷ 6 ∷ [] } ∷ []

one_row-IsByte : All IsByte one_row
one_row-IsByte = ground arith

read_one_row : deserialize stored (format_raw ∷ one_row) ≡ ok as_read
unfolding deserialize read_body reading read_rows new read_u32 read_u64 read_bytes
    read_u32_prefixed_bytes is_eof from_le_bytes
read_one_row = refl

serialize-deserialize_example :
    (serialize stored (map as_db_row as_read) false ≡ format_raw ∷ one_row)
    × (12 * length as_read + 5 ≤ length (format_raw ∷ one_row))
serialize-deserialize_example =
    serialize-deserialize stored one_row as_read one_row-IsByte read_one_row
