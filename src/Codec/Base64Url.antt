-- ===== src/Codec/Base64Url.antt =====
-- server/src/persist/base64url.rs: base64 with the url alphabet and no padding, which turns a
-- partition key into a file name and the schema bytes into a line of `tables.meta`.
mod Encode
mod Decode
mod RoundTrip
mod Tests
use my_no_sql_server_grpc.Base.{
  ℕ, ◌+◌, ◌<◌, ◌≡◌, Bool, true, false, List, [], ◌∷◌, ◌++◌, Option, none, some, ltb, ◌==◌,
  if◌then◌else◌, get_or, length, Text,
}
use my_no_sql_server_grpc.Base.Utf8.{is_utf8}
use my_no_sql_server_grpc.Base.Result.{Result, ok, err, ◌>>=◌}
use my_no_sql_server_grpc.Base.Word.{shr, as_u8}
use my_no_sql_server_grpc.Codec.Groups.{triple, sextet, append_sextet, position}

-- The two messages of a refusal.
pub data DecodeError : Type 0 where
  not_written_here : Text → DecodeError
  not_a_partition_key : Text → DecodeError

-- `A-Z`, `a-z`, `0-9`, `-` and `_`.
unfoldable pub alphabet : List ℕ
alphabet =
    65 ∷ 66 ∷ 67 ∷ 68 ∷ 69 ∷ 70 ∷ 71 ∷ 72 ∷ 73 ∷ 74 ∷ 75 ∷ 76 ∷ 77 ∷ 78 ∷ 79 ∷ 80 ∷ 81 ∷ 82 ∷ 83
    ∷ 84 ∷ 85 ∷ 86 ∷ 87 ∷ 88 ∷ 89 ∷ 90 ∷ 97 ∷ 98 ∷ 99 ∷ 100 ∷ 101 ∷ 102 ∷ 103 ∷ 104 ∷ 105 ∷ 106
    ∷ 107 ∷ 108 ∷ 109 ∷ 110 ∷ 111 ∷ 112 ∷ 113 ∷ 114 ∷ 115 ∷ 116 ∷ 117 ∷ 118 ∷ 119 ∷ 120 ∷ 121 ∷ 122
    ∷ 48 ∷ 49 ∷ 50 ∷ 51 ∷ 52 ∷ 53 ∷ 54 ∷ 55 ∷ 56 ∷ 57 ∷ 45 ∷ 95 ∷ []

abbrev symbol_at : ℕ → ℕ
symbol_at i = get_or alphabet i 0

-- One round of the loop over `src.chunks(3)`. A chunk holds one to three bytes.
encode_chunk : List ℕ → Text
encode_chunk chunk =
    let t = triple (get_or chunk 0 0) (get_or chunk 1 0) (get_or chunk 2 0) in
    symbol_at (sextet t 18)
    ∷ symbol_at (sextet t 12)
    ∷ ((if ltb 1 (length chunk) then symbol_at (sextet t 6) ∷ [] else [])
        ++ (if ltb 2 (length chunk) then symbol_at (sextet t 0) ∷ [] else []))

pub encode_bytes : List ℕ → Text
encode_bytes [] = []
encode_bytes (b0 ∷ []) = encode_chunk (b0 ∷ [])
encode_bytes (b0 ∷ b1 ∷ []) = encode_chunk (b0 ∷ b1 ∷ [])
encode_bytes (b0 ∷ b1 ∷ b2 ∷ rest) = encode_chunk (b0 ∷ b1 ∷ b2 ∷ []) ++ encode_bytes rest

pub encode : Text → Text
encode src = encode_bytes src

record Decoding : Type 0 where
  buffer : ℕ
  collected : ℕ
  bytes : List ℕ

-- One round of the loop over the symbols, for a symbol that the alphabet has.
take_symbol : Decoding → ℕ → Decoding
take_symbol d value =
    let buffer' = append_sextet d.buffer value in
    if d.collected + 1 == 4
    then (record {
      buffer = 0;
      collected = 0;
      bytes = d.bytes ++ (as_u8 (shr buffer' 16) ∷ as_u8 (shr buffer' 8) ∷ as_u8 buffer' ∷ []);
    })
    else record { buffer = buffer'; collected = d.collected + 1; bytes = d.bytes }

-- What is left over is the tail of a group.
finish : Text → Decoding → Result DecodeError (List ℕ)
finish src d =
    if d.collected == 0
    then ok d.bytes
    else if d.collected == 2
    then ok (d.bytes ++ (as_u8 (shr d.buffer 4) ∷ []))
    else if d.collected == 3
    then ok (d.bytes ++ (as_u8 (shr d.buffer 10) ∷ as_u8 (shr d.buffer 2) ∷ []))
    else err (not_written_here src)

-- A character beyond ASCII is not in the alphabet, and neither is any byte of it.
decode_symbols : Text → Text → Decoding → Result DecodeError Decoding
decode_symbols src [] d = ok d
decode_symbols src (symbol ∷ rest) d = elim (position symbol alphabet) [
  | none ↦ err (not_written_here src)
  | some value ↦ decode_symbols src rest (take_symbol d value)
]

pub decode_bytes : Text → Result DecodeError (List ℕ)
decode_bytes src = do
  d ← decode_symbols src src (record { buffer = 0; collected = 0; bytes = [] })
  finish src d

pub decode : Text → Result DecodeError Text
decode src = do
  bytes ← decode_bytes src
  if is_utf8 bytes then ok bytes else err (not_a_partition_key src)
