-- ===== src/Persist/BinaryReader.antt =====
-- server/src/persist/binary_reader.rs: a bounds-checked cursor over bytes.
pub mod Laws
use my_no_sql_server_grpc.Base.{
  ℕ, ◌+◌, ◌-◌, ◌%◌, ◌^◌, Bool, List, ◌++◌, ltb, leb, if◌then◌else◌, length, take, drop,
}
use my_no_sql_server_grpc.Base.Result.{Result, ok, err, ◌>>=◌}
use my_no_sql_server_grpc.Base.Word.{to_le_bytes, from_le_bytes}

pub record BinaryReader : Type 0 where
  pub src : List ℕ
  pub pos : ℕ

-- `length overflow`, and `need {} bytes at offset {} but only {} are there`.
pub data ReadError : Type 0 where
  length_overflow : ReadError
  need_bytes : ℕ → ℕ → ℕ → ReadError

abbrev pub Read {ℓ} : Type ℓ → Type ℓ
Read A = Result ReadError (A × BinaryReader)

unfoldable pub new : List ℕ → BinaryReader
new src = record { src = src; pos = 0 }

unfoldable pub is_eof : BinaryReader → Bool
is_eof r = leb (length r.src) r.pos

-- `take`; `checked_add` is on a `usize` of 64 bits.
unfoldable pub read_bytes : ℕ → BinaryReader → Read (List ℕ)
read_bytes len r =
    let end = r.pos + len in
    if leb (2 ^ 64) end
    then err length_overflow
    else if ltb (length r.src) end
    then err (need_bytes len r.pos (length r.src - r.pos))
    else ok (take len (drop r.pos r.src), record r { pos = end })

unfoldable pub read_u32 : BinaryReader → Read ℕ
read_u32 r = do (bytes, r') ← read_bytes 4 r; ok (from_le_bytes bytes, r')

unfoldable pub read_u64 : BinaryReader → Read ℕ
read_u64 r = do (bytes, r') ← read_bytes 8 r; ok (from_le_bytes bytes, r')

unfoldable pub read_u32_prefixed_bytes : BinaryReader → Read (List ℕ)
read_u32_prefixed_bytes r = do (len, r') ← read_u32 r; read_bytes len r'

-- `(src.len() as u32).to_le_bytes()` keeps the low 32 bits of the length.
unfoldable pub write_u32_prefixed_bytes : List ℕ → List ℕ → List ℕ
write_u32_prefixed_bytes dest src = (dest ++ to_le_bytes 4 (length src % 2 ^ 32)) ++ src
