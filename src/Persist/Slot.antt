-- ===== src/Persist/Slot.antt =====
-- server/src/persist/slot.rs: the bytes of one slot of a page-file.
--
-- A slot is a crc (4 bytes), a version (8), the length of the body (4), the body, and zeros up to
-- the size class. The body is the lengths of the two keys (2 and 2), the keys and the payload.
pub mod Layout
pub mod RoundTrip
pub mod Decode
mod Tests
use my_no_sql_server_grpc.Base.{
  ℕ, ◌+◌, ◌-◌, ◌*◌, ◌%◌, ◌^◌, Bool, true, false, ◌&&◌, List, [], ◌∷◌, ◌++◌, ◌==◌, ltb, leb, not,
  if◌then◌else◌, length, take, drop, replicate, slice, Text,
}
use my_no_sql_server_grpc.Base.Outcome.{Outcome, returns, panics, ◌>>=◌, ◌>>◌, assert}
use my_no_sql_server_grpc.Base.Utf8.{is_utf8}
use my_no_sql_server_grpc.Base.Word.{to_le_bytes, from_le_bytes}

abbrev pub slot_prefix_len : ℕ
slot_prefix_len = 16

abbrev pub key_len_fields : ℕ
key_len_fields = 4

abbrev pub slot_overhead : ℕ
slot_overhead = slot_prefix_len + key_len_fields

-- `u16::MAX`
abbrev pub max_key_len : ℕ
max_key_len = 65535

assert_keys_fit : Text → Text → Outcome (Unit {0})
assert_keys_fit table_name partition_key = do
  assert (leb (length table_name) max_key_len)
  assert (leb (length partition_key) max_key_len)

unfoldable pub slot_bytes_needed : Text → Text → ℕ → Outcome ℕ
unfolding assert_keys_fit
slot_bytes_needed table_name partition_key payload_len = do
  assert_keys_fit table_name partition_key
  returns (slot_overhead + length table_name + length partition_key + payload_len)

-- `buf[pos..pos + src.len()].copy_from_slice(src)` panics beyond the end of the buffer.
unfoldable pub copy_at : ℕ → List ℕ → List ℕ → Outcome (List ℕ)
copy_at pos src buf =
    if leb (pos + length src) (length buf)
    then returns (take pos buf ++ (src ++ drop (pos + length src) buf))
    else panics

-- The crate `crc32fast` is the parameter `hash`.
unfoldable pub encode_slot : (List ℕ → ℕ) → ℕ → ℕ → Text → Text → List ℕ → Outcome (List ℕ)
unfolding assert_keys_fit
encode_slot hash size_class version table_name partition_key payload = do
  assert_keys_fit table_name partition_key
  let body_len = key_len_fields + length table_name + length partition_key + length payload
  buf ← copy_at 4 (to_le_bytes 8 version) (replicate size_class 0)
  buf ← copy_at 12 (to_le_bytes 4 (body_len % 2 ^ 32)) buf
  let pos = slot_prefix_len
  buf ← copy_at pos (to_le_bytes 2 (length table_name % 2 ^ 16)) buf
  let pos = pos + 2
  buf ← copy_at pos (to_le_bytes 2 (length partition_key % 2 ^ 16)) buf
  let pos = pos + 2
  buf ← copy_at pos table_name buf
  let pos = pos + length table_name
  buf ← copy_at pos partition_key buf
  let pos = pos + length partition_key
  buf ← copy_at pos payload buf
  let pos = pos + length payload
  copy_at 0 (to_le_bytes 4 (hash (slice 4 pos buf))) buf

pub record OccupiedSlot : Type 0 where
  pub version : ℕ
  pub table_name : Text
  pub partition_key : Text
  pub payload : List ℕ

pub data SlotState : Type 0 where
  free : SlotState
  occupied : OccupiedSlot → SlotState
  corrupt : SlotState

-- The part behind the crc check, on the body.
unfoldable pub decode_body : ℕ → List ℕ → SlotState
decode_body version body =
    if ltb (length body) key_len_fields
    then corrupt
    else (let table_len = from_le_bytes (slice 0 2 body) in
        let pk_len = from_le_bytes (slice 2 4 body) in
        let pos = key_len_fields in
        if ltb (length body) (pos + table_len + pk_len)
        then corrupt
        else (let table_name = slice pos (pos + table_len) body in
            let pos' = pos + table_len in
            let partition_key = slice pos' (pos' + pk_len) body in
            let payload = drop (pos' + pk_len) body in
            if is_utf8 table_name && is_utf8 partition_key
            then occupied (record {
              version = version;
              table_name = table_name;
              partition_key = partition_key;
              payload = payload;
            })
            else corrupt))

unfoldable pub decode_slot : (List ℕ → ℕ) → List ℕ → SlotState
decode_slot hash bytes =
    if ltb (length bytes) slot_prefix_len
    then corrupt
    else (let crc_stored = from_le_bytes (slice 0 4 bytes) in
        let version = from_le_bytes (slice 4 12 bytes) in
        let body_len = from_le_bytes (slice 12 16 bytes) in
        let end = slot_prefix_len + body_len in
        if body_len == 0
        then free
        else if ltb (length bytes) end
        then corrupt
        else if not (hash (slice 4 end bytes) == crc_stored)
        then corrupt
        else decode_body version (slice slot_prefix_len end bytes))
