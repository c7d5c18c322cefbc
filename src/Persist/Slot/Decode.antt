-- ===== src/Persist/Slot/Decode.antt =====
-- What `decode_slot` makes of a slot that was freed, torn or cut.
use mathlib.Core.Path.{subst}
use my_no_sql_server_grpc.Base.{
  ℕ, ◌+◌, ◌-◌, ◌^◌, ◌<◌, ◌≤◌, ◌≡◌, refl, sym, ap, ◌∙◌, arith, true, List, ◌++◌, length, drop, slice,
  All,
}
use my_no_sql_server_grpc.Base.Slices.{drop-slice, slice-slice, length-slice, All-slice}
use my_no_sql_server_grpc.Base.Utf8.{is_utf8}
use my_no_sql_server_grpc.Base.Word.{
  IsByte, to_le_bytes, from_le_bytes, to_le_bytes-from_le_bytes, from_le_bytes-lt,
}
use my_no_sql_server_grpc.Persist.Slot.{
  slot_prefix_len, max_key_len, OccupiedSlot, occupied, free, decode_slot, decode_body,
}
use my_no_sql_server_grpc.Persist.Slot.Layout.{zeros, body_len, body, covered}
use my_no_sql_server_grpc.Persist.Slot.RoundTrip.{length-body}

-- A slot whose first sixteen bytes are zeros is free, whatever its old content was.
pub decode_slot-zeros :
    (hash : List ℕ → ℕ) (old : List ℕ) → decode_slot hash (zeros slot_prefix_len ++ old) ≡ free
unfolding decode_slot from_le_bytes
decode_slot-zeros hash old = ground arith

-- The slot stands at the front of the bytes, as it is written: the crc of all that follows it up to
-- the end of the payload, the version,
-- the length of the body, those of the keys, the keys and the payload; every number fits its bytes, and the keys are texts.
pub record IsSound (hash : List ℕ → ℕ) (bytes : List ℕ) (slot : OccupiedSlot) : Type 0 where
  pub rest : List ℕ
  pub written :
      bytes
      ≡ to_le_bytes 4 (hash (covered slot.version slot.table_name slot.partition_key slot.payload))
        ++ (covered slot.version slot.table_name slot.partition_key slot.payload ++ rest)
  pub crc_fits :
      hash (covered slot.version slot.table_name slot.partition_key slot.payload) < 2 ^ 32
  pub version_fits : slot.version < 2 ^ 64
  pub body_fits : body_len slot.table_name slot.partition_key slot.payload < 2 ^ 32
  pub table_fits : length slot.table_name ≤ max_key_len
  pub key_fits : length slot.partition_key ≤ max_key_len
  pub table_is_utf8 : is_utf8 slot.table_name ≡ true
  pub key_is_utf8 : is_utf8 slot.partition_key ≡ true

-- The bytes of a number between two places.
module _ (from to : ℕ) (bytes : List ℕ) (all : All IsByte bytes) (h : from ≤ to)
    (k : to ≤ length bytes) where
  to_le_bytes-slice :
      to_le_bytes (to - from) (from_le_bytes (slice from to bytes)) ≡ slice from to bytes
  to_le_bytes-slice =
      ap (λ (n : ℕ). to_le_bytes n (from_le_bytes (slice from to bytes)))
        (sym (length-slice from to bytes h k))
      ∙ to_le_bytes-from_le_bytes (slice from to bytes) (All-slice IsByte from to bytes all)

  from_le_bytes-slice : from_le_bytes (slice from to bytes) < 256 ^ (to - from)
  from_le_bytes-slice =
      subst (λ (n : ℕ). from_le_bytes (slice from to bytes) < 256 ^ n)
        (length-slice from to bytes h k)
        (from_le_bytes-lt (slice from to bytes) (All-slice IsByte from to bytes all))

-- The same for a body, with its version.
record IsBody (version : ℕ) (b : List ℕ) (slot : OccupiedSlot) : Type 0 where
  named : slot.version ≡ version
  laid : b ≡ body slot.table_name slot.partition_key slot.payload
  table_fits : length slot.table_name ≤ max_key_len
  key_fits : length slot.partition_key ≤ max_key_len
  table_is_utf8 : is_utf8 slot.table_name ≡ true
  key_is_utf8 : is_utf8 slot.partition_key ≡ true

decode_body-IsBody :
    (version : ℕ) (b : List ℕ) (slot : OccupiedSlot)
    → All IsByte b
    → decode_body version b ≡ occupied slot
    → IsBody version b slot
unfolding decode_body
decode_body-IsBody version b slot all h =
    let l = from_le_bytes (slice 0 2 b) in
    let m = from_le_bytes (slice 2 4 b) in
    let long : 4 + l + m ≤ length b = ground arith in
    let t : slot.table_name ≡ slice 4 (4 + l) b = ground arith in
    let p : slot.partition_key ≡ slice (4 + l) (4 + l + m) b = ground arith in
    let rest : slot.payload ≡ drop (4 + l + m) b = ground arith in
    let l_is : length slot.table_name ≡ l =
      omega (arith, ap length t, length-slice 4 (4 + l) b (omega arith) (omega arith)) in
    let m_is : length slot.partition_key ≡ m =
      omega (arith, ap length p, length-slice (4 + l) (4 + l + m) b (omega arith) (omega arith)) in
    let cut : b
        ≡ slice 0 2 b
          ++ (slice 2 4 b
              ++ (slice 4 (4 + l) b ++ (slice (4 + l) (4 + l + m) b ++ drop (4 + l + m) b))) =
      drop-slice 0 2 b (omega arith)
      ∙ ap (λ (r : List ℕ). slice 0 2 b ++ r)
          (drop-slice 2 4 b (omega arith)
            ∙ ap (λ (r : List ℕ). slice 2 4 b ++ r)
                (drop-slice 4 (4 + l) b (omega arith)
                  ∙ ap (λ (r : List ℕ). slice 4 (4 + l) b ++ r)
                      (drop-slice (4 + l) (4 + l + m) b (omega arith)))) in
    record {
      named = ground arith;
      laid =
          cut
          ∙ rw
              (
                l_is,
                m_is,
                to_le_bytes-slice 0 2 b all (omega arith) (omega arith),
                to_le_bytes-slice 2 4 b all (omega arith) (omega arith),
                t,
                p,
                rest,
              )
              refl;
      table_fits = omega (arith, l_is, from_le_bytes-slice 0 2 b all (omega arith) (omega arith));
      key_fits = omega (arith, m_is, from_le_bytes-slice 2 4 b all (omega arith) (omega arith));
      table_is_utf8 = ground arith;
      key_is_utf8 = ground arith;
    }

-- Of bytes, only those are taken for an occupied slot that begin with the slot as it is written: the crc of the version, of the length
-- of the body and of the body, then these, where the body is the lengths of the two keys, the keys and the payload that are answered,
-- and what follows is not looked at; each number fits its bytes, and both keys are texts.
pub decode_slot-IsSound :
    (hash : List ℕ → ℕ) (bytes : List ℕ) (slot : OccupiedSlot)
    → All IsByte bytes
    → decode_slot hash bytes ≡ occupied slot
    → IsSound hash bytes slot
unfolding decode_slot
decode_slot-IsSound hash bytes slot all h =
    let n = from_le_bytes (slice 12 16 bytes) in
    let version = from_le_bytes (slice 4 12 bytes) in
    let b = slice slot_prefix_len (slot_prefix_len + n) bytes in
    let c = covered slot.version slot.table_name slot.partition_key slot.payload in
    let long : slot_prefix_len + n ≤ length bytes = ground arith in
    let cut =
      decode_body-IsBody version b slot (All-slice IsByte 16 (16 + n) bytes all) (ground arith) in
    let n_is : body_len slot.table_name slot.partition_key slot.payload ≡ n = omega (
      arith,
      length-body slot.table_name slot.partition_key slot.payload,
      ap length cut.laid,
      length-slice 16 (16 + n) bytes (omega arith) long,
    ) in
    let c_is : c ≡ slice 4 (16 + n) bytes =
      rw
        (
          cut.named,
          n_is,
          sym cut.laid,
          to_le_bytes-slice 4 12 bytes all (omega arith) (omega arith),
          to_le_bytes-slice 12 16 bytes all (omega arith) (omega arith),
        )
        (sym (
          slice-slice 4 12 (16 + n) bytes (omega arith) (omega arith)
          ∙ ap (λ (r : List ℕ). slice 4 12 bytes ++ r)
              (slice-slice 12 16 (16 + n) bytes (omega arith) (omega arith)))) in
    let crc : hash c ≡ from_le_bytes (slice 0 4 bytes) = ap hash c_is ∙ ground arith in
    record {
      rest = drop (16 + n) bytes;
      written =
          drop-slice 0 4 bytes (omega arith)
          ∙ ap (λ (r : List ℕ). slice 0 4 bytes ++ r) (drop-slice 4 (16 + n) bytes (omega arith))
          ∙ rw (crc, to_le_bytes-slice 0 4 bytes all (omega arith) (omega arith), c_is) refl;
      crc_fits = omega (arith, crc, from_le_bytes-slice 0 4 bytes all (omega arith) (omega arith));
      version_fits =
          omega (arith, cut.named, from_le_bytes-slice 4 12 bytes all (omega arith) (omega arith));
      body_fits =
          omega (arith, n_is, from_le_bytes-slice 12 16 bytes all (omega arith) (omega arith));
      table_fits = cut.table_fits;
      key_fits = cut.key_fits;
      table_is_utf8 = cut.table_is_utf8;
      key_is_utf8 = cut.key_is_utf8;
    }
