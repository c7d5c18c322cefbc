-- ===== src/Persist/Slot/RoundTrip.antt =====
-- `decode_slot` reads back what `encode_slot` wrote.
use my_no_sql_server_grpc.Base.{
  ℕ, ◌+◌, ◌-◌, ◌^◌, ◌<◌, ◌≡◌, refl, sym, ap, ◌∙◌, arith, true, List, [], ◌++◌, length, drop, slice,
  slice-append, drop-append, Text, append_assoc, length-append, length-replicate, ==_iff,
}
use my_no_sql_server_grpc.Base.Outcome.{returns}
use my_no_sql_server_grpc.Base.Utf8.{is_utf8}
use my_no_sql_server_grpc.Base.Word.{
  to_le_bytes, from_le_bytes, length-to_le_bytes, from_le_bytes-to_le_bytes,
}
use my_no_sql_server_grpc.Persist.Slot.{
  slot_prefix_len, OccupiedSlot, occupied, encode_slot, decode_slot, decode_body,
}
use my_no_sql_server_grpc.Persist.Slot.Layout.{
  zeros, body_len, body, covered, layout, IsEncodable, encode_slot-layout,
}

abbrev pub slot_of : ℕ → Text → Text → List ℕ → OccupiedSlot
slot_of version table_name partition_key payload = record {
  version = version;
  table_name = table_name;
  partition_key = partition_key;
  payload = payload;
}

module _ (t p : Text) (payload : List ℕ) where
  pub length-body : length (body t p payload) ≡ body_len t p payload
  length-body = omega (
    arith,
    length-append (to_le_bytes 2 (length t)) (to_le_bytes 2 (length p) ++ (t ++ (p ++ payload))),
    length-append (to_le_bytes 2 (length p)) (t ++ (p ++ payload)),
    length-append t (p ++ payload),
    length-append p payload,
    length-to_le_bytes 2 (length t),
    length-to_le_bytes 2 (length p),
  )

  decode_body-body :
      (version : ℕ)
      → length t < 2 ^ 16
      → length p < 2 ^ 16
      → is_utf8 t ≡ true
      → is_utf8 p ≡ true
      → decode_body version (body t p payload) ≡ occupied (slot_of version t p payload)
  unfolding decode_body
  decode_body-body version ht hp ut up =
      let b = body t p payload in
      let w3 = to_le_bytes 2 (length t) in
      let w4 = to_le_bytes 2 (length p) in
      let l3 = length-to_le_bytes 2 (length t) in
      let l4 = length-to_le_bytes 2 (length p) in
      let head : length (w3 ++ w4) ≡ 4 = omega (arith, l3, l4, length-append w3 w4) in
      let e1 : slice 0 2 b ≡ w3 = slice-append 0 2 [] w3 _ refl (omega arith) in
      let e2 : slice 2 4 b ≡ w4 = slice-append 2 4 w3 w4 _ l3 (omega arith) in
      let e3 : slice 4 (4 + length t) b ≡ t =
        ap (slice 4 (4 + length t)) (sym (append_assoc w3 w4 (t ++ (p ++ payload))))
        ∙ slice-append 4 (4 + length t) (w3 ++ w4) t (p ++ payload) head refl in
      let front : length ((w3 ++ w4) ++ t) ≡ 4 + length t =
        omega (arith, length-append (w3 ++ w4) t) in
      let e4 : slice (4 + length t) (4 + length t + length p) b ≡ p =
        ap (slice (4 + length t) (4 + length t + length p)) (simp append_assoc)
        ∙ slice-append (4 + length t) (4 + length t + length p) ((w3 ++ w4) ++ t) p payload front
            refl in
      let e5 : drop (4 + length t + length p) b ≡ payload =
        ap (drop (4 + length t + length p)) (simp append_assoc)
        ∙ drop-append (4 + length t + length p) (((w3 ++ w4) ++ t) ++ p) payload
            (omega (arith, front, length-append ((w3 ++ w4) ++ t) p)) in
      let v3 : from_le_bytes w3 ≡ length t = from_le_bytes-to_le_bytes 2 (length t) (omega arith) in
      let v4 : from_le_bytes w4 ≡ length p = from_le_bytes-to_le_bytes 2 (length p) (omega arith) in
      rw (e1, e2, v3, v4, e3, e4, e5, ut, up) (ground (arith, length-body))

-- The values for which a slot says all there is: what `encode_slot` can write, a version of a
-- `u64`, and keys that are texts.
pub record IsSlot (size version : ℕ) (t p : Text) (payload : List ℕ) : Type 0 where
  pub encodable : IsEncodable size t p payload
  pub version_fits : version < 2 ^ 64
  pub table_is_utf8 : is_utf8 t ≡ true
  pub key_is_utf8 : is_utf8 p ≡ true

module _ (hash : List ℕ → ℕ) (size version : ℕ) (t p : Text) (payload : List ℕ) where
  pub length-covered : length (covered version t p payload) ≡ 12 + body_len t p payload
  length-covered =
      let w1 = to_le_bytes 8 version in
      let w2 = to_le_bytes 4 (body_len t p payload) in
      let b = body t p payload in
      omega (
        arith,
        length-append w1 (w2 ++ b),
        length-append w2 b,
        length-to_le_bytes 8 version,
        length-to_le_bytes 4 (body_len t p payload),
        length-body t p payload,
      )

  -- Whatever follows the covered bytes, a whole slot in front is decoded.
  decode_slot-covered :
      (after : List ℕ)
      → ((bytes : List ℕ) → hash bytes < 2 ^ 32)
      → IsSlot size version t p payload
      → decode_slot hash (
          to_le_bytes 4 (hash (covered version t p payload))
          ++ (covered version t p payload ++ after))
        ≡ occupied (slot_of version t p payload)
  unfolding decode_slot
  decode_slot-covered after law h =
      let n = body_len t p payload in
      let b = body t p payload in
      let c = covered version t p payload in
      let w0 = to_le_bytes 4 (hash c) in
      let w1 = to_le_bytes 8 version in
      let w2 = to_le_bytes 4 n in
      let all = w0 ++ (c ++ after) in
      let l0 = length-to_le_bytes 4 (hash c) in
      let l1 = length-to_le_bytes 8 version in
      let l2 = length-to_le_bytes 4 n in
      let lc = length-covered in
      let lb = length-body t p payload in
      let m1 : length (w0 ++ w1) ≡ 12 = omega (arith, length-append w0 w1) in
      let m2 : length ((w0 ++ w1) ++ w2) ≡ 16 = omega (arith, m1, length-append (w0 ++ w1) w2) in
      let g1 : all ≡ w0 ++ (w1 ++ ((w2 ++ b) ++ after)) = simp append_assoc in
      let g2 : all ≡ (w0 ++ w1) ++ (w2 ++ (b ++ after)) = simp append_assoc in
      let g3 : all ≡ ((w0 ++ w1) ++ w2) ++ (b ++ after) = simp append_assoc in
      let e0 : slice 0 4 all ≡ w0 = slice-append 0 4 [] w0 _ refl (omega arith) in
      let e1 : slice 4 12 all ≡ w1 =
        ap (slice 4 12) g1 ∙ slice-append 4 12 w0 w1 ((w2 ++ b) ++ after) l0 (omega arith) in
      let e2 : slice 12 16 all ≡ w2 =
        ap (slice 12 16) g2 ∙ slice-append 12 16 (w0 ++ w1) w2 (b ++ after) m1 (omega arith) in
      let e3 : slice 4 (16 + n) all ≡ c = slice-append 4 (16 + n) w0 c after l0 (omega arith) in
      let e4 : slice 16 (16 + n) all ≡ b =
        ap (slice 16 (16 + n)) g3
        ∙ slice-append 16 (16 + n) ((w0 ++ w1) ++ w2) b after m2 (omega arith) in
      let v0 : from_le_bytes w0 ≡ hash c =
        from_le_bytes-to_le_bytes 4 (hash c) (omega (arith, law c)) in
      let v1 : from_le_bytes w1 ≡ version = from_le_bytes-to_le_bytes 8 version (omega arith) in
      let v2 : from_le_bytes w2 ≡ n = from_le_bytes-to_le_bytes 4 n (omega arith) in
      let inner =
        decode_body-body t p payload version (omega arith) (omega arith) h.table_is_utf8
          h.key_is_utf8 in
      rw (e0, e1, e2, v0, v1, v2, e3, e4, inner)
        (ground
          (arith, length-append w0 (c ++ after), length-append c after, ==_iff (hash c) (hash c)))

  -- What `encode_slot` writes for the keys, the version and the payload is a whole slot of its
  -- class, and `decode_slot` reads them back. Of the crc it takes that it is a `u32`.
  pub decode_slot-encode_slot :
      ((bytes : List ℕ) → hash bytes < 2 ^ 32)
      → IsSlot size version t p payload
      → (bytes : List ℕ) × (encode_slot hash size version t p payload ≡ returns bytes)
        × (length bytes ≡ size)
        × (decode_slot hash bytes ≡ occupied (slot_of version t p payload))
  decode_slot-encode_slot law h =
      let c = covered version t p payload in
      let z = zeros (size - (slot_prefix_len + body_len t p payload)) in
      let w0 = to_le_bytes 4 (hash c) in
      (
        layout hash size version t p payload,
        encode_slot-layout hash size version t p payload h.encodable,
        omega (
          arith,
          length-append w0 (c ++ z),
          length-append c z,
          length-to_le_bytes 4 (hash c),
          length-covered,
          length-replicate {A = ℕ} (size - (slot_prefix_len + body_len t p payload)) 0,
        ),
        decode_slot-covered z law h,
      )
