-- ===== src/Persist/Slot/Tests.antt =====
-- Runs of the slot codec, and its theorems at concrete inputs.
use my_no_sql_server_grpc.Persist.Slot.Layout.{IsEncodable}
use my_no_sql_server_grpc.Persist.Slot.RoundTrip.{IsSlot, slot_of, decode_slot-encode_slot}
use my_no_sql_server_grpc.Persist.Slot.Decode.{IsSound, decode_slot-IsSound}
use my_no_sql_server_grpc.Base.{ℕ, arith, length, List, [], ◌∷◌, ◌≡◌, refl, replicate, All}
use my_no_sql_server_grpc.Base.Outcome.{returns}
use my_no_sql_server_grpc.Base.Utf8.{is_utf8}
use my_no_sql_server_grpc.Base.Word.{IsByte, to_le_bytes, from_le_bytes}
use my_no_sql_server_grpc.Persist.Slot.{copy_at, encode_slot, decode_body, decode_slot, occupied}

abbrev a_slot : List ℕ
a_slot =
    7
    ∷ 0
    ∷ 0
    ∷ 0
    ∷ 2
    ∷ 1
    ∷ 0
    ∷ 0
    ∷ 0
    ∷ 0
    ∷ 0
    ∷ 0
    ∷ 8
    ∷ 0
    ∷ 0
    ∷ 0
    ∷ 1
    ∷ 0
    ∷ 1
    ∷ 0
    ∷ 116
    ∷ 112
    ∷ 9
    ∷ 8
    ∷ replicate 8 0

encode_small : encode_slot (λ bytes. 7) 32 258 (116 ∷ []) (112 ∷ []) (9 ∷ 8 ∷ []) ≡ returns a_slot
unfolding encode_slot copy_at to_le_bytes
encode_small = refl

encodable : IsEncodable 32 (116 ∷ []) (112 ∷ []) (9 ∷ 8 ∷ [])
encodable = record {
  table_fits = omega arith;
  key_fits = omega arith;
  slot_fits = omega arith;
  size_fits = omega arith;
}

slot : IsSlot 32 258 (116 ∷ []) (112 ∷ []) (9 ∷ 8 ∷ [])
unfolding is_utf8
slot = record {
  encodable = encodable;
  version_fits = omega arith;
  table_is_utf8 = refl;
  key_is_utf8 = refl;
}

decode_slot-encode_slot_example :
    (bytes : List ℕ) × (encode_slot (λ bytes. 7) 32 258 (116 ∷ []) (112 ∷ []) (9 ∷ 8 ∷ [])
      ≡ returns bytes)
    × (length bytes ≡ 32)
    × (decode_slot (λ bytes. 7) bytes ≡ occupied (slot_of 258 (116 ∷ []) (112 ∷ []) (9 ∷ 8 ∷ [])))
decode_slot-encode_slot_example =
    decode_slot-encode_slot (λ bytes. 7) 32 258 (116 ∷ []) (112 ∷ []) (9 ∷ 8 ∷ [])
      (λ bytes. omega arith) slot

a_slot-IsByte : All IsByte a_slot
a_slot-IsByte = ground arith

decode_slot-IsSound_example :
    IsSound (λ bytes. 7) a_slot (slot_of 258 (116 ∷ []) (112 ∷ []) (9 ∷ 8 ∷ []))
unfolding decode_slot decode_body from_le_bytes is_utf8
decode_slot-IsSound_example =
    decode_slot-IsSound (λ bytes. 7) a_slot (slot_of 258 (116 ∷ []) (112 ∷ []) (9 ∷ 8 ∷ []))
      a_slot-IsByte refl
