-- ===== src/Persist/Slot/Layout.antt =====
-- What `encode_slot` writes, as one list.
use native.Mathlib.Nat.{mod-eq_of_lt, suc-add}
use my_no_sql_server_grpc.Base.{
  ℕ, zero, suc, ◌+◌, ◌-◌, ◌^◌, ◌<◌, ◌≤◌, ◌≡◌, refl, sym, ap, ◌∙◌, arith, List, [], ◌∷◌, ◌++◌,
  length, drop, replicate, slice, Text, append_assoc, length-append, length-replicate, take-append,
  drop-append, le→leb,
}
use my_no_sql_server_grpc.Base.Outcome.{returns}
use my_no_sql_server_grpc.Base.Word.{to_le_bytes, length-to_le_bytes}
use my_no_sql_server_grpc.Persist.Slot.{
  slot_prefix_len, key_len_fields, slot_overhead, max_key_len, copy_at, encode_slot,
}

abbrev pub zeros : ℕ → List ℕ
zeros n = replicate n 0

zeros_split : (k n : ℕ) → k ≤ n → zeros n ≡ zeros k ++ zeros (n - k)
zeros_split zero n h = ground arith
zeros_split (suc k) zero h = absurd (omega arith)
zeros_split (suc k) (suc n) h = ground (arith, zeros_split k n)

drop-zeros : (k n : ℕ) → drop k (zeros n) ≡ zeros (n - k)
drop-zeros zero n = ground arith
drop-zeros (suc k) zero = ground arith
drop-zeros (suc k) (suc n) = ground (arith, drop-zeros k n)

drop_more {ℓ} : {A : Type ℓ} (k : ℕ) (xs ys : List A) → drop (length xs + k) (xs ++ ys) ≡ drop k ys
drop_more k [] ys = ground arith
drop_more k (x ∷ xs) ys = rw suc-add (drop_more k xs ys)

-- A write behind what is written already, into the zeros.
copy_at-zeros :
    (pos n m : ℕ) (done src : List ℕ)
    → pos ≡ length done
    → length src + m ≡ n
    → copy_at pos src (done ++ zeros n) ≡ returns ((done ++ src) ++ zeros m)
unfolding copy_at
copy_at-zeros pos n m done src e h =
    let left : n - length src ≡ m = omega arith in
    rw
      (
        e,
        take-append (length done) done (zeros n) refl,
        drop_more (length src) done (zeros n),
        drop-zeros,
        left,
      )
      (ground (
        arith,
        length-append done (zeros n),
        length-replicate {A = ℕ} n 0,
        append_assoc done src (zeros m),
      ))

-- The crc goes over the zeros in front.
copy_at_front :
    (front src rest : List ℕ)
    → length src ≡ length front
    → copy_at 0 src (front ++ rest) ≡ returns (src ++ rest)
unfolding copy_at
copy_at_front front src rest h =
    let same : drop (0 + length src) (front ++ rest) ≡ rest =
      drop-append (0 + length src) front rest (omega arith) in
    rw same (ground (arith, length-append front rest))

module _ (table_name partition_key : Text) (payload : List ℕ) where
  abbrev pub body_len : ℕ
  body_len = key_len_fields + length table_name + length partition_key + length payload

  abbrev pub body : List ℕ
  body =
      to_le_bytes 2 (length table_name)
      ++ (to_le_bytes 2 (length partition_key) ++ (table_name ++ (partition_key ++ payload)))

-- What the crc covers.
abbrev pub covered : ℕ → Text → Text → List ℕ → List ℕ
covered version table_name partition_key payload =
    to_le_bytes 8 version
    ++ (to_le_bytes 4 (body_len table_name partition_key payload)
        ++ body table_name partition_key payload)

abbrev pub layout : (List ℕ → ℕ) → ℕ → ℕ → Text → Text → List ℕ → List ℕ
layout hash size version table_name partition_key payload =
    let c = covered version table_name partition_key payload in
    to_le_bytes 4 (hash c)
    ++ (c ++ zeros (size - (slot_prefix_len + body_len table_name partition_key payload)))

-- The keys have lengths of a `u16`, and the slot fits its class, which is a `u32`.
pub record IsEncodable (size : ℕ) (table_name partition_key : Text) (payload : List ℕ)
    : Type 0 where
  pub table_fits : length table_name ≤ max_key_len
  pub key_fits : length partition_key ≤ max_key_len
  pub slot_fits : slot_overhead + length table_name + length partition_key + length payload ≤ size
  pub size_fits : size < 2 ^ 32

-- `encode_slot` writes the layout, and never panics where the keys and the slot fit.
pub encode_slot-layout :
    (hash : List ℕ → ℕ) (size version : ℕ) (table_name partition_key : Text) (payload : List ℕ)
    → IsEncodable size table_name partition_key payload
    → encode_slot hash size version table_name partition_key payload
      ≡ returns (layout hash size version table_name partition_key payload)
unfolding encode_slot
encode_slot-layout hash size version t p payload h =
    let n = body_len t p payload in
    let w1 = to_le_bytes 8 version in
    let w2 = to_le_bytes 4 n in
    let w3 = to_le_bytes 2 (length t) in
    let w4 = to_le_bytes 2 (length p) in
    let d1 = zeros 4 ++ w1 in
    let d2 = d1 ++ w2 in
    let d3 = d2 ++ w3 in
    let d4 = d3 ++ w4 in
    let d5 = d4 ++ t in
    let d6 = d5 ++ p in
    let l1 : length d1 ≡ 12 = omega (arith, length-to_le_bytes 8 version) in
    let l2 : length d2 ≡ 16 = omega (arith, l1, length-append d1 w2, length-to_le_bytes 4 n) in
    let l3 : length d3 ≡ 18 =
      omega (arith, l2, length-append d2 w3, length-to_le_bytes 2 (length t)) in
    let l4 : length d4 ≡ 20 =
      omega (arith, l3, length-append d3 w4, length-to_le_bytes 2 (length p)) in
    let l5 : length d5 ≡ 20 + length t = omega (arith, l4, length-append d4 t) in
    let l6 : length d6 ≡ 20 + length t + length p = omega (arith, l5, length-append d5 p) in
    let rest = size - (slot_prefix_len + n) in
    let c = covered version t p payload in
    let front : d6 ++ payload ≡ zeros 4 ++ c = simp append_assoc in
    let regroup : (d6 ++ payload) ++ zeros rest ≡ zeros 4 ++ (c ++ zeros rest) =
      ap (λ (l : List ℕ). l ++ zeros rest) front ∙ append_assoc (zeros 4) c (zeros rest) in
    let end = 20 + length t + length p + length payload in
    let covers : slice 4 end (zeros 4 ++ (c ++ zeros rest)) ≡ c =
      take-append (end - 4) c (zeros rest)
        (omega (arith, l6, length-append d6 payload, ap length front)) in
    rw
      (
        le→leb (length t) max_key_len h.table_fits,
        le→leb (length p) max_key_len h.key_fits,
        zeros_split 4 size (omega arith),
        copy_at-zeros 4 (size - 4) (size - 12) (zeros 4) w1 refl
            (omega (arith, length-to_le_bytes 8 version)),
        mod-eq_of_lt {n = n} {m = 2 ^ 32} (omega arith),
        copy_at-zeros 12 (size - 12) (size - 16) d1 w2 (sym l1)
            (omega (arith, length-to_le_bytes 4 n)),
        mod-eq_of_lt {n = length t} {m = 2 ^ 16} (omega arith),
        mod-eq_of_lt {n = length p} {m = 2 ^ 16} (omega arith),
        copy_at-zeros 16 (size - 16) (size - 18) d2 w3 (sym l2)
            (omega (arith, length-to_le_bytes 2 (length t))),
        copy_at-zeros 18 (size - 18) (size - 20) d3 w4 (sym l3)
            (omega (arith, length-to_le_bytes 2 (length p))),
        copy_at-zeros 20 (size - 20) (size - (20 + length t)) d4 t (sym l4) (omega arith),
        copy_at-zeros (20 + length t) (size - (20 + length t)) (size - (20 + length t + length p))
            d5 p (sym l5) (omega arith),
        copy_at-zeros (20 + length t + length p) (size - (20 + length t + length p)) rest d6 payload
            (sym l6) (omega arith),
        regroup,
        covers,
      )
      (copy_at_front (zeros 4) (to_le_bytes 4 (hash c)) (c ++ zeros rest)
        (length-to_le_bytes 4 (hash c)))
