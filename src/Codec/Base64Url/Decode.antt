-- ===== src/Codec/Base64Url/Decode.antt =====
-- Which texts `decode_bytes` takes, and how many bytes it answers with.
use my_no_sql_server_grpc.Base.{
  ℕ, ◌+◌, ◌*◌, ◌/◌, ◌%◌, ◌<◌, ◌≡◌, ◌≢◌, ◌⊎◌, inl, inr, refl, arith, Bool, true, false, List, [],
  ◌∷◌, ◌++◌, ◌==◌, length, All, Text, ltb, length-append, All-append, Bool-cases, Option-cases,
}
use my_no_sql_server_grpc.Base.Word.{IsByte, shr, as_u8}
use my_no_sql_server_grpc.Codec.Groups.{position, all_below, all_below-lt, position_above, is_some}
use my_no_sql_server_grpc.Base.Result.{ok, err}
use my_no_sql_server_grpc.Codec.Base64Url.{
  not_written_here, alphabet, Decoding, take_symbol, finish, decode_symbols, decode_bytes,
}
use my_no_sql_server_grpc.Codec.Base64Url.Encode.{is_url_symbol, IsUrlSymbol}

bool_same : Bool → Bool → Bool
bool_same true b = b
bool_same false true = false
bool_same false false = true

bool_same-eq : (a b : Bool) → bool_same a b ≡ true → a ≡ b
unfolding bool_same
bool_same-eq true b h = ground arith
bool_same-eq false true h = ground arith
bool_same-eq false false h = refl

-- The alphabet has exactly the letters, the digits, `-` and `_`.
position-is_url_symbol : (c : ℕ) → is_some (position c alphabet) ≡ is_url_symbol c
unfolding alphabet all_below position bool_same
position-is_url_symbol c = elim (Bool-cases (ltb c 128)) [
  | inl low ↦ bool_same-eq _ _ (
      all_below-lt (λ c. bool_same (is_some (position c alphabet)) (is_url_symbol c)) 128 refl c
        (ground arith))
  | inr high ↦ rw (position_above c alphabet (omega arith) (ground arith)) (ground arith)
]

-- The state of the loop after `n` symbols.
record IsAfter (n : ℕ) (d : Decoding) : Type 0 where
  in_group : d.collected < 4
  counted : 4 * length d.bytes + 3 * d.collected ≡ 3 * n
  are_bytes : All IsByte d.bytes

take_symbol-IsAfter :
    (n value : ℕ) (d : Decoding) → IsAfter n d → IsAfter (n + 1) (take_symbol d value)
unfolding take_symbol
take_symbol-IsAfter n value d h = elim (Bool-cases (d.collected + 1 == 4)) [
  | inl full ↦
      rw (full, take_symbol)
        (record {
          in_group = omega arith;
          counted = rw (length-append) (ground arith);
          are_bytes = All-append IsByte d.bytes _ h.are_bytes (omega arith);
        })
  | inr more ↦
      rw (more, take_symbol)
        (record { in_group = ground arith; counted = ground arith; are_bytes = h.are_bytes })
]

-- A run of the loop that ends took symbols of the alphabet alone.
decode_symbols-IsAfter :
    (src rest : Text) (n : ℕ) (d d' : Decoding)
    → IsAfter n d
    → decode_symbols src rest d ≡ ok d'
    → All IsUrlSymbol rest × IsAfter (n + length rest) d'
unfolding decode_symbols
decode_symbols-IsAfter src [] n d d' h run =
    (tt, record { in_group = ground arith; counted = ground arith; are_bytes = ground arith })
decode_symbols-IsAfter src (c ∷ rest) n d d' h run = elim (Option-cases (position c alphabet)) [
  | inl e ↦ absurd (cc)
  | inr (value, e) ↦
      let d1 = take_symbol d value in
      let (s, after) =
        decode_symbols-IsAfter src rest (n + 1) d1 d' (take_symbol-IsAfter n value d h)
          (ground arith) in
      (
        (ground (arith, position-is_url_symbol c), s),
        record { in_group = after.in_group; counted = omega arith; are_bytes = after.are_bytes },
      )
]

-- The loop ends, or refuses the text.
decode_symbols_cases :
    (src rest : Text) (d : Decoding)
    → ((d' : Decoding) × (decode_symbols src rest d ≡ ok d'))
      ⊎ (((All IsUrlSymbol rest → ⊥) × (decode_symbols src rest d ≡ err (not_written_here src))))
unfolding decode_symbols
decode_symbols_cases src [] d = inl (d, refl)
decode_symbols_cases src (c ∷ rest) d = elim (Option-cases (position c alphabet)) [
  | inl e ↦ inr ((λ s. ground (arith, position-is_url_symbol c)), rw (e, decode_symbols))
  | inr (value, e) ↦ elim (decode_symbols_cases src rest (take_symbol d value)) [
    | inl (d', run) ↦ inl (d', rw (e, decode_symbols) run)
    | inr (bad, run) ↦ inr ((λ s. bad s.1), rw (e, decode_symbols) run)
  ]
]

finish-IsAfter :
    (src : Text) (n : ℕ) (d : Decoding)
    → IsAfter n d
    → n % 4 ≢ 1
    → (bs : List ℕ) × (finish src d ≡ ok bs) × (length bs ≡ 3 * n / 4) × All IsByte bs
unfolding finish
finish-IsAfter src n d h m = elim (Bool-cases (d.collected == 0)) [
  | inl c0 ↦ (d.bytes, rw (c0, finish), ground arith, h.are_bytes)
  | inr n0 ↦ elim (Bool-cases (d.collected == 2)) [
    | inl c2 ↦ (
      d.bytes ++ (as_u8 (shr d.buffer 4) ∷ []),
      rw (n0, c2, finish),
      ground (arith, length-append d.bytes (as_u8 (shr d.buffer 4) ∷ [])),
      All-append IsByte d.bytes _ h.are_bytes (omega arith),
    )
    | inr n2 ↦ elim (Bool-cases (d.collected == 3)) [
      | inl c3 ↦ (
        d.bytes ++ (as_u8 (shr d.buffer 10) ∷ as_u8 (shr d.buffer 2) ∷ []),
        rw (n0, n2, c3, finish),
        ground
            (arith, length-append d.bytes (as_u8 (shr d.buffer 10) ∷ as_u8 (shr d.buffer 2) ∷ [])),
        All-append IsByte d.bytes _ h.are_bytes (omega arith),
      )
      | inr n3 ↦ absurd (ground arith)
    ]
  ]
]

finish_one_left :
    (src : Text) (n : ℕ) (d : Decoding)
    → IsAfter n d
    → n % 4 ≡ 1
    → finish src d ≡ err (not_written_here src)
unfolding finish
finish_one_left src n d h m = ground arith

abbrev start : Decoding
start = record { buffer = 0; collected = 0; bytes = [] }

start-IsAfter : IsAfter 0 start
start-IsAfter = record { in_group = omega arith; counted = omega arith; are_bytes = tt }

-- A text of symbols of the alphabet which does not end in a group of one is taken, and gives three
-- bytes for four symbols, rounded down.
pub decode_bytes_taken :
    (src : Text)
    → All IsUrlSymbol src
    → length src % 4 ≢ 1
    → (bs : List ℕ) × (decode_bytes src ≡ ok bs) × (length bs ≡ 3 * length src / 4) × All IsByte bs
unfolding decode_bytes
decode_bytes_taken src s m = elim (decode_symbols_cases src src start) [
  | inl (d, run) ↦
      let after = (decode_symbols-IsAfter src src 0 start d start-IsAfter run).1 in
      let (bs, done, counted, are_bytes) = finish-IsAfter src _ d after (λ e. m (omega arith)) in
      (bs, rw run done, omega arith, are_bytes)
  | inr (bad, run) ↦ absurd (bad s)
]

-- Any other text is refused, and the refusal names it.
pub decode_bytes_refused :
    (src : Text)
    → ((All IsUrlSymbol src → ⊥) ⊎ (length src % 4 ≡ 1))
    → decode_bytes src ≡ err (not_written_here src)
unfolding decode_bytes
decode_bytes_refused src bad = elim (decode_symbols_cases src src start) [
  | inr (_, run) ↦ rw run
  | inl (d, run) ↦
      let (s, after) = decode_symbols-IsAfter src src 0 start d start-IsAfter run in
      elim bad [
        | inl no_symbols ↦ absurd (no_symbols s)
        | inr one ↦ rw run (finish_one_left src _ d after (omega arith))
      ]
]
