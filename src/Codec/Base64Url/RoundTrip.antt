-- ===== src/Codec/Base64Url/RoundTrip.antt =====
-- `decode_bytes` reads back what `encode_bytes` wrote.
use my_no_sql_server_grpc.Base.{
  ℕ, ◌+◌, ◌*◌, ◌<◌, ◌≡◌, refl, ap, ◌∙◌, arith, true, List, [], ◌∷◌, ◌++◌, some, All, Text,
  append_assoc, append-nil,
}
use my_no_sql_server_grpc.Base.Utf8.{is_utf8}
use my_no_sql_server_grpc.Base.Word.{IsByte}
use my_no_sql_server_grpc.Codec.Groups.{
  triple, sextet, position, finds_its_own, position-get_or, triple_sum, sextet_lem, sextet-lt,
  append_sextet_sum,
}
use my_no_sql_server_grpc.Base.Result.{Result, ok, ◌>>=◌}
use my_no_sql_server_grpc.Codec.Base64Url.{
  DecodeError, alphabet, symbol_at, encode_chunk, encode_bytes, encode, Decoding, take_symbol,
  finish, decode_symbols, decode_bytes, decode,
}

position-symbol_at : (i : ℕ) → i < 64 → position (symbol_at i) alphabet ≡ some i
unfolding alphabet finds_its_own position
position-symbol_at i h = position-get_or 64 i alphabet refl h

-- The loop on a symbol that the encoder wrote.
decode-symbol_at :
    (src rest : Text) (i : ℕ) (d : Decoding)
    → i < 64
    → decode_symbols src (symbol_at i ∷ rest) d ≡ decode_symbols src rest (take_symbol d i)
unfolding decode_symbols
decode-symbol_at src rest i d h = rw (position-symbol_at i h, decode_symbols)

abbrev at_start : List ℕ → Decoding
at_start out = record { buffer = 0; collected = 0; bytes = out }

-- Two, three and four groups of six bits, from the start of a group.
two_symbols :
    (i j : ℕ) (out : List ℕ)
    → i < 64
    → j < 64
    → take_symbol (take_symbol (at_start out) i) j
      ≡ record { buffer = i * 64 + j; collected = 2; bytes = out }
unfolding take_symbol
two_symbols i j out hi hj = ground (arith, append_sextet_sum 0 i, append_sextet_sum i j)

three_symbols :
    (i j k : ℕ) (out : List ℕ)
    → i < 64
    → j < 64
    → k < 64
    → take_symbol (take_symbol (take_symbol (at_start out) i) j) k
      ≡ record { buffer = (i * 64 + j) * 64 + k; collected = 3; bytes = out }
three_symbols i j k out hi hj hk =
    rw (two_symbols i j out hi hj)
      (unfold take_symbol in ground (arith, append_sextet_sum (i * 64 + j) k))

four_symbols :
    (i j k l b0 b1 b2 : ℕ) (out : List ℕ)
    → i < 64
    → j < 64
    → k < 64
    → l < 64
    → IsByte b0
    → IsByte b1
    → IsByte b2
    → ((i * 64 + j) * 64 + k) * 64 + l ≡ b0 * 65536 + b1 * 256 + b2
    → take_symbol (take_symbol (take_symbol (take_symbol (at_start out) i) j) k) l
      ≡ at_start (out ++ (b0 ∷ b1 ∷ b2 ∷ []))
four_symbols i j k l b0 b1 b2 out hi hj hk hl h0 h1 h2 e =
    rw (three_symbols i j k out hi hj hk)
      (unfold take_symbol in ground (arith, append_sextet_sum ((i * 64 + j) * 64 + k) l))

-- The loop and the tail, from the start of a group.
decode_from : Text → Text → List ℕ → Result DecodeError (List ℕ)
decode_from src rest out = do d ← decode_symbols src rest (at_start out); finish src d

-- A whole chunk is read back, and the loop stands at the start of a group again.
full_chunk :
    (src rest : Text) (out : List ℕ) (b0 b1 b2 : ℕ)
    → IsByte b0
    → IsByte b1
    → IsByte b2
    → decode_symbols src (encode_chunk (b0 ∷ b1 ∷ b2 ∷ []) ++ rest) (at_start out)
      ≡ decode_symbols src rest (at_start (out ++ (b0 ∷ b1 ∷ b2 ∷ [])))
unfolding encode_chunk
full_chunk src rest out b0 b1 b2 h0 h1 h2 =
    let t = triple b0 b1 b2 in
    let i = sextet t 18 in
    let j = sextet t 12 in
    let k = sextet t 6 in
    let l = sextet t 0 in
    decode-symbol_at src _ i _ (sextet-lt t 18)
    ∙ decode-symbol_at src _ j _ (sextet-lt t 12)
    ∙ decode-symbol_at src _ k _ (sextet-lt t 6)
    ∙ decode-symbol_at src rest l _ (sextet-lt t 0)
    ∙ ap (decode_symbols src rest) (
        four_symbols i j k l b0 b1 b2 out (sextet-lt t 18) (sextet-lt t 12) (sextet-lt t 6)
          (sextet-lt t 0) h0 h1 h2
          (omega (
            arith,
            triple_sum b0 b1 b2 h0 h1 h2,
            sextet_lem t 18,
            sextet_lem t 12,
            sextet_lem t 6,
            sextet_lem t 0,
          )))

one_byte :
    (src : Text) (out : List ℕ) (b0 : ℕ)
    → IsByte b0
    → decode_from src (encode_chunk (b0 ∷ [])) out ≡ ok (out ++ (b0 ∷ []))
unfolding decode_from encode_chunk decode_symbols finish
one_byte src out b0 h0 =
    let t = triple b0 0 0 in
    ground (
      arith,
      position-symbol_at (sextet t 18),
      position-symbol_at (sextet t 12),
      two_symbols (sextet t 18) (sextet t 12) out,
      sextet-lt t 18,
      sextet-lt t 12,
      triple_sum b0 0 0,
      sextet_lem t 18,
      sextet_lem t 12,
    )

two_bytes :
    (src : Text) (out : List ℕ) (b0 b1 : ℕ)
    → IsByte b0
    → IsByte b1
    → decode_from src (encode_chunk (b0 ∷ b1 ∷ [])) out ≡ ok (out ++ (b0 ∷ b1 ∷ []))
unfolding decode_from encode_chunk decode_symbols finish
two_bytes src out b0 b1 h0 h1 =
    let t = triple b0 b1 0 in
    ground (
      arith,
      position-symbol_at (sextet t 18),
      position-symbol_at (sextet t 12),
      position-symbol_at (sextet t 6),
      three_symbols (sextet t 18) (sextet t 12) (sextet t 6) out,
      sextet-lt t 18,
      sextet-lt t 12,
      sextet-lt t 6,
      triple_sum b0 b1 0,
      sextet_lem t 18,
      sextet_lem t 12,
      sextet_lem t 6,
    )

decode_from-encode_bytes :
    (src : Text) (out bs : List ℕ)
    → All IsByte bs
    → decode_from src (encode_bytes bs) out ≡ ok (out ++ bs)
unfolding encode_bytes decode_from
decode_from-encode_bytes src out [] h = rw append-nil (unfold decode_symbols finish in refl)
decode_from-encode_bytes src out (b0 ∷ []) h = one_byte src out b0 h.0
decode_from-encode_bytes src out (b0 ∷ b1 ∷ []) h = two_bytes src out b0 b1 h.0 h.1.0
decode_from-encode_bytes src out (b0 ∷ b1 ∷ b2 ∷ rest) (h0, (h1, (h2, h))) =
    rw (full_chunk src (encode_bytes rest) out b0 b1 b2 h0 h1 h2, decode_from)
      (decode_from-encode_bytes src (out ++ (b0 ∷ b1 ∷ b2 ∷ [])) rest h
        ∙ ap ok (append_assoc out (b0 ∷ b1 ∷ b2 ∷ []) rest))

-- Every sequence of bytes comes back from its encoding.
pub decode_bytes-encode_bytes :
    (bs : List ℕ) → All IsByte bs → decode_bytes (encode_bytes bs) ≡ ok bs
unfolding decode_bytes decode_from
decode_bytes-encode_bytes bs h = decode_from-encode_bytes (encode_bytes bs) [] bs h

-- Every text, that is every UTF-8 sequence of bytes, comes back from its encoding.
pub decode-encode : (s : Text) → All IsByte s → is_utf8 s ≡ true → decode (encode s) ≡ ok s
unfolding decode encode
decode-encode s h u = rw (decode_bytes-encode_bytes s h, u)
