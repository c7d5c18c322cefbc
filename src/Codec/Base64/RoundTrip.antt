-- ===== src/Codec/Base64/RoundTrip.antt =====
-- `decode` reads back what `encode` wrote, with or without the padding.
use my_no_sql_server_grpc.Base.{
  ℕ, zero, suc, ◌+◌, ◌*◌, ◌/◌, ◌%◌, ◌^◌, ◌<◌, ◌≡◌, refl, ap, ◌∙◌, arith, false, not, List, [], ◌∷◌,
  ◌++◌, some, ◌==◌, leb, if◌then◌else◌, All, Text, append_assoc, append-nil, replicate, length,
}
use my_no_sql_server_grpc.Base.Word.{IsByte}
use my_no_sql_server_grpc.Codec.Groups.{
  triple, sextet, position, finds_its_own, position-get_or, triple_sum, sextet_lem, sextet-lt,
  append_sextet_sum, all_below, all_below-lt,
}
use my_no_sql_server_grpc.Base.Result.{Result, ok, err, ◌>>=◌}
use my_no_sql_server_grpc.Codec.Base64.{
  DecodeError, cut_off, alphabet, symbol_at, padding, encode_chunk, encode, trim_padding, Decoding,
  take_symbol, decode_symbols, decode,
}

abbrev IsSymbol : ℕ → Type 0
IsSymbol c = (c == padding) ≡ false

symbol_at-IsSymbol : (i : ℕ) → i < 64 → IsSymbol (symbol_at i)
unfolding alphabet all_below
symbol_at-IsSymbol i h =
    ground (arith, all_below-lt (λ i. not (symbol_at i == padding)) 64 refl i h)

sextet-IsSymbol : (t k : ℕ) → IsSymbol (symbol_at (sextet t k))
sextet-IsSymbol t k = symbol_at-IsSymbol (sextet t k) (sextet-lt t k)

position-symbol_at : (i : ℕ) → i < 64 → position (symbol_at i) alphabet ≡ some i
unfolding alphabet finds_its_own position
position-symbol_at i h = position-get_or 64 i alphabet refl h

decode-symbol_at :
    (rest : Text) (i : ℕ) (d : Decoding)
    → i < 64
    → decode_symbols (symbol_at i ∷ rest) d ≡ decode_symbols rest (take_symbol d i)
unfolding decode_symbols
decode-symbol_at rest i d h = rw (position-symbol_at i h, decode_symbols)

-- What the encoder writes before the padding, and how much padding follows.
pub symbols : List ℕ → Text
symbols [] = []
symbols (b0 ∷ []) = let t = triple b0 0 0 in symbol_at (sextet t 18) ∷ symbol_at (sextet t 12) ∷ []
symbols (b0 ∷ b1 ∷ []) =
    let t = triple b0 b1 0 in
    symbol_at (sextet t 18) ∷ symbol_at (sextet t 12) ∷ symbol_at (sextet t 6) ∷ []
symbols (b0 ∷ b1 ∷ b2 ∷ rest) = encode_chunk (b0 ∷ b1 ∷ b2 ∷ []) ++ symbols rest

pads : List ℕ → ℕ
pads [] = 0
pads (b0 ∷ []) = 2
pads (b0 ∷ b1 ∷ []) = 1
pads (b0 ∷ b1 ∷ b2 ∷ rest) = pads rest

encode-symbols : (bs : List ℕ) → encode bs ≡ symbols bs ++ replicate (pads bs) padding
unfolding encode encode_chunk symbols pads
encode-symbols [] = refl
encode-symbols (b0 ∷ []) = refl
encode-symbols (b0 ∷ b1 ∷ []) = refl
encode-symbols (b0 ∷ b1 ∷ b2 ∷ rest) = rw (encode-symbols rest)

symbols-IsSymbol : (bs : List ℕ) → All IsSymbol (symbols bs)
unfolding symbols encode_chunk
symbols-IsSymbol [] = tt
symbols-IsSymbol (b0 ∷ []) = (sextet-IsSymbol _ 18, (sextet-IsSymbol _ 12, tt))
symbols-IsSymbol (b0 ∷ b1 ∷ []) =
    (sextet-IsSymbol _ 18, (sextet-IsSymbol _ 12, (sextet-IsSymbol _ 6, tt)))
symbols-IsSymbol (b0 ∷ b1 ∷ b2 ∷ rest) = (
  sextet-IsSymbol _ 18,
  (sextet-IsSymbol _ 12, (sextet-IsSymbol _ 6, (sextet-IsSymbol _ 0, symbols-IsSymbol rest))),
)

trim_all : (n : ℕ) → trim_padding (replicate n padding) ≡ []
unfolding trim_padding
trim_all zero = refl
trim_all (suc n) = rw (trim_all n)

-- The padding goes, whatever its length, and the symbols before it stay.
trim_padding-append :
    (s : Text) (n : ℕ) → All IsSymbol s → trim_padding (s ++ replicate n padding) ≡ s
unfolding trim_padding
trim_padding-append [] n h = trim_all n
trim_padding-append (c ∷ []) n h = ground (arith, trim_all n)
trim_padding-append (c ∷ d ∷ s) n h = rw (trim_padding-append (d ∷ s) n h.1)

abbrev at_start : ℕ → List ℕ → Decoding
at_start a out = record { accumulator = a; bits = 0; result = out }

abbrev after : ℕ → ℕ → ℕ
after a i = a * 64 % 2 ^ 32 + i

two_symbols :
    (a i j b : ℕ) (out : List ℕ)
    → i < 64
    → j < 64
    → IsByte b
    → (i * 64 + j) / 16 ≡ b
    → take_symbol (take_symbol (at_start a out) i) j
      ≡ record { accumulator = after (after a i) j; bits = 4; result = out ++ (b ∷ []) }
unfolding take_symbol
two_symbols a i j b out hi hj hb e =
    ground (arith, append_sextet_sum a i hi, append_sextet_sum (after a i) j hj)

three_symbols :
    (a i j k b0 b1 : ℕ) (out : List ℕ)
    → i < 64
    → j < 64
    → k < 64
    → IsByte b0
    → IsByte b1
    → (i * 64 + j) / 16 ≡ b0
    → (j * 64 + k) / 4 % 256 ≡ b1
    → take_symbol (take_symbol (take_symbol (at_start a out) i) j) k ≡ record {
      accumulator = after (after (after a i) j) k;
      bits = 2;
      result = (out ++ (b0 ∷ [])) ++ (b1 ∷ []);
    }
three_symbols a i j k b0 b1 out hi hj hk h0 h1 e0 e1 =
    rw (two_symbols a i j b0 out hi hj h0 e0)
      (unfold take_symbol in ground (arith, append_sextet_sum (after (after a i) j) k hk))

four_symbols :
    (a i j k l b0 b1 b2 : ℕ) (out : List ℕ)
    → i < 64
    → j < 64
    → k < 64
    → l < 64
    → IsByte b0
    → IsByte b1
    → IsByte b2
    → (i * 64 + j) / 16 ≡ b0
    → (j * 64 + k) / 4 % 256 ≡ b1
    → (k * 64 + l) % 256 ≡ b2
    → take_symbol (take_symbol (take_symbol (take_symbol (at_start a out) i) j) k) l
      ≡ at_start
          (after (after (after (after a i) j) k) l)
          (((out ++ (b0 ∷ [])) ++ (b1 ∷ [])) ++ (b2 ∷ []))
four_symbols a i j k l b0 b1 b2 out hi hj hk hl h0 h1 h2 e0 e1 e2 =
    rw (three_symbols a i j k b0 b1 out hi hj hk h0 h1 e0 e1)
      (unfold take_symbol in ground (arith, append_sextet_sum (after (after (after a i) j) k) l hl))

decode_from : Text → ℕ → List ℕ → Result DecodeError (List ℕ)
decode_from rest a out = do
  d ← decode_symbols rest (at_start a out)
  if leb 6 d.bits then err cut_off else ok d.result

one_byte :
    (a b0 : ℕ) (out : List ℕ)
    → IsByte b0
    → decode_from (symbols (b0 ∷ [])) a out ≡ ok (out ++ (b0 ∷ []))
unfolding decode_from symbols decode_symbols
one_byte a b0 out h0 =
    let t = triple b0 0 0 in
    ground (
      arith,
      position-symbol_at (sextet t 18),
      position-symbol_at (sextet t 12),
      two_symbols a (sextet t 18) (sextet t 12) b0 out,
      sextet-lt t 18,
      sextet-lt t 12,
      triple_sum b0 0 0,
      sextet_lem t 18,
      sextet_lem t 12,
    )

two_bytes :
    (a b0 b1 : ℕ) (out : List ℕ)
    → IsByte b0
    → IsByte b1
    → decode_from (symbols (b0 ∷ b1 ∷ [])) a out ≡ ok ((out ++ (b0 ∷ [])) ++ (b1 ∷ []))
unfolding decode_from symbols decode_symbols
two_bytes a b0 b1 out h0 h1 =
    let t = triple b0 b1 0 in
    ground (
      arith,
      position-symbol_at (sextet t 18),
      position-symbol_at (sextet t 12),
      position-symbol_at (sextet t 6),
      three_symbols a (sextet t 18) (sextet t 12) (sextet t 6) b0 b1 out,
      sextet-lt t 18,
      sextet-lt t 12,
      sextet-lt t 6,
      triple_sum b0 b1 0,
      sextet_lem t 18,
      sextet_lem t 12,
      sextet_lem t 6,
    )

-- A whole chunk is read back, whatever the accumulator held before it.
full_chunk :
    (rest : Text) (a b0 b1 b2 : ℕ) (out : List ℕ)
    → IsByte b0
    → IsByte b1
    → IsByte b2
    → (a' : ℕ) × (decode_symbols (encode_chunk (b0 ∷ b1 ∷ b2 ∷ []) ++ rest) (at_start a out)
        ≡ decode_symbols rest (at_start a' (((out ++ (b0 ∷ [])) ++ (b1 ∷ [])) ++ (b2 ∷ []))))
unfolding encode_chunk
full_chunk rest a b0 b1 b2 out h0 h1 h2 =
    let t = triple b0 b1 b2 in
    let i = sextet t 18 in
    let j = sextet t 12 in
    let k = sextet t 6 in
    let l = sextet t 0 in
    let sum = triple_sum b0 b1 b2 h0 h1 h2 in
    (
      after (after (after (after a i) j) k) l,
      decode-symbol_at _ i _ (sextet-lt t 18)
          ∙ decode-symbol_at _ j _ (sextet-lt t 12)
          ∙ decode-symbol_at _ k _ (sextet-lt t 6)
          ∙ decode-symbol_at rest l _ (sextet-lt t 0)
          ∙ ap (decode_symbols rest) (
              four_symbols a i j k l b0 b1 b2 out (sextet-lt t 18) (sextet-lt t 12) (sextet-lt t 6)
                (sextet-lt t 0) h0 h1 h2 (omega (arith, sum, sextet_lem t 18, sextet_lem t 12))
                (omega (arith, sum, sextet_lem t 12, sextet_lem t 6))
                (omega (arith, sum, sextet_lem t 6, sextet_lem t 0))),
    )

decode_from-symbols :
    (a : ℕ) (out bs : List ℕ) → All IsByte bs → decode_from (symbols bs) a out ≡ ok (out ++ bs)
unfolding symbols decode_from
decode_from-symbols a out [] h = rw append-nil (unfold decode_symbols in refl)
decode_from-symbols a out (b0 ∷ []) h = one_byte a b0 out h.0
decode_from-symbols a out (b0 ∷ b1 ∷ []) h =
    rw (two_bytes a b0 b1 out h.0 h.1.0) (simp append_assoc)
decode_from-symbols a out (b0 ∷ b1 ∷ b2 ∷ rest) (h0, (h1, (h2, h))) =
    let (a', run) = full_chunk (symbols rest) a b0 b1 b2 out h0 h1 h2 in
    rw (run, decode_from)
      (decode_from-symbols a' (((out ++ (b0 ∷ [])) ++ (b1 ∷ [])) ++ (b2 ∷ [])) rest h
        ∙ simp append_assoc)

-- The symbols of an encoding are read back with any number of `=` behind them.
pub decode-symbols :
    (bs : List ℕ) (n : ℕ) → All IsByte bs → decode (symbols bs ++ replicate n padding) ≡ ok bs
unfolding decode decode_from
decode-symbols bs n h =
    rw (trim_padding-append (symbols bs) n (symbols-IsSymbol bs)) (decode_from-symbols 0 [] bs h)

-- Every sequence of bytes comes back from its encoding, and also with the padding cut off.
pub decode-encode :
    (bs : List ℕ)
    → All IsByte bs
    → (decode (encode bs) ≡ ok bs) × (decode (trim_padding (encode bs)) ≡ ok bs)
decode-encode bs h = rw (encode-symbols bs) (
  decode-symbols bs (pads bs) h,
  rw (trim_padding-append (symbols bs) (pads bs) (symbols-IsSymbol bs), ← append-nil (symbols bs))
      (decode-symbols bs 0 h),
)

-- Padded, an encoding has four symbols for every three bytes begun.
pub length-encode : (bs : List ℕ) → length (encode bs) ≡ (length bs + 2) / 3 * 4
unfolding encode encode_chunk
length-encode [] = refl
length-encode (b0 ∷ []) = refl
length-encode (b0 ∷ b1 ∷ []) = refl
length-encode (b0 ∷ b1 ∷ b2 ∷ rest) = omega (arith, length-encode rest)
