-- ===== src/Codec/Base64Url/Encode.antt =====
-- The shape of what `encode_bytes` writes.
use my_no_sql_server_grpc.Base.{
  ℕ, ◌+◌, ◌*◌, ◌/◌, ◌<◌, ◌≡◌, refl, arith, Bool, true, ◌||◌, List, [], ◌∷◌, ◌==◌, length, All,
  All-append,
}
use my_no_sql_server_grpc.Base.Utf8.{within}
use my_no_sql_server_grpc.Codec.Groups.{sextet, sextet-lt, all_below, all_below-lt}
use my_no_sql_server_grpc.Codec.Base64Url.{alphabet, symbol_at, encode_chunk, encode_bytes}

-- A letter, a digit, `-` or `_`: no separator of a path, no dot, no padding.
abbrev pub is_url_symbol : ℕ → Bool
is_url_symbol c =
    within b'A' b'Z' c || within b'a' b'z' c || within b'0' b'9' c || c == 45 || c == 95

abbrev pub IsUrlSymbol : ℕ → Type 0
IsUrlSymbol c = is_url_symbol c ≡ true

symbol_at-IsUrlSymbol : (i : ℕ) → i < 64 → IsUrlSymbol (symbol_at i)
unfolding alphabet all_below
symbol_at-IsUrlSymbol i h = all_below-lt (λ i. is_url_symbol (symbol_at i)) 64 refl i h

sextet-IsUrlSymbol : (t k : ℕ) → IsUrlSymbol (symbol_at (sextet t k))
sextet-IsUrlSymbol t k = symbol_at-IsUrlSymbol (sextet t k) (sextet-lt t k)

-- What is written is a file name: letters, digits, `-` and `_`, whatever the bytes are.
pub encode_bytes-IsUrlSymbol : (bs : List ℕ) → All IsUrlSymbol (encode_bytes bs)
unfolding encode_bytes encode_chunk
encode_bytes-IsUrlSymbol [] = tt
encode_bytes-IsUrlSymbol (b0 ∷ []) = (sextet-IsUrlSymbol _ 18, (sextet-IsUrlSymbol _ 12, tt))
encode_bytes-IsUrlSymbol (b0 ∷ b1 ∷ []) =
    (sextet-IsUrlSymbol _ 18, (sextet-IsUrlSymbol _ 12, (sextet-IsUrlSymbol _ 6, tt)))
encode_bytes-IsUrlSymbol (b0 ∷ b1 ∷ b2 ∷ rest) =
    All-append IsUrlSymbol (encode_chunk (b0 ∷ b1 ∷ b2 ∷ [])) (encode_bytes rest)
      (
        sextet-IsUrlSymbol _ 18,
        (sextet-IsUrlSymbol _ 12, (sextet-IsUrlSymbol _ 6, (sextet-IsUrlSymbol _ 0, tt))),
      )
      (encode_bytes-IsUrlSymbol rest)

-- Four symbols for three bytes, rounded up, and no padding.
pub length-encode_bytes : (bs : List ℕ) → length (encode_bytes bs) ≡ (4 * length bs + 2) / 3
unfolding encode_bytes encode_chunk
length-encode_bytes [] = refl
length-encode_bytes (b0 ∷ []) = refl
length-encode_bytes (b0 ∷ b1 ∷ []) = refl
length-encode_bytes (b0 ∷ b1 ∷ b2 ∷ rest) = omega (arith, length-encode_bytes rest)
