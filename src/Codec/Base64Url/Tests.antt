-- ===== src/Codec/Base64Url/Tests.antt =====
-- Runs of the codec, and its theorems at concrete inputs.
use my_no_sql_server_grpc.Base.{arith, [], ◌∷◌, ◌≡◌, refl}
use my_no_sql_server_grpc.Codec.Base64Url.RoundTrip.{decode_bytes-encode_bytes}
use my_no_sql_server_grpc.Base.Utf8.{is_utf8}
use my_no_sql_server_grpc.Codec.Groups.{triple, sextet, append_sextet, position}
use my_no_sql_server_grpc.Base.Result.{ok, err}
use my_no_sql_server_grpc.Codec.Base64Url.{
  not_written_here, alphabet, encode_chunk, encode_bytes, encode, take_symbol, finish,
  decode_symbols, decode_bytes, decode,
}

program : Unit {0}
unfolding triple sextet append_sextet position alphabet encode_chunk encode_bytes encode take_symbol
    finish decode_symbols decode_bytes decode is_utf8
program = tt

-- "a.." becomes "YS4u".
encode_dots : encode (97 ∷ 46 ∷ 46 ∷ []) ≡ 89 ∷ 83 ∷ 52 ∷ 117 ∷ []
unfolding program
encode_dots = refl

decode_dots : decode (89 ∷ 83 ∷ 52 ∷ 117 ∷ []) ≡ ok (97 ∷ 46 ∷ 46 ∷ [])
unfolding program
decode_dots = refl

decode_one_symbol : decode (65 ∷ []) ≡ err (not_written_here (65 ∷ []))
unfolding program
decode_one_symbol = refl

decode_bytes-encode_bytes_example :
    decode_bytes (encode_bytes (0 ∷ 255 ∷ 16 ∷ 3 ∷ [])) ≡ ok (0 ∷ 255 ∷ 16 ∷ 3 ∷ [])
decode_bytes-encode_bytes_example =
    decode_bytes-encode_bytes (0 ∷ 255 ∷ 16 ∷ 3 ∷ [])
      (omega arith, (omega arith, (omega arith, (omega arith, tt))))
