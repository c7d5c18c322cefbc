-- ===== src/Codec/Base64/Tests.antt =====
-- Runs of the codec, and its theorems at concrete inputs.
use my_no_sql_server_grpc.Base.{arith, [], ◌∷◌, ◌≡◌, refl}
use my_no_sql_server_grpc.Codec.Base64.RoundTrip.{decode-encode}
use my_no_sql_server_grpc.Codec.Groups.{triple, sextet, append_sextet, position}
use my_no_sql_server_grpc.Base.Result.{ok, err}
use my_no_sql_server_grpc.Codec.Base64.{
  cut_off, not_base64, alphabet, encode_chunk, encode, trim_padding, take_symbol, decode_symbols,
  decode,
}

program : Unit {0}
unfolding triple sextet append_sextet position alphabet encode_chunk encode trim_padding take_symbol
    decode_symbols decode
program = tt

-- "foob" becomes "Zm9vYg==".
encode_foob : encode (102 ∷ 111 ∷ 111 ∷ 98 ∷ []) ≡ 90 ∷ 109 ∷ 57 ∷ 118 ∷ 89 ∷ 103 ∷ 61 ∷ 61 ∷ []
unfolding program
encode_foob = refl

decode_unpadded : decode (90 ∷ 103 ∷ []) ≡ ok (102 ∷ [])
unfolding program
decode_unpadded = refl

decode_one_symbol : decode (90 ∷ []) ≡ err cut_off
unfolding program
decode_one_symbol = refl

decode_space : decode (90 ∷ 103 ∷ 32 ∷ []) ≡ err (not_base64 32)
unfolding program
decode_space = refl

decode-encode_example :
    (decode (encode (0 ∷ 255 ∷ 16 ∷ 3 ∷ [])) ≡ ok (0 ∷ 255 ∷ 16 ∷ 3 ∷ []))
    × (decode (trim_padding (encode (0 ∷ 255 ∷ 16 ∷ 3 ∷ []))) ≡ ok (0 ∷ 255 ∷ 16 ∷ 3 ∷ []))
decode-encode_example =
    decode-encode (0 ∷ 255 ∷ 16 ∷ 3 ∷ [])
      (omega arith, (omega arith, (omega arith, (omega arith, tt))))
