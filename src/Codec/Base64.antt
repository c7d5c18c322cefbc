-- ===== src/Codec/Base64.antt =====
-- server/src/json_view/base64.rs: standard base64, which a `bytes` field has in the JSON of a row.
mod RoundTrip
mod Tests
use my_no_sql_server_grpc.Base.{
  ℕ, ◌+◌, ◌-◌, ◌<◌, ◌≡◌, Bool, true, false, List, [], ◌∷◌, ◌++◌, Option, none, some, ltb, leb, ◌==◌,
  if◌then◌else◌, get_or, length, Text,
}
use my_no_sql_server_grpc.Base.Result.{Result, ok, err, ◌>>=◌}
use my_no_sql_server_grpc.Base.Word.{shr, as_u8}
use my_no_sql_server_grpc.Codec.Groups.{triple, sextet, append_sextet, position}

-- `'x' is not base64`, and `the base64 value is cut off`.
pub data DecodeError : Type 0 where
  not_base64 : ℕ → DecodeError
  cut_off : DecodeError

-- `A-Z`, `a-z`, `0-9`, `+` and `/`.
unfoldable pub alphabet : List ℕ
alphabet =
    65 ∷ 66 ∷ 67 ∷ 68 ∷ 69 ∷ 70 ∷ 71 ∷ 72 ∷ 73 ∷ 74 ∷ 75 ∷ 76 ∷ 77 ∷ 78 ∷ 79 ∷ 80 ∷ 81 ∷ 82 ∷ 83
    ∷ 84 ∷ 85 ∷ 86 ∷ 87 ∷ 88 ∷ 89 ∷ 90 ∷ 97 ∷ 98 ∷ 99 ∷ 100 ∷ 101 ∷ 102 ∷ 103 ∷ 104 ∷ 105 ∷ 106
    ∷ 107 ∷ 108 ∷ 109 ∷ 110 ∷ 111 ∷ 112 ∷ 113 ∷ 114 ∷ 115 ∷ 116 ∷ 117 ∷ 118 ∷ 119 ∷ 120 ∷ 121 ∷ 122
    ∷ 48 ∷ 49 ∷ 50 ∷ 51 ∷ 52 ∷ 53 ∷ 54 ∷ 55 ∷ 56 ∷ 57 ∷ 43 ∷ 47 ∷ []

abbrev symbol_at : ℕ → ℕ
symbol_at i = get_or alphabet i 0

-- `=`
abbrev padding : ℕ
padding = 61

-- One round of the loop over `src.chunks(3)`: always four symbols.
encode_chunk : List ℕ → Text
encode_chunk chunk =
    let t = triple (get_or chunk 0 0) (get_or chunk 1 0) (get_or chunk 2 0) in
    symbol_at (sextet t 18)
    ∷ symbol_at (sextet t 12)
    ∷ (if ltb 1 (length chunk) then symbol_at (sextet t 6) else padding)
    ∷ (if ltb 2 (length chunk) then symbol_at (sextet t 0) else padding)
    ∷ []

pub encode : List ℕ → Text
encode [] = []
encode (b0 ∷ []) = encode_chunk (b0 ∷ [])
encode (b0 ∷ b1 ∷ []) = encode_chunk (b0 ∷ b1 ∷ [])
encode (b0 ∷ b1 ∷ b2 ∷ rest) = encode_chunk (b0 ∷ b1 ∷ b2 ∷ []) ++ encode rest

-- `src.trim_end_matches('=')`
pub trim_padding : Text → Text
trim_padding [] = []
trim_padding (c ∷ rest) = elim (trim_padding rest) [
  | [] ↦ if c == padding then [] else c ∷ []
  | d ∷ r ↦ c ∷ d ∷ r
]

record Decoding : Type 0 where
  accumulator : ℕ
  bits : ℕ
  result : List ℕ

-- One round of the loop over the symbols, for a symbol that the alphabet has. The accumulator is a
-- `u32` that is never cleared: what is shifted beyond 32 bits is lost.
take_symbol : Decoding → ℕ → Decoding
take_symbol d value =
    let accumulator' = append_sextet d.accumulator value in
    let bits' = d.bits + 6 in
    if leb 8 bits'
    then (record {
      accumulator = accumulator';
      bits = bits' - 8;
      result = d.result ++ (as_u8 (shr accumulator' (bits' - 8)) ∷ []);
    })
    else record { accumulator = accumulator'; bits = bits'; result = d.result }

decode_symbols : Text → Decoding → Result DecodeError Decoding
decode_symbols [] d = ok d
decode_symbols (symbol ∷ rest) d = elim (position symbol alphabet) [
  | none ↦ err (not_base64 symbol)
  | some value ↦ decode_symbols rest (take_symbol d value)
]

pub decode : Text → Result DecodeError (List ℕ)
decode src = do
  d ← decode_symbols (trim_padding src) (record { accumulator = 0; bits = 0; result = [] })
  if leb 6 d.bits then err cut_off else ok d.result
