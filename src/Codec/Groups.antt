-- ===== src/Codec/Groups.antt =====
-- Three bytes as four groups of six bits, and back: what the loops of both codecs compute.
use my_no_sql_server_grpc.Base.{
  ℕ, zero, suc, ◌+◌, ◌*◌, ◌/◌, ◌%◌, ◌^◌, ◌<◌, ◌≤◌, refl, All, bit_and, bit_or, ◌≡◌, arith, Bool,
  true, false, List, [], ◌∷◌, Option, none, some, ◌==◌, ◌&&◌, if◌then◌else◌, get_or, length,
  Option-cases, inl, inr, Bool-cases,
}
use my_no_sql_server_grpc.Base.Bits.{bit_or_sum, bit_and_six_bits, bit_or_six}
use my_no_sql_server_grpc.Base.Word.{IsByte, shl32, shr}

-- `(b0 << 16) | (b1 << 8) | b2`
unfoldable pub triple : ℕ → ℕ → ℕ → ℕ
triple b0 b1 b2 = bit_or (bit_or (shl32 b0 16) (shl32 b1 8)) b2

-- `(triple >> k) & 0x3F`
unfoldable pub sextet : ℕ → ℕ → ℕ
sextet t k = bit_and (shr t k) 0x3f

-- `(buffer << 6) | value`
unfoldable pub append_sextet : ℕ → ℕ → ℕ
append_sextet buffer value = bit_or (shl32 buffer 6) value

-- `ALPHABET.iter().position(..)`
unfoldable pub position : ℕ → List ℕ → Option ℕ
position symbol [] = none
position symbol (a ∷ as') =
    if a == symbol
    then some 0
    else elim (position symbol as') [ none ↦ none | some i ↦ some (suc i) ]

-- Each symbol of the alphabet stands at its own index.
unfoldable pub finds_its_own : ℕ → List ℕ → Bool
finds_its_own zero alphabet = true
finds_its_own (suc n) alphabet =
    elim (position (get_or alphabet n 0) alphabet) [ none ↦ false | some i ↦ i == n ]
    && finds_its_own n alphabet

pub position-get_or :
    (n i : ℕ) (alphabet : List ℕ)
    → finds_its_own n alphabet ≡ true
    → i < n
    → position (get_or alphabet i 0) alphabet ≡ some i
unfolding finds_its_own
position-get_or zero i alphabet h lt = absurd (omega arith)
position-get_or (suc n) i alphabet h lt = ground (arith, position-get_or n i alphabet)

pub position-lt :
    (symbol : ℕ) (alphabet : List ℕ) (i : ℕ)
    → position symbol alphabet ≡ some i
    → i < length alphabet
unfolding position
position-lt symbol [] i h = cc
position-lt symbol (a ∷ as') i h = elim (Option-cases (position symbol as')) [
  | inl e ↦ ground arith
  | inr (j, e) ↦ ground (arith, position-lt symbol as' j e)
]

pub triple_sum :
    (b0 b1 b2 : ℕ)
    → IsByte b0
    → IsByte b1
    → IsByte b2
    → triple b0 b1 b2 ≡ b0 * 65536 + b1 * 256 + b2
unfolding triple
triple_sum b0 b1 b2 h0 h1 h2 =
    ground (arith, bit_or_sum 16 b0 (b1 * 256), bit_or_sum 8 (b0 * 256 + b1) b2)

pub sextet_lem : (t k : ℕ) → sextet t k ≡ t / 2 ^ k % 64
unfolding sextet
sextet_lem t k = bit_and_six_bits (t / 2 ^ k)

pub sextet-lt : (t k : ℕ) → sextet t k < 64
sextet-lt t k = rw sextet_lem (omega arith)

pub append_sextet_sum :
    (buffer value : ℕ) → value < 64 → append_sextet buffer value ≡ buffer * 64 % 2 ^ 32 + value
unfolding append_sextet
append_sextet_sum buffer value h = ground (arith, bit_or_six (buffer % 2 ^ 26) value)

-- A table: the test holds of every number below a bound.
unfoldable pub all_below : (ℕ → Bool) → ℕ → Bool
all_below test zero = true
all_below test (suc bound) = all_below test bound && test bound

pub all_below-lt :
    (test : ℕ → Bool) (bound : ℕ)
    → all_below test bound ≡ true
    → (i : ℕ) → i < bound
    → test i ≡ true
unfolding all_below
all_below-lt test (suc bound) all i below = elim (Bool-cases (i == bound)) [
  | inl last ↦ ground arith
  | inr earlier ↦ all_below-lt test bound (ground arith) i (ground arith)
]
all_below-lt test zero all i below = absurd (omega arith)

-- A number above every symbol of the alphabet is not found.
pub position_above :
    (symbol : ℕ) (alphabet : List ℕ)
    → All (λ a. a < 128) alphabet
    → 128 ≤ symbol
    → position symbol alphabet ≡ none
unfolding position
position_above symbol [] h lt = refl
position_above symbol (a ∷ as') h lt = ground (arith, position_above symbol as' h.1)

abbrev pub is_some {ℓ} : {A : Type ℓ} → Option A → Bool
is_some none = false
is_some (some a) = true
