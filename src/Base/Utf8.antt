-- ===== src/Base/Utf8.antt =====
-- Which byte sequences `String::from_utf8` takes: the well-formed UTF-8 of the Unicode standard.
use Prim.Native.Nat.{ℕ}
use mathlib.Core.Bool.{Bool, true, false, ◌&&◌}
use mathlib.Core.List.{List, [], ◌∷◌}
use mathlib.Core.Option.{Option, none, some}
use my_no_sql_server_grpc.Base.Tests.{Text, ltb, leb, if◌then◌else◌}

abbrev pub within : ℕ → ℕ → ℕ → Bool
within lo hi b = leb lo b && leb b hi

-- The ranges of the bytes that must follow a first byte.
abbrev pub after_lead : ℕ → Option (List (ℕ × ℕ))
after_lead b =
    if ltb b 0x80
    then some []
    else if within 0xc2 0xdf b
    then some ((0x80, 0xbf) ∷ [])
    else if within 0xe0 0xe0 b
    then some ((0xa0, 0xbf) ∷ (0x80, 0xbf) ∷ [])
    else if within 0xed 0xed b
    then some ((0x80, 0x9f) ∷ (0x80, 0xbf) ∷ [])
    else if within 0xe1 0xef b
    then some ((0x80, 0xbf) ∷ (0x80, 0xbf) ∷ [])
    else if within 0xf0 0xf0 b
    then some ((0x90, 0xbf) ∷ (0x80, 0xbf) ∷ (0x80, 0xbf) ∷ [])
    else if within 0xf1 0xf3 b
    then some ((0x80, 0xbf) ∷ (0x80, 0xbf) ∷ (0x80, 0xbf) ∷ [])
    else if within 0xf4 0xf4 b
    then some ((0x80, 0x8f) ∷ (0x80, 0xbf) ∷ (0x80, 0xbf) ∷ [])
    else none

utf8_from : List (ℕ × ℕ) → Text → Bool
utf8_from [] [] = true
utf8_from (r ∷ rs) [] = false
utf8_from (r ∷ rs) (b ∷ bs) = within r.0 r.1 b && utf8_from rs bs
utf8_from [] (b ∷ bs) = elim (after_lead b) [ none ↦ false | some rs ↦ utf8_from rs bs ]

unfoldable pub is_utf8 : Text → Bool
unfolding utf8_from
is_utf8 = utf8_from []
