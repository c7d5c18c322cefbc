-- ===== src/Base/Bits.antt =====
-- `|` of fields that do not overlap, and `&` with a low mask, as arithmetic.
use Prim.Native.Nat.{
  ℕ, zero, suc, ◌+◌, ◌*◌, ◌/◌, ◌%◌, ◌^◌, ◌≤◌, ◌<◌, min, max, bit_and, bit_or, digits,
  bit_and-bitwise, bit_or-bitwise,
}
use mathlib.Core.Path.{◌≡◌, refl, ap}
use native.Mathlib.Nat.{pow-suc}
use native.Mathlib.Omega.{arith}

-- The digit recursion that a native bit operation stands for does not depend on its fuel.
module _ (z : ℕ → ℕ) (f : ℕ → ℕ → ℕ) where
  fuel_free : (fuel more x y : ℕ) → x ≤ more → x ≤ fuel → digits z f fuel x y ≡ digits z f more x y
  fuel_free (suc fuel) (suc more) (suc x) y k h =
      rw (fuel_free fuel more (suc x / 2) (y / 2) (omega arith) (omega arith))
  fuel_free (suc fuel) (suc more) zero y k h = refl
  fuel_free (suc fuel) zero (suc x) y k h = absurd (omega arith)
  fuel_free (suc fuel) zero zero y k h = refl
  fuel_free zero (suc more) (suc x) y k h = absurd (omega arith)
  fuel_free zero (suc more) zero y k h = refl
  fuel_free zero zero (suc x) y k h = absurd (omega arith)
  fuel_free zero zero zero y k h = refl

or_lowest : (x y : ℕ) → bit_or x y ≡ bit_or (x / 2) (y / 2) * 2 + max (x % 2) (y % 2)
or_lowest (suc x) y = omega (
  arith,
  fuel_free (λ v. v) max x (suc x / 2) (suc x / 2) (y / 2) (omega arith) (omega arith),
  bit_or-bitwise (suc x / 2) (y / 2),
  bit_or-bitwise (suc x) y,
)
or_lowest zero y = omega (arith, bit_or-bitwise 0 (y / 2), bit_or-bitwise 0 y)

and_lowest : (x y : ℕ) → bit_and x y ≡ bit_and (x / 2) (y / 2) * 2 + min (x % 2) (y % 2)
and_lowest (suc x) y = omega (
  arith,
  fuel_free (λ v. 0) min x (suc x / 2) (suc x / 2) (y / 2) (omega arith) (omega arith),
  bit_and-bitwise (suc x / 2) (y / 2),
  bit_and-bitwise (suc x) y,
)
and_lowest zero y = omega (arith, bit_and-bitwise 0 (y / 2), bit_and-bitwise 0 y)

or_zero_below : (bound x : ℕ) → x ≤ bound → bit_or x 0 ≡ x
or_zero_below (suc bound) (suc x) h =
    omega (arith, or_zero_below bound (suc x / 2) (omega arith), or_lowest (suc x) 0)
or_zero_below zero (suc x) h = absurd (omega arith)
or_zero_below bound zero h = refl

and_zero_below : (bound x : ℕ) → x ≤ bound → bit_and x 0 ≡ 0
and_zero_below (suc bound) (suc x) h =
    omega (arith, and_zero_below bound (suc x / 2) (omega arith), and_lowest (suc x) 0)
and_zero_below zero (suc x) h = absurd (omega arith)
and_zero_below bound zero h = refl

-- `(high << k) | low` is a sum where `low` has at most k bits.
pub bit_or_sum : (k high low : ℕ) → low < 2 ^ k → bit_or (high * 2 ^ k) low ≡ high * 2 ^ k + low
bit_or_sum zero high low h = ground (arith, or_zero_below high high)
bit_or_sum (suc k) high low h = ground (
  arith,
  or_lowest (high * 2 ^ suc k) low,
  pow-suc 2 k,
  ap (λ (t : ℕ). high * t) (pow-suc 2 k),
  bit_or_sum k high (low / 2) (omega (arith, pow-suc 2 k)),
)

-- `x & 0x3F`, six steps down the digits.
pub bit_and_six_bits : (x : ℕ) → bit_and x 63 ≡ x % 64
bit_and_six_bits x = omega (
  arith,
  and_lowest x 63,
  and_lowest (x / 2) 31,
  and_lowest (x / 2 / 2) 15,
  and_lowest (x / 2 / 2 / 2) 7,
  and_lowest (x / 2 / 2 / 2 / 2) 3,
  and_lowest (x / 2 / 2 / 2 / 2 / 2) 1,
  and_zero_below x (x / 2 / 2 / 2 / 2 / 2 / 2) (omega arith),
)

-- The low six bits below `high << 6`, and the low byte below `high << 8`.
pub bit_or_six : (high low : ℕ) → low < 64 → bit_or (high * 64) low ≡ high * 64 + low
bit_or_six high low h = bit_or_sum 6 high low h

pub bit_or_byte : (high low : ℕ) → low < 256 → bit_or (high * 256) low ≡ high * 256 + low
bit_or_byte high low h = bit_or_sum 8 high low h
