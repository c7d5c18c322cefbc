-- ===== src/Persist/SizeClass/Bounds.antt =====
-- Which class is picked, and when there is none.
use mathlib.Core.WellFounded.{Acc}
use native.Mathlib.Decide.{dec_lt}
use mathlib.Core.Logic.{dif_pos, dif_neg}
use native.Mathlib.Bridge.{le_prop}
use native.Mathlib.Nat.{pow-suc, pow-le-pow_right}
use my_no_sql_server_grpc.Base.{
  ℕ, zero, suc, ◌*◌, ◌^◌, ◌<◌, ◌≤◌, ◌≡◌, ap, ◌∙◌, ◌⊎◌, inl, inr, refl, arith,
}
use my_no_sql_server_grpc.Base.Outcome.{returns, panics}
use my_no_sql_server_grpc.Persist.SizeClass.{
  min_size_class, Closer, doubled, double_pos, double_until, size_class_for,
}

-- A power of two from the smallest class on, of a `u32`, with room for `needed` bytes, of which
-- more than half are used above the smallest class.
pub record IsClassFor (needed size : ℕ) : Type 0 where
  pub exponent : ℕ
  pub is_power : size ≡ min_size_class * 2 ^ exponent
  pub fits : needed ≤ size
  pub is_u32 : size < 2 ^ 32
  pub tight : (size ≡ min_size_class) ⊎ (size < 2 * needed)

-- One round of the loop, by the outcome of its two tests.
stays :
    (needed size : ℕ) (p : 0 < size) (w : Acc (Closer needed) size)
    → needed ≤ size
    → double_until needed size p w ≡ returns size
unfolding double_until
stays needed size p (Acc.intro _ smaller) h = dif_neg (dec_lt size needed) (λ q. omega arith) _ _

doubles :
    (needed size : ℕ) (p : 0 < size) (w : Acc (Closer needed) size)
    → size < needed
    → size * 2 < 2 ^ 32
    → (p' : 0 < size * 2) × (w' : Acc (Closer needed) (size * 2)) × (double_until needed size p w
        ≡ double_until needed (size * 2) p' w')
unfolding double_until
doubles needed size p (Acc.intro _ smaller) h k = (
  double_pos size p,
  smaller (size * 2) (doubled needed size p h),
  dif_pos (dec_lt size needed) le_prop h _ _ ∙ dif_pos (dec_lt (size * 2) (2 ^ 32)) le_prop k _ _,
)

overflows :
    (needed size : ℕ) (p : 0 < size) (w : Acc (Closer needed) size)
    → size < needed
    → 2 ^ 32 ≤ size * 2
    → double_until needed size p w ≡ panics
unfolding double_until
overflows needed size p (Acc.intro _ smaller) h k =
    dif_pos (dec_lt size needed) le_prop h _ _
    ∙ dif_neg (dec_lt (size * 2) (2 ^ 32)) (λ q. omega arith) _ _

-- A class whose double is a `u32` has a double of 2 ^ 31 at most.
class_below : (k : ℕ) → min_size_class * 2 ^ k * 2 < 2 ^ 32 → min_size_class * 2 ^ k * 2 ≤ 2 ^ 31
class_below k h = elim (dec_lt k 22) [
  | yes small ↦ omega (arith, pow-le-pow_right {n = 2} (omega arith) {i = k} {j = 21} (omega arith))
  | no large ↦
      absurd (omega (arith, pow-le-pow_right {n = 2} (omega arith) {i = 22} {j = k} (omega arith)))
]

-- `rounds` bounds what is left of the loop: a class is doubled 22 times at most.
double_until_total :
    (rounds needed size k : ℕ) (p : 0 < size) (w : Acc (Closer needed) size)
    → size ≡ min_size_class * 2 ^ k
    → 2 ^ 31 < 2 ^ rounds * size
    → size ≤ 2 ^ 31
    → needed ≤ 2 ^ 31
    → ((size ≡ min_size_class) ⊎ (size < 2 * needed))
    → (c : ℕ) × (double_until needed size p w ≡ returns c) × IsClassFor needed c
double_until_total zero needed size k p w e r u n tight = absurd (omega arith)
double_until_total (suc rounds) needed size k p w e r u n tight = elim (dec_lt size needed) [
  | no enough ↦ (
    size,
    stays needed size p w (omega arith),
    record { exponent = k; is_power = e; fits = omega arith; is_u32 = omega arith; tight = tight },
  )
  | yes more ↦
      let le_below : size * 2 < 2 ^ 32 = omega arith in
      let small : size * 2 ≤ 2 ^ 31 = rw e (class_below k (rw e at le_below)) in
      let (p', w', step) = doubles needed size p w more (omega arith) in
      let e' : size * 2 ≡ min_size_class * 2 ^ suc k = omega (arith, pow-suc 2 k) in
      let r' : 2 ^ 31 < 2 ^ rounds * (size * 2) =
        omega (arith, ap (λ (t : ℕ). t * size) (pow-suc 2 rounds)) in
      let (c, run, good) =
        double_until_total rounds needed (size * 2) (suc k) p' w' e' r' small n
          (inr (omega arith)) in
      (c, step ∙ run, good)
]

double_until_panics :
    (rounds needed size k : ℕ) (p : 0 < size) (w : Acc (Closer needed) size)
    → size ≡ min_size_class * 2 ^ k
    → 2 ^ 31 < 2 ^ rounds * size
    → size ≤ 2 ^ 31
    → 2 ^ 31 < needed
    → double_until needed size p w ≡ panics
double_until_panics zero needed size k p w e r u n = absurd (omega arith)
double_until_panics (suc rounds) needed size k p w e r u n = elim (dec_lt (size * 2) (2 ^ 32)) [
  | no big ↦ overflows needed size p w (omega arith) (omega arith)
  | yes small ↦
      let (p', w', step) = doubles needed size p w (omega arith) small in
      let e' : size * 2 ≡ min_size_class * 2 ^ suc k = omega (arith, pow-suc 2 k) in
      let r' : 2 ^ 31 < 2 ^ rounds * (size * 2) =
        omega (arith, ap (λ (t : ℕ). t * size) (pow-suc 2 rounds)) in
      let u' : size * 2 ≤ 2 ^ 31 = rw e (class_below k (rw e at small)) in
      step ∙ double_until_panics rounds needed (size * 2) (suc k) p' w' e' r' u' n
]

-- Up to 2 ^ 31 bytes there is a class: the smallest one that is large enough, so that more than
-- half of it is used above the smallest class of all.
pub size_class_for-IsClassFor :
    (needed : ℕ)
    → needed ≤ 2 ^ 31
    → (c : ℕ) × (size_class_for needed ≡ returns c) × IsClassFor needed c
unfolding size_class_for
size_class_for-IsClassFor needed h =
    double_until_total 23 needed min_size_class 0 _ _ refl (omega arith) (omega arith) h (inl refl)

-- Beyond, the server stops.
pub size_class_for_too_large : (needed : ℕ) → 2 ^ 31 < needed → size_class_for needed ≡ panics
unfolding size_class_for
size_class_for_too_large needed h =
    double_until_panics 23 needed min_size_class 0 _ _ refl (omega arith) (omega arith) h
