-- ===== src/Base/Slices.antt =====
-- Parts of a list between two places.
use Prim.Native.Nat.{ℕ, zero, suc, ◌+◌, ◌-◌, ◌≤◌}
use mathlib.Core.Path.{◌≡◌, refl, ap, sym, ◌∙◌, subst}
use mathlib.Core.List.{List, [], ◌∷◌, ◌++◌}
use native.Mathlib.Nat.{suc-add}
use native.Mathlib.Omega.{arith}
use my_no_sql_server_grpc.Base.Lists.{
  length, take, drop, slice, All, length-take, length-drop, take-append-drop, All-prefix,
  All-suffix,
}

module _ {ℓ} {A : Type ℓ} where
  drop-drop : (m n : ℕ) (xs : List A) → drop n (drop m xs) ≡ drop (m + n) xs
  drop-drop zero n xs = ap (λ (m : ℕ). drop m xs) (omega arith)
  drop-drop (suc m) zero [] = rw suc-add refl
  drop-drop (suc m) (suc n) [] = rw suc-add refl
  drop-drop (suc m) n (x ∷ xs) = rw suc-add (drop-drop m n xs)

  take-add : (m n : ℕ) (xs : List A) → take (m + n) xs ≡ take m xs ++ take n (drop m xs)
  take-add zero n xs = ap (λ (m : ℕ). take m xs) (omega arith)
  take-add (suc m) zero [] = rw suc-add refl
  take-add (suc m) (suc n) [] = rw suc-add refl
  take-add (suc m) n (x ∷ xs) = rw suc-add (ap (◌∷◌ x) (take-add m n xs))

  -- What stands from a place on is a slice, and what stands behind it.
  pub drop-slice :
      (from to : ℕ) (xs : List A) → from ≤ to → drop from xs ≡ slice from to xs ++ drop to xs
  drop-slice from to xs h =
      let there : from + (to - from) ≡ to = omega arith in
      let behind : drop (to - from) (drop from xs) ≡ drop to xs =
        drop-drop from (to - from) xs ∙ ap (λ (n : ℕ). drop n xs) there in
      sym (take-append-drop (to - from) (drop from xs))
      ∙ ap (λ (l : List A). slice from to xs ++ l) behind

  pub slice-slice :
      (from mid to : ℕ) (xs : List A)
      → from ≤ mid
      → mid ≤ to
      → slice from to xs ≡ slice from mid xs ++ slice mid to xs
  slice-slice from mid to xs h k =
      let parts : (mid - from) + (to - mid) ≡ to - from = omega arith in
      let there : from + (mid - from) ≡ mid = omega arith in
      ap (λ (n : ℕ). take n (drop from xs)) (sym parts)
      ∙ take-add (mid - from) (to - mid) (drop from xs)
      ∙ ap (λ (l : List A). slice from mid xs ++ take (to - mid) l)
          (drop-drop from (mid - from) xs ∙ ap (λ (n : ℕ). drop n xs) there)

  pub length-slice :
      (from to : ℕ) (xs : List A)
      → from ≤ to
      → to ≤ length xs
      → length (slice from to xs) ≡ to - from
  length-slice from to xs h k =
      omega (arith, length-take (to - from) (drop from xs), length-drop from xs)

  pub All-slice {κ} :
      (P : A → Type κ) (from to : ℕ) (xs : List A) → All P xs → All P (slice from to xs)
  All-slice P from to xs h =
      let behind =
        All-suffix P (take from xs) (drop from xs)
          (subst (All P) (sym (take-append-drop from xs)) h) in
      All-prefix P (slice from to xs) (drop (to - from) (drop from xs))
        (subst (All P) (sym (take-append-drop (to - from) (drop from xs))) behind)
