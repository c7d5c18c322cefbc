-- ===== src/Persist/SizeClass.antt =====
-- server/src/persist/size_class.rs: the page-file for a slot of so many bytes.
pub mod Bounds
mod Tests
use mathlib.Core.Logic.{dite}
use mathlib.Core.WellFounded.{Acc}
use native.Mathlib.Decide.{dec_lt}
use my_no_sql_server_grpc.Base.{ℕ, zero, suc, ◌-◌, ◌*◌, ◌^◌, ◌<◌, arith}
use my_no_sql_server_grpc.Base.Outcome.{Outcome, returns, panics}

-- `MIN_SIZE_CLASS`
abbrev pub min_size_class : ℕ
min_size_class = 512

-- The loop ends: what is missing to `needed` bytes shrinks.
abbrev Closer : ℕ → ℕ → ℕ → Type 0
Closer needed a b = needed - a < needed - b

Closer-below : (needed k size : ℕ) → needed - size < k → Acc (Closer needed) size
Closer-below needed zero size h = elim h [ ]
Closer-below needed (suc k) size h = Acc.intro size (λ m hm. Closer-below needed k m (omega arith))

double_pos : (size : ℕ) → 0 < size → 0 < size * 2
double_pos size p = omega arith

doubled : (needed size : ℕ) → 0 < size → size < needed → Closer needed (size * 2) size
doubled needed size p h = omega arith

-- `while (size_class as usize) < needed { size_class = size_class.checked_mul(2).expect(..) }`
double_until : (needed size : ℕ) → 0 < size → Acc (Closer needed) size → Outcome ℕ
double_until needed size p (Acc.intro _ smaller) =
    dite (dec_lt size needed)
      (λ more.
        dite (dec_lt (size * 2) (2 ^ 32))
          (λ _.
            double_until needed (size * 2) (double_pos size p)
              (smaller (size * 2) (doubled needed size p more)))
          (λ _. panics))
      (λ _. returns size)

min_pos : 0 < min_size_class
min_pos = omega arith

below_suc : (n : ℕ) → n < suc n
below_suc n = omega arith

pub size_class_for : ℕ → Outcome ℕ
size_class_for needed =
    double_until needed min_size_class min_pos
      (Closer-below needed (suc (needed - min_size_class)) min_size_class (below_suc _))
