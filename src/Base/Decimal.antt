-- ===== src/Base/Decimal.antt =====
-- `format!("{}", n)` of an unsigned number: its decimal digits, as UTF-8 bytes.
use my_no_sql_server_grpc.Base.{
  ℕ, zero, suc, ◌+◌, ◌-◌, ◌*◌, ◌/◌, ◌%◌, ◌≤◌, ◌<◌, ◌≡◌, refl, ◌∙◌, arith, [], ◌∷◌, ◌++◌, inl, inr,
  ltb, ◌==◌, if◌then◌else◌, All, All-append, Bool-cases, Text,
}

-- `fuel` bounds the number of digits.
unfoldable pub digits : ℕ → ℕ → Text
digits zero n = []
digits (suc fuel) n =
    let front = digits fuel (n / 10) in
    if ltb n 10 then (48 + n) ∷ [] else front ++ ((48 + n % 10) ∷ [])

-- A number has no more digits than its successor counts.
unfoldable pub decimal : ℕ → Text
decimal n = digits (suc n) n

abbrev pub read_from : ℕ → Text → ℕ
read_from acc [] = acc
read_from acc (d ∷ ds) = read_from (acc * 10 + (d - 48)) ds

read_from-append :
    (acc : ℕ) (xs : Text) (d : ℕ)
    → read_from acc (xs ++ (d ∷ [])) ≡ read_from acc xs * 10 + (d - 48)
read_from-append acc [] d = refl
read_from-append acc (x ∷ xs) d = read_from-append (acc * 10 + (x - 48)) xs d

abbrev pub IsDigit : ℕ → Type 0
IsDigit d = (48 ≤ d) × (d < 58)

digits-IsDigit : (fuel n : ℕ) → All IsDigit (digits fuel n)
unfolding digits
digits-IsDigit zero n = tt
digits-IsDigit (suc fuel) n = elim (Bool-cases (ltb n 10)) [
  | inl one ↦ rw (one, digits) ((omega arith, ground arith), tt)
  | inr more ↦
      rw (more, digits)
        (All-append IsDigit (digits fuel (n / 10)) ((48 + n % 10) ∷ [])
          (digits-IsDigit fuel (n / 10)) ((omega arith, omega arith), tt))
]

read_from-digits : (fuel n : ℕ) → n < fuel → read_from 0 (digits fuel n) ≡ n
unfolding digits
read_from-digits zero n h = absurd (omega arith)
read_from-digits (suc fuel) n h = elim (Bool-cases (ltb n 10)) [
  | inl one ↦ rw (one, digits) (omega arith)
  | inr more ↦
      let e : read_from 0 (digits fuel (n / 10)) ≡ n / 10 =
        read_from-digits fuel (n / 10) (ground arith) in
      let e' = read_from-append 0 (digits fuel (n / 10)) (48 + n % 10) in
      rw (more, digits) (e' ∙ omega (arith, e))
]

pub decimal-IsDigit : (n : ℕ) → All IsDigit (decimal n)
unfolding decimal
decimal-IsDigit n = digits-IsDigit (suc n) n

pub read_from-decimal : (n : ℕ) → read_from 0 (decimal n) ≡ n
unfolding decimal
read_from-decimal n = read_from-digits (suc n) n (omega arith)

-- What follows the first `-`.
abbrev pub after_dash : Text → Text
after_dash [] = []
after_dash (c ∷ cs) = if c == 45 then cs else after_dash cs

pub after_dash-digits : (xs rest : Text) → All IsDigit xs → after_dash (xs ++ (45 ∷ rest)) ≡ rest
after_dash-digits [] rest h = refl
after_dash-digits (x ∷ xs) rest h = ground (arith, after_dash-digits xs rest h.1)
