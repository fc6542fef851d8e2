-- ===== src/Decimal/Rounding.antt =====
-- What `fix` gives: a coefficient of at most 34 digits, and a number of 34 digits as it stands.
use native.Mathlib.Nat.{div-lt_iff_lt-mul}
use adaptive_trading_ecosyst.Prelude.{
  ℕ, ◌+◌, ◌-◌, ◌/◌, ◌^◌, ◌≤◌, ◌<◌, ◌≡◌, inl, inr, ltb, leb, le→leb, arith, Bool-cases,
}
use adaptive_trading_ecosyst.Prelude.Int.{ℤ, nat_abs, nat_abs-with_sign}
use adaptive_trading_ecosyst.Decimal.{
  Decimal, num_digits, num_digits_bound, pow_ten_pos, pow_ten_add, pow_ten_mono, precision,
  half_even, carried, fix, ◌+ᵈ◌, ◌*ᵈ◌,
}

-- The coefficient fits the context.
abbrev pub IsRounded : Decimal → Type 0
IsRounded d = nat_abs d.coef < 10 ^ precision

digits_fit : (n : ℕ) → num_digits n ≤ precision → n < 10 ^ precision
digits_fit n h = omega (arith, num_digits_bound n, pow_ten_mono h)

half_even-le : (n k : ℕ) → half_even n k ≤ n / 10 ^ k + 1
unfolding half_even
half_even-le n k = ground arith

half_even_bound : (n k : ℕ) → n < 10 ^ (precision + k) → half_even n k ≤ 10 ^ precision
half_even_bound n k h = omega (
  arith,
  half_even-le n k,
  (div-lt_iff_lt-mul {x = n} {y = 10 ^ precision} (pow_ten_pos k)).1
      (rw (← pow_ten_add precision k) h),
)

carried-IsRounded : (n : ℕ) (s e : ℤ) → n ≤ 10 ^ precision → IsRounded (carried n s e)
unfolding carried
carried-IsRounded n s e h = elim (Bool-cases (ltb precision (num_digits n))) [
  | inl over ↦ rw (over, nat_abs-with_sign) (omega arith)
  | inr fits ↦ rw (fits, nat_abs-with_sign) (digits_fit n (ground arith))
]

digits_above :
    (n : ℕ) → precision ≤ num_digits n → n < 10 ^ (precision + (num_digits n - precision))
digits_above n h = omega (
  arith,
  num_digits_bound n,
  pow_ten_mono {j = num_digits n} {k = precision + (num_digits n - precision)} (omega arith),
)

pub fix-IsRounded : (d : Decimal) → IsRounded (fix d)
unfolding fix
fix-IsRounded d = elim (Bool-cases (leb (num_digits (nat_abs d.coef)) precision)) [
  | inl fits ↦ rw fits (digits_fit _ (ground arith))
  | inr over ↦ rw over (
      carried-IsRounded _ _ _ (
        half_even_bound _ (num_digits (nat_abs d.coef) - precision)
          (digits_above _ (ground arith))))
]

-- Every sum, product and quotient has at most 34 digits.
pub operations-IsRounded : (a b : Decimal) → IsRounded (a +ᵈ b) × IsRounded (a *ᵈ b)
unfolding ◌+ᵈ◌ ◌*ᵈ◌
operations-IsRounded a b = search fix-IsRounded

pub fix_self : (d : Decimal) → num_digits (nat_abs d.coef) ≤ precision → fix d ≡ d
unfolding fix
fix_self d h = rw (le→leb _ _ h)
