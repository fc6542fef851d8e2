-- ===== src/Decimal/Digits.antt =====
-- The number of decimal digits of a magnitude, `len(str(n))`.
use native.Mathlib.Nat.{pow-suc, pow-zero, add-zero, add-suc, pow-le-pow_right, one-le-pow}
use native.Mathlib.Numerals.{add-one}
use adaptive_trading_ecosyst.Prelude.{
  ℕ, zero, suc, ◌+◌, ◌*◌, ◌/◌, ◌^◌, ◌≤◌, ◌<◌, ◌≡◌, inl, inr, ltb, arith, ap, Bool-cases,
  if◌then◌else◌,
}

-- Each round takes a digit off, so `n` rounds are enough.
count_digits : ℕ → ℕ → ℕ
count_digits zero n = 1
count_digits (suc fuel) n =
    let rest = count_digits fuel (n / 10) in if ltb n 10 then 1 else rest + 1

unfoldable pub num_digits : ℕ → ℕ
unfolding count_digits
num_digits n = count_digits n n

pub pow_ten_suc : (k : ℕ) → 10 ^ (k + 1) ≡ 10 ^ k * 10
pow_ten_suc k = simp (add-one, pow-suc)

pub pow_ten_add : (j k : ℕ) → 10 ^ (j + k) ≡ 10 ^ j * 10 ^ k
pow_ten_add j zero = rw (add-zero, pow-zero) (omega arith)
pow_ten_add j (suc k) =
    simp (add-suc, pow-suc) (omega (arith, ap (λ (t : ℕ). t * 10) (pow_ten_add j k)))

pub pow_ten_pos : (k : ℕ) → 0 < 10 ^ k
pow_ten_pos k = one-le-pow k 10 (omega arith)

pub pow_ten_mono : {j k : ℕ} → j ≤ k → 10 ^ j ≤ 10 ^ k
pow_ten_mono h = pow-le-pow_right (omega arith) h

count_digits_bound : (fuel n : ℕ) → n ≤ fuel → n < 10 ^ count_digits fuel n
unfolding count_digits
count_digits_bound zero n h = omega arith
count_digits_bound (suc fuel) n h = elim (Bool-cases (ltb n 10)) [
  | inl small ↦ rw small (ground arith)
  | inr large ↦
      rw (large, pow_ten_suc) (omega (arith, count_digits_bound fuel (n / 10) (ground arith)))
]

-- A number is below the power of ten that has as many zeros as it has digits.
pub num_digits_bound : (n : ℕ) → n < 10 ^ num_digits n
unfolding num_digits
num_digits_bound n = count_digits_bound n n (omega arith)
