-- ===== src/Domain/Arithmetic/Units.antt =====
-- The rounded quotient of `_step` in domain/arithmetic.py, and its bounds.
use native.Mathlib.Nat.{
  mul_comm, le-div_iff_mul-le, div-add-mod, mod-lt, le_of_mul-le-mul_right, lt_of_mul-lt-mul_right,
}
use adaptive_trading_ecosyst.Prelude.{
  ℕ, ◌+◌, ◌*◌, ◌/◌, ◌%◌, ◌≤◌, ◌<◌, ◌≡◌, ◌||◌, ◌&&◌, Bool, true, false, inl, inr, Bool-cases, ltb,
  ◌==◌, ==_iff, if◌then◌else◌, arith,
}

pub data Rounding : Type 0 where
  floor ceiling nearest : Rounding

-- More than half an increment is left, or half of one above an odd count.
abbrev rounds_up : ℕ → ℕ → ℕ → Bool
rounds_up units twice denominator =
    ltb denominator twice || (twice == denominator && units % 2 == 1)

unfoldable pub step_units : Rounding → ℕ → ℕ → ℕ
step_units Rounding.floor n d = n / d
step_units Rounding.ceiling n d = if n % d == 0 then n / d else n / d + 1
step_units Rounding.nearest n d = if rounds_up (n / d) (n % d * 2) d then n / d + 1 else n / d

rounds_up-true : (u t d : ℕ) → rounds_up u t d ≡ true → d ≤ t
rounds_up-true u t d h = ground arith

rounds_up-false : (u t d : ℕ) → rounds_up u t d ≡ false → t ≤ d
rounds_up-false u t d h = ground arith

module _ (n d : ℕ) (p : 0 < d) where
  quotient_split : n ≡ n / d * d + n % d
  quotient_split = omega (arith, div-add-mod n d, mul_comm d (n / d))

  pub floor-le : step_units Rounding.floor n d * d ≤ n
  unfolding step_units
  floor-le = omega (arith, quotient_split)

  pub floor_greatest : (j : ℕ) → j * d ≤ n → j ≤ step_units Rounding.floor n d
  unfolding step_units
  floor_greatest j h = (le-div_iff_mul-le p).1 h

  pub le-ceiling : n ≤ step_units Rounding.ceiling n d * d
  unfolding step_units
  le-ceiling = elim (Bool-cases (n % d == 0)) [
    | inl exact ↦ rw exact (omega (arith, quotient_split, (==_iff (n % d) 0).0 exact))
    | inr rest ↦ rw rest (omega (arith, quotient_split, mod-lt n p))
  ]

  above_floor : (j : ℕ) → n ≤ j * d → 0 < n % d → n / d < j
  above_floor j h r = lt_of_mul-lt-mul_right d (omega (arith, quotient_split))

  pub ceiling_least : (j : ℕ) → n ≤ j * d → step_units Rounding.ceiling n d ≤ j
  unfolding step_units
  ceiling_least j h = elim (Bool-cases (n % d == 0)) [
    | inl exact ↦ rw exact (le_of_mul-le-mul_right {k = d} (omega (arith, quotient_split)) p)
    | inr rest ↦ rw rest (omega (arith, above_floor j h (ground arith)))
  ]

  -- Twice the quotient lies within one of the rounded count doubled.
  pub nearest_bounds :
      (2 * n ≤ (2 * step_units Rounding.nearest n d + 1) * d)
      × (2 * step_units Rounding.nearest n d * d ≤ 2 * n + d)
  unfolding step_units
  nearest_bounds = elim (Bool-cases (rounds_up (n / d) (n % d * 2) d)) [
    | inl up ↦
        rw up (omega (arith, quotient_split, mod-lt n p, rounds_up-true (n / d) (n % d * 2) d up))
    | inr down ↦ rw down (omega (arith, quotient_split, rounds_up-false (n / d) (n % d * 2) d down))
  ]
