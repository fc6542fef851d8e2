-- ===== src/Domain/Arithmetic/Lattice.antt =====
-- `_step` of domain/arithmetic.py against its description: on the multiples of the increment, the
-- floor is the greatest that is not above the value, the ceiling the least that is not below it.
use native.Mathlib.Nat.{zero-mul, mul-pos, mul-le-mul_right}
use adaptive_trading_ecosyst.Prelude.{
  ℕ, ◌*◌, ◌^◌, ◌≤◌, ◌<◌, ◌≡◌, ap, ◌∙◌, ◌==◌, ==_iff, inl, inr, Bool-cases, ok, bind-eq-ok,
  ok-injective, arith, if◌then◌else◌,
}
use adaptive_trading_ecosyst.Prelude.Int.{pos_part, neg_part, nat_abs, ◌*ℤ◌}
use adaptive_trading_ecosyst.Decimal.{Decimal, denominator, zero_d, pow_ten_pos}
use adaptive_trading_ecosyst.Decimal.Order.{
  ◌≤ᵈ◌, gain, loss, Crosses-of_le, le_of_crosses, le_d_refl, le_d_trans,
}
use adaptive_trading_ecosyst.Domain.Primitives.{positive_decimal}
use adaptive_trading_ecosyst.Domain.Primitives.Positive.{
  IsPositive, gain-eq, loss-eq, positive_decimal-ok,
}
use adaptive_trading_ecosyst.Domain.Arithmetic.{
  Rounding, top, multiple, chosen_units, step, price_tick_floor, price_tick_ceiling,
}
use adaptive_trading_ecosyst.Domain.Arithmetic.Units.{
  floor-le, floor_greatest, le-ceiling, ceiling_least,
}

pub loss_zero : (d : Decimal) → IsPositive d → loss d ≡ 0
loss_zero d p = loss-eq d ∙ ap (λ (n : ℕ). n * 10 ^ pos_part d.exp) p.sign ∙ zero-mul _

pub top_pos : (d : Decimal) → IsPositive d → 0 < top d
top_pos d p = omega (arith, gain-eq d, mul-pos p.magnitude (pow_ten_pos (pos_part d.exp)))

module _ (j : ℕ) (t : Decimal) (p : IsPositive t) where
  gain-multiple : gain (multiple j t) ≡ j * top t
  gain-multiple = omega (
    arith,
    gain-eq (multiple j t),
    ap (λ (n : ℕ). j * n) (gain-eq t),
    ap (λ (n : ℕ). n * j * 10 ^ pos_part t.exp) p.sign,
  )

  loss-multiple : loss (multiple j t) ≡ 0
  loss-multiple = omega (arith, loss-eq (multiple j t))

  -- The terms of a comparison with a positive value.
  scaled :
      (v : Decimal)
      → IsPositive v
      → (gain (multiple j t) * denominator v ≡ j * (denominator v * top t))
        × (loss (multiple j t) * denominator v ≡ 0)
        × (loss v * denominator t ≡ 0)
  scaled v q = omega (
    arith,
    ap (λ (n : ℕ). n * denominator v) gain-multiple,
    ap (λ (n : ℕ). n * denominator v) loss-multiple,
    ap (λ (n : ℕ). n * denominator t) (loss_zero v q),
  )

  -- The order against a positive value is an order of cross products.
  multiple-le :
      (v : Decimal)
      → IsPositive v
      → j * (denominator v * top t) ≤ top v * denominator t
      → multiple j t ≤ᵈ v
  multiple-le v q h = le_of_crosses (multiple j t) v (omega (arith, scaled v q))

  multiple-le_inv :
      (v : Decimal)
      → IsPositive v
      → multiple j t ≤ᵈ v
      → j * (denominator v * top t) ≤ top v * denominator t
  multiple-le_inv v q h = omega (arith, scaled v q, Crosses-of_le (multiple j t) v h)

  le-multiple :
      (v : Decimal)
      → IsPositive v
      → top v * denominator t ≤ j * (denominator v * top t)
      → v ≤ᵈ multiple j t
  le-multiple v q h = le_of_crosses v (multiple j t) (omega (arith, scaled v q))

  le-multiple_inv :
      (v : Decimal)
      → IsPositive v
      → v ≤ᵈ multiple j t
      → top v * denominator t ≤ j * (denominator v * top t)
  le-multiple_inv v q h = omega (arith, scaled v q, Crosses-of_le v (multiple j t) h)

multiple_mono : (j k : ℕ) (t : Decimal) → IsPositive t → j ≤ k → multiple j t ≤ᵈ multiple k t
multiple_mono j k t p h = le_of_crosses (multiple j t) (multiple k t) (
    omega (
      arith,
      ap (λ (n : ℕ). n * denominator t) (gain-multiple j t p),
      ap (λ (n : ℕ). n * denominator t) (gain-multiple k t p),
      ap (λ (n : ℕ). n * denominator t) (loss-multiple j t p),
      ap (λ (n : ℕ). n * denominator t) (loss-multiple k t p),
      mul-le-mul_right (top t * denominator t) h,
    ))

-- Two decimals of one value.
abbrev pub SameValue : Decimal → Decimal → Type 0
SameValue a b = (a ≤ᵈ b) × (b ≤ᵈ a)

zero-multiple :
    (k : ℕ) (t : Decimal) → nat_abs (multiple k t).coef ≡ 0 → SameValue zero_d (multiple k t)
unfolding ◌*ℤ◌
zero-multiple k t h =
    let vanishes : gain (multiple k t) ≡ 0 = omega (
      arith,
      gain-eq (multiple k t),
      ap (λ (n : ℕ). n * 10 ^ pos_part t.exp) {x = nat_abs t.coef * k} {y = 0} (omega arith),
    ) in
    let none_lost : loss (multiple k t) ≡ 0 = omega (arith, loss-eq (multiple k t)) in
    (
      le_of_crosses zero_d (multiple k t)
          (omega (arith, gain-eq zero_d, loss-eq zero_d, vanishes, none_lost)),
      le_of_crosses (multiple k t) zero_d
          (omega (arith, gain-eq zero_d, loss-eq zero_d, vanishes, none_lost)),
    )

SameValue-refl : (a : Decimal) → SameValue a a
SameValue-refl a = (le_d_refl a, le_d_refl a)

-- What `_step` does with the multiple that it has chosen.
rounded_result :
    (k : ℕ) (t : Decimal) {r : Decimal}
    → (if nat_abs (multiple k t).coef == 0 then ok zero_d else positive_decimal (multiple k t))
      ≡ ok r
    → SameValue r (multiple k t)
rounded_result k t h = elim (Bool-cases (nat_abs (multiple k t).coef == 0)) [
  | inl none ↦ rw (← ok-injective (rw none at h)) (zero-multiple k t ((==_iff _ 0).0 none))
  | inr some ↦ rw (positive_decimal-ok (multiple k t) (rw some at h)).0 (SameValue-refl _)
]

module _ (direction : Rounding) (v t : Decimal) {r : Decimal} (h : step direction v t ≡ ok r) where
  step_inputs : IsPositive v × IsPositive t
  unfolding step
  step_inputs =
      let (v', ev, rest) = bind-eq-ok (positive_decimal v) _ h in
      let (t', et, _) = bind-eq-ok (positive_decimal t) _ rest in
      ((positive_decimal-ok v ev).1, (positive_decimal-ok t et).1)

  step-SameValue : SameValue r (multiple (chosen_units direction v t) t)
  unfolding step
  step-SameValue =
      let (v', ev, rest) = bind-eq-ok (positive_decimal v) _ h in
      let (t', et, last) = bind-eq-ok (positive_decimal t) _ rest in
      rounded_result (chosen_units direction v t) t
        (rw ((positive_decimal-ok v ev).0, (positive_decimal-ok t et).0) at last)

module _ (v t : Decimal) (pv : IsPositive v) (pt : IsPositive t) where
  denominator_pos : 0 < denominator v * top t
  denominator_pos = mul-pos (pow_ten_pos (neg_part v.exp)) (top_pos t pt)

  floor_below : multiple (chosen_units Rounding.floor v t) t ≤ᵈ v
  floor_below = multiple-le _ t pt v pv (floor-le _ _ denominator_pos)

  floor_above_all :
      (j : ℕ) → multiple j t ≤ᵈ v → multiple j t ≤ᵈ multiple (chosen_units Rounding.floor v t) t
  floor_above_all j h =
      multiple_mono j _ t pt (floor_greatest _ _ denominator_pos j (multiple-le_inv j t pt v pv h))

  ceiling_above : v ≤ᵈ multiple (chosen_units Rounding.ceiling v t) t
  ceiling_above = le-multiple _ t pt v pv (le-ceiling _ _ denominator_pos)

  ceiling_below_all :
      (j : ℕ) → v ≤ᵈ multiple j t → multiple (chosen_units Rounding.ceiling v t) t ≤ᵈ multiple j t
  ceiling_below_all j h =
      multiple_mono _ j t pt (ceiling_least _ _ denominator_pos j (le-multiple_inv j t pt v pv h))

-- When the floor of a price succeeds, the result has the value of a multiple of the tick, is not
-- above the price, and is at least every multiple of the tick that is not above the price.
pub floor_is_greatest :
    (v t r : Decimal)
    → price_tick_floor v t ≡ ok r
    → ((k : ℕ) × SameValue r (multiple k t))
      × (r ≤ᵈ v)
      × ((j : ℕ) → multiple j t ≤ᵈ v → multiple j t ≤ᵈ r)
unfolding price_tick_floor
floor_is_greatest v t r h =
    let (pv, pt) = step_inputs Rounding.floor v t h in
    let same = step-SameValue Rounding.floor v t h in
    (
      (chosen_units Rounding.floor v t, same),
      le_d_trans _ _ _ same.0 (floor_below v t pv pt),
      λ j below. le_d_trans _ _ _ (floor_above_all v t pv pt j below) same.1,
    )

-- When the ceiling of a price succeeds, the result has the value of a multiple of the tick, is not
-- below the price, and is at most every multiple of the tick that is not below the price.
pub ceiling_is_least :
    (v t r : Decimal)
    → price_tick_ceiling v t ≡ ok r
    → ((k : ℕ) × SameValue r (multiple k t))
      × (v ≤ᵈ r)
      × ((j : ℕ) → v ≤ᵈ multiple j t → r ≤ᵈ multiple j t)
unfolding price_tick_ceiling
ceiling_is_least v t r h =
    let (pv, pt) = step_inputs Rounding.ceiling v t h in
    let same = step-SameValue Rounding.ceiling v t h in
    (
      (chosen_units Rounding.ceiling v t, same),
      le_d_trans _ _ _ (ceiling_above v t pv pt) same.1,
      λ j above. le_d_trans _ _ _ same.0 (ceiling_below_all v t pv pt j above),
    )
