-- ===== src/Risk/Engine/Steps.antt =====
-- risk/engine.py, `evaluate`: the count of the volume steps, against its description.
use native.Mathlib.Nat.{mul-pos, mul-le-mul_right, le-div_iff_mul-le}
use adaptive_trading_ecosyst.Prelude.{
  some, ℕ, ◌+◌, ◌-◌, ◌*◌, ◌/◌, ◌≤◌, ◌<◌, ◌≡◌, ap, false, ok, bind-eq-ok, guard-eq-ok, or_false,
  not-false, not, ◌||◌, leb, arith,
}
use adaptive_trading_ecosyst.Prelude.Int.{neg_part}
use adaptive_trading_ecosyst.Decimal.{Decimal, eq_d, ltb_d, ◌*ᵈ◌, denominator, pow_ten_pos}
use adaptive_trading_ecosyst.Decimal.Order.{◌≤ᵈ◌, Crosses-of_le}
use adaptive_trading_ecosyst.Domain.Primitives.{positive_decimal, nonnegative_decimal}
use adaptive_trading_ecosyst.Domain.Primitives.Positive.{IsPositive, positive_decimal-ok}
use adaptive_trading_ecosyst.Domain.Arithmetic.{top}
use adaptive_trading_ecosyst.Domain.Arithmetic.Lattice.{loss_zero, top_pos}
use adaptive_trading_ecosyst.Accounting.Contracts.{label, optionally}
use adaptive_trading_ecosyst.Portfolio.Contracts.{Economics, validate_economics}
use adaptive_trading_ecosyst.Risk.Contracts.{validate_intent, Request, validate_request}
use adaptive_trading_ecosyst.Risk.Sizing.{last_step, distance_of, off_lattice}
use adaptive_trading_ecosyst.Risk.Engine.Market.{whole_multiple}

-- The least volume and `n` steps are at most the greatest volume, as exact fractions over the
-- product of the three denominators.
abbrev pub Fits : Economics → ℕ → Type 0
Fits e n =
    top e.volume_min * denominator e.volume_max * denominator e.volume_step
      + n * (denominator e.volume_max * denominator e.volume_min * top e.volume_step)
    ≤ top e.volume_max * denominator e.volume_min * denominator e.volume_step

-- The volume is the least one and a whole number of steps.
abbrev pub OnSteps : Economics → Decimal → Type 0
OnSteps e volume =
    (k : ℕ) × (top volume * denominator e.volume_min * denominator e.volume_step
      ≡ top e.volume_min * denominator volume * denominator e.volume_step
        + k * (denominator volume * denominator e.volume_min * top e.volume_step))

-- The volumes are positive, and the greatest is at least the least.
pub record HasRange (e : Economics) : Type 0 where
  pub least : IsPositive e.volume_min
  pub greatest : IsPositive e.volume_max
  pub stepped : IsPositive e.volume_step
  pub ordered : e.volume_min ≤ᵈ e.volume_max

-- A difference times a number, and a count below its quotient.
split_product : (a b c : ℕ) → a ≤ b → b * c ≡ a * c + (b - a) * c
split_product a b c h = omega (arith, ap (λ (x : ℕ). x * c) {x = b} {y = a + (b - a)} (omega arith))

count_fits : (a b c d n : ℕ) → 0 < d → a ≤ b → n ≤ (b - a) * c / d → a * c + n * d ≤ b * c
count_fits a b c d n p h k = omega (arith, split_product a b c h, (le-div_iff_mul-le p).0 k)

count_full : (a b c d n : ℕ) → 0 < d → a ≤ b → a * c + n * d ≤ b * c → n ≤ (b - a) * c / d
count_full a b c d n p h k = (le-div_iff_mul-le p).1 (omega (arith, split_product a b c h))

steps_above : (a b c x : ℕ) → b ≤ a → distance_of a b * c ≡ x → a * c ≡ b * c + x
steps_above a b c x h e =
    omega (arith, e, ap (λ (y : ℕ). y * c) {x = a} {y = b + distance_of a b} (omega arith))

module _ (e : Economics) (h : HasRange e) where
  above_least :
      (v : Decimal)
      → e.volume_min ≤ᵈ v
      → top e.volume_min * denominator v ≤ top v * denominator e.volume_min
  above_least v above = omega (
    arith,
    Crosses-of_le e.volume_min v above,
    ap (λ (x : ℕ). x * denominator v) (loss_zero e.volume_min h.least),
  )

  unit_pos : 0 < denominator e.volume_max * denominator e.volume_min * top e.volume_step
  unit_pos =
      mul-pos
        (mul-pos (pow_ten_pos (neg_part e.volume_max.exp))
          (pow_ten_pos (neg_part e.volume_min.exp)))
        (top_pos e.volume_step h.stepped)

  crossed :
      top e.volume_min * denominator e.volume_max ≤ top e.volume_max * denominator e.volume_min
  crossed = omega (
    arith,
    Crosses-of_le e.volume_min e.volume_max h.ordered,
    ap (λ (x : ℕ). x * denominator e.volume_min) (loss_zero e.volume_max h.greatest),
    ap (λ (x : ℕ). x * denominator e.volume_max) (loss_zero e.volume_min h.least),
  )

  pub last_step-Fits : Fits e (last_step e)
  unfolding last_step
  last_step-Fits = count_fits _ _ (denominator e.volume_step) _ _ unit_pos crossed (omega arith)

  pub last_step_greatest : (n : ℕ) → Fits e n → n ≤ last_step e
  unfolding last_step
  last_step_greatest n fits = count_full _ _ (denominator e.volume_step) _ n unit_pos crossed fits

  pub Fits-of_le : (n : ℕ) → n ≤ last_step e → Fits e n
  Fits-of_le n below = omega (
    arith,
    last_step-Fits,
    mul-le-mul_right (denominator e.volume_max * denominator e.volume_min * top e.volume_step)
        below,
  )

  pub not_Fits-last_step : ¬ Fits e (last_step e + 1)
  not_Fits-last_step fits = omega (arith, last_step_greatest (last_step e + 1) fits)

  pub off_lattice-OnSteps :
      (volume : Decimal) → e.volume_min ≤ᵈ volume → off_lattice e volume ≡ false → OnSteps e volume
  unfolding off_lattice
  off_lattice-OnSteps volume above on =
      let (k, exact) = whole_multiple _ _ on in
      (k, steps_above _ _ (denominator e.volume_step) _ (above_least volume above) exact)

pub validate_economics-HasRange :
    (e : Economics) {v : Economics} → validate_economics e ≡ ok v → HasRange e
unfolding validate_economics
validate_economics-HasRange e h =
    let (_, _, h1) = bind-eq-ok (label e.instrument_id) _ h in
    let (_, _, h2) = bind-eq-ok (label e.version) _ h1 in
    let (_, _, h3) = bind-eq-ok (positive_decimal e.tick_size) _ h2 in
    let (_, _, h4) = bind-eq-ok (positive_decimal e.tick_value_per_lot) _ h3 in
    let (_, _, h5) = bind-eq-ok (positive_decimal e.contract_size) _ h4 in
    let (_, _, h6) = bind-eq-ok (positive_decimal e.usd_per_price_unit_per_lot) _ h5 in
    let (_, least, h7) = bind-eq-ok (positive_decimal e.volume_min) _ h6 in
    let (_, greatest, h8) = bind-eq-ok (positive_decimal e.volume_max) _ h7 in
    let (_, step, h9) = bind-eq-ok (positive_decimal e.volume_step) _ h8 in
    let (_, _, h10) = bind-eq-ok (nonnegative_decimal e.margin_per_lot) _ h9 in
    let (_, _, h11) = bind-eq-ok (nonnegative_decimal e.commission_per_lot_per_side) _ h10 in
    let (_, _, h12) = bind-eq-ok (nonnegative_decimal e.commission_fixed_per_side) _ h11 in
    let (_, _, h13) = bind-eq-ok (nonnegative_decimal e.minimum_stop_distance) _ h12 in
    let (_, _, h14) = bind-eq-ok (optionally label e.validation_reference) _ h13 in
    let (_, h15) =
      guard-eq-ok (not (eq_d e.tick_value_per_lot (e.tick_size *ᵈ e.usd_per_price_unit_per_lot))) _
        _ h14 in
    let (range, _) =
      guard-eq-ok (ltb_d e.volume_max e.volume_min || leb e.valid_until e.valid_from) _ _ h15 in
    record {
      least = (positive_decimal-ok e.volume_min least).1;
      greatest = (positive_decimal-ok e.volume_max greatest).1;
      stepped = (positive_decimal-ok e.volume_step step).1;
      ordered = not-false _ (or_false (ltb_d e.volume_max e.volume_min) _ range).0;
    }

pub validate_request-HasRange :
    (r : Request) (e : Economics) {v : Request}
    → validate_request r ≡ ok v
    → r.economics ≡ some e
    → HasRange e
unfolding validate_request
validate_request-HasRange r e h priced =
    let (_, _, h₁) = bind-eq-ok (validate_intent r.intent) _ h in
    let (_, checked, _) = bind-eq-ok (optionally validate_economics r.economics) _ h₁ in
    let (_, valid, _) = bind-eq-ok (validate_economics e) _ (rw priced at checked) in
    validate_economics-HasRange e valid
