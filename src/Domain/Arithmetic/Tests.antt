-- ===== src/Domain/Arithmetic/Tests.antt =====
-- Runs of the tick rounding, and the theorems of `Lattice` at such inputs.
use adaptive_trading_ecosyst.Prelude.{ℕ, ◌≡◌, refl, ok, err}
use adaptive_trading_ecosyst.Prelude.Int.{pos, negsuc}
use adaptive_trading_ecosyst.Decimal.{Decimal, decimal_arithmetic}
use adaptive_trading_ecosyst.Decimal.Order.{◌≤ᵈ◌}
use adaptive_trading_ecosyst.Domain.Arithmetic.{
  price_tick_floor, price_tick_ceiling, nearest_permitted_tick, multiple, step_units,
}
use adaptive_trading_ecosyst.Domain.Primitives.{positive_decimal}
use adaptive_trading_ecosyst.Domain.Arithmetic.Lattice.{
  floor_is_greatest, ceiling_is_least, SameValue,
}

-- 101.37 and the increment 0.25
abbrev price : Decimal
price = record { coef = pos 10137; exp = negsuc 1 }

abbrev tick : Decimal
tick = record { coef = pos 25; exp = negsuc 1 }

abbrev lower : Decimal
lower = record { coef = pos 10125; exp = negsuc 1 }

abbrev upper : Decimal
upper = record { coef = pos 10150; exp = negsuc 1 }

floor_runs : price_tick_floor price tick ≡ ok lower
unfolding price_tick_floor positive_decimal decimal_arithmetic step_units
floor_runs = refl

ceiling_runs : price_tick_ceiling price tick ≡ ok upper
unfolding price_tick_ceiling positive_decimal decimal_arithmetic step_units
ceiling_runs = refl

-- 0.375 lies half way, and goes to the even count of increments
nearest_runs :
    nearest_permitted_tick (record { coef = pos 375; exp = negsuc 2 }) tick
    ≡ ok (record { coef = pos 50; exp = negsuc 1 })
unfolding nearest_permitted_tick positive_decimal decimal_arithmetic step_units
nearest_runs = refl

refused_runs :
    price_tick_floor (record { coef = negsuc 4; exp = pos 0 }) tick
    ≡ err "positive decimal required"
unfolding price_tick_floor positive_decimal decimal_arithmetic
refused_runs = refl

floor_is_greatest_example :
    ((k : ℕ) × SameValue lower (multiple k tick))
    × (lower ≤ᵈ price)
    × ((j : ℕ) → multiple j tick ≤ᵈ price → multiple j tick ≤ᵈ lower)
floor_is_greatest_example = floor_is_greatest price tick lower floor_runs

ceiling_is_least_example :
    ((k : ℕ) × SameValue upper (multiple k tick))
    × (price ≤ᵈ upper)
    × ((j : ℕ) → price ≤ᵈ multiple j tick → upper ≤ᵈ multiple j tick)
ceiling_is_least_example = ceiling_is_least price tick upper ceiling_runs
