-- ===== src/Domain/Arithmetic.antt =====
-- domain/arithmetic.py: rounding a price or a lot to a multiple of an increment.
pub mod Units
pub mod Lattice
mod Tests
pub use Units.{Rounding}
unfoldable pub use Units.{step_units}
use adaptive_trading_ecosyst.Prelude.{ℕ, ◌*◌, ◌==◌, if◌then◌else◌, Result, ok, ◌>>=◌}
use adaptive_trading_ecosyst.Prelude.Int.{pos, pos_part, nat_abs, ◌*ℤ◌}
use adaptive_trading_ecosyst.Decimal.{Decimal, numerator, denominator, zero_d}
use adaptive_trading_ecosyst.Domain.Primitives.{positive_decimal}

-- The magnitude of the numerator of a positive decimal.
abbrev pub top : Decimal → ℕ
top d = pos_part (numerator d)

-- The exact product of a count and a positive increment.
abbrev pub multiple : ℕ → Decimal → Decimal
multiple units increment = record {
  coef = pos (nat_abs increment.coef * units);
  exp = increment.exp;
}

-- The number of increments that `_step` chooses.
abbrev pub chosen_units : Rounding → Decimal → Decimal → ℕ
chosen_units direction price increment =
    step_units direction (top price * denominator increment) (denominator price * top increment)

-- `_step`
unfoldable pub step : Rounding → Decimal → Decimal → Result Decimal
step direction value tick = do
  price ← positive_decimal value
  increment ← positive_decimal tick
  let result = multiple (chosen_units direction price increment) increment
  if nat_abs result.coef == 0 then ok zero_d else positive_decimal result

unfoldable pub price_tick_floor : Decimal → Decimal → Result Decimal
unfolding step
price_tick_floor = step Rounding.floor

unfoldable pub price_tick_ceiling : Decimal → Decimal → Result Decimal
unfolding step
price_tick_ceiling = step Rounding.ceiling

unfoldable pub nearest_permitted_tick : Decimal → Decimal → Result Decimal
unfolding step
nearest_permitted_tick = step Rounding.nearest

unfoldable pub lot_step_floor : Decimal → Decimal → Result Decimal
unfolding step
lot_step_floor = step Rounding.floor
