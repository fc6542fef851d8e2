-- ===== src/Risk/Lots.antt =====
-- risk/engine.py: the search for the number of steps above the least volume.
pub mod Search
use adaptive_trading_ecosyst.Prelude.{
  ℕ, zero, suc, ◌+◌, ◌-◌, ◌/◌, Bool, true, false, ltb, if◌then◌else◌,
}

abbrev pub middle_of : ℕ → ℕ → ℕ
middle_of lower upper = (lower + upper + 1) / 2

-- The bounds after one iteration.
abbrev pub narrowed : (ℕ → Bool) → ℕ → ℕ → ℕ × ℕ
narrowed feasible lower upper =
    if feasible (middle_of lower upper)
    then (middle_of lower upper, upper)
    else (lower, middle_of lower upper - 1)

-- `while lower < upper`; each iteration brings the bounds closer, so that their distance is enough
-- fuel.
unfoldable pub lot_search : ℕ → (ℕ → Bool) → ℕ → ℕ → ℕ
lot_search zero feasible lower upper = lower
lot_search (suc fuel) feasible lower upper = elim (ltb lower upper) [
  | false ↦ lower
  | true ↦ let next = narrowed feasible lower upper in lot_search fuel feasible next.0 next.1
]
