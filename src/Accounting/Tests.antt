-- ===== src/Accounting/Tests.antt =====
-- A deposit doubles the units of an account and leaves its net asset value.
use adaptive_trading_ecosyst.Prelude.{
  ℕ, ◌≡◌, refl, none, some, List, [], ◌∷◌, Result, ok, err, traverse,
}
use adaptive_trading_ecosyst.Prelude.Int.{pos}
use adaptive_trading_ecosyst.Decimal.{Decimal, of_int, one_d, decimal_arithmetic, copy_negate}
use adaptive_trading_ecosyst.Domain.Primitives.{
  hours, finite_decimal, positive_decimal, nonnegative_decimal,
}
use adaptive_trading_ecosyst.Accounting.Contracts.{
  cash_flow, LedgerEntry, AccountInput, label, validate_ledger_entry, validate_long_position,
  validate_valuation_model,
}
use adaptive_trading_ecosyst.Accounting.Ledger.{
  validate_account, ordered, read_ledger, read_entry, correct, in_asset_order, repeated,
  check_positions,
}
use adaptive_trading_ecosyst.Accounting.Balance.{
  EquitySnapshot, project_equity, project_balance, total, position_value, asset_value, given_values,
}
use adaptive_trading_ecosyst.Accounting.Performance.{
  NavState, nav_of, nav_from, nav_loop, nav_state, advance, take_flow, ratio_at_most,
}
use adaptive_trading_ecosyst.Accounting.Ledger.Corrections.{IsCorrected, ordered-IsCorrected}
use adaptive_trading_ecosyst.Accounting.Performance.Nav.{Available, nav_of-Available}

abbrev money : ℕ → Decimal
money n = of_int (pos n)

abbrev opened : AccountInput
opened = record {
  account_id = 1;
  opening_at = hours 24;
  opening_cash = money 100;
  valuation_at = hours 24;
  reconciled_at = hours 24;
  ledger = [];
  positions = [];
  reservations = [];
  used_margin = none;
  reserved_margin = none;
  open_stop_risk = none;
  reserved_stop_risk = none;
}

abbrev deposit : LedgerEntry
deposit = record {
  entry_id = 5;
  account_id = 1;
  sequence = 1;
  amount = money 100;
  category = cash_flow;
  reference_id = 6;
  effective_at = hours 24;
  recorded_at = hours 24;
  reverses = none;
  replaces = none;
  audit_reference = none;
}

abbrev history : Result (List EquitySnapshot)
history = traverse project_equity (opened ∷ record opened { ledger = deposit ∷ [] } ∷ [])

abbrev points : List EquitySnapshot
points = elim history [ ok ps ↦ ps | err _ ↦ [] ]

abbrev unknown : NavState
unknown = record {
  units = none;
  nav = none;
  high_water_mark = none;
  drawdown = none;
  drawdown_triggered = none;
  unavailable_reason = none;
}

abbrev measured : NavState
measured = elim (nav_of points) [ ok n ↦ n | err _ ↦ unknown ]

unfoldable accounting : Unit {0}
unfolding nav_of nav_from nav_loop nav_state advance take_flow ratio_at_most project_equity
    project_balance total position_value asset_value given_values validate_account ordered
    read_ledger read_entry correct in_asset_order repeated check_positions label
    validate_ledger_entry validate_long_position validate_valuation_model positive_decimal
    nonnegative_decimal finite_decimal decimal_arithmetic
accounting = tt

measures : nav_of points ≡ ok measured
unfolding accounting
measures = refl

nav_runs : measured.nav ≡ some one_d
unfolding accounting
nav_runs = refl

units_runs : measured.units ≡ some (money 200)
unfolding accounting
units_runs = refl

nav_of-Available_example : Available measured one_d
nav_of-Available_example = nav_of-Available points measured one_d measures nav_runs

-- The deposit is reversed and replaced by one of 90.
abbrev reversal : LedgerEntry
reversal = record deposit {
  entry_id = 7;
  sequence = 2;
  amount = copy_negate (money 100);
  reverses = some 5;
  audit_reference = some "audit";
}

abbrev replacement : LedgerEntry
replacement = record deposit {
  entry_id = 8;
  sequence = 3;
  amount = money 90;
  replaces = some 5;
  audit_reference = some "audit";
}

abbrev corrected_account : AccountInput
corrected_account = record opened { ledger = deposit ∷ reversal ∷ replacement ∷ [] }

corrects : ordered corrected_account ≡ ok corrected_account
unfolding accounting
corrects = refl

-- A second reversal is refused.
twice_runs :
    ordered (record opened {
      ledger = deposit ∷ reversal ∷ record reversal { entry_id = 9; sequence = 3 } ∷ [];
    })
    ≡ err "INVALID_REVERSAL"
unfolding accounting
twice_runs = refl

ordered-IsCorrected_example : IsCorrected (replacement ∷ reversal ∷ deposit ∷ [])
ordered-IsCorrected_example = ordered-IsCorrected corrected_account corrected_account corrects
