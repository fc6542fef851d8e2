-- ===== src/Accounting/Performance.antt =====
-- accounting/performance.py: the net asset value per unit, with its high-water mark, and the loss of
-- the day. The identities of the snapshots, digests, are left out of the results.
pub mod Nav
use adaptive_trading_ecosyst.Prelude.{
  ℕ, ◌+◌, ◌-◌, ◌%◌, Bool, true, false, not, ◌&&◌, ◌||◌, Option, none, some, is_none, List, [], ◌∷◌,
  ltb, leb, ◌==◌, map, length, drop, last?, find_first, any_of, keep, if◌then◌else◌, String, str_eq,
  Result, ok, err, ◌>>=◌, ◌>>◌, raise_if, or_raise, traverse,
}
use adaptive_trading_ecosyst.Prelude.Int.{ℤ, pos, negsuc, ◌*ℤ◌, leb_ℤ}
use adaptive_trading_ecosyst.Decimal.{
  Decimal, numerator, denominator, zero_d, one_d, leb_d, ltb_d, eq_d, max_d, ◌+ᵈ◌, ◌-ᵈ◌, div_d,
  sum_d,
}
use adaptive_trading_ecosyst.Domain.Primitives.{UtcTimestamp, days, finite_decimal}
use adaptive_trading_ecosyst.Accounting.Contracts.{cash_flow, LedgerEntry, AccountInput, optionally}
use adaptive_trading_ecosyst.Accounting.Balance.{EquitySnapshot, project_equity, is_of, amount_of}

-- `_ratio_at_most`: numerator / denominator <= n / d, exactly. The denominator is positive.
unfoldable pub ratio_at_most : Decimal → Decimal → ℤ → ℕ → Bool
ratio_at_most a b n d =
    leb_ℤ (numerator a *ℤ pos (denominator b) *ℤ pos d) (numerator b *ℤ pos (denominator a) *ℤ n)

pub record NavState : Type 0 where
  pub units : Option Decimal
  pub nav : Option Decimal
  pub high_water_mark : Option Decimal
  pub drawdown : Option Decimal
  pub drawdown_triggered : Option Bool
  pub unavailable_reason : Option String

-- The variables of the loop of `_nav`.
pub record NavLoop : Type 0 where
  pub units : Decimal
  pub nav : Decimal
  pub high : Decimal
  pub valid_points : ℕ
  pub reason : Option String

abbrev pub stopped_for : String → NavLoop → NavLoop
stopped_for reason s = record s { reason = some reason }

abbrev pub new_entries : EquitySnapshot → EquitySnapshot → List LedgerEntry
new_entries previous current = drop previous.ledger_sequence current.source.ledger

-- `current.equity != previous.equity + flow.amount`, or no previous equity
abbrev pub flow_mismatch : Option Decimal → Decimal → Decimal → Bool
flow_mismatch none amount equity = true
flow_mismatch (some before) amount equity = not (eq_d equity (before +ᵈ amount))

unfoldable pub take_flow :
    EquitySnapshot → NavLoop → EquitySnapshot → Decimal → LedgerEntry → Result NavLoop
take_flow previous s current equity flow =
    if not (length (new_entries previous current) == 1)
      || not (previous.source.valuation_at == flow.effective_at)
      || not (current.source.valuation_at == flow.effective_at)
      || flow_mismatch previous.equity flow.amount equity
    then ok (stopped_for "MISSING_IMMEDIATE_PRE_OR_POST_FLOW_VALUATION" s)
    else if leb_d s.nav zero_d
    then ok (stopped_for "NONPOSITIVE_PRE_FLOW_NAV" s)
    else (do
      bought ← or_raise (div_d flow.amount s.nav) "DivisionByZero"
      let units = s.units +ᵈ bought
      if leb_d units zero_d || leb_d equity zero_d
          then ok (stopped_for "FLOW_EXHAUSTED_OR_EXCEEDED_ACCOUNT_UNITS" s)
          else ok (record s { units = units }))

abbrev pub after_flows :
    EquitySnapshot → NavLoop → EquitySnapshot → Decimal → List LedgerEntry → Result NavLoop
after_flows previous s current equity [] = do
  nav ← or_raise (div_d equity s.units) "DivisionByZero"
  ok (record s { nav = nav })
after_flows previous s current equity (flow ∷ flows) = take_flow previous s current equity flow

unfoldable pub advance : Option EquitySnapshot → NavLoop → EquitySnapshot → Decimal → Result NavLoop
advance none s current equity = ok s
advance (some previous) s current equity =
    after_flows previous s current equity (keep (is_of cash_flow) (new_entries previous current))

-- The end of an iteration, when no reason ended the loop.
abbrev pub counted : NavLoop → NavLoop
counted s = record s { high = max_d s.high s.nav; valid_points = s.valid_points + 1 }

-- The loop over the snapshots after `previous`.
unfoldable pub nav_loop : Option EquitySnapshot → NavLoop → List EquitySnapshot → Result NavLoop
nav_loop previous s [] = ok s
nav_loop previous s (current ∷ rest) =
    if not current.complete || current.stale
    then ok (stopped_for "INCOMPLETE_OR_STALE_NAV_HISTORY" s)
    else (do
      equity ← or_raise current.equity "AssertionError"
      t ← advance previous s current equity
      elim t.reason [ some _ ↦ ok t | none ↦ nav_loop (some current) (counted t) rest ])

abbrev pub inception_reason : EquitySnapshot → Option String
inception_reason first =
    if not (length first.source.ledger == 0)
      || not (first.source.valuation_at == first.source.opening_at)
    then some "MISSING_NAV_INCEPTION_VALUATION"
    else none

abbrev pub nonpositive : Option Decimal → Bool
nonpositive none = true
nonpositive (some d) = leb_d d zero_d

abbrev pub units_reason : EquitySnapshot → Option String
units_reason first =
    if nonpositive first.equity
    then some "NONPOSITIVE_OR_UNKNOWN_INCEPTION_EQUITY"
    else inception_reason first

abbrev pub or_zero_d : Option Decimal → Decimal
or_zero_d none = zero_d
or_zero_d (some d) = d

abbrev pub first_loop : EquitySnapshot → NavLoop
first_loop first = record {
  units = or_zero_d first.equity;
  nav = one_d;
  high = one_d;
  valid_points = 0;
  reason = units_reason first;
}

abbrev pub high_of : NavLoop → Option Decimal
high_of s = if s.valid_points == 0 then none else some s.high

unfoldable pub nav_state : NavLoop → Option String → Result NavState
nav_state s (some reason) = ok (record {
  units = none;
  nav = none;
  high_water_mark = high_of s;
  drawdown = none;
  drawdown_triggered = none;
  unavailable_reason = some reason;
})
nav_state s none = do
  ratio ← or_raise (div_d s.nav s.high) "DivisionByZero"
  let drawdown = one_d -ᵈ ratio
  finite_decimal s.units
  finite_decimal s.nav
  finite_decimal s.high
  finite_decimal drawdown
  ok (record {
    units = some s.units;
    nav = some s.nav;
    high_water_mark = high_of s;
    drawdown = some drawdown;
    drawdown_triggered = some (ratio_at_most s.nav s.high (pos 95) 100);
    unavailable_reason = none;
  })

-- A reason at the inception ends the loop before its first point.
unfoldable pub nav_from : EquitySnapshot → List EquitySnapshot → Option String → Result NavState
nav_from first rest (some reason) = nav_state (first_loop first) (some reason)
nav_from first rest none =
    nav_loop none (first_loop first) (first ∷ rest) >>= λ s. nav_state s s.reason

-- `_nav`
unfoldable pub nav_of : List EquitySnapshot → Result NavState
nav_of [] = err "IndexError"
nav_of (first ∷ rest) = nav_from first rest (units_reason first)

pub record RiskDayState : Type 0 where
  pub boundary_at : UtcTimestamp
  pub boundary_equity : Option Decimal
  pub net_external_flows : Option Decimal
  pub today_trading_pnl : Option Decimal
  pub daily_loss_fraction : Option Decimal
  pub daily_loss_triggered : Option Bool
  pub unavailable_reason : Option String

abbrev pub midnight_of : UtcTimestamp → UtcTimestamp
midnight_of at = at - at % days 1

abbrev pub pre_flow_missing : UtcTimestamp → EquitySnapshot → Bool
pre_flow_missing midnight b =
    any_of (λ (e : LedgerEntry). is_of cash_flow e && e.effective_at == midnight) b.source.ledger

abbrev pub unavailable_day : UtcTimestamp → Option Decimal → String → RiskDayState
unavailable_day midnight equity reason = record {
  boundary_at = midnight;
  boundary_equity = equity;
  net_external_flows = none;
  today_trading_pnl = none;
  daily_loss_fraction = none;
  daily_loss_triggered = none;
  unavailable_reason = some reason;
}

-- `sum(e.amount for e in ... if e.category == Category.CASH_FLOW)`
abbrev pub net_flows : EquitySnapshot → EquitySnapshot → Decimal
net_flows b current = sum_d (map amount_of (keep (is_of cash_flow) (new_entries b current)))

abbrev pub day_figures :
    UtcTimestamp → EquitySnapshot → Decimal → EquitySnapshot → Decimal → Result RiskDayState
day_figures midnight b base current equity = do
  let flows = net_flows b current
  let pnl = equity -ᵈ base -ᵈ flows
  fraction ← or_raise (div_d pnl base) "DivisionByZero"
  finite_decimal base
  finite_decimal flows
  finite_decimal pnl
  finite_decimal fraction
  ok (record {
    boundary_at = midnight;
    boundary_equity = some base;
    net_external_flows = some flows;
    today_trading_pnl = some pnl;
    daily_loss_fraction = some fraction;
    daily_loss_triggered = some (ratio_at_most pnl base (negsuc 14) 1000);
    unavailable_reason = none;
  })

-- From the boundary's equity on.
unfoldable pub day_from :
    UtcTimestamp → EquitySnapshot → Option Decimal → EquitySnapshot → Result RiskDayState
day_from midnight b none current =
    ok (unavailable_day midnight none "MISSING_VALID_UTC_MIDNIGHT_VALUATION")
day_from midnight b (some base) current =
    if leb_d base zero_d || b.stale
    then ok (unavailable_day midnight (some base) "MISSING_VALID_UTC_MIDNIGHT_VALUATION")
    else if pre_flow_missing midnight b
    then ok (unavailable_day midnight (some base) "MISSING_PRE_FLOW_UTC_MIDNIGHT_VALUATION")
    else if not current.complete || current.stale
    then ok (unavailable_day midnight (some base) "CURRENT_EQUITY_UNAVAILABLE_OR_STALE")
    else (do
      equity ← or_raise current.equity "AssertionError"
      day_figures midnight b base current equity)

-- `_day`
unfoldable pub day_of : List EquitySnapshot → Result RiskDayState
day_of snapshots = do
  current ← or_raise (last? snapshots) "IndexError"
  let midnight = midnight_of current.source.valuation_at
  elim (find_first (λ (s : EquitySnapshot). s.source.valuation_at == midnight) snapshots) [
    | none ↦ ok (unavailable_day midnight none "MISSING_VALID_UTC_MIDNIGHT_VALUATION")
    | some b ↦ day_from midnight b b.equity current
  ]
