-- ===== src/Portfolio/Projection.antt =====
-- portfolio/projection.py: the state of a portfolio after a history.
use adaptive_trading_ecosyst.Prelude.{
  Bool, true, false, not, ◌&&◌, ◌||◌, Option, none, some, is_none, List, [], ◌∷◌, ltb, ◌==◌, map,
  length, take, drop, last?, any_of, all_of, Result, ok, ◌>>=◌, ◌>>◌, raise_if, or_raise, traverse,
}
use adaptive_trading_ecosyst.Decimal.{Decimal, eq_d, max_d, ◌-ᵈ◌, sum_d}
use adaptive_trading_ecosyst.Domain.Primitives.{EntityId, finite_decimal}
use adaptive_trading_ecosyst.Accounting.Contracts.{
  same_category, LedgerEntry, AccountInput, optionally,
}
use adaptive_trading_ecosyst.Accounting.Balance.{
  project_balance, EquitySnapshot, floating_of, equity_of, late_account,
}
use adaptive_trading_ecosyst.Accounting.Performance.{NavState, nav_of, RiskDayState, day_of}
use adaptive_trading_ecosyst.Portfolio.Fills.{same_label}
use adaptive_trading_ecosyst.Portfolio.Observations.{Reservation, Observation, validate_observation}
use adaptive_trading_ecosyst.Portfolio.Marks.{Mark, mark_all}

abbrev pub same_entity : Option EntityId → Option EntityId → Bool
same_entity none none = true
same_entity (some a) (some b) = a == b
same_entity _ _ = false

unfoldable pub same_ledger_entry : LedgerEntry → LedgerEntry → Bool
same_ledger_entry a b =
    a.entry_id == b.entry_id
    && a.account_id == b.account_id
    && a.sequence == b.sequence
    && eq_d a.amount b.amount
    && same_category a.category b.category
    && a.reference_id == b.reference_id
    && a.effective_at == b.effective_at
    && a.recorded_at == b.recorded_at
    && same_entity a.reverses b.reverses
    && same_entity a.replaces b.replaces
    && same_label a.audit_reference b.audit_reference

unfoldable pub same_ledger : List LedgerEntry → List LedgerEntry → Bool
same_ledger [] [] = true
same_ledger (a ∷ as') (b ∷ bs) = same_ledger_entry a b && same_ledger as' bs
same_ledger _ _ = false

-- `cash` does not extend `previous`.
unfoldable pub breaks_history : AccountInput → AccountInput → Bool
breaks_history cash previous =
    not (cash.account_id == previous.account_id)
    || not (cash.opening_at == previous.opening_at)
    || not (eq_d cash.opening_cash previous.opening_cash)
    || ltb cash.valuation_at previous.valuation_at
    || ltb cash.reconciled_at previous.reconciled_at
    || not (same_ledger (take (length previous.ledger) cash.ledger) previous.ledger)
    || any_of (λ (e : LedgerEntry). ltb e.effective_at previous.valuation_at)
        (drop (length previous.ledger) cash.ledger)

abbrev pub breaks_after : AccountInput → Option AccountInput → Bool
breaks_after cash none = false
breaks_after cash (some previous) = breaks_history cash previous

-- A point of the history: the observation's value, without the digest of the observation.
unfoldable pub point_of : Observation → List Mark → Result EquitySnapshot
point_of o marks = do
  let cash = o.book.cash
  let complete = all_of (λ (m : Mark). is_none m.unavailable_reason) marks
  let floating = floating_of complete (map (λ (m : Mark). m.unrealized_pnl) marks)
  balance ← project_balance cash
  let equity = equity_of balance.cash_balance floating
  optionally finite_decimal floating
  optionally finite_decimal equity
  ok (record {
    source = cash;
    ledger_sequence = length cash.ledger;
    balance = balance;
    assets = [];
    unrealized_pnl = floating;
    equity = equity;
    complete = complete;
    stale = any_of (λ (m : Mark). m.stale) marks || late_account cash;
    open_episode_count = length o.book.positions;
    reserved_episode_count = length o.reservations;
  })

unfoldable pub points_after : Option AccountInput → List Observation → Result (List EquitySnapshot)
points_after previous [] = ok []
points_after previous (o ∷ os) = do
  raise_if (breaks_after o.book.cash previous) "PORTFOLIO_APPEND_ONLY_HISTORY_MISMATCH"
  marks ← mark_all o
  point ← point_of o marks
  points ← points_after (some o.book.cash) os
  ok (point ∷ points)

pub record Snapshot : Type 0 where
  pub source : Observation
  pub accounting : EquitySnapshot
  pub marks : List Mark
  pub used_margin : Option Decimal
  pub free_margin : Option Decimal
  pub available_margin : Option Decimal
  pub gross_exposure : Option Decimal
  pub open_risk : Option Decimal
  pub reserved_risk : Decimal
  pub reserved_margin : Decimal
  pub reserved_exposure : Decimal
  pub nav : NavState
  pub risk_day : RiskDayState

-- A supplied total is never understated by the modelled one.
abbrev pub at_least : Option Decimal → Option Decimal → Option Decimal
at_least (some d) (some supplied) = some (max_d d supplied)
at_least modelled _ = modelled

abbrev pub at_least_d : Decimal → Option Decimal → Decimal
at_least_d d none = d
at_least_d d (some supplied) = max_d d supplied

abbrev pub less : Option Decimal → Option Decimal → Option Decimal
less (some a) (some b) = some (a -ᵈ b)
less _ _ = none

abbrev pub less_d : Option Decimal → Decimal → Option Decimal
less_d (some a) b = some (a -ᵈ b)
less_d none b = none

unfoldable pub validate_snapshot : Snapshot → Result Snapshot
validate_snapshot s = do
  optionally finite_decimal s.used_margin
  optionally finite_decimal s.free_margin
  optionally finite_decimal s.available_margin
  optionally finite_decimal s.gross_exposure
  optionally finite_decimal s.open_risk
  finite_decimal s.reserved_risk
  finite_decimal s.reserved_margin
  finite_decimal s.reserved_exposure
  ok s

unfoldable pub snapshot_of :
    Observation → List Mark → EquitySnapshot → NavState → RiskDayState → Snapshot
snapshot_of o marks current nav day =
    let cash = o.book.cash in
    let used =
      at_least (floating_of current.complete (map (λ (m : Mark). m.margin) marks))
        cash.used_margin in
    let reserved_margin =
      at_least_d (sum_d (map (λ (r : Reservation). r.margin) o.reservations))
        cash.reserved_margin in
    record {
      source = o;
      accounting = current;
      marks = marks;
      used_margin = used;
      free_margin = less current.equity used;
      available_margin = less_d (less current.equity used) reserved_margin;
      gross_exposure = floating_of current.complete (map (λ (m : Mark). m.gross_notional) marks);
      open_risk =
          at_least (floating_of current.complete (map (λ (m : Mark). m.stop_risk) marks))
            cash.open_stop_risk;
      reserved_risk =
          at_least_d (sum_d (map (λ (r : Reservation). r.stop_risk) o.reservations))
            cash.reserved_stop_risk;
      reserved_margin = reserved_margin;
      reserved_exposure = sum_d (map (λ (r : Reservation). r.gross_notional) o.reservations);
      nav = nav;
      risk_day = day;
    }

unfoldable pub project : List Observation → Result Snapshot
project history = do
  raise_if (length history == 0) "PORTFOLIO_HISTORY_REQUIRED"
  sources ← traverse validate_observation history
  points ← points_after none sources
  last ← or_raise (last? sources) "IndexError"
  current ← or_raise (last? points) "IndexError"
  marks ← mark_all last
  nav ← nav_of points
  day ← day_of points
  validate_snapshot (snapshot_of last marks current nav day)
