-- ===== src/Risk/State/Tests.antt =====
-- A severe breach halts an account, and the halt stays when the breach is over.
use adaptive_trading_ecosyst.Prelude.{ℕ, ◌+◌, ◌≡◌, refl, true, false, none, some, [], ◌∷◌, ok}
use adaptive_trading_ecosyst.Prelude.Int.{pos}
use adaptive_trading_ecosyst.Decimal.{Decimal, of_int, one_d, zero_d, decimal_arithmetic}
use adaptive_trading_ecosyst.Domain.Primitives.{
  hours, seconds, minutes, btcusd, paper_forward, finite_decimal, positive_decimal,
  nonnegative_decimal,
}
use adaptive_trading_ecosyst.Accounting.Contracts.{
  AccountInput, label, validate_ledger_entry, validate_long_position, validate_valuation_model,
}
use adaptive_trading_ecosyst.Accounting.Ledger.{
  validate_account, ordered, read_ledger, read_entry, correct, in_asset_order, repeated,
  check_positions,
}
use adaptive_trading_ecosyst.Accounting.Balance.{project_balance, total, given_values}
use adaptive_trading_ecosyst.Accounting.Performance.{
  nav_of, nav_from, nav_loop, nav_state, advance, take_flow, ratio_at_most, day_of, day_from,
}
use adaptive_trading_ecosyst.Portfolio.Contracts.{
  long, empty, validate_economics, validate_quote, validate_position, validate_book,
}
use adaptive_trading_ecosyst.Portfolio.Observations.{
  Observation, repeated_text, validate_observation, validate_reservation,
}
use adaptive_trading_ecosyst.Portfolio.Marks.{mark_all, marked, stop_risk_of}
use adaptive_trading_ecosyst.Portfolio.Projection.{
  Snapshot, project, points_after, point_of, breaks_history, same_ledger, same_ledger_entry,
  snapshot_of, validate_snapshot,
}
use adaptive_trading_ecosyst.Accounting.Balance.{EquitySnapshot}
use adaptive_trading_ecosyst.Accounting.Performance.{NavState, RiskDayState}
use adaptive_trading_ecosyst.Risk.Contracts.{
  v0_conservative, simulated, Health, active, halt_and_flatten, RiskState, Request,
}
use adaptive_trading_ecosyst.Risk.State.{
  loss_reasons, history_reasons, pause_reasons, distinct, state_of,
}
use adaptive_trading_ecosyst.Risk.State.Gate.{IsClear, state_of-IsClear}
use adaptive_trading_ecosyst.Risk.State.Latch.{state_of-latched}

abbrev money : ℕ → Decimal
money n = of_int (pos n)

abbrev cash : AccountInput
cash = record {
  account_id = 1;
  opening_at = hours 24;
  opening_cash = money 100;
  valuation_at = hours 24;
  reconciled_at = hours 24;
  ledger = [];
  positions = [];
  reservations = [];
  used_margin = none;
  reserved_margin = none;
  open_stop_risk = none;
  reserved_stop_risk = none;
}

abbrev observed : Observation
observed = record {
  book = record { cash = cash; positions = []; receipts = []; closed_episodes = [] };
  quotes = [];
  reservations = [];
}

abbrev point : EquitySnapshot
point = record {
  source = cash;
  ledger_sequence = 0;
  balance = record {
    opening_cash = money 100;
    external_cash_flows = zero_d;
    realized = zero_d;
    commissions = zero_d;
    financing_costs = zero_d;
    audited_adjustments = zero_d;
    cash_balance = money 100;
  };
  assets = [];
  unrealized_pnl = some zero_d;
  equity = some (money 100);
  complete = true;
  stale = false;
  open_episode_count = 0;
  reserved_episode_count = 0;
}

abbrev nav : NavState
nav = record {
  units = some (money 100);
  nav = some one_d;
  high_water_mark = some one_d;
  drawdown = some zero_d;
  drawdown_triggered = some false;
  unavailable_reason = none;
}

abbrev day : RiskDayState
day = record {
  boundary_at = hours 24;
  boundary_equity = some (money 100);
  net_external_flows = some zero_d;
  today_trading_pnl = some zero_d;
  daily_loss_fraction = some zero_d;
  daily_loss_triggered = some false;
  unavailable_reason = none;
}

abbrev snapshot : Snapshot
snapshot = snapshot_of observed [] point nav day

abbrev healthy : Health
healthy = record {
  account_kind = simulated;
  broker_connected = true;
  reconciled = true;
  lease_valid = true;
  approval_valid = true;
  session_open = true;
  calendar_validated = true;
  protection_confirmed = true;
  unknown_submission = false;
  severe_breach = false;
}

abbrev request : Request
request = record {
  intent = record {
    intent_id = 9;
    strategy_id = 3;
    asset = btcusd;
    direction = long;
    signal_at = hours 24;
    expires_at = hours 24 + minutes 5;
    signal_close = money 100;
    atr = money 100;
    fixed_stop = money 90;
  };
  policy = v0_conservative;
  mode = paper_forward;
  at = hours 24 + seconds 1;
  health = healthy;
  economics = none;
  quote = some (record {
    quote_id = "q";
    instrument_id = "BTCUSD.spot";
    at = hours 24 + seconds 1;
    bid = money 99;
    ask = money 100;
  });
  history = observed ∷ [];
  prior_state = none;
}

abbrev breached : Request
breached = record request { health = record healthy { severe_breach = true } }

abbrev halted : RiskState
halted = record {
  account_id = 1;
  policy = v0_conservative;
  at = hours 24 + seconds 1;
  status = halt_and_flatten;
  reasons = "SEVERE_RECONCILIATION_OR_RISK_BREACH" ∷ [];
}

abbrev later : Request
later = record request { at = hours 24 + seconds 2; prior_state = some halted }

unfoldable stating : Unit {0}
unfolding state_of history_reasons loss_reasons ratio_at_most pause_reasons distinct snapshot_of
    decimal_arithmetic
stating = tt

unfoldable projecting : Unit {0}
unfolding project points_after point_of breaks_history same_ledger same_ledger_entry snapshot_of
    validate_snapshot mark_all marked stop_risk_of repeated_text validate_observation
    validate_reservation nav_of nav_from nav_loop nav_state advance take_flow ratio_at_most day_of
    day_from project_balance total given_values validate_book validate_position validate_quote
    validate_economics empty validate_account ordered read_ledger read_entry correct in_asset_order
    repeated check_positions label validate_ledger_entry validate_long_position
    validate_valuation_model positive_decimal nonnegative_decimal finite_decimal decimal_arithmetic
projecting = tt

abbrev clear : RiskState
clear = record {
  account_id = 1;
  policy = v0_conservative;
  at = hours 24 + seconds 1;
  status = active;
  reasons = [];
}

states : state_of request snapshot ≡ ok clear
unfolding stating
states = refl

halts : state_of breached snapshot ≡ ok halted
unfolding stating
halts = refl

stays : state_of later snapshot ≡ ok (record halted { at = hours 24 + seconds 2 })
unfolding stating
stays = refl

-- The snapshot is the projection of the history.
projects : project request.history ≡ ok snapshot
unfolding stating projecting
projects = refl

state_of-IsClear_example : IsClear request snapshot
state_of-IsClear_example = state_of-IsClear request snapshot clear projects states refl

state_of-latched_example : (record halted { at = hours 24 + seconds 2 }).status ≡ halt_and_flatten
state_of-latched_example =
    state_of-latched breached snapshot halted later snapshot
      (record halted { at = hours 24 + seconds 2 }) halts refl refl stays
