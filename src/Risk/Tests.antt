-- ===== src/Risk/Tests.antt =====
-- An entry of at most three lots that the risk budget limits to two, and the theorems at it.
use adaptive_trading_ecosyst.Prelude.{
  ℕ, ◌+◌, ◌≡◌, refl, Bool, true, false, none, some, List, [], ◌∷◌, String, ok, err, arith, leb,
}
use adaptive_trading_ecosyst.Prelude.Int.{pos}
use adaptive_trading_ecosyst.Decimal.{Decimal, of_int, one_d, zero_d, decimal_arithmetic}
use adaptive_trading_ecosyst.Domain.Primitives.{
  hours, seconds, minutes, btcusd, paper_forward, finite_decimal, positive_decimal,
  nonnegative_decimal,
}
use adaptive_trading_ecosyst.Accounting.Contracts.{
  AccountInput, label, validate_ledger_entry, validate_long_position, validate_valuation_model,
}
use adaptive_trading_ecosyst.Accounting.Ledger.{
  validate_account, ordered, read_ledger, read_entry, correct, in_asset_order, repeated,
  check_positions,
}
use adaptive_trading_ecosyst.Accounting.Balance.{project_balance, total, given_values}
use adaptive_trading_ecosyst.Accounting.Performance.{
  nav_of, nav_from, nav_loop, nav_state, advance, take_flow, ratio_at_most, day_of, day_from,
}
use adaptive_trading_ecosyst.Portfolio.Contracts.{
  long, Economics, empty, validate_economics, validate_quote, validate_position, validate_book,
}
use adaptive_trading_ecosyst.Portfolio.Observations.{
  Observation, repeated_text, validate_observation, validate_reservation,
}
use adaptive_trading_ecosyst.Portfolio.Marks.{mark_all, marked, stop_risk_of}
use adaptive_trading_ecosyst.Portfolio.Projection.{
  Snapshot, project, points_after, point_of, breaks_history, same_ledger, same_ledger_entry,
  snapshot_of, validate_snapshot,
}
use adaptive_trading_ecosyst.Risk.Contracts.{
  v0_conservative, validate_intent, simulated, active, Request, validate_request, OrderIntent,
  validate_order, Decision,
}
use adaptive_trading_ecosyst.Risk.Lots.{lot_search}
use adaptive_trading_ecosyst.Risk.Lots.Search.{IsPeak, lot_search-IsPeak}
use adaptive_trading_ecosyst.Risk.State.{
  loss_reasons, closing_reasons, rollover_reasons, history_reasons, pause_reasons, distinct,
  state_of,
}
use adaptive_trading_ecosyst.Risk.State.Gate.{IsClear}
use adaptive_trading_ecosyst.Risk.Sizing.{
  stop_distance, sizing_of, risk_of, margin_of, notional_of, failure_tests, last_step, is_feasible,
  chosen_step, off_lattice,
}
use adaptive_trading_ecosyst.Risk.Engine.{
  reject, market_tests, approval_end, out_of_range, approve, place, evaluate, reserve,
  evaluate_and_reserve,
}
use adaptive_trading_ecosyst.Risk.Engine.Admission.{Admitted, evaluate-Admitted}
use adaptive_trading_ecosyst.Risk.Engine.Booking.{Transition, evaluate_and_reserve-Transition}

-- The counts up to 7 are feasible.
abbrev up_to_seven : ℕ → Bool
up_to_seven n = leb n 7

search_runs : lot_search 20 up_to_seven 0 20 ≡ 7
unfolding lot_search
search_runs = refl

lot_search-IsPeak_example : IsPeak up_to_seven 0 20 (lot_search 20 up_to_seven 0 20)
lot_search-IsPeak_example = lot_search-IsPeak 20 up_to_seven 0 20 (omega arith) (omega arith)

abbrev money : ℕ → Decimal
money n = of_int (pos n)

abbrev economics : Economics
economics = record {
  instrument_id = "BTCUSD.spot";
  asset = btcusd;
  version = "1";
  tick_size = one_d;
  tick_value_per_lot = one_d;
  contract_size = one_d;
  usd_per_price_unit_per_lot = one_d;
  volume_min = one_d;
  volume_max = money 3;
  volume_step = one_d;
  margin_per_lot = money 10;
  commission_per_lot_per_side = zero_d;
  commission_fixed_per_side = zero_d;
  minimum_stop_distance = zero_d;
  valid_from = hours 1;
  valid_until = hours 100;
  validation_reference = some "audit";
}

abbrev cash : AccountInput
cash = record {
  account_id = 1;
  opening_at = hours 24;
  opening_cash = money 10000;
  valuation_at = hours 24;
  reconciled_at = hours 24;
  ledger = [];
  positions = [];
  reservations = [];
  used_margin = none;
  reserved_margin = none;
  open_stop_risk = none;
  reserved_stop_risk = none;
}

abbrev observed : Observation
observed = record {
  book = record { cash = cash; positions = []; receipts = []; closed_episodes = [] };
  quotes = [];
  reservations = [];
}

abbrev request : Request
request = record {
  intent = record {
    intent_id = 9;
    strategy_id = 3;
    asset = btcusd;
    direction = long;
    signal_at = hours 24;
    expires_at = hours 24 + minutes 5;
    signal_close = money 100;
    atr = money 100;
    fixed_stop = money 90;
  };
  policy = v0_conservative;
  mode = paper_forward;
  at = hours 24 + seconds 1;
  health = record {
    account_kind = simulated;
    broker_connected = true;
    reconciled = true;
    lease_valid = true;
    approval_valid = true;
    session_open = true;
    calendar_validated = true;
    protection_confirmed = true;
    unknown_submission = false;
    severe_breach = false;
  };
  economics = some economics;
  quote = some (record {
    quote_id = "q";
    instrument_id = "BTCUSD.spot";
    at = hours 24 + seconds 1;
    bid = money 99;
    ask = money 100;
  });
  history = observed ∷ [];
  prior_state = none;
}

abbrev of_request : Request → String
of_request r = "request"

abbrev of_order : OrderIntent → String
of_order o = "order"

abbrev refused : Decision
refused =
    reject
      (record { account_id = 0; policy = v0_conservative; at = 0; status = active; reasons = [] })
      []

abbrev decision : Decision
decision = elim (evaluate of_request of_order request) [ ok d ↦ d | err _ ↦ refused ]

abbrev updated : List Observation
updated = elim (evaluate_and_reserve of_request of_order request) [ ok p ↦ p.1 | err _ ↦ [] ]

unfoldable deciding : Unit {0}
unfolding evaluate reserve evaluate_and_reserve approve place market_tests approval_end out_of_range
    stop_distance sizing_of risk_of margin_of notional_of failure_tests last_step is_feasible
    chosen_step off_lattice lot_search loss_reasons closing_reasons rollover_reasons history_reasons
    pause_reasons distinct state_of validate_request validate_order validate_intent project
    points_after point_of breaks_history same_ledger same_ledger_entry snapshot_of validate_snapshot
    mark_all marked stop_risk_of repeated_text validate_observation validate_reservation nav_of
    nav_from nav_loop nav_state advance take_flow ratio_at_most day_of day_from project_balance
    total given_values validate_book validate_position validate_quote validate_economics empty
    validate_account ordered read_ledger read_entry correct in_asset_order repeated check_positions
    label validate_ledger_entry validate_long_position validate_valuation_model positive_decimal
    nonnegative_decimal finite_decimal decimal_arithmetic
deciding = tt

decides : evaluate of_request of_order request ≡ ok decision
unfolding deciding
decides = refl

accepts : decision.accepted ≡ true
unfolding deciding
accepts = refl

-- Two lots risk 24 of the budget of 25.
volume_runs : elim decision.order [ none ↦ none | some o ↦ some o.volume ] ≡ some (money 2)
unfolding deciding
volume_runs = refl

evaluate-Admitted_example :
    (s : Snapshot) × (project request.history ≡ ok s)
    × IsClear request s
    × (decision.state.status ≡ active)
    × Admitted request s decision
evaluate-Admitted_example = evaluate-Admitted of_request of_order request decision decides accepts

reserves : evaluate_and_reserve of_request of_order request ≡ ok (decision, updated)
unfolding deciding
reserves = refl

evaluate_and_reserve-Transition_example :
    (evaluate of_request of_order request ≡ ok decision) × Transition request decision updated
evaluate_and_reserve-Transition_example =
    evaluate_and_reserve-Transition of_request of_order request decision updated reserves
