-- ===== src/Portfolio/Tests.antt =====
-- A long position of two lots that one fill halves, and the theorems of the book at it.
use adaptive_trading_ecosyst.Prelude.{
  ℕ, ◌≡◌, refl, true, false, none, some, [], ◌∷◌, String, Result, ok, err,
}
use adaptive_trading_ecosyst.Prelude.Int.{pos}
use adaptive_trading_ecosyst.Decimal.{Decimal, of_int, zero_d, one_d, decimal_arithmetic}
use adaptive_trading_ecosyst.Domain.Primitives.{
  hours, btcusd, finite_decimal, positive_decimal, nonnegative_decimal,
}
use adaptive_trading_ecosyst.Accounting.Contracts.{
  AccountInput, label, validate_ledger_entry, validate_long_position, validate_valuation_model,
}
use adaptive_trading_ecosyst.Accounting.Ledger.{
  validate_account, ordered, read_ledger, read_entry, correct, in_asset_order, repeated,
  check_positions,
}
use adaptive_trading_ecosyst.Portfolio.Contracts.{
  long, reduce, sell, Economics, Position, Fill, Book, empty, validate_economics, validate_position,
  validate_fill, validate_book,
}
use adaptive_trading_ecosyst.Portfolio.Fills.{
  apply_fill, replay, record_fill, post, increase_position, reduce_position, leave_remaining,
  realized_amount, put_position, remove_position, sort_positions, insert_position, same_economics,
}
use adaptive_trading_ecosyst.Portfolio.Fills.Replay.{
  Outcome, apply_fill-Outcome, apply_fill-idempotent,
}
use adaptive_trading_ecosyst.Portfolio.Fills.Reduction.{Reduced, apply_fill-Reduced}

abbrev price : ℕ → Decimal
price n = of_int (pos n)

abbrev economics : Economics
economics = record {
  instrument_id = "BTCUSD.spot";
  asset = btcusd;
  version = "1";
  tick_size = one_d;
  tick_value_per_lot = one_d;
  contract_size = one_d;
  usd_per_price_unit_per_lot = one_d;
  volume_min = one_d;
  volume_max = price 100;
  volume_step = one_d;
  margin_per_lot = price 10;
  commission_per_lot_per_side = zero_d;
  commission_fixed_per_side = zero_d;
  minimum_stop_distance = zero_d;
  valid_from = hours 1;
  valid_until = hours 100;
  validation_reference = some "audit";
}

abbrev cash : AccountInput
cash = record {
  account_id = 1;
  opening_at = hours 1;
  opening_cash = price 1000;
  valuation_at = hours 2;
  reconciled_at = hours 2;
  ledger = [];
  positions = [];
  reservations = [];
  used_margin = none;
  reserved_margin = none;
  open_stop_risk = none;
  reserved_stop_risk = none;
}

abbrev position : Position
position = record {
  episode_id = 7;
  strategy_id = 3;
  asset = btcusd;
  direction = long;
  economics = economics;
  quantity = price 2;
  weighted_entry = price 100;
  fixed_stop = price 90;
  reducing = false;
}

abbrev book : Book
book = record { cash = cash; positions = position ∷ []; receipts = []; closed_episodes = [] }

abbrev sale : Fill
sale = record {
  fill_id = 20;
  realized_entry_id = 21;
  commission_entry_id = 22;
  account_id = 1;
  episode_id = 7;
  strategy_id = 3;
  asset = btcusd;
  direction = long;
  action = reduce;
  side = sell;
  quantity = one_d;
  actual_price = price 110;
  fixed_stop = price 90;
  actual_commission = zero_d;
  at = hours 3;
  economics = economics;
}

abbrev content : Fill → String
content f = "digest"

abbrev value_or : {A : Type 0} → A → Result A → A
value_or fallback (ok a) = a
value_or fallback (err e) = fallback

abbrev sold : Book
sold = value_or book (apply_fill content book sale)

unfoldable applying : Unit {0}
unfolding apply_fill replay record_fill post increase_position reduce_position leave_remaining
    realized_amount put_position remove_position sort_positions insert_position same_economics
    validate_book validate_fill validate_position validate_economics empty validate_account ordered
    read_ledger read_entry correct in_asset_order repeated check_positions label
    validate_ledger_entry validate_long_position validate_valuation_model positive_decimal
    nonnegative_decimal finite_decimal decimal_arithmetic
applying = tt

sells : apply_fill content book sale ≡ ok sold
unfolding applying
sells = refl

-- One lot is left, marked as reducing.
left_runs : sold.positions ≡ record position { quantity = one_d; reducing = true } ∷ []
unfolding applying
left_runs = refl

-- Three lots would reverse the position.
reverse_runs :
    apply_fill content book (record sale { quantity = price 3 })
    ≡ err "REDUCTION_WOULD_REVERSE_OR_HAS_NO_POSITION"
unfolding applying
reverse_runs = refl

-- The same identity with another content.
conflict_runs : apply_fill (λ f. "other") sold sale ≡ err "CONFLICTING_DUPLICATE_FILL"
unfolding applying
conflict_runs = refl

apply_fill-Outcome_example : Outcome book sale "digest" sold
apply_fill-Outcome_example = apply_fill-Outcome content book sale sold sells

apply_fill-idempotent_example : apply_fill content sold sale ≡ ok sold
apply_fill-idempotent_example = apply_fill-idempotent content book sale sold sells

apply_fill-Reduced_example : Reduced book sale sold
apply_fill-Reduced_example = apply_fill-Reduced content book sale sold refl refl sells
