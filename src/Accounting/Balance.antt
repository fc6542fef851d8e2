-- ===== src/Accounting/Balance.antt =====
-- accounting/projection.py: the balance of a ledger and the equity of an account.
use adaptive_trading_ecosyst.Prelude.{
  ℕ, ◌-◌, Bool, true, false, not, ◌&&◌, ◌||◌, Option, none, some, is_none, List, [], ◌∷◌, ltb, leb,
  ◌==◌, map, length, find_first, any_of, all_of, keep, if◌then◌else◌, String, str_eq, Result, ok,
  ◌>>=◌, ◌>>◌, traverse,
}
use adaptive_trading_ecosyst.Decimal.{Decimal, zero_d, ◌+ᵈ◌, ◌-ᵈ◌, ◌*ᵈ◌, sum_d}
use adaptive_trading_ecosyst.Domain.Primitives.{
  EntityId, UtcTimestamp, Asset, btcusd, ustec100, xauusd, asset_rank, seconds, finite_decimal,
}
use adaptive_trading_ecosyst.Accounting.Contracts.{
  Category, cash_flow, realized_pnl, commission, financing, adjustment, same_category, LedgerEntry,
  UsdValuationModel, LongPosition, AccountReservation, AccountInput, optionally,
}
use adaptive_trading_ecosyst.Accounting.Ledger.{validate_account}

pub record Balance : Type 0 where
  pub opening_cash : Decimal
  pub external_cash_flows : Decimal
  pub realized : Decimal
  pub commissions : Decimal
  pub financing_costs : Decimal
  pub audited_adjustments : Decimal
  pub cash_balance : Decimal

abbrev pub validate_balance : Balance → Result Balance
validate_balance b = do
  finite_decimal b.opening_cash
  finite_decimal b.external_cash_flows
  finite_decimal b.realized
  finite_decimal b.commissions
  finite_decimal b.financing_costs
  finite_decimal b.audited_adjustments
  finite_decimal b.cash_balance
  ok b

abbrev pub amount_of : LedgerEntry → Decimal
amount_of e = e.amount

abbrev pub is_of : Category → LedgerEntry → Bool
is_of c e = same_category e.category c

-- `totals[category]`
unfoldable pub total : Category → List LedgerEntry → Decimal
total c es = sum_d (map amount_of (keep (is_of c) es))

unfoldable pub project_balance : AccountInput → Result Balance
project_balance given = do
  source ← validate_account given
  let flows = total cash_flow source.ledger
  let pnl = total realized_pnl source.ledger
  let charged = total commission source.ledger
  let financed = total financing source.ledger
  let adjusted = total adjustment source.ledger
  validate_balance (record {
    opening_cash = source.opening_cash;
    external_cash_flows = flows;
    realized = pnl;
    commissions = charged;
    financing_costs = financed;
    audited_adjustments = adjusted;
    cash_balance = source.opening_cash +ᵈ sum_d (flows ∷ pnl ∷ charged ∷ financed ∷ adjusted ∷ []);
  })

pub record AssetValuation : Type 0 where
  pub asset : Asset
  pub position : Option LongPosition
  pub reserved_episode : Option EntityId
  pub unrealized_pnl : Option Decimal
  pub stale : Bool
  pub unavailable_reason : Option String

-- The first reason for which a position has no value.
abbrev pub model_reason : LongPosition → UtcTimestamp → UsdValuationModel → Option String
model_reason p time m =
    if is_none m.validation_reference
    then some "MISSING_VALIDATED_USD_MODEL"
    else if not (asset_rank m.asset == asset_rank p.asset)
        || not (str_eq m.instrument_id p.instrument_id)
        || not (str_eq m.quantity_unit p.quantity_unit)
        || not (str_eq m.price_unit p.price_unit)
    then some "VALUATION_MODEL_UNIT_OR_INSTRUMENT_MISMATCH"
    else if not (leb m.valid_from time && ltb time m.valid_until)
    then some "VALUATION_MODEL_OUTSIDE_EFFECTIVE_INTERVAL"
    else none

-- The value of a position with a bid and a model, or the reason that it has none.
abbrev pub priced :
    LongPosition
    → UtcTimestamp
    → Option Decimal
    → Option UsdValuationModel
    → Option Decimal × Option String
priced p time none m = (none, some "MISSING_BID_QUOTE")
priced p time (some bid) none = (none, some "MISSING_VALIDATED_USD_MODEL")
priced p time (some bid) (some m) = elim (model_reason p time m) [
  | some reason ↦ (none, some reason)
  | none ↦
      (some (p.quantity *ᵈ (bid -ᵈ p.weighted_actual_entry) *ᵈ m.usd_per_quantity_price_unit), none)
]

-- `quote_at is None or time - quote_at > timedelta(seconds=5)`
abbrev pub old_quote : Option UtcTimestamp → UtcTimestamp → Bool
old_quote none time = true
old_quote (some quoted) time = ltb (seconds 5) (time - quoted)

-- `_position_value`
unfoldable pub position_value : LongPosition → UtcTimestamp → Result AssetValuation
position_value p time = do
  let (pnl, reason) = priced p time p.current_bid p.valuation_model
  optionally finite_decimal pnl
  ok (record {
    asset = p.asset;
    position = some p;
    reserved_episode = none;
    unrealized_pnl = pnl;
    stale = old_quote p.quote_at time;
    unavailable_reason = reason;
  })

abbrev pub episode_reserved : Option AccountReservation → Option EntityId
episode_reserved none = none
episode_reserved (some r) = some r.episode_id

unfoldable pub asset_value : AccountInput → Asset → Result AssetValuation
asset_value source a =
    elim (find_first (λ (p : LongPosition). asset_rank p.asset == asset_rank a) source.positions) [
      | some p ↦ position_value p source.valuation_at
      | none ↦ ok (record {
        asset = a;
        position = none;
        reserved_episode = episode_reserved (
            find_first (λ (r : AccountReservation). asset_rank r.asset == asset_rank a)
              source.reservations);
        unrealized_pnl = some zero_d;
        stale = false;
        unavailable_reason = none;
      })
    ]

pub record EquitySnapshot : Type 0 where
  pub source : AccountInput
  pub ledger_sequence : ℕ
  pub balance : Balance
  pub assets : List AssetValuation
  pub unrealized_pnl : Option Decimal
  pub equity : Option Decimal
  pub complete : Bool
  pub stale : Bool
  pub open_episode_count : ℕ
  pub reserved_episode_count : ℕ

-- `[v for v in values if v is not None]`
unfoldable pub given_values : List (Option Decimal) → List Decimal
given_values [] = []
given_values (none ∷ vs) = given_values vs
given_values (some v ∷ vs) = v ∷ given_values vs

-- `sum(...) if complete else None`
abbrev pub floating_of : Bool → List (Option Decimal) → Option Decimal
floating_of complete vs = if complete then some (sum_d (given_values vs)) else none

abbrev pub equity_of : Decimal → Option Decimal → Option Decimal
equity_of cash none = none
equity_of cash (some floating) = some (cash +ᵈ floating)

-- `valuation_at - reconciled_at > timedelta(seconds=15)`
abbrev pub late_account : AccountInput → Bool
late_account a = ltb (seconds 15) (a.valuation_at - a.reconciled_at)

unfoldable pub project_equity : AccountInput → Result EquitySnapshot
project_equity given = do
  source ← validate_account given
  balance ← project_balance source
  assets ← traverse (asset_value source) (btcusd ∷ ustec100 ∷ xauusd ∷ [])
  let complete = all_of (λ (v : AssetValuation). not (is_none v.unrealized_pnl)) assets
  let floating = floating_of complete (map (λ (v : AssetValuation). v.unrealized_pnl) assets)
  let equity = equity_of balance.cash_balance floating
  optionally finite_decimal floating
  optionally finite_decimal equity
  ok (record {
    source = source;
    ledger_sequence = length source.ledger;
    balance = balance;
    assets = assets;
    unrealized_pnl = floating;
    equity = equity;
    complete = complete;
    stale = any_of (λ (v : AssetValuation). v.stale) assets || late_account source;
    open_episode_count = length source.positions;
    reserved_episode_count = length source.reservations;
  })
