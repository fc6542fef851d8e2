-- ===== src/Portfolio/Contracts.antt =====
-- portfolio/contracts.py: instrument economics, quotes, positions, fills, the book and what is
-- observed of it. Fields of one possible value are left out.
use adaptive_trading_ecosyst.Prelude.{
  Bool, true, false, not, ◌||◌, Option, List, [], leb, ◌==◌, map, any_of, if◌then◌else◌, String,
  Result, ok, ◌>>◌, raise_if, traverse,
}
use adaptive_trading_ecosyst.Decimal.{Decimal, ltb_d, eq_d, ◌*ᵈ◌}
use adaptive_trading_ecosyst.Domain.Primitives.{
  EntityId, UtcTimestamp, Asset, asset_rank, finite_decimal, positive_decimal, nonnegative_decimal,
}
use adaptive_trading_ecosyst.Accounting.Contracts.{AccountInput, label, optionally}
use adaptive_trading_ecosyst.Accounting.Ledger.{validate_account, repeated, among_ids}

pub data Direction : Type 0 where
  long short : Direction

abbrev pub is_long : Direction → Bool
is_long long = true
is_long short = false

abbrev pub same_bool : Bool → Bool → Bool
same_bool a b = if a then b else not b

abbrev pub same_asset : Asset → Asset → Bool
same_asset a b = asset_rank a == asset_rank b

pub record Economics : Type 0 where
  pub instrument_id : String
  pub asset : Asset
  pub version : String
  pub tick_size : Decimal
  pub tick_value_per_lot : Decimal
  pub contract_size : Decimal
  pub usd_per_price_unit_per_lot : Decimal
  pub volume_min : Decimal
  pub volume_max : Decimal
  pub volume_step : Decimal
  pub margin_per_lot : Decimal
  pub commission_per_lot_per_side : Decimal
  pub commission_fixed_per_side : Decimal
  pub minimum_stop_distance : Decimal
  pub valid_from : UtcTimestamp
  pub valid_until : UtcTimestamp
  pub validation_reference : Option String

unfoldable pub validate_economics : Economics → Result Economics
validate_economics e = do
  label e.instrument_id
  label e.version
  positive_decimal e.tick_size
  positive_decimal e.tick_value_per_lot
  positive_decimal e.contract_size
  positive_decimal e.usd_per_price_unit_per_lot
  positive_decimal e.volume_min
  positive_decimal e.volume_max
  positive_decimal e.volume_step
  nonnegative_decimal e.margin_per_lot
  nonnegative_decimal e.commission_per_lot_per_side
  nonnegative_decimal e.commission_fixed_per_side
  nonnegative_decimal e.minimum_stop_distance
  optionally label e.validation_reference
  raise_if (not (eq_d e.tick_value_per_lot (e.tick_size *ᵈ e.usd_per_price_unit_per_lot)))
      "INCONSISTENT_TICK_VALUE"
  raise_if (ltb_d e.volume_max e.volume_min || leb e.valid_until e.valid_from)
      "INVALID_ECONOMICS_RANGE"
  ok e

pub record Quote : Type 0 where
  pub quote_id : String
  pub instrument_id : String
  pub at : UtcTimestamp
  pub bid : Decimal
  pub ask : Decimal

unfoldable pub validate_quote : Quote → Result Quote
validate_quote q = do
  label q.quote_id
  label q.instrument_id
  positive_decimal q.bid
  positive_decimal q.ask
  raise_if (ltb_d q.ask q.bid) "CROSSED_QUOTE"
  ok q

pub record Position : Type 0 where
  pub episode_id : EntityId
  pub strategy_id : EntityId
  pub asset : Asset
  pub direction : Direction
  pub economics : Economics
  pub quantity : Decimal
  pub weighted_entry : Decimal
  pub fixed_stop : Decimal
  pub reducing : Bool

unfoldable pub validate_position : Position → Result Position
validate_position p = do
  validate_economics p.economics
  positive_decimal p.quantity
  positive_decimal p.weighted_entry
  positive_decimal p.fixed_stop
  raise_if (not (same_asset p.asset p.economics.asset)) "POSITION_INSTRUMENT_MISMATCH"
  ok p

pub data Action : Type 0 where
  increase reduce : Action

pub data Side : Type 0 where
  buy sell : Side

abbrev pub is_increase : Action → Bool
is_increase increase = true
is_increase reduce = false

abbrev pub is_buy : Side → Bool
is_buy buy = true
is_buy sell = false

pub record Fill : Type 0 where
  pub fill_id : EntityId
  pub realized_entry_id : EntityId
  pub commission_entry_id : EntityId
  pub account_id : EntityId
  pub episode_id : EntityId
  pub strategy_id : EntityId
  pub asset : Asset
  pub direction : Direction
  pub action : Action
  pub side : Side
  pub quantity : Decimal
  pub actual_price : Decimal
  pub fixed_stop : Decimal
  pub actual_commission : Decimal
  pub at : UtcTimestamp
  pub economics : Economics

unfoldable pub validate_fill : Fill → Result Fill
validate_fill f = do
  positive_decimal f.quantity
  positive_decimal f.actual_price
  positive_decimal f.fixed_stop
  finite_decimal f.actual_commission
  validate_economics f.economics
  raise_if
      (not (same_bool (is_buy f.side) (same_bool (is_long f.direction) (is_increase f.action)))
        || not (same_asset f.asset f.economics.asset))
      "FILL_SIDE_OR_ASSET_MISMATCH"
  raise_if
      (f.fill_id == f.realized_entry_id
        || f.fill_id == f.commission_entry_id
        || f.realized_entry_id == f.commission_entry_id)
      "DISTINCT_FILL_AND_POSTING_IDENTITIES_REQUIRED"
  ok f

pub record FillReceipt : Type 0 where
  pub fill_id : EntityId
  pub content_id : String

pub record Book : Type 0 where
  pub cash : AccountInput
  pub positions : List Position
  pub receipts : List FillReceipt
  pub closed_episodes : List EntityId

unfoldable pub empty {ℓ} : {A : Type ℓ} → List A → Bool
empty [] = true
empty _ = false

abbrev pub validate_receipt : FillReceipt → Result FillReceipt
validate_receipt r = label r.content_id >> ok r

unfoldable pub validate_book : Book → Result Book
validate_book b = do
  validate_account b.cash
  traverse validate_position b.positions
  traverse validate_receipt b.receipts
  raise_if (not (empty b.cash.positions) || not (empty b.cash.reservations))
      "BOOK_OWNS_POSITION_AND_RESERVATION_PROJECTION"
  raise_if (repeated (map (λ (p : Position). p.episode_id) b.positions)) "DUPLICATE_EPISODE"
  raise_if (repeated (map (λ (r : FillReceipt). r.fill_id) b.receipts)) "DUPLICATE_FILL_RECEIPT"
  raise_if (any_of (λ (p : Position). among_ids p.episode_id b.closed_episodes) b.positions)
      "CLOSED_EPISODE_REOPENED"
  ok b
