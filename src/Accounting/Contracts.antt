-- ===== src/Accounting/Contracts.antt =====
-- accounting/contracts.py: a ledger's entries, the positions and reservations of an account and the
-- account. Fields of one possible value are left out, and a validator raises the code's message.
use Prim.Native.String.{count}
use adaptive_trading_ecosyst.Prelude.{
  ℕ, ◌^◌, Bool, not, ◌&&◌, ◌||◌, Option, none, some, is_none, List, ltb, leb, ◌==◌, String, Result,
  ok, ◌>>◌, raise_if,
}
use adaptive_trading_ecosyst.Decimal.{Decimal}
use adaptive_trading_ecosyst.Domain.Primitives.{
  EntityId, UtcTimestamp, Asset, finite_decimal, positive_decimal,
}

-- `Label`
unfoldable pub label : String → Result String
label s = do
  raise_if (ltb (count s) 1) "string_too_short"
  raise_if (ltb 128 (count s)) "string_too_long"
  ok s

-- `T | None` of a validated type `T`
abbrev pub optionally {ℓ} : {A : Type ℓ} → (A → Result A) → Option A → Result (Unit {0})
optionally check none = ok tt
optionally check (some a) = check a >> ok tt

pub data Category : Type 0 where
  cash_flow realized_pnl commission financing adjustment : Category

abbrev pub category_rank : Category → ℕ
category_rank cash_flow = 0
category_rank realized_pnl = 1
category_rank commission = 2
category_rank financing = 3
category_rank adjustment = 4

abbrev pub same_category : Category → Category → Bool
same_category a b = category_rank a == category_rank b

pub record LedgerEntry : Type 0 where
  pub entry_id : EntityId
  pub account_id : EntityId
  pub sequence : ℕ
  pub amount : Decimal
  pub category : Category
  pub reference_id : EntityId
  pub effective_at : UtcTimestamp
  pub recorded_at : UtcTimestamp
  pub reverses : Option EntityId
  pub replaces : Option EntityId
  pub audit_reference : Option String

unfoldable pub validate_ledger_entry : LedgerEntry → Result LedgerEntry
validate_ledger_entry e = do
  raise_if (ltb e.sequence 1 || leb (2 ^ 63) e.sequence) "greater_than_equal"
  finite_decimal e.amount
  optionally label e.audit_reference
  raise_if (ltb e.recorded_at e.effective_at) "RECORDED_BEFORE_EFFECTIVE"
  raise_if (not (is_none e.reverses) && not (is_none e.replaces))
      "SEPARATE_REVERSAL_AND_REPLACEMENT_REQUIRED"
  raise_if
      ((same_category e.category adjustment || not (is_none e.reverses) || not (is_none e.replaces))
        && is_none e.audit_reference)
      "AUDIT_REFERENCE_REQUIRED"
  ok e

pub record UsdValuationModel : Type 0 where
  pub model_id : String
  pub instrument_id : String
  pub asset : Asset
  pub quantity_unit : String
  pub price_unit : String
  pub usd_per_quantity_price_unit : Decimal
  pub valid_from : UtcTimestamp
  pub valid_until : UtcTimestamp
  pub validation_reference : Option String

unfoldable pub validate_valuation_model : UsdValuationModel → Result UsdValuationModel
validate_valuation_model m = do
  label m.model_id
  label m.instrument_id
  label m.quantity_unit
  label m.price_unit
  positive_decimal m.usd_per_quantity_price_unit
  optionally label m.validation_reference
  raise_if (leb m.valid_until m.valid_from) "INVALID_VALUATION_INTERVAL"
  ok m

pub record LongPosition : Type 0 where
  pub episode_id : EntityId
  pub asset : Asset
  pub instrument_id : String
  pub quantity : Decimal
  pub quantity_unit : String
  pub price_unit : String
  pub weighted_actual_entry : Decimal
  pub current_bid : Option Decimal
  pub quote_id : Option String
  pub quote_at : Option UtcTimestamp
  pub reconciled_sequence : ℕ
  pub valuation_model : Option UsdValuationModel

unfoldable pub validate_long_position : LongPosition → Result LongPosition
validate_long_position p = do
  label p.instrument_id
  positive_decimal p.quantity
  label p.quantity_unit
  label p.price_unit
  positive_decimal p.weighted_actual_entry
  optionally positive_decimal p.current_bid
  optionally label p.quote_id
  optionally validate_valuation_model p.valuation_model
  raise_if
      ((is_none p.current_bid || is_none p.quote_id || is_none p.quote_at)
        && not (is_none p.current_bid && is_none p.quote_id && is_none p.quote_at))
      "PARTIAL_QUOTE_METADATA"
  ok p

pub record AccountReservation : Type 0 where
  pub episode_id : EntityId
  pub asset : Asset

pub record AccountInput : Type 0 where
  pub account_id : EntityId
  pub opening_at : UtcTimestamp
  pub opening_cash : Decimal
  pub valuation_at : UtcTimestamp
  pub reconciled_at : UtcTimestamp
  pub ledger : List LedgerEntry
  pub positions : List LongPosition
  pub reservations : List AccountReservation
  pub used_margin : Option Decimal
  pub reserved_margin : Option Decimal
  pub open_stop_risk : Option Decimal
  pub reserved_stop_risk : Option Decimal
