-- ===== src/Risk/Contracts.antt =====
-- risk/contracts.py: the policies, the request of an admission and its decision. Fields of one
-- possible value are left out.
use adaptive_trading_ecosyst.Prelude.{
  ℕ, ◌+◌, Bool, true, false, not, ◌&&◌, Option, List, ltb, leb, String, Result, ok, ◌>>◌, raise_if,
  traverse,
}
use adaptive_trading_ecosyst.Prelude.Int.{pos, negsuc}
use adaptive_trading_ecosyst.Decimal.{Decimal}
use adaptive_trading_ecosyst.Domain.Primitives.{
  EntityId, UtcTimestamp, Asset, RuntimeMode, minutes, finite_decimal, positive_decimal,
}
use adaptive_trading_ecosyst.Accounting.Contracts.{label, optionally}
use adaptive_trading_ecosyst.Portfolio.Contracts.{
  Direction, Economics, validate_economics, Quote, validate_quote,
}
use adaptive_trading_ecosyst.Portfolio.Observations.{Observation, Reservation, validate_observation}

pub data Policy : Type 0 where
  v0_conservative hr_demo_5pct : Policy

abbrev pub is_v0 : Policy → Bool
is_v0 v0_conservative = true
is_v0 hr_demo_5pct = false

pub record Limits : Type 0 where
  pub trade : Decimal
  pub aggregate : Decimal
  pub day : Decimal
  pub drawdown : Decimal
  pub positions : ℕ

-- `Policy.limits`: a quarter, three quarters and one and a half per cent, five per cent, three
-- positions; or five, ten, ten and thirty per cent, two positions.
abbrev pub limits : Policy → Limits
limits v0_conservative = record {
  trade = record { coef = pos 25; exp = negsuc 3 };
  aggregate = record { coef = pos 75; exp = negsuc 3 };
  day = record { coef = pos 15; exp = negsuc 2 };
  drawdown = record { coef = pos 5; exp = negsuc 1 };
  positions = 3;
}
limits hr_demo_5pct = record {
  trade = record { coef = pos 5; exp = negsuc 1 };
  aggregate = record { coef = pos 10; exp = negsuc 1 };
  day = record { coef = pos 10; exp = negsuc 1 };
  drawdown = record { coef = pos 30; exp = negsuc 1 };
  positions = 2;
}

pub record TradeIntent : Type 0 where
  pub intent_id : EntityId
  pub strategy_id : EntityId
  pub asset : Asset
  pub direction : Direction
  pub signal_at : UtcTimestamp
  pub expires_at : UtcTimestamp
  pub signal_close : Decimal
  pub atr : Decimal
  pub fixed_stop : Decimal

unfoldable pub validate_intent : TradeIntent → Result TradeIntent
validate_intent i = do
  positive_decimal i.signal_close
  positive_decimal i.atr
  positive_decimal i.fixed_stop
  raise_if (not (ltb i.signal_at i.expires_at && leb i.expires_at (i.signal_at + minutes 5)))
      "INVALID_ENTRY_EXPIRY"
  ok i

pub data AccountKind : Type 0 where
  simulated demo real unknown : AccountKind

pub record Health : Type 0 where
  pub account_kind : AccountKind
  pub broker_connected : Bool
  pub reconciled : Bool
  pub lease_valid : Bool
  pub approval_valid : Bool
  pub session_open : Bool
  pub calendar_validated : Bool
  pub protection_confirmed : Bool
  pub unknown_submission : Bool
  pub severe_breach : Bool

pub data Status : Type 0 where
  active pause_entries halt_and_flatten : Status

pub record RiskState : Type 0 where
  pub account_id : EntityId
  pub policy : Policy
  pub at : UtcTimestamp
  pub status : Status
  pub reasons : List String

pub record Request : Type 0 where
  pub intent : TradeIntent
  pub policy : Policy
  pub mode : RuntimeMode
  pub at : UtcTimestamp
  pub health : Health
  pub economics : Option Economics
  pub quote : Option Quote
  pub history : List Observation
  pub prior_state : Option RiskState

unfoldable pub validate_request : Request → Result Request
validate_request r = do
  validate_intent r.intent
  optionally validate_economics r.economics
  optionally validate_quote r.quote
  traverse validate_observation r.history
  ok r

pub record OrderIntent : Type 0 where
  pub trade_intent : TradeIntent
  pub volume : Decimal
  pub reference_entry : Decimal
  pub fixed_stop : Decimal
  pub estimated_stop_risk : Decimal
  pub estimated_margin : Decimal
  pub gross_notional : Decimal
  pub expires_at : UtcTimestamp
  pub input_identity : String

unfoldable pub validate_order : OrderIntent → Result OrderIntent
validate_order o = do
  validate_intent o.trade_intent
  positive_decimal o.volume
  positive_decimal o.reference_entry
  positive_decimal o.fixed_stop
  finite_decimal o.estimated_stop_risk
  finite_decimal o.estimated_margin
  finite_decimal o.gross_notional
  label o.input_identity
  ok o

-- The digests of the input and of the snapshot, which a decision carries too, are left out.
pub record Decision : Type 0 where
  pub state : RiskState
  pub accepted : Bool
  pub reasons : List String
  pub order : Option OrderIntent
  pub reservation : Option Reservation
