-- ===== src/Risk/Engine.antt =====
-- risk/engine.py: the admission of an order, and the reservation that it makes.
pub mod Steps
pub mod Market
pub mod Costs
pub mod Volume
pub mod Approval
pub mod Admission
pub mod Booking
use Prim.Native.Nat.{min}
use adaptive_trading_ecosyst.Prelude.{
  ℕ, ◌+◌, ◌*◌, ◌%◌, Bool, true, false, not, ◌&&◌, ◌||◌, Option, none, some, is_none, List, [], ◌∷◌,
  ◌++◌, ltb, leb, ◌==◌, length, any_of, if◌then◌else◌, String, str_eq, Result, ok, err, ◌>>=◌, ◌>>◌,
}
use adaptive_trading_ecosyst.Prelude.Int.{pos, negsuc}
use adaptive_trading_ecosyst.Decimal.{Decimal, zero_d, leb_d, ltb_d, ◌-ᵈ◌, ◌*ᵈ◌, denominator}
use adaptive_trading_ecosyst.Domain.Primitives.{UtcTimestamp, seconds}
use adaptive_trading_ecosyst.Domain.Arithmetic.{top}
use adaptive_trading_ecosyst.Portfolio.Contracts.{is_long, same_asset, Economics, Quote, Position}
use adaptive_trading_ecosyst.Portfolio.Fills.{direction_sign}
use adaptive_trading_ecosyst.Portfolio.Observations.{
  Reservation, validate_reservation, Observation, validate_observation,
}
use adaptive_trading_ecosyst.Portfolio.Projection.{Snapshot, project}
use adaptive_trading_ecosyst.Risk.Contracts.{
  is_v0, limits, Status, active, RiskState, Request, validate_request, OrderIntent, validate_order,
  Decision,
}
use adaptive_trading_ecosyst.Risk.State.{state_of}
use adaptive_trading_ecosyst.Risk.Sizing.{
  entry_price, stop_distance, Sizing, sizing_of, risk_of, margin_of, notional_of, failures,
  volume_at, chosen_step, off_lattice,
}

abbrev pub reject : RiskState → List String → Decision
reject state reasons = record {
  state = state;
  accepted = false;
  reasons = reasons;
  order = none;
  reservation = none;
}

-- The reason of the first test that holds.
abbrev pub first_failure : List (Bool × String) → Option String
first_failure [] = none
first_failure ((test, reason) ∷ rest) = if test then some reason else first_failure rest

abbrev pub intent_tests : Request → List (Bool × String)
intent_tests r =
    (is_v0 r.policy && not (is_long r.intent.direction), "V0_LONG_ONLY")
    ∷ (
      not (ltb r.intent.signal_at r.at && ltb r.at r.intent.expires_at),
      "ENTRY_NOT_AFTER_SIGNAL_OR_EXPIRED",
    )
    ∷ []

abbrev pub economics_tests : Request → Economics → List (Bool × String)
economics_tests r e =
    (is_none e.validation_reference, "MISSING_VALIDATED_ECONOMICS")
    ∷ (not (leb e.valid_from r.at && ltb r.at e.valid_until), "EXPIRED_ECONOMICS")
    ∷ []

abbrev pub occupied : Request → Snapshot → Bool
occupied r s =
    any_of (λ (p : Position). same_asset p.asset r.intent.asset) s.source.book.positions
    || any_of (λ (v : Reservation). same_asset v.asset r.intent.asset) s.source.reservations

-- The stop is no multiple of the tick.
abbrev pub off_tick : Decimal → Decimal → Bool
off_tick stop tick = not (top stop * denominator tick % (denominator stop * top tick) == 0)

unfoldable pub market_tests : Request → Snapshot → Economics → Quote → List (Bool × String)
market_tests r s e q =
    (
      not (same_asset e.asset r.intent.asset) || not (str_eq q.instrument_id e.instrument_id),
      "INSTRUMENT_MISMATCH",
    )
    ∷ (occupied r s, "ASSET_OCCUPIED")
    ∷ (
      leb (limits r.policy).positions
          (length s.source.book.positions + length s.source.reservations),
      "POSITION_COUNT_LIMIT",
    )
    ∷ (
      ltb_d (r.intent.atr *ᵈ record { coef = pos 10; exp = negsuc 1 }) (q.ask -ᵈ q.bid),
      "SPREAD_LIMIT",
    )
    ∷ (
      leb_d (stop_distance r.intent q) zero_d
          || ltb_d (stop_distance r.intent q) e.minimum_stop_distance,
      "INVALID_FIXED_STOP",
    )
    ∷ (off_tick r.intent.fixed_stop e.tick_size, "STOP_OFF_TICK_LATTICE")
    ∷ (
      ltb_d (r.intent.atr *ᵈ record { coef = pos 25; exp = negsuc 1 })
          (direction_sign r.intent.direction *ᵈ (entry_price r.intent q -ᵈ r.intent.signal_close)),
      "ADVERSE_ENTRY_MOVEMENT",
    )
    ∷ []

unfoldable pub approval_end : Request → Snapshot → Economics → Quote → UtcTimestamp
approval_end r s e q = min (r.at + seconds 5) (
    min r.intent.expires_at
      (min e.valid_until (min (q.at + seconds 5) (s.source.book.cash.reconciled_at + seconds 15))))

unfoldable pub out_of_range : Economics → Decimal → Bool
out_of_range e volume = not (leb_d e.volume_min volume && leb_d volume e.volume_max)

-- `(*history[:-1], updated)`, with the reservation appended to the last observation
unfoldable pub reserve : List Observation → Reservation → Result (List Observation)
reserve [] v = err "IndexError"
reserve (o ∷ []) v = do
  updated ← validate_observation (record o { reservations = o.reservations ++ v ∷ [] })
  ok (updated ∷ [])
reserve (o ∷ p ∷ os) v = reserve (p ∷ os) v >>= λ rest. ok (o ∷ rest)

abbrev pub reserved :
    Decision → List Observation → Option Reservation → Result (Decision × List Observation)
reserved d history none = ok (d, history)
reserved d history (some v) = reserve history v >>= λ updated. ok (d, updated)

-- The digests of a request and of an order are parameters.
module _ (request_identity : Request → String) (order_identity : OrderIntent → String) where
  abbrev pub order_of : Request → Snapshot → Economics → Quote → Sizing → Decimal → OrderIntent
  order_of r s e q z volume = record {
    trade_intent = r.intent;
    volume = volume;
    reference_entry = z.entry;
    fixed_stop = r.intent.fixed_stop;
    estimated_stop_risk = risk_of z volume;
    estimated_margin = margin_of e volume;
    gross_notional = notional_of e z volume;
    expires_at = approval_end r s e q;
    input_identity = request_identity r;
  }

  abbrev pub reservation_of : Request → OrderIntent → Reservation
  reservation_of r o = record {
    reservation_id = order_identity o;
    intent_id = r.intent.intent_id;
    strategy_id = r.intent.strategy_id;
    asset = r.intent.asset;
    direction = r.intent.direction;
    volume = o.volume;
    stop_risk = o.estimated_stop_risk;
    gross_notional = o.gross_notional;
    margin = o.estimated_margin;
    decision_id = request_identity r;
  }

  -- The order that is within every limit.
  unfoldable pub approve :
      Request → Snapshot → RiskState → Economics → Quote → Sizing → Decimal → Result Decision
  approve r s t e q z volume = do
    order ← validate_order (order_of r s e q z volume)
    if leb order.expires_at r.at then ok (reject t ("NO_VALID_APPROVAL_LIFETIME" ∷ [])) else (do
      reservation ← validate_reservation (reservation_of r order)
      ok (record {
        state = t;
        accepted = true;
        reasons = [];
        order = some order;
        reservation = some reservation;
      }))

  abbrev pub limited :
      Request
      → Snapshot
      → RiskState
      → Economics
      → Quote
      → Sizing
      → Decimal
      → List String
      → Result Decision
  limited r s t e q z volume (p ∷ ps) = ok (reject t (p ∷ ps))
  limited r s t e q z volume [] = approve r s t e q z volume

  unfoldable pub place :
      Request → Snapshot → RiskState → Economics → Quote → Sizing → Decimal → Result Decision
  place r s t e q z volume =
      if off_lattice e volume
      then ok (reject t ("VOLUME_LATTICE_EXCEEDS_DECIMAL_PRECISION" ∷ []))
      else if out_of_range e volume
      then ok (reject t ("VOLUME_OUTSIDE_BROKER_RANGE" ∷ []))
      else limited r s t e q z volume (failures r s e z volume)

  abbrev pub search_from :
      Request → Snapshot → RiskState → Economics → Quote → Sizing → List String → Result Decision
  search_from r s t e q z (p ∷ ps) = ok (reject t (p ∷ ps))
  search_from r s t e q z [] = place r s t e q z (volume_at e (chosen_step r s e z))

  abbrev pub in_market :
      Request → Snapshot → RiskState → Economics → Quote → Option String → Result Decision
  in_market r s t e q (some reason) = ok (reject t (reason ∷ []))
  in_market r s t e q none =
      sizing_of r s e q >>= λ z. search_from r s t e q z (failures r s e z e.volume_min)

  abbrev pub quoted : Request → Snapshot → RiskState → Economics → Option Quote → Result Decision
  quoted r s t e none = err "AssertionError"
  quoted r s t e (some q) = in_market r s t e q (first_failure (market_tests r s e q))

  abbrev pub validated :
      Request → Snapshot → RiskState → Economics → Option String → Result Decision
  validated r s t e (some reason) = ok (reject t (reason ∷ []))
  validated r s t e none = quoted r s t e r.quote

  abbrev pub priced_by : Request → Snapshot → RiskState → Option Economics → Result Decision
  priced_by r s t none = ok (reject t ("MISSING_VALIDATED_ECONOMICS" ∷ []))
  priced_by r s t (some e) = validated r s t e (first_failure (economics_tests r e))

  abbrev pub intended : Request → Snapshot → RiskState → Option String → Result Decision
  intended r s t (some reason) = ok (reject t (reason ∷ []))
  intended r s t none = priced_by r s t r.economics

  abbrev pub admitted : Request → Snapshot → RiskState → Status → Result Decision
  admitted r s t active = intended r s t (first_failure (intent_tests r))
  admitted r s t _ = ok (reject t t.reasons)

  unfoldable pub evaluate : Request → Result Decision
  evaluate given = do
    r ← validate_request given
    snapshot ← project r.history
    state ← state_of r snapshot
    admitted r snapshot state state.status

  unfoldable pub evaluate_and_reserve : Request → Result (Decision × List Observation)
  evaluate_and_reserve r = evaluate r >>= λ d. reserved d r.history d.reservation
