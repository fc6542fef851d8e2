-- ===== src/Portfolio/Observations.antt =====
-- portfolio/contracts.py: reservations, and what is observed of a portfolio at one instant.
use adaptive_trading_ecosyst.Prelude.{
  Bool, false, ◌||◌, List, [], ◌∷◌, ltb, map, any_of, String, str_eq, Result, ok, ◌>>◌, raise_if,
  traverse,
}
use adaptive_trading_ecosyst.Decimal.{Decimal}
use adaptive_trading_ecosyst.Domain.Primitives.{
  EntityId, Asset, positive_decimal, nonnegative_decimal,
}
use adaptive_trading_ecosyst.Accounting.Contracts.{label}
use adaptive_trading_ecosyst.Accounting.Ledger.{repeated}
use adaptive_trading_ecosyst.Portfolio.Contracts.{
  Direction, Quote, validate_quote, Book, validate_book,
}

pub record Reservation : Type 0 where
  pub reservation_id : String
  pub intent_id : EntityId
  pub strategy_id : EntityId
  pub asset : Asset
  pub direction : Direction
  pub volume : Decimal
  pub stop_risk : Decimal
  pub gross_notional : Decimal
  pub margin : Decimal
  pub decision_id : String

unfoldable pub validate_reservation : Reservation → Result Reservation
validate_reservation r = do
  label r.reservation_id
  positive_decimal r.volume
  nonnegative_decimal r.stop_risk
  nonnegative_decimal r.gross_notional
  nonnegative_decimal r.margin
  label r.decision_id
  ok r

pub record Observation : Type 0 where
  pub book : Book
  pub quotes : List Quote
  pub reservations : List Reservation

unfoldable pub repeated_text : List String → Bool
repeated_text [] = false
repeated_text (s ∷ ss) = any_of (λ t. str_eq t s) ss || repeated_text ss

unfoldable pub validate_observation : Observation → Result Observation
validate_observation o = do
  validate_book o.book
  traverse validate_quote o.quotes
  traverse validate_reservation o.reservations
  raise_if (repeated_text (map (λ (q : Quote). q.instrument_id) o.quotes))
      "DUPLICATE_INSTRUMENT_QUOTE"
  raise_if (any_of (λ (q : Quote). ltb o.book.cash.valuation_at q.at) o.quotes) "FUTURE_MARK"
  raise_if (repeated_text (map (λ (r : Reservation). r.reservation_id) o.reservations))
      "DUPLICATE_RESERVATION"
  raise_if (repeated (map (λ (r : Reservation). r.intent_id) o.reservations))
      "DUPLICATE_RESERVED_INTENT"
  ok o
