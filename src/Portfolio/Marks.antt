-- ===== src/Portfolio/Marks.antt =====
-- portfolio/projection.py: the marks of the positions.
use adaptive_trading_ecosyst.Prelude.{
  ◌-◌, Bool, true, not, ◌&&◌, ◌||◌, Option, none, some, is_none, List, ltb, leb, find_first,
  if◌then◌else◌, String, str_eq, Result, ok, ◌>>◌, traverse,
}
use adaptive_trading_ecosyst.Decimal.{Decimal, zero_d, max_d, ◌+ᵈ◌, ◌-ᵈ◌, ◌*ᵈ◌}
use adaptive_trading_ecosyst.Domain.Primitives.{EntityId, UtcTimestamp, seconds, finite_decimal}
use adaptive_trading_ecosyst.Accounting.Contracts.{optionally}
use adaptive_trading_ecosyst.Portfolio.Contracts.{is_long, Economics, Quote, Position}
use adaptive_trading_ecosyst.Portfolio.Fills.{direction_sign}
use adaptive_trading_ecosyst.Portfolio.Observations.{Observation}

pub record Mark : Type 0 where
  pub episode_id : EntityId
  pub unrealized_pnl : Option Decimal
  pub stop_risk : Option Decimal
  pub gross_notional : Option Decimal
  pub margin : Option Decimal
  pub unavailable_reason : Option String
  pub stale : Bool

abbrev pub validate_mark : Mark → Result Mark
validate_mark m = do
  optionally finite_decimal m.unrealized_pnl
  optionally finite_decimal m.stop_risk
  optionally finite_decimal m.gross_notional
  optionally finite_decimal m.margin
  ok m

abbrev pub without_mark : Position → String → Bool → Mark
without_mark p reason stale = record {
  episode_id = p.episode_id;
  unrealized_pnl = none;
  stop_risk = none;
  gross_notional = none;
  margin = none;
  unavailable_reason = some reason;
  stale = stale;
}

-- A long position is closed at the bid, a short one at the ask.
abbrev pub closing_price : Position → Quote → Decimal
closing_price p q = if is_long p.direction then q.bid else q.ask

unfoldable pub stop_risk_of : Position → Decimal → Decimal
stop_risk_of p price =
    (max_d zero_d (direction_sign p.direction *ᵈ (price -ᵈ p.fixed_stop)) +ᵈ p.economics.tick_size)
      *ᵈ p.quantity
      *ᵈ p.economics.usd_per_price_unit_per_lot
    +ᵈ (p.quantity *ᵈ p.economics.commission_per_lot_per_side
        +ᵈ p.economics.commission_fixed_per_side)

unfoldable pub marked : Position → Decimal → Bool → Mark
marked p price stale = record {
  episode_id = p.episode_id;
  unrealized_pnl = some (
      direction_sign p.direction
      *ᵈ (price -ᵈ p.weighted_entry)
      *ᵈ p.quantity
      *ᵈ p.economics.usd_per_price_unit_per_lot);
  stop_risk = some (stop_risk_of p price);
  gross_notional = some (p.quantity *ᵈ price *ᵈ p.economics.contract_size);
  margin = some (p.quantity *ᵈ p.economics.margin_per_lot);
  unavailable_reason = none;
  stale = stale;
}

-- `quote is None or at - quote.at > timedelta(seconds=5)`
abbrev pub stale_mark : Option Quote → UtcTimestamp → Bool
stale_mark none at = true
stale_mark (some q) at = ltb (seconds 5) (at - q.at)

abbrev pub unvalidated : Economics → UtcTimestamp → Bool
unvalidated e at =
    is_none e.validation_reference || not (leb e.valid_from at && ltb at e.valid_until)

abbrev pub mark_with : UtcTimestamp → Position → Option Quote → Mark
mark_with at p none =
    without_mark p
      (if unvalidated p.economics at then "UNVALIDATED_OR_EXPIRED_ECONOMICS" else "MISSING_MARK")
      true
mark_with at p (some q) =
    if unvalidated p.economics at
    then without_mark p "UNVALIDATED_OR_EXPIRED_ECONOMICS" (stale_mark (some q) at)
    else marked p (closing_price p q) (stale_mark (some q) at)

abbrev pub quote_for : Position → List Quote → Option Quote
quote_for p qs = find_first (λ (q : Quote). str_eq q.instrument_id p.economics.instrument_id) qs

-- `_mark`
unfoldable pub mark_all : Observation → Result (List Mark)
mark_all o =
    traverse
      (λ (p : Position).
        validate_mark (mark_with o.book.cash.valuation_at p (quote_for p o.quotes)))
      o.book.positions
