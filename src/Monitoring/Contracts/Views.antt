-- ===== src/Monitoring/Contracts/Views.antt =====
-- monitoring/contracts.py: the validators of the views that an event can carry.
use Prim.Native.String.{count}
use adaptive_trading_ecosyst.Prelude.{
  Bool, true, false, not, ◌&&◌, ◌||◌, Option, none, some, is_none, ltb, ◌==◌, Result, ok, ◌>>◌,
  raise_if, traverse,
}
use adaptive_trading_ecosyst.Decimal.{eq_d, zero_d}
use adaptive_trading_ecosyst.Domain.Primitives.{
  finite_decimal, positive_decimal, nonnegative_decimal,
}
use adaptive_trading_ecosyst.Accounting.Contracts.{label, optionally}
use adaptive_trading_ecosyst.Monitoring.Contracts.{
  AccountView, PortfolioView, TradeView, PositionView, RiskView, HealthView, ActivityView, Payload,
  account, of_portfolio, position, risk, health, activity, is_closed,
}

unfoldable pub validate_account_view : AccountView → Result AccountView
validate_account_view v = do
  label v.domain_identity
  finite_decimal v.balance
  optionally finite_decimal v.equity
  optionally finite_decimal v.realized_pnl
  optionally finite_decimal v.unrealized_pnl
  optionally finite_decimal v.commissions
  optionally finite_decimal v.financing
  optionally finite_decimal v.used_margin
  optionally finite_decimal v.free_margin
  raise_if (v.complete && (is_none v.realized_pnl || is_none v.commissions || is_none v.financing))
      "COMPLETE_ACCOUNT_REQUIRES_REPORTED_TOTALS"
  ok v

unfoldable pub validate_portfolio_view : PortfolioView → Result PortfolioView
validate_portfolio_view v = do
  validate_account_view v.account
  optionally finite_decimal v.gross_exposure
  optionally finite_decimal v.open_risk
  optionally finite_decimal v.reserved_risk
  optionally finite_decimal v.daily_pnl
  optionally finite_decimal v.peak_nav
  optionally finite_decimal v.peak_equity
  optionally finite_decimal v.drawdown
  ok v

unfoldable pub validate_trade_view : TradeView → Result TradeView
validate_trade_view v = do
  optionally finite_decimal v.gross_pnl
  optionally finite_decimal v.net_pnl
  optionally finite_decimal v.net_r
  optionally finite_decimal v.commission
  optionally finite_decimal v.financing
  optionally finite_decimal v.spread_cost
  ok v

abbrev pub same_flag : Bool → Bool → Bool
same_flag true b = b
same_flag false b = not b

-- `trade is not None and (…)`
abbrev pub is_foreign_trade : PositionView → Option TradeView → Bool
is_foreign_trade p none = false
is_foreign_trade p (some t) =
    not (is_closed p.state)
    || not (t.episode_id == p.episode_id)
    || not (t.closed_at == p.updated_at)

unfoldable pub validate_position_view : PositionView → Result PositionView
validate_position_view v = do
  label v.domain_identity
  nonnegative_decimal v.quantity
  positive_decimal v.average_entry
  optionally positive_decimal v.mark_price
  optionally finite_decimal v.unrealized_pnl
  optionally finite_decimal v.realized_pnl
  optionally positive_decimal v.stop_loss
  optionally positive_decimal v.take_profit
  optionally validate_trade_view v.trade
  raise_if
      (ltb v.updated_at v.opened_at || not (same_flag (eq_d v.quantity zero_d) (is_closed v.state)))
      "INVALID_POSITION_LIFECYCLE"
  raise_if (is_foreign_trade v v.trade) "INVALID_COMPLETED_TRADE_LINEAGE"
  ok v

unfoldable pub validate_risk_view : RiskView → Result RiskView
validate_risk_view v = do
  label v.domain_identity
  label v.policy_id
  finite_decimal v.risk_per_trade
  optionally finite_decimal v.open_risk
  finite_decimal v.portfolio_risk_limit
  optionally finite_decimal v.daily_loss
  finite_decimal v.daily_loss_limit
  optionally finite_decimal v.drawdown
  finite_decimal v.drawdown_limit
  traverse label v.rejection_reasons
  ok v

unfoldable pub validate_health_view : HealthView → Result HealthView
validate_health_view v = do raise_if (ltb 2000 (count v.detail)) "string_too_long"; ok v

unfoldable pub validate_activity_view : ActivityView → Result ActivityView
validate_activity_view v = do
  optionally label v.domain_identity
  label v.status
  traverse label v.reasons
  optionally finite_decimal v.pnl
  optionally finite_decimal v.net_r
  optionally finite_decimal v.drawdown
  ok v

-- The variant that the discriminator names is validated.
unfoldable pub validate_payload : Payload → Result (Unit {0})
validate_payload (account v) = validate_account_view v >> ok tt
validate_payload (of_portfolio v) = validate_portfolio_view v >> ok tt
validate_payload (position v) = validate_position_view v >> ok tt
validate_payload (risk v) = validate_risk_view v >> ok tt
validate_payload (health v) = validate_health_view v >> ok tt
validate_payload (activity v) = validate_activity_view v >> ok tt
