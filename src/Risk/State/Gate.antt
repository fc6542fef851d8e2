-- ===== src/Risk/State/Gate.antt =====
-- What an active status stands on.
use adaptive_trading_ecosyst.Prelude.{
  some, ◌≡◌, ap, ◌∙◌, true, false, List, [], ◌++◌, String, ok, bind-eq-ok, guard-eq-ok,
  ok-injective, not-false, and_true,
}
use adaptive_trading_ecosyst.Portfolio.Projection.{Snapshot, project}
use adaptive_trading_ecosyst.Risk.Contracts.{Health, active, halt_and_flatten, RiskState, Request}
use adaptive_trading_ecosyst.Risk.State.Reasons.{
  append_empty, reason_if-empty, reasons_of-empty, status_of-active,
}
use adaptive_trading_ecosyst.Risk.State.Current.{IsCurrent, reasons_of-IsCurrent}
use adaptive_trading_ecosyst.Risk.State.Allowed.{IsAllowed, reasons_of-IsAllowed}
use adaptive_trading_ecosyst.Risk.State.Losses.{Unbroken, history_reasons-Unbroken}
use adaptive_trading_ecosyst.Risk.State.{
  reason_if, reasons_of, history_reasons, latched, pause_reasons, account_tests, health_tests,
  value_tests, state_of, other_state,
}

-- What the health of a request says when it gives no reason.
pub record IsHealthy (h : Health) : Type 0 where
  pub connected : h.broker_connected ≡ true
  pub reconciled : h.reconciled ≡ true
  pub leased : h.lease_valid ≡ true
  pub approved : h.approval_valid ≡ true
  pub in_session : h.session_open ≡ true
  pub on_calendar : h.calendar_validated ≡ true
  pub protected : h.protection_confirmed ≡ true
  pub submitted : h.unknown_submission ≡ false

reasons_of-IsHealthy : (h : Health) → reasons_of (health_tests h) ≡ [] → IsHealthy h
reasons_of-IsHealthy h e =
    let (a, e1) = reasons_of-empty (health_tests h) e in
    let (b, e2) = e1 in
    let (c, e3) = e2 in
    let (d, e4) = e3 in
    let (f, e5) = e4 in
    let (g, e6) = e5 in
    let (k, e7) = e6 in
    let (open_session, calendar) = and_true h.session_open h.calendar_validated (not-false _ f) in
    record {
      connected = not-false _ a;
      reconciled = not-false _ b;
      leased = not-false _ c;
      approved = not-false _ d;
      in_session = open_session;
      on_calendar = calendar;
      protected = not-false _ g;
      submitted = k;
    }

halt_latched :
    (p : RiskState) → p.status ≡ halt_and_flatten → latched (some p) ≡ [] → p.reasons ≡ []
halt_latched p halted e = rw halted at e

-- What an active status stands on: the health and the account of the request, its values, and a
-- history no observation of which has reached a limit.
pub record IsClear (r : Request) (s : Snapshot) : Type 0 where
  pub healthy : IsHealthy r.health
  pub sound : r.health.severe_breach ≡ false
  pub allowed : IsAllowed r s
  pub current : IsCurrent r s
  pub unlatched :
      (p : RiskState) → r.prior_state ≡ some p → p.status ≡ halt_and_flatten → p.reasons ≡ []
  pub unbroken : Unbroken r [] r.history

-- A status for the projection of the history is active only when the request is healthy, its account
-- is simulated or a demonstration, and allowed for its policy, its mode and its positions, the account
-- was valued by the time of the request and reconciled at most fifteen seconds before it, the valuation
-- is complete and the equity positive, the quotes are at most five seconds old, a prior state that
-- halted has no reasons, and at no observation of the history the loss of the day, the drawdown or the
-- loss of a day that closed there has reached its limit.
pub state_of-IsClear :
    (r : Request) (s : Snapshot) (t : RiskState)
    → project r.history ≡ ok s
    → state_of r s ≡ ok t
    → t.status ≡ active
    → IsClear r s
unfolding state_of pause_reasons
state_of-IsClear r s t projected h is_active =
    let (_, h1) = guard-eq-ok (other_state r.prior_state s.source.book.cash r) _ _ h in
    let (losses, lost, h2) = bind-eq-ok (history_reasons r s [] r.history) _ h1 in
    let (no_halt, no_pause) =
      status_of-active
        (latched r.prior_state
          ++ (losses ++ reason_if r.health.severe_breach "SEVERE_RECONCILIATION_OR_RISK_BREACH"))
        (reasons_of (account_tests r s)
          ++ (reasons_of (health_tests r.health) ++ reasons_of (value_tests r s)))
        (ap (λ (x : RiskState). x.status) (ok-injective h2) ∙ is_active) in
    let (unlatched, e1) = append_empty (latched r.prior_state) _ no_halt in
    let (lossless, breach) = append_empty losses _ e1 in
    let (allowed, e2) = append_empty (reasons_of (account_tests r s)) _ no_pause in
    let (healthy, current) = append_empty (reasons_of (health_tests r.health)) _ e2 in
    record {
      healthy = reasons_of-IsHealthy r.health healthy;
      sound = reason_if-empty r.health.severe_breach _ breach;
      allowed = reasons_of-IsAllowed r s allowed;
      current = reasons_of-IsCurrent r s current;
      unlatched = λ p before halted. halt_latched p halted (rw before at unlatched);
      unbroken =
          history_reasons-Unbroken r s [] r.history projected
            (lost ∙ ap (λ (xs : List String). ok xs) lossless);
    }
