-- ===== src/Risk/State.antt =====
-- risk/engine.py, `_loss_reasons` and `_state`: the status of an account and its reasons.
pub mod Allowed
pub mod Current
pub mod Gate
pub mod Latch
pub mod Losses
pub mod Reasons
mod Tests
use adaptive_trading_ecosyst.Prelude.{
  ℕ, ◌-◌, Bool, true, false, not, ◌&&◌, ◌||◌, Option, none, some, is_none, List, [], ◌∷◌, ◌++◌, ltb,
  leb, ◌==◌, map, length, drop, find_first, any_of, keep, if◌then◌else◌, String, str_eq, Result, ok,
  err, ◌>>=◌, ◌>>◌, raise_if, or_raise,
}
use adaptive_trading_ecosyst.Decimal.{
  Decimal, copy_negate, numerator, denominator, zero_d, one_d, leb_d, ◌-ᵈ◌, sum_d,
}
use adaptive_trading_ecosyst.Domain.Primitives.{
  UtcTimestamp, RuntimeMode, research, backtest, paper_forward, demo_qualification,
  demo_operational, seconds,
}
use adaptive_trading_ecosyst.Accounting.Contracts.{cash_flow, LedgerEntry, AccountInput}
use adaptive_trading_ecosyst.Accounting.Balance.{is_of, amount_of}
use adaptive_trading_ecosyst.Accounting.Performance.{ratio_at_most}
use adaptive_trading_ecosyst.Portfolio.Contracts.{is_long, Position, Quote}
use adaptive_trading_ecosyst.Portfolio.Observations.{Observation}
use adaptive_trading_ecosyst.Portfolio.Projection.{Snapshot, project}
use adaptive_trading_ecosyst.Risk.Contracts.{
  Policy, is_v0, limits, AccountKind, simulated, demo, real, unknown, Health, Status, active,
  pause_entries, halt_and_flatten, RiskState, Request,
}

-- `if test: reasons.append(reason)`
abbrev pub reason_if : Bool → String → List String
reason_if test reason = if test then reason ∷ [] else []

-- The reasons of the tests that hold, in their order.
abbrev pub reasons_of : List (Bool × String) → List String
reasons_of [] = []
reasons_of ((test, reason) ∷ rest) = reason_if test reason ++ reasons_of rest

-- `value` is at most `limit` times `base`, when both are known.
abbrev pub at_most_share : Option Decimal → Option Decimal → Decimal → Bool
at_most_share (some value) (some base) limit =
    ratio_at_most value base (numerator limit) (denominator limit)
at_most_share _ _ limit = false

-- `_loss_reasons`
unfoldable pub loss_reasons : Snapshot → Decimal → Decimal → List String
loss_reasons s daily drawdown =
    reason_if
      (at_most_share s.risk_day.today_trading_pnl s.risk_day.boundary_equity (copy_negate daily))
      "DAILY_LOSS_HALT"
    ++ reason_if (at_most_share s.nav.nav s.nav.high_water_mark (one_d -ᵈ drawdown)) "DRAWDOWN_HALT"

-- The loss of the old day at the first observation of a new one.
unfoldable pub closing_reasons :
    List Observation → Snapshot → Snapshot → Decimal → Decimal → Decimal → Result (List String)
closing_reasons history previous current equity base daily = do
  boundary ←
      or_raise
        (find_first (λ (o : Observation). o.book.cash.valuation_at == previous.risk_day.boundary_at)
          history)
        "StopIteration"
  let entries = drop (length boundary.book.cash.ledger) current.source.book.cash.ledger
  let pnl = equity -ᵈ base -ᵈ sum_d (map amount_of (keep (is_of cash_flow) entries))
  ok (
      reason_if (ratio_at_most pnl base (numerator (copy_negate daily)) (denominator daily))
        "DAILY_LOSS_HALT_AT_ROLLOVER")

abbrev pub rollover_with :
    List Observation
    → Snapshot
    → Snapshot
    → Decimal
    → Option Decimal
    → Option Decimal
    → Result (List String)
rollover_with history previous current daily (some equity) (some base) =
    closing_reasons history previous current equity base daily
rollover_with history previous current daily _ _ = ok []

unfoldable pub rollover_reasons :
    List Observation → Snapshot → Snapshot → Decimal → Result (List String)
rollover_reasons history previous current daily =
    if ltb previous.risk_day.boundary_at current.risk_day.boundary_at
      && not current.accounting.stale
      && is_none previous.risk_day.unavailable_reason
    then rollover_with history previous current daily current.accounting.equity
        previous.risk_day.boundary_equity
    else ok []

-- The reasons of the observations `rest`, which stand in the history after those of `prefix`. The
-- projection of the whole history is `snapshot`.
unfoldable pub history_reasons :
    Request → Snapshot → List Observation → List Observation → Result (List String)
history_reasons r snapshot prefix [] = ok []
history_reasons r snapshot prefix (o ∷ rest) = do
  let bounds = limits r.policy
  let reached = prefix ++ o ∷ []
  current ← (if length rest == 0 then ok snapshot else project reached)
  rolled ←
      (if length prefix == 0
        then ok []
        else (project prefix >>= λ previous.
            rollover_reasons r.history previous current bounds.day))
  others ← history_reasons r snapshot reached rest
  ok (loss_reasons current bounds.day bounds.drawdown ++ (rolled ++ others))

abbrev pub is_halted : Status → Bool
is_halted halt_and_flatten = true
is_halted _ = false

abbrev pub same_policy : Policy → Policy → Bool
same_policy a b = if is_v0 a then is_v0 b else not (is_v0 b)

abbrev pub other_state : Option RiskState → AccountInput → Request → Bool
other_state none cash r = false
other_state (some prior) cash r =
    not (prior.account_id == cash.account_id)
    || not (same_policy prior.policy r.policy)
    || ltb r.at prior.at

-- A halt stays.
abbrev pub latched : Option RiskState → List String
latched none = []
latched (some prior) = if is_halted prior.status then prior.reasons else []

abbrev pub is_real_or_unknown : AccountKind → Bool
is_real_or_unknown real = true
is_real_or_unknown unknown = true
is_real_or_unknown _ = false

abbrev pub is_demo : AccountKind → Bool
is_demo demo = true
is_demo _ = false

abbrev pub is_demo_mode : RuntimeMode → Bool
is_demo_mode demo_qualification = true
is_demo_mode demo_operational = true
is_demo_mode _ = false

abbrev pub is_experimental_mode : RuntimeMode → Bool
is_experimental_mode backtest = true
is_experimental_mode paper_forward = true
is_experimental_mode demo_qualification = true
is_experimental_mode _ = false

-- A quote at most five seconds old and not from the future.
abbrev pub is_fresh : Option Quote → UtcTimestamp → Bool
is_fresh none at = false
is_fresh (some q) at = leb q.at at && leb (at - q.at) (seconds 5)

abbrev pub nonpositive_equity : Option Decimal → Bool
nonpositive_equity none = true
nonpositive_equity (some e) = leb_d e zero_d

abbrev pub health_tests : Health → List (Bool × String)
health_tests h =
    (((not h.broker_connected), "BROKER_DISCONNECTED")
      ∷ ((not h.reconciled), "RECONCILIATION_UNHEALTHY")
      ∷ ((not h.lease_valid), "LEASE_INVALID")
      ∷ ((not h.approval_valid), "APPROVAL_INVALID")
      ∷ ((not (h.session_open && h.calendar_validated)), "SESSION_OR_CALENDAR_UNKNOWN")
      ∷ ((not h.protection_confirmed), "PROTECTION_UNCONFIRMED")
      ∷ (h.unknown_submission, "UNKNOWN_SUBMISSION")
      ∷ [])

abbrev pub account_tests : Request → Snapshot → List (Bool × String)
account_tests r s =
    ((
      (is_v0 r.policy
          && any_of (λ (p : Position). not (is_long p.direction)) s.source.book.positions),
      "V0_SHORT_EXPOSURE_REQUIRES_RECONCILIATION",
    )
      ∷ ((is_real_or_unknown r.health.account_kind), "ACCOUNT_TYPE_REJECTED")
      ∷ (
        (is_demo_mode r.mode && not (is_demo r.health.account_kind)),
        "CONFIRMED_DEMO_ACCOUNT_REQUIRED",
      )
      ∷ ((not (is_v0 r.policy) && not (is_experimental_mode r.mode)), "EXPERIMENTAL_MODE_FORBIDDEN")
      ∷ [])

abbrev pub value_tests : Request → Snapshot → List (Bool × String)
value_tests r s =
    ((
      (ltb r.at s.source.book.cash.valuation_at
          || ltb (seconds 15) (r.at - s.source.book.cash.reconciled_at)),
      "STALE_OR_FUTURE_ACCOUNT",
    )
      ∷ ((s.accounting.stale || not s.accounting.complete), "PORTFOLIO_VALUATION_UNTRUSTED")
      ∷ (
        (not (is_none s.nav.unavailable_reason) || not (is_none s.risk_day.unavailable_reason)),
        "UNKNOWN_NAV_OR_DAILY_BASELINE",
      )
      ∷ ((nonpositive_equity s.accounting.equity), "NONPOSITIVE_OR_UNKNOWN_EQUITY")
      ∷ ((not (is_fresh r.quote r.at)), "STALE_OR_MISSING_QUOTE")
      ∷ (
        (any_of (λ (q : Quote). ltb (seconds 5) (r.at - q.at)) s.source.quotes),
        "STALE_PORTFOLIO_MARK",
      )
      ∷ [])

unfoldable pub pause_reasons : Request → Snapshot → List String
pause_reasons r s =
    reasons_of (account_tests r s)
    ++ (reasons_of (health_tests r.health) ++ reasons_of (value_tests r s))

abbrev pub status_of : List String → List String → Status
status_of (h ∷ hs) reasons = halt_and_flatten
status_of [] (r ∷ rs) = pause_entries
status_of [] [] = active

-- `tuple(dict.fromkeys(texts))`
unfoldable pub distinct : List String → List String → List String
distinct seen [] = []
distinct seen (s ∷ ss) =
    let rest = distinct (s ∷ seen) ss in if any_of (λ t. str_eq t s) seen then rest else s ∷ rest

-- `_state`
unfoldable pub state_of : Request → Snapshot → Result RiskState
state_of r s = do
  raise_if (other_state r.prior_state s.source.book.cash r) "PRIOR_RISK_STATE_LINEAGE_MISMATCH"
  losses ← history_reasons r s [] r.history
  let halted =
      latched r.prior_state
      ++ (losses ++ reason_if r.health.severe_breach "SEVERE_RECONCILIATION_OR_RISK_BREACH")
  let paused = pause_reasons r s
  ok (record {
    account_id = s.source.book.cash.account_id;
    policy = r.policy;
    at = r.at;
    status = status_of halted paused;
    reasons = distinct [] (halted ++ paused);
  })
