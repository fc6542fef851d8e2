-- ===== src/Risk/State/Current.antt =====
-- risk/engine.py, `_state`: the valuation, the quotes and the times that an entry needs.
use adaptive_trading_ecosyst.Prelude.{
  ◌+◌, ◌-◌, ◌≤◌, ◌≡◌, refl, true, false, not, Option, none, some, is_none, List, [], ◌∷◌, ltb, leb,
  leb→le, any_of, All, String, not-false, and_true, or_false, arith,
}
use adaptive_trading_ecosyst.Decimal.{Decimal, zero_d, leb_d}
use adaptive_trading_ecosyst.Domain.Primitives.{UtcTimestamp, seconds}
use adaptive_trading_ecosyst.Portfolio.Contracts.{Quote}
use adaptive_trading_ecosyst.Portfolio.Projection.{Snapshot}
use adaptive_trading_ecosyst.Risk.Contracts.{Request}
use adaptive_trading_ecosyst.Risk.State.{reasons_of, value_tests, is_fresh, nonpositive_equity}
use adaptive_trading_ecosyst.Risk.State.Reasons.{reasons_of-empty}

-- The account was valued no later than the request and reconciled at most fifteen seconds before it, the
-- valuation is complete and its values are known, the equity is positive, the quote of the request is
-- there and at most five seconds old, and so are the quotes of the positions.
pub record IsCurrent (r : Request) (s : Snapshot) : Type 0 where
  pub in_time : s.source.book.cash.valuation_at ≤ r.at
  pub recent : r.at ≤ s.source.book.cash.reconciled_at + seconds 15
  pub complete : s.accounting.complete ≡ true
  pub fresh : s.accounting.stale ≡ false
  pub measured : s.nav.unavailable_reason ≡ none
  pub based : s.risk_day.unavailable_reason ≡ none
  pub solvent : (v : Decimal) × (s.accounting.equity ≡ some v) × (leb_d v zero_d ≡ false)
  pub quoted : (q : Quote) × (r.quote ≡ some q) × (q.at ≤ r.at) × (r.at ≤ q.at + seconds 5)
  pub marked : All (λ (q : Quote). r.at ≤ q.at + seconds 5) s.source.quotes

within_span : (a b d : UtcTimestamp) → ltb d (a - b) ≡ false → a ≤ b + d
within_span a b d h = ground arith

not_later : (a b : UtcTimestamp) → ltb a b ≡ false → b ≤ a
not_later a b h = ground arith

no_reason : (o : Option String) → is_none o ≡ true → o ≡ none
no_reason none h = refl
no_reason (some s) h = cc h

positive_equity :
    (o : Option Decimal)
    → nonpositive_equity o ≡ false
    → (v : Decimal) × (o ≡ some v) × (leb_d v zero_d ≡ false)
positive_equity none h = cc h
positive_equity (some v) h = (v, refl, h)

fresh_quote :
    (o : Option Quote) (t : UtcTimestamp)
    → is_fresh o t ≡ true
    → (q : Quote) × (o ≡ some q) × (q.at ≤ t) × (t ≤ q.at + seconds 5)
fresh_quote none t h = cc h
fresh_quote (some q) t h =
    let (before, near) = and_true (leb q.at t) _ h in
    let old : t - q.at ≤ seconds 5 = leb→le _ _ near in (q, refl, leb→le _ _ before, omega arith)

fresh_marks :
    (qs : List Quote) (t : UtcTimestamp)
    → any_of (λ (q : Quote). ltb (seconds 5) (t - q.at)) qs ≡ false
    → All (λ (q : Quote). t ≤ q.at + seconds 5) qs
fresh_marks [] t h = tt
fresh_marks (q ∷ qs) t h =
    let (near, others) = or_false (ltb (seconds 5) (t - q.at)) _ h in
    (within_span t q.at (seconds 5) near, fresh_marks qs t others)

pub reasons_of-IsCurrent :
    (r : Request) (s : Snapshot) → reasons_of (value_tests r s) ≡ [] → IsCurrent r s
reasons_of-IsCurrent r s e =
    let (a, e1) = reasons_of-empty (value_tests r s) e in
    let (b, e2) = e1 in
    let (c, e3) = e2 in
    let (d, e4) = e3 in
    let (f, e5) = e4 in
    let (g, e6) = e5 in
    let (in_time, recent) = or_false (ltb r.at s.source.book.cash.valuation_at) _ a in
    let (fresh, complete) = or_false s.accounting.stale _ b in
    let (measured, based) = or_false (not (is_none s.nav.unavailable_reason)) _ c in
    record {
      in_time = not_later r.at s.source.book.cash.valuation_at in_time;
      recent = within_span r.at s.source.book.cash.reconciled_at (seconds 15) recent;
      complete = not-false _ complete;
      fresh = fresh;
      measured = no_reason s.nav.unavailable_reason (not-false _ measured);
      based = no_reason s.risk_day.unavailable_reason (not-false _ based);
      solvent = positive_equity s.accounting.equity d;
      quoted = fresh_quote r.quote r.at (not-false _ f);
      marked = fresh_marks s.source.quotes r.at g;
    }
