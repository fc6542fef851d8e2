-- ===== src/Risk/State/Losses.antt =====
-- risk/engine.py, `_loss_reasons` and `_state`: the losses that a history has not reached.
use adaptive_trading_ecosyst.Prelude.{
  ◌≡◌, ◌<◌, refl, ap, ◌∙◌, true, false, none, some, List, [], ◌∷◌, ◌++◌, lt→ltb, ◌==◌, map, length,
  drop, find_first, keep, if◌then◌else◌, String, ok, ◌>>=◌, or_raise, or_raise-eq-ok, bind-eq-ok,
  ok-injective, arith,
}
use adaptive_trading_ecosyst.Prelude.Int.{ℤ, pos, ◌*ℤ◌, leb_ℤ, ltb_ℤ}
use adaptive_trading_ecosyst.Decimal.{
  Decimal, copy_negate, numerator, denominator, one_d, ◌-ᵈ◌, sum_d,
}
use adaptive_trading_ecosyst.Accounting.Contracts.{cash_flow}
use adaptive_trading_ecosyst.Accounting.Balance.{is_of, amount_of}
use adaptive_trading_ecosyst.Accounting.Performance.{ratio_at_most}
use adaptive_trading_ecosyst.Portfolio.Observations.{Observation}
use adaptive_trading_ecosyst.Portfolio.Projection.{Snapshot, project}
use adaptive_trading_ecosyst.Risk.Contracts.{limits, Request}
use adaptive_trading_ecosyst.Risk.State.{
  reason_if, at_most_share, loss_reasons, closing_reasons, rollover_reasons, history_reasons,
}
use adaptive_trading_ecosyst.Risk.State.Reasons.{append_empty, reason_if-empty}

-- The value is more than the limit times the base, which is positive, as exact fractions.
abbrev pub AboveShare : Decimal → Decimal → Decimal → Type 0
AboveShare value base limit =
    ltb_ℤ (numerator base *ℤ pos (denominator value) *ℤ numerator limit)
      (numerator value *ℤ pos (denominator base) *ℤ pos (denominator limit))
    ≡ true

-- Neither the loss of the day nor the drawdown of an observation has reached its limit.
pub record NoLoss (s : Snapshot) (daily drawdown : Decimal) : Type 0 where
  pub day :
      (pnl base : Decimal)
      → s.risk_day.today_trading_pnl ≡ some pnl
      → s.risk_day.boundary_equity ≡ some base
      → AboveShare pnl base (copy_negate daily)
  pub high :
      (nav high : Decimal)
      → s.nav.nav ≡ some nav
      → s.nav.high_water_mark ≡ some high
      → AboveShare nav high (one_d -ᵈ drawdown)

-- The result of the day that closes between two observations, from the equity of its boundary to that
-- of the second, without the cash that has flown since.
abbrev pub closing_pnl : Observation → Snapshot → Decimal → Decimal → Decimal
closing_pnl boundary current equity base =
    equity
    -ᵈ base
    -ᵈ sum_d (
        map amount_of (
          keep (is_of cash_flow)
            (drop (length boundary.book.cash.ledger) current.source.book.cash.ledger)))

-- When a new day begins between the two, and the values are known, the day that closes has not
-- reached its limit.
abbrev pub NoRollover : List Observation → Snapshot → Snapshot → Decimal → Type 0
NoRollover history previous current daily =
    (equity base : Decimal)
    → previous.risk_day.boundary_at < current.risk_day.boundary_at
    → current.accounting.stale ≡ false
    → previous.risk_day.unavailable_reason ≡ none
    → current.accounting.equity ≡ some equity
    → previous.risk_day.boundary_equity ≡ some base
    → (boundary : Observation) × (find_first
          (λ (o : Observation). o.book.cash.valuation_at == previous.risk_day.boundary_at) history
        ≡ some boundary)
      × AboveShare (closing_pnl boundary current equity base) base (copy_negate daily)

-- The observation after a prefix of the history.
pub record UnbrokenAt (r : Request) (prefix : List Observation) (o : Observation) : Type 0 where
  pub current : Snapshot
  pub projected : project (prefix ++ o ∷ []) ≡ ok current
  pub lossless : NoLoss current (limits r.policy).day (limits r.policy).drawdown
  pub rolled :
      (length prefix == 0) ≡ false
      → (previous : Snapshot) × (project prefix ≡ ok previous)
        × NoRollover r.history previous current (limits r.policy).day

-- Every observation of the rest of a history, after a prefix.
abbrev pub Unbroken : Request → List Observation → List Observation → Type 0
Unbroken r prefix [] = Unit
Unbroken r prefix (o ∷ rest) = UnbrokenAt r prefix o × Unbroken r (prefix ++ o ∷ []) rest

ltb_ℤ-of_not_le : (a b : ℤ) → leb_ℤ a b ≡ false → ltb_ℤ b a ≡ true
ltb_ℤ-of_not_le a b h = ground arith

AboveShare-of_ratio :
    (value base limit : Decimal)
    → ratio_at_most value base (numerator limit) (denominator limit) ≡ false
    → AboveShare value base limit
unfolding ratio_at_most
AboveShare-of_ratio value base limit h =
    ltb_ℤ-of_not_le (numerator value *ℤ pos (denominator base) *ℤ pos (denominator limit))
      (numerator base *ℤ pos (denominator value) *ℤ numerator limit) h

loss_reasons-NoLoss :
    (s : Snapshot) (daily drawdown : Decimal)
    → loss_reasons s daily drawdown ≡ []
    → NoLoss s daily drawdown
unfolding loss_reasons
loss_reasons-NoLoss s daily drawdown h =
    let day_test =
      at_most_share s.risk_day.today_trading_pnl s.risk_day.boundary_equity (copy_negate daily) in
    let high_test = at_most_share s.nav.nav s.nav.high_water_mark (one_d -ᵈ drawdown) in
    let (today, high) = append_empty (reason_if day_test "DAILY_LOSS_HALT") _ h in
    record {
      day = λ pnl base p b.
          AboveShare-of_ratio pnl base (copy_negate daily)
            (rw (p, b) at (reason_if-empty day_test _ today));
      high = λ nav top p b.
          AboveShare-of_ratio nav top (one_d -ᵈ drawdown)
            (rw (p, b) at (reason_if-empty high_test _ high));
    }

rollover_reasons-NoRollover :
    (history : List Observation) (previous current : Snapshot) (daily : Decimal)
    → rollover_reasons history previous current daily ≡ ok []
    → NoRollover history previous current daily
unfolding rollover_reasons closing_reasons
rollover_reasons-NoRollover history previous current daily h equity base later fresh known e b =
    let began = lt→ltb _ _ later in
    let (boundary, found, h₁) =
      bind-eq-ok
        (or_raise
          (find_first
            (λ (o : Observation). o.book.cash.valuation_at == previous.risk_day.boundary_at)
            history)
          "StopIteration")
        _ (rw (began, fresh, known, e, b) at h) in
    (
      boundary,
      or_raise-eq-ok _ _ found,
      AboveShare-of_ratio (closing_pnl boundary current equity base) base (copy_negate daily)
          (reason_if-empty _ _ (ok-injective h₁)),
    )

-- The last observation is projected already.
reached_project :
    (s : Snapshot) (prefix : List Observation) (o : Observation) (rest : List Observation)
    {current : Snapshot}
    → project (prefix ++ o ∷ rest) ≡ ok s
    → (if length rest == 0 then ok s else project (prefix ++ o ∷ [])) ≡ ok current
    → project (prefix ++ o ∷ []) ≡ ok current
reached_project s prefix o [] p h = p ∙ h
reached_project s prefix o (x ∷ rest) p h =
    let more : (length (x ∷ rest) == 0) ≡ false = ground arith in rw more at h

append_one :
    (xs : List Observation) (x : Observation) (ys : List Observation)
    → (xs ++ x ∷ []) ++ ys ≡ xs ++ x ∷ ys
append_one [] x ys = refl
append_one (y ∷ xs) x ys = rw (append_one xs x ys)

pub history_reasons-Unbroken :
    (r : Request) (s : Snapshot) (prefix rest : List Observation)
    → project (prefix ++ rest) ≡ ok s
    → history_reasons r s prefix rest ≡ ok []
    → Unbroken r prefix rest
unfolding history_reasons
history_reasons-Unbroken r s prefix [] p h = tt
history_reasons-Unbroken r s prefix (o ∷ rest) p h =
    let bounds = limits r.policy in
    let reached = prefix ++ o ∷ [] in
    let (current, here, h₁) = bind-eq-ok (if length rest == 0 then ok s else project reached) _ h in
    let (rolled, turned, h₂) =
      bind-eq-ok
        (if length prefix == 0
          then ok []
          else (project prefix >>= λ previous.
              rollover_reasons r.history previous current bounds.day))
        _ h₁ in
    let (others, later, h₃) = bind-eq-ok (history_reasons r s reached rest) _ h₂ in
    let (no_loss, e₁) =
      append_empty (loss_reasons current bounds.day bounds.drawdown) _ (ok-injective h₃) in
    let (no_roll, no_others) = append_empty rolled others e₁ in
    (
      record {
        current = current;
        projected = reached_project s prefix o rest p here;
        lossless = loss_reasons-NoLoss current bounds.day bounds.drawdown no_loss;
        rolled = λ started.
            let (previous, before, h₄) = bind-eq-ok (project prefix) _ (rw started at turned) in
            (
              previous,
              before,
              rollover_reasons-NoRollover r.history previous current bounds.day
                  (h₄ ∙ ap (λ (xs : List String). ok xs) no_roll),
            );
      },
      history_reasons-Unbroken r s reached rest (rw (append_one prefix o rest) p)
          (later ∙ ap (λ (xs : List String). ok xs) no_others),
    )
