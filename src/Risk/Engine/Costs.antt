-- ===== src/Risk/Engine/Costs.antt =====
-- risk/engine.py, `evaluate`: the costs of a volume and the limits on it.
use adaptive_trading_ecosyst.Prelude.{
  ℕ, ◌≡◌, refl, false, some, List, [], ◌∷◌, String, ok, bind-eq-ok, or_raise, or_raise-eq-ok,
  ok-injective, not-false, if◌then◌else◌, sym, ap, ◌∙◌,
}
use adaptive_trading_ecosyst.Prelude.Int.{pos, negsuc}
use adaptive_trading_ecosyst.Decimal.{Decimal, of_int, leb_d, ◌+ᵈ◌, ◌*ᵈ◌}
use adaptive_trading_ecosyst.Decimal.Order.{◌≤ᵈ◌}
use adaptive_trading_ecosyst.Portfolio.Contracts.{Direction, long, short, is_long, Economics, Quote}
use adaptive_trading_ecosyst.Portfolio.Projection.{Snapshot}
use adaptive_trading_ecosyst.Risk.Contracts.{
  Policy, v0_conservative, hr_demo_5pct, is_v0, limits, Request,
}
use adaptive_trading_ecosyst.Risk.Sizing.{
  stop_distance, Sizing, sizing_of, risk_of, margin_of, notional_of, failures, failure_tests,
  volume_at, is_feasible, no_failure,
}
use adaptive_trading_ecosyst.Risk.Engine.Market.{quoted_price, distance_from, distance_from_lem}
use adaptive_trading_ecosyst.Risk.State.Reasons.{reasons_of-empty}

-- The sizing reads the values of the snapshot, the side of the quote that the direction takes, and
-- the costs of a lot: the distance to the stop with two ticks of slippage, and two commissions.
pub record IsPriced (r : Request) (s : Snapshot) (e : Economics) (q : Quote) (z : Sizing)
    : Type 0 where
  pub equity : s.accounting.equity ≡ some z.equity
  pub open_risk : s.open_risk ≡ some z.open_risk
  pub used_margin : s.used_margin ≡ some z.used_margin
  pub exposure : s.gross_exposure ≡ some z.gross_exposure
  pub entry : z.entry ≡ quoted_price r.intent.direction q
  pub budget : z.budget ≡ z.equity *ᵈ (limits r.policy).trade
  pub per_lot :
      z.risk_per_lot
      ≡ (distance_from r.intent.direction q r.intent.fixed_stop +ᵈ of_int (pos 2) *ᵈ e.tick_size)
          *ᵈ e.usd_per_price_unit_per_lot
        +ᵈ of_int (pos 2) *ᵈ e.commission_per_lot_per_side
  pub fixed : z.fixed_cost ≡ of_int (pos 2) *ᵈ e.commission_fixed_per_side

entry_price_lem :
    (d : Direction) (q : Quote) → (if is_long d then q.ask else q.bid) ≡ quoted_price d q
entry_price_lem long q = refl
entry_price_lem short q = refl

pub sizing_of-IsPriced :
    (r : Request) (s : Snapshot) (e : Economics) (q : Quote) (z : Sizing)
    → sizing_of r s e q ≡ ok z
    → IsPriced r s e q z
unfolding sizing_of stop_distance
sizing_of-IsPriced r s e q z h =
    let (equity, h₁, k₁) = bind-eq-ok (or_raise s.accounting.equity "AssertionError") _ h in
    let (open_risk, h₂, k₂) = bind-eq-ok (or_raise s.open_risk "AssertionError") _ k₁ in
    let (used, h₃, k₃) = bind-eq-ok (or_raise s.used_margin "AssertionError") _ k₂ in
    let (exposure, h₄, k₄) = bind-eq-ok (or_raise s.gross_exposure "AssertionError") _ k₃ in
    rw (← ok-injective k₄) (record {
      equity = or_raise-eq-ok _ _ h₁;
      open_risk = or_raise-eq-ok _ _ h₂;
      used_margin = or_raise-eq-ok _ _ h₃;
      exposure = or_raise-eq-ok _ _ h₄;
      entry = entry_price_lem r.intent.direction q;
      budget = refl;
      per_lot = rw (← distance_from_lem r.intent.direction q r.intent.fixed_stop) refl;
      fixed = refl;
    })

-- What an order of the volume may lose, and the margin and the notional that it takes, are within
-- the budget of the order and, with what is open and reserved, within the shares of the equity.
pub record InLimits (r : Request) (s : Snapshot) (e : Economics) (z : Sizing) (volume : Decimal)
    : Type 0 where
  pub risk : volume *ᵈ z.risk_per_lot +ᵈ z.fixed_cost ≤ᵈ z.budget
  pub aggregate :
      z.open_risk +ᵈ s.reserved_risk +ᵈ (volume *ᵈ z.risk_per_lot +ᵈ z.fixed_cost)
      ≤ᵈ z.equity *ᵈ (limits r.policy).aggregate
  pub margin :
      z.used_margin +ᵈ s.reserved_margin +ᵈ volume *ᵈ e.margin_per_lot
      ≤ᵈ z.equity *ᵈ record { coef = pos 20; exp = negsuc 1 }
  pub notional :
      z.gross_exposure +ᵈ s.reserved_exposure +ᵈ volume *ᵈ z.entry *ᵈ e.contract_size
      ≤ᵈ z.equity *ᵈ of_int (pos 2)

module _ (r : Request) (s : Snapshot) (e : Economics) (z : Sizing) (volume : Decimal) where
  pub failures-InLimits : failures r s e z volume ≡ [] → InLimits r s e z volume
  unfolding failure_tests risk_of margin_of notional_of
  failures-InLimits h =
      let (a, h₁) = reasons_of-empty (failure_tests r s e z volume) h in
      let (b, h₂) = h₁ in
      let (c, h₃) = h₂ in
      let (d, _) = h₃ in
      record {
        risk = not-false _ a;
        aggregate = not-false _ b;
        margin = not-false _ c;
        notional = not-false _ d;
      }

  no_failures : InLimits r s e z volume → failures r s e z volume ≡ []
  unfolding failure_tests risk_of margin_of notional_of
  no_failures h = rw (h.risk, h.aggregate, h.margin, h.notional) refl

-- The volume is not feasible: it breaks a limit, of which the experimental policy asks for the
-- budget of the order only.
abbrev pub Breaks : Policy → Request → Snapshot → Economics → Sizing → Decimal → Type 0
Breaks v0_conservative r s e z volume = ¬ InLimits r s e z volume
Breaks hr_demo_5pct r s e z volume =
    leb_d (volume *ᵈ z.risk_per_lot +ᵈ z.fixed_cost) z.budget ≡ false

not_empty : (xs : List String) → xs ≡ [] → no_failure xs ≡ false → ⊥
not_empty [] e h = cc h
not_empty (x ∷ xs) e h = cc e

under_policy :
    (r : Request) (s : Snapshot) (e : Economics) (z : Sizing) (n : ℕ) {p : Policy}
    → r.policy ≡ p
    → is_feasible r s e z n ≡ (
        if is_v0 p
        then no_failure (failures r s e z (volume_at e n))
        else leb_d (risk_of z (volume_at e n)) z.budget)
unfolding is_feasible
under_policy r s e z n same =
    ap
      (λ (x : Policy).
        if is_v0 x
        then no_failure (failures r s e z (volume_at e n))
        else leb_d (risk_of z (volume_at e n)) z.budget)
      same

pub is_feasible-Breaks :
    (r : Request) (s : Snapshot) (e : Economics) (z : Sizing) (n : ℕ) (p : Policy)
    → r.policy ≡ p
    → is_feasible r s e z n ≡ false
    → Breaks p r s e z (e.volume_min +ᵈ of_int (pos n) *ᵈ e.volume_step)
unfolding risk_of
is_feasible-Breaks r s e z n v0_conservative same h = λ within.
    not_empty _ (no_failures r s e z (volume_at e n) within) (sym (under_policy r s e z n same) ∙ h)
is_feasible-Breaks r s e z n hr_demo_5pct same h = sym (under_policy r s e z n same) ∙ h
