-- ===== src/Risk/Engine/Admission.antt =====
-- What an accepted order stands on.
use mathlib.Core.Path.{subst}
use adaptive_trading_ecosyst.Prelude.{
  ◌≡◌, refl, sym, ap, ◌∙◌, true, Option, none, some, List, [], ◌∷◌, String, ok, bind-eq-ok, arith,
}
use adaptive_trading_ecosyst.Decimal.{Decimal}
use adaptive_trading_ecosyst.Portfolio.Contracts.{Economics, Quote}
use adaptive_trading_ecosyst.Portfolio.Projection.{Snapshot, project}
use adaptive_trading_ecosyst.Risk.Contracts.{
  Status, active, pause_entries, halt_and_flatten, RiskState, Request, validate_request, Decision,
  OrderIntent,
}
use adaptive_trading_ecosyst.Risk.State.{state_of}
use adaptive_trading_ecosyst.Risk.State.Gate.{IsClear, state_of-IsClear}
use adaptive_trading_ecosyst.Risk.Sizing.{Sizing, sizing_of, failures, volume_at, chosen_step}
use adaptive_trading_ecosyst.Risk.Engine.{
  first_failure, intent_tests, economics_tests, market_tests, search_from, in_market, quoted,
  validated, priced_by, intended, admitted, evaluate,
}
use adaptive_trading_ecosyst.Risk.Engine.Market.{
  IsEntitled, intent_tests-IsEntitled, IsInForce, economics_tests-IsInForce, IsTradable,
  market_tests-IsTradable,
}
use adaptive_trading_ecosyst.Risk.Engine.Steps.{HasRange, validate_request-HasRange}
use adaptive_trading_ecosyst.Risk.Engine.Costs.{IsPriced, sizing_of-IsPriced}
use adaptive_trading_ecosyst.Risk.Engine.Volume.{WithinLimits, IsLargest, chosen_step-IsLargest}
use adaptive_trading_ecosyst.Risk.Engine.Approval.{rejected, Approved, place-Approved}

validate_request_self : (r : Request) {v : Request} → validate_request r ≡ ok v → v ≡ r
unfolding validate_request
validate_request_self r h = ground arith

-- What admits the order: the intent, the economics, the quote, the sizing and the volume.
pub record Admitted (r : Request) (s : Snapshot) (d : Decision) : Type 0 where
  pub economics : Economics
  pub priced : r.economics ≡ some economics
  pub quote : Quote
  pub quoted_by : r.quote ≡ some quote
  pub entitled : IsEntitled r
  pub in_force : IsInForce r economics
  pub tradable : IsTradable r s economics quote
  pub sizing : Sizing
  pub sized : IsPriced r s economics quote sizing
  pub volume : Decimal
  pub largest : IsLargest r s economics sizing volume
  pub within : WithinLimits r s economics sizing volume
  pub approved : Approved r s d.state economics quote sizing volume d

module _ (request_identity : Request → String) (order_identity : OrderIntent → String) where
  search_from-Placed :
      (r : Request) (s : Snapshot) (t : RiskState) (e : Economics) (q : Quote) (z : Sizing)
      (ps : List String) (d : Decision)
      → HasRange e
      → search_from request_identity order_identity r s t e q z ps ≡ ok d
      → d.accepted ≡ true
      → WithinLimits r s e z (volume_at e (chosen_step r s e z))
        × Approved r s t e q z (volume_at e (chosen_step r s e z)) d
  search_from-Placed r s t e q z (p ∷ ps) d ranged h accepted = elim (rejected t _ d h accepted) [ ]
  search_from-Placed r s t e q z [] d ranged h accepted =
      place-Approved request_identity order_identity r s t e q z (volume_at e (chosen_step r s e z))
        d ranged h accepted

  in_market-Admitted :
      (r : Request) (s : Snapshot) (t : RiskState) (e : Economics) (q : Quote) (o : Option String)
      (d : Decision)
      → IsEntitled r
      → IsInForce r e
      → HasRange e
      → first_failure (market_tests r s e q) ≡ o
      → r.economics ≡ some e
      → r.quote ≡ some q
      → in_market request_identity order_identity r s t e q o ≡ ok d
      → d.accepted ≡ true
      → Admitted r s d × (d.state ≡ t)
  in_market-Admitted r s t e q (some reason) d entitled force ranged tests priced quote h accepted =
      elim (rejected t _ d h accepted) [ ]
  in_market-Admitted r s t e q none d entitled force ranged tests priced quote h accepted =
      let (z, sized, h1) = bind-eq-ok (sizing_of r s e q) _ h in
      let (within, a) =
        search_from-Placed r s t e q z (failures r s e z e.volume_min) d ranged h1 accepted in
      (
        record {
          economics = e;
          priced = priced;
          quote = q;
          quoted_by = quote;
          entitled = entitled;
          in_force = force;
          tradable = market_tests-IsTradable r s e q tests;
          sizing = z;
          sized = sizing_of-IsPriced r s e q z sized;
          volume = volume_at e (chosen_step r s e z);
          largest = chosen_step-IsLargest r s e z ranged;
          within = within;
          approved =
              subst (λ (x : RiskState). Approved r s x e q z (volume_at e (chosen_step r s e z)) d)
                (sym a.state) a;
        },
        a.state,
      )

  quoted-Admitted :
      (r : Request) (s : Snapshot) (t : RiskState) (e : Economics) (o : Option Quote) (d : Decision)
      → IsEntitled r
      → IsInForce r e
      → HasRange e
      → r.economics ≡ some e
      → r.quote ≡ o
      → quoted request_identity order_identity r s t e o ≡ ok d
      → d.accepted ≡ true
      → Admitted r s d × (d.state ≡ t)
  quoted-Admitted r s t e none d entitled force ranged priced quote h accepted = cc h
  quoted-Admitted r s t e (some q) d entitled force ranged priced quote h accepted =
      in_market-Admitted r s t e q (first_failure (market_tests r s e q)) d entitled force ranged
        refl priced quote h accepted

  validated-Admitted :
      (r : Request) (s : Snapshot) (t : RiskState) (e : Economics) (o : Option String)
      (d : Decision)
      → IsEntitled r
      → HasRange e
      → first_failure (economics_tests r e) ≡ o
      → r.economics ≡ some e
      → validated request_identity order_identity r s t e o ≡ ok d
      → d.accepted ≡ true
      → Admitted r s d × (d.state ≡ t)
  validated-Admitted r s t e (some reason) d entitled ranged tests priced h accepted =
      elim (rejected t _ d h accepted) [ ]
  validated-Admitted r s t e none d entitled ranged tests priced h accepted =
      quoted-Admitted r s t e r.quote d entitled (economics_tests-IsInForce r e tests) ranged priced
        refl h accepted

  priced_by-Admitted :
      (r : Request) (s : Snapshot) (t : RiskState) (o : Option Economics) (d : Decision)
      → IsEntitled r
      → ((e : Economics) → r.economics ≡ some e → HasRange e)
      → r.economics ≡ o
      → priced_by request_identity order_identity r s t o ≡ ok d
      → d.accepted ≡ true
      → Admitted r s d × (d.state ≡ t)
  priced_by-Admitted r s t none d entitled ranged priced h accepted =
      elim (rejected t _ d h accepted) [ ]
  priced_by-Admitted r s t (some e) d entitled ranged priced h accepted =
      validated-Admitted r s t e (first_failure (economics_tests r e)) d entitled (ranged e priced)
        refl priced h accepted

  intended-Admitted :
      (r : Request) (s : Snapshot) (t : RiskState) (o : Option String) (d : Decision)
      → ((e : Economics) → r.economics ≡ some e → HasRange e)
      → first_failure (intent_tests r) ≡ o
      → intended request_identity order_identity r s t o ≡ ok d
      → d.accepted ≡ true
      → Admitted r s d × (d.state ≡ t)
  intended-Admitted r s t (some reason) d ranged tests h accepted =
      elim (rejected t _ d h accepted) [ ]
  intended-Admitted r s t none d ranged tests h accepted =
      priced_by-Admitted r s t r.economics d (intent_tests-IsEntitled r tests) ranged refl h
        accepted

  admitted-Admitted :
      (r : Request) (s : Snapshot) (t : RiskState) (x : Status) (d : Decision)
      → ((e : Economics) → r.economics ≡ some e → HasRange e)
      → admitted request_identity order_identity r s t x ≡ ok d
      → d.accepted ≡ true
      → (x ≡ active) × Admitted r s d × (d.state ≡ t)
  admitted-Admitted r s t active d ranged h accepted =
      let (a, same) =
        intended-Admitted r s t (first_failure (intent_tests r)) d ranged refl h accepted in
      (refl, a, same)
  admitted-Admitted r s t pause_entries d ranged h accepted = elim (rejected t _ d h accepted) [ ]
  admitted-Admitted r s t halt_and_flatten d ranged h accepted =
      elim (rejected t _ d h accepted) [ ]

  -- An accepted decision stands on a projection `s` of the history whose status is active, with
  -- every reason of `IsClear`. The intent is long under the conservative policy, signalled before and
  -- not expired; the economics have been validated and are in force; the quote is of their
  -- instrument, the asset is that of the intent and free, a place is free, the spread is at most a
  -- tenth of the range, the stop is on the tick and at a positive distance that is no less than the
  -- least one, and the price has moved by at most a quarter of the range. The volume is the least one
  -- and a number of steps, as computed and exactly, and within the range of the broker; the risk of
  -- the order is within its budget, and risk, margin and notional with what is open and reserved
  -- within their shares of the equity. One step more would be above the greatest volume or break a
  -- limit: any of the four, or the budget alone under the experimental policy. The order has this
  -- volume, its costs and the stop of the intent, and the reservation has the volume and the costs; it
  -- has not ended, and ends no later than five seconds after the request and after the quote, than
  -- fifteen after the reconciliation, and than the intent and the economics.
  -- `IsClear` is: the request is healthy and its account allowed, the valuation complete and
  -- current, a fresh quote at hand, a prior state that halted has no reasons, and at no observation
  -- of the history a loss limit is reached.
  pub evaluate-Admitted :
      (r : Request) (d : Decision)
      → evaluate request_identity order_identity r ≡ ok d
      → d.accepted ≡ true
      → (s : Snapshot) × (project r.history ≡ ok s)
        × IsClear r s
        × (d.state.status ≡ active)
        × Admitted r s d
  unfolding evaluate
  evaluate-Admitted r d h accepted =
      let (r', valid, h1) = bind-eq-ok (validate_request r) _ h in
      let (s, projected, h2) =
        bind-eq-ok (project r.history) _ (rw (validate_request_self r valid) at h1) in
      let (t, stated, h3) = bind-eq-ok (state_of r s) _ h2 in
      let (is_active, a, same) =
        admitted-Admitted r s t t.status d (λ e priced. validate_request-HasRange r e valid priced)
          h3 accepted in
      (
        s,
        projected,
        state_of-IsClear r s t projected stated is_active,
        ap (λ (x : RiskState). x.status) same ∙ is_active,
        a,
      )
