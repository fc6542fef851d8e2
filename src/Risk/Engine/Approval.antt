-- ===== src/Risk/Engine/Approval.antt =====
-- The approval of an order of a volume, and what it stands on.
use adaptive_trading_ecosyst.Prelude.{
  ◌+◌, ◌<◌, ◌≤◌, ◌≡◌, refl, sym, ap, ◌∙◌, true, false, some, List, [], ◌∷◌, leb, Bool-cases, inl,
  inr, String, ok, bind-eq-ok, ok-injective, arith,
}
use adaptive_trading_ecosyst.Decimal.{Decimal, ◌+ᵈ◌, ◌*ᵈ◌}
use adaptive_trading_ecosyst.Domain.Primitives.{seconds}
use adaptive_trading_ecosyst.Portfolio.Contracts.{Economics, Quote}
use adaptive_trading_ecosyst.Portfolio.Observations.{Reservation, validate_reservation}
use adaptive_trading_ecosyst.Portfolio.Projection.{Snapshot}
use adaptive_trading_ecosyst.Risk.Contracts.{
  RiskState, Request, OrderIntent, validate_order, Decision,
}
use adaptive_trading_ecosyst.Risk.Sizing.{
  Sizing, risk_of, margin_of, notional_of, failures, off_lattice,
}
use adaptive_trading_ecosyst.Risk.Engine.{
  reject, approval_end, out_of_range, order_of, reservation_of, approve, limited, place,
}
use adaptive_trading_ecosyst.Risk.Engine.Market.{leb-false}
use adaptive_trading_ecosyst.Risk.Engine.Volume.{WithinLimits, within_limits}
use adaptive_trading_ecosyst.Risk.Engine.Steps.{HasRange}

validate_order_self : (o : OrderIntent) {v : OrderIntent} → validate_order o ≡ ok v → v ≡ o
unfolding validate_order
validate_order_self o h = ground arith

-- A rejection is not accepted.
pub rejected :
    (t : RiskState) (ps : List String) (d : Decision)
    → ok (reject t ps) ≡ ok d
    → d.accepted ≡ true
    → ⊥
rejected t ps d h accepted =
    true_false (sym accepted ∙ sym (ap (λ (x : Decision). x.accepted) (ok-injective h)))
  where
    true_false : true ≡ false → ⊥
    true_false e = cc e

-- The approval ends with the first of what it depends on.
approval_bounds :
    (r : Request) (s : Snapshot) (e : Economics) (q : Quote)
    → (approval_end r s e q ≤ r.at + seconds 5)
      × (approval_end r s e q ≤ r.intent.expires_at)
      × (approval_end r s e q ≤ e.valid_until)
      × (approval_end r s e q ≤ q.at + seconds 5)
      × (approval_end r s e q ≤ s.source.book.cash.reconciled_at + seconds 15)
unfolding approval_end
approval_bounds r s e q = omega arith

-- The reservation is that of the order: of its intent, its volume and its costs.
pub record Reserves (r : Request) (o : OrderIntent) (v : Reservation) : Type 0 where
  pub intent : v.intent_id ≡ r.intent.intent_id
  pub strategy : v.strategy_id ≡ r.intent.strategy_id
  pub asset : v.asset ≡ r.intent.asset
  pub direction : v.direction ≡ r.intent.direction
  pub volume : v.volume ≡ o.volume
  pub risk : v.stop_risk ≡ o.estimated_stop_risk
  pub notional : v.gross_notional ≡ o.gross_notional
  pub margin : v.margin ≡ o.estimated_margin

validate_reservation_self :
    (o : Reservation) {v : Reservation} → validate_reservation o ≡ ok v → v ≡ o
unfolding validate_reservation
validate_reservation_self o h = ground arith

-- The decision `d` accepts an order of the volume, with its costs and the stop of the intent, and
-- reserves it. The
-- order has not ended, and ends within five seconds of the request and of the quote, within fifteen of
-- the reconciliation, and with the intent and the economics.
pub record Approved (r : Request) (s : Snapshot) (t : RiskState) (e : Economics) (q : Quote)
    (z : Sizing) (volume : Decimal) (d : Decision) : Type 0 where
  pub order : OrderIntent
  pub given : d.order ≡ some order
  pub sized : order.volume ≡ volume
  pub intended : order.trade_intent ≡ r.intent
  pub entered : order.reference_entry ≡ z.entry
  pub stopped : order.fixed_stop ≡ r.intent.fixed_stop
  pub risk : order.estimated_stop_risk ≡ volume *ᵈ z.risk_per_lot +ᵈ z.fixed_cost
  pub margin : order.estimated_margin ≡ volume *ᵈ e.margin_per_lot
  pub notional : order.gross_notional ≡ volume *ᵈ z.entry *ᵈ e.contract_size
  pub reservation : Reservation
  pub booked : d.reservation ≡ some reservation
  pub reserved : Reserves r order reservation
  pub alive : r.at < order.expires_at
  pub soon : order.expires_at ≤ r.at + seconds 5
  pub with_intent : order.expires_at ≤ r.intent.expires_at
  pub with_economics : order.expires_at ≤ e.valid_until
  pub with_quote : order.expires_at ≤ q.at + seconds 5
  pub with_cash : order.expires_at ≤ s.source.book.cash.reconciled_at + seconds 15
  pub state : d.state ≡ t

module _ (request_identity : Request → String) (order_identity : OrderIntent → String) where
  order-Approved :
      (r : Request) (s : Snapshot) (t : RiskState) (e : Economics) (q : Quote) (z : Sizing)
      (volume : Decimal) (d : Decision)
      → d.order ≡ some (order_of request_identity order_identity r s e q z volume)
      → d.reservation
        ≡ some (
            reservation_of request_identity order_identity r
              (order_of request_identity order_identity r s e q z volume))
      → r.at < approval_end r s e q
      → d.state ≡ t
      → Approved r s t e q z volume d
  unfolding risk_of margin_of notional_of
  order-Approved r s t e q z volume d given booked alive state =
      let (soon, with_intent, with_economics, with_quote, with_cash) = approval_bounds r s e q in
      record {
        order = order_of request_identity order_identity r s e q z volume;
        given = given;
        sized = refl;
        intended = refl;
        entered = refl;
        stopped = refl;
        risk = refl;
        margin = refl;
        notional = refl;
        reservation =
            reservation_of request_identity order_identity r
              (order_of request_identity order_identity r s e q z volume);
        booked = booked;
        reserved = record {
          intent = refl;
          strategy = refl;
          asset = refl;
          direction = refl;
          volume = refl;
          risk = refl;
          notional = refl;
          margin = refl;
        };
        alive = alive;
        soon = soon;
        with_intent = with_intent;
        with_economics = with_economics;
        with_quote = with_quote;
        with_cash = with_cash;
        state = state;
      }

  approve-Approved :
      (r : Request) (s : Snapshot) (t : RiskState) (e : Economics) (q : Quote) (z : Sizing)
      (volume : Decimal) (d : Decision)
      → approve request_identity order_identity r s t e q z volume ≡ ok d
      → d.accepted ≡ true
      → Approved r s t e q z volume d
  unfolding approve
  approve-Approved r s t e q z volume d h accepted =
      let o = order_of request_identity order_identity r s e q z volume in
      let (o', valid, h1) = bind-eq-ok (validate_order o) _ h in
      let same = validate_order_self o valid in
      let ends = ap (λ (x : OrderIntent). x.expires_at) same in
      elim (Bool-cases (leb o'.expires_at r.at)) [
        | inl late ↦ elim (rejected t _ d (rw late at h1) accepted) [ ]
        | inr alive ↦
            let (v, held, done) =
              bind-eq-ok
                (validate_reservation (reservation_of request_identity order_identity r o')) _
                (rw alive at h1) in
            let made = ok-injective done in
            order-Approved r s t e q z volume d
              (sym (ap (λ (x : Decision). x.order) made) ∙ ap (λ (x : OrderIntent). some x) same)
              (sym (ap (λ (x : Decision). x.reservation) made)
                ∙ ap (λ (x : Reservation). some x)
                    (validate_reservation_self (reservation_of request_identity order_identity r o')
                        held
                      ∙ ap (reservation_of request_identity order_identity r) same))
              (omega (arith, leb-false o'.expires_at r.at alive, ends))
              (sym (ap (λ (x : Decision). x.state) made))
      ]

  limited-Approved :
      (r : Request) (s : Snapshot) (t : RiskState) (e : Economics) (q : Quote) (z : Sizing)
      (volume : Decimal) (d : Decision) (ps : List String)
      → failures r s e z volume ≡ ps
      → HasRange e
      → limited request_identity order_identity r s t e q z volume ps ≡ ok d
      → d.accepted ≡ true
      → off_lattice e volume ≡ false
      → out_of_range e volume ≡ false
      → WithinLimits r s e z volume × Approved r s t e q z volume d
  limited-Approved r s t e q z volume d (p ∷ ps) failed ranged h accepted on inside =
      elim (rejected t _ d h accepted) [ ]
  limited-Approved r s t e q z volume d [] failed ranged h accepted on inside = (
    within_limits r s e z volume ranged failed on inside,
    approve-Approved r s t e q z volume d h accepted,
  )

  pub place-Approved :
      (r : Request) (s : Snapshot) (t : RiskState) (e : Economics) (q : Quote) (z : Sizing)
      (volume : Decimal) (d : Decision)
      → HasRange e
      → place request_identity order_identity r s t e q z volume ≡ ok d
      → d.accepted ≡ true
      → WithinLimits r s e z volume × Approved r s t e q z volume d
  unfolding place
  place-Approved r s t e q z volume d ranged h accepted = elim (Bool-cases (off_lattice e volume)) [
    | inl off ↦ elim (rejected t _ d (rw off at h) accepted) [ ]
    | inr on ↦
        let h1 = rw on at h in
        elim (Bool-cases (out_of_range e volume)) [
          | inl out ↦ elim (rejected t _ d (rw out at h1) accepted) [ ]
          | inr inside ↦
              limited-Approved r s t e q z volume d (failures r s e z volume) refl ranged
                (rw inside at h1) accepted on inside
        ]
  ]
