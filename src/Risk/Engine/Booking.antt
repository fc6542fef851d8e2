-- ===== src/Risk/Engine/Booking.antt =====
-- The reservation of an accepted order.
use adaptive_trading_ecosyst.Prelude.{
  ◌≡◌, refl, sym, ap, ◌∙◌, Option, none, some, List, [], ◌∷◌, ◌++◌, String, ok, bind-eq-ok,
  ok-injective, traverse, arith,
}
use mathlib.Core.Path.{subst}
use adaptive_trading_ecosyst.Portfolio.Contracts.{validate_book, validate_quote}
use adaptive_trading_ecosyst.Portfolio.Observations.{
  Reservation, Observation, validate_observation, validate_reservation,
}
use adaptive_trading_ecosyst.Risk.Contracts.{Request, OrderIntent, Decision}
use adaptive_trading_ecosyst.Risk.Engine.{evaluate, reserve, reserved, evaluate_and_reserve}

validate_observation_self :
    (o : Observation) {v : Observation} → validate_observation o ≡ ok v → v ≡ o
unfolding validate_observation
validate_observation_self o h =
    let (_, _, h1) = bind-eq-ok (validate_book o.book) _ h in
    let (_, _, h2) = bind-eq-ok (traverse validate_quote o.quotes) _ h1 in
    let (_, _, h3) = bind-eq-ok (traverse validate_reservation o.reservations) _ h2 in ground arith

-- The history `us` is `os` with the reservation appended to its last observation.
pub record Booked (os : List Observation) (v : Reservation) (us : List Observation) : Type 0 where
  pub front : List Observation
  pub last : Observation
  pub before : os ≡ front ++ last ∷ []
  pub after : us ≡ front ++ record last { reservations = last.reservations ++ v ∷ [] } ∷ []

reserve-Booked :
    (os : List Observation) (v : Reservation) (us : List Observation)
    → reserve os v ≡ ok us
    → Booked os v us
unfolding reserve
reserve-Booked [] v us h = cc h
reserve-Booked (o ∷ []) v us h =
    let (u, valid, done) =
      bind-eq-ok (validate_observation (record o { reservations = o.reservations ++ v ∷ [] })) _
        h in
    let same = validate_observation_self _ valid in
    record {
      front = [];
      last = o;
      before = refl;
      after = sym (ok-injective done) ∙ ap (λ (x : Observation). x ∷ []) same;
    }
reserve-Booked (o ∷ p ∷ os) v us h =
    let (rest, more, done) = bind-eq-ok (reserve (p ∷ os) v) _ h in
    let b = reserve-Booked (p ∷ os) v rest more in
    record {
      front = o ∷ b.front;
      last = b.last;
      before = ap (λ (xs : List Observation). o ∷ xs) b.before;
      after = sym (ok-injective done) ∙ ap (λ (xs : List Observation). o ∷ xs) b.after;
    }

-- A decision without a reservation leaves the history; one with a reservation appends it.
pub data Transition (r : Request) : Decision → List Observation → Type 0 where
  left : {d : Decision} → d.reservation ≡ none → Transition r d r.history
  booked :
      {d : Decision} {us : List Observation} (v : Reservation)
      → d.reservation ≡ some v
      → Booked r.history v us
      → Transition r d us

module _ (request_identity : Request → String) (order_identity : OrderIntent → String) where
  reserved-Transition :
      (r : Request) (d e : Decision) (us : List Observation) (o : Option Reservation)
      → d.reservation ≡ o
      → reserved d r.history o ≡ ok (e, us)
      → (d ≡ e) × Transition r e us
  reserved-Transition r d e us none given h = (
    ap (λ (x : Decision × List Observation). x.0) (ok-injective h),
    subst (λ (x : Decision × List Observation). Transition r x.0 x.1) (ok-injective h) (left given),
  )
  reserved-Transition r d e us (some v) given h =
      let (updated, done, h1) = bind-eq-ok (reserve r.history v) _ h in
      let b = reserve-Booked r.history v updated done in
      (
        ap (λ (x : Decision × List Observation). x.0) (ok-injective h1),
        subst (λ (x : Decision × List Observation). Transition r x.0 x.1) (ok-injective h1)
            (booked v given b),
      )

  -- The transition makes the decision of `evaluate` and changes no more of the history than the
  -- reservations of its last observation, to which it appends the reservation of the decision.
  pub evaluate_and_reserve-Transition :
      (r : Request) (d : Decision) (us : List Observation)
      → evaluate_and_reserve request_identity order_identity r ≡ ok (d, us)
      → (evaluate request_identity order_identity r ≡ ok d) × Transition r d us
  unfolding evaluate_and_reserve
  evaluate_and_reserve-Transition r d us h =
      let (e, evaluated, h1) = bind-eq-ok (evaluate request_identity order_identity r) _ h in
      let (same, t) = reserved-Transition r e d us e.reservation refl h1 in
      (evaluated ∙ ap (λ (x : Decision). ok x) same, t)
