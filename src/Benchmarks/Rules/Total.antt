-- ===== src/Benchmarks/Rules/Total.antt =====
-- The rules of benchmarks/rules.py on inputs that pass validation.
use adaptive_trading_ecosyst.Prelude.{
  ◌≡◌, false, Option, none, some, arith, ok, bind-eq-ok, refl, inl, inr, Bool-cases, ltb,
}
use adaptive_trading_ecosyst.Decimal.{Decimal}
use adaptive_trading_ecosyst.Decimal.Order.{le_d_refl}
use adaptive_trading_ecosyst.Domain.Primitives.{finite_decimal, positive_decimal}
use adaptive_trading_ecosyst.Benchmarks.Contracts.{
  BenchmarkId, b01, b02, b03, b04, BenchmarkDefinition,
}
use adaptive_trading_ecosyst.Benchmarks.Observations.{
  ResearchDecision, ResearchObservation, EvaluationInput, validate_input, validate_observation,
  validate_previous, optional_price, reversed_channel,
}
use adaptive_trading_ecosyst.Benchmarks.Registry.{get_definition}
use adaptive_trading_ecosyst.Benchmarks.Registry.Pinned.{registered-valid}
use adaptive_trading_ecosyst.Benchmarks.States.{
  optional, moving_average_state, channel_breakout_state, compare_averages, place_in_channel,
  crossed,
}
use adaptive_trading_ecosyst.Benchmarks.Rules.{
  hybrid_decision, cross_decision, channel_decision, evaluate, not_ready, by_benchmark,
  evaluate_hybrid, evaluate_cross, evaluate_channel,
}
use adaptive_trading_ecosyst.Benchmarks.Rules.Causality.{validate_input_self}

price-finite : (d : Decimal) {r : Decimal} → positive_decimal d ≡ ok r → finite_decimal d ≡ ok d
unfolding positive_decimal finite_decimal
price-finite d h = ground arith

price-optional :
    (o : Option Decimal) {r : Option Decimal} → optional_price o ≡ ok r → optional o ≡ ok o
unfolding optional_price optional
price-optional none h = refl
price-optional (some d) h =
    let (v, e, _) = bind-eq-ok (positive_decimal d) _ h in rw (price-finite d e)

pub record IsReadable (o : ResearchObservation) : Type 0 where
  close : optional o.close ≡ ok o.close
  fast : optional o.fast_ema ≡ ok o.fast_ema
  slow : optional o.slow_ema ≡ ok o.slow_ema
  high : optional o.previous_high ≡ ok o.previous_high
  low : optional o.previous_low ≡ ok o.previous_low
  ordered : reversed_channel o.previous_high o.previous_low ≡ false

pub observation-IsReadable :
    (o : ResearchObservation) {v : ResearchObservation}
    → validate_observation o ≡ ok v
    → IsReadable o
unfolding validate_observation
observation-IsReadable o h =
    let (c, ec, h1) = bind-eq-ok (optional_price o.close) _ h in
    let (f, ef, h2) = bind-eq-ok (optional_price o.fast_ema) _ h1 in
    let (s, es, h3) = bind-eq-ok (optional_price o.slow_ema) _ h2 in
    let (hi, ehi, h4) = bind-eq-ok (optional_price o.previous_high) _ h3 in
    let (lo, elo, h5) = bind-eq-ok (optional_price o.previous_low) _ h4 in
    record {
      close = price-optional _ ec;
      fast = price-optional _ ef;
      slow = price-optional _ es;
      high = price-optional _ ehi;
      low = price-optional _ elo;
      ordered = ground arith;
    }

uncrossed :
    (high low : Option Decimal) → reversed_channel high low ≡ false → crossed high low ≡ false
unfolding crossed
uncrossed high low h = ground arith

uncrossed_self : (high : Option Decimal) → crossed high high ≡ false
unfolding crossed
uncrossed_self none = refl
uncrossed_self (some d) = rw le_d_refl

module _ (o : ResearchObservation) (r : IsReadable o) where
  pub averages-ok :
      moving_average_state o.fast_ema o.slow_ema ≡ ok (compare_averages o.fast_ema o.slow_ema)
  unfolding moving_average_state
  averages-ok = rw (r.fast, r.slow)

  pub channel-ok :
      channel_breakout_state o.close o.previous_high o.previous_low
      ≡ ok (place_in_channel o.close o.previous_high o.previous_low)
  unfolding channel_breakout_state
  channel-ok = rw (r.close, r.high, r.low, uncrossed o.previous_high o.previous_low r.ordered)

  pub upper-ok :
      channel_breakout_state o.close o.previous_high o.previous_high
      ≡ ok (place_in_channel o.close o.previous_high o.previous_high)
  unfolding channel_breakout_state
  upper-ok = rw (r.close, r.high, uncrossed_self o.previous_high)

cross-ok :
    (i : EvaluationInput) (p : Option ResearchObservation)
    → IsReadable i.current
    → validate_previous p ≡ ok tt
    → (d : ResearchDecision) × (evaluate_cross i p ≡ ok d)
unfolding evaluate_cross validate_previous
cross-ok i none r h = (ResearchDecision.unavailable, refl)
cross-ok i (some p) r h =
    let (v, valid, _) = bind-eq-ok (validate_observation p) _ h in
    let now = averages-ok i.current r in
    let before = averages-ok p (observation-IsReadable p valid) in
    elim (Bool-cases (ltb i.decision_time p.available_at)) [
      | inl late ↦ (ResearchDecision.unavailable, rw late)
      | inr known ↦ (
        cross_decision (compare_averages p.fast_ema p.slow_ema)
            (compare_averages i.current.fast_ema i.current.slow_ema),
        rw (known, now, before),
      )
    ]

in_channel : ResearchObservation → ResearchDecision
in_channel o = channel_decision (place_in_channel o.close o.previous_high o.previous_low)

decides :
    (b : BenchmarkId) (i : EvaluationInput)
    → IsReadable i.current
    → validate_previous i.previous ≡ ok tt
    → (d : ResearchDecision) × (by_benchmark b i ≡ ok d)
unfolding evaluate_hybrid evaluate_channel in_channel
decides b01 i r h = (
  hybrid_decision (compare_averages i.current.fast_ema i.current.slow_ema)
      (place_in_channel i.current.close i.current.previous_high i.current.previous_high),
  rw (averages-ok i.current r, upper-ok i.current r),
)
decides b02 i r h = cross-ok i i.previous r h
decides b03 i r h = (in_channel i.current, rw (channel-ok i.current r))
decides b04 i r h = (in_channel i.current, rw (channel-ok i.current r))

registered : (b : BenchmarkId) → (d : BenchmarkDefinition) × (get_definition b ≡ some d)
registered b = let (d, found, _, _) = registered-valid b in (d, found)

pub validated :
    (i v : EvaluationInput)
    → validate_input i ≡ ok v
    → IsReadable i.current × (validate_previous i.previous ≡ ok tt)
unfolding validate_input
validated i v h =
    let (o, current, h1) = bind-eq-ok (validate_observation i.current) _ h in
    let (u, previous, _) = bind-eq-ok (validate_previous i.previous) _ h1 in
    (observation-IsReadable i.current current, previous)

-- An input that passes its validation gets a decision: the rules never raise on it.
pub evaluate_total :
    (i v : EvaluationInput) → validate_input i ≡ ok v → (d : ResearchDecision) × (evaluate i ≡ ok d)
unfolding evaluate
evaluate_total i v h =
    let (b, found) = registered i.current.benchmark_id in
    let (readable, previous) = validated i v h in
    let (d, decided) = decides i.current.benchmark_id i readable previous in
    let valid : validate_input i ≡ ok i = rw (validate_input_self i v h) at h in
    elim (Bool-cases (not_ready i b)) [
      | inl early ↦ (ResearchDecision.unavailable, rw (valid, found, early))
      | inr ready ↦ (d, rw (valid, found, ready) decided)
    ]
