-- ===== src/Benchmarks/Rules/Meaning.antt =====
-- What an entry and an exit decision say about the values that they were taken on.
use adaptive_trading_ecosyst.Prelude.{
  ◌≤◌, ◌≡◌, true, false, Option, none, some, arith, ok, bind-eq-ok, or_raise, refl, inl, inr,
  Bool-cases, ltb, ok-injective,
}
use adaptive_trading_ecosyst.Decimal.{ltb_d, Decimal}
use adaptive_trading_ecosyst.Benchmarks.Contracts.{BenchmarkId, b01, b02, b03, b04}
use adaptive_trading_ecosyst.Benchmarks.Observations.{
  entry_eligible, ResearchObservation, EvaluationInput, validate_input, validate_observation,
  validate_previous,
}
use adaptive_trading_ecosyst.Benchmarks.Registry.{get_definition}
use adaptive_trading_ecosyst.Benchmarks.States.{compare_averages, place_in_channel}
use adaptive_trading_ecosyst.Benchmarks.Rules.{
  hybrid_decision, cross_decision, channel_decision, evaluate, by_benchmark, evaluate_hybrid,
  evaluate_cross, evaluate_channel,
}
use adaptive_trading_ecosyst.Benchmarks.Rules.Causality.{validate_input_self, ready_facts}
use adaptive_trading_ecosyst.Benchmarks.Rules.Total.{
  IsReadable, observation-IsReadable, averages-ok, channel-ok, upper-ok, validated,
}

-- Both values are there, and the first is the greater.
abbrev pub Above : Option Decimal → Option Decimal → Type 0
Above (some a) (some b) = ltb_d b a ≡ true
Above _ _ = ⊥

-- Both averages are there, and the fast one is not above the slow one.
abbrev pub NotAbove : Option Decimal → Option Decimal → Type 0
NotAbove (some a) (some b) = ltb_d b a ≡ false
NotAbove _ _ = ⊥

abbrev pub EntryMeans : BenchmarkId → EvaluationInput → Type 0
EntryMeans b01 i =
    Above i.current.fast_ema i.current.slow_ema × Above i.current.close i.current.previous_high
EntryMeans b02 i =
    Above i.current.fast_ema i.current.slow_ema
    × (p : ResearchObservation) × (i.previous ≡ some p)
    × (p.available_at ≤ i.decision_time)
    × NotAbove p.fast_ema p.slow_ema
EntryMeans _ i = Above i.current.close i.current.previous_high

hybrid_entry :
    (f s c h : Option Decimal)
    → hybrid_decision (compare_averages f s) (place_in_channel c h h) ≡ entry_eligible
    → Above f s × Above c h
hybrid_entry f s c h e = ground arith

cross_entry :
    (f s g t : Option Decimal)
    → cross_decision (compare_averages g t) (compare_averages f s) ≡ entry_eligible
    → Above f s × NotAbove g t
cross_entry f s g t e = ground arith

channel_entry :
    (c h l : Option Decimal)
    → channel_decision (place_in_channel c h l) ≡ entry_eligible
    → Above c h
channel_entry c h l e = ground arith

evaluate_cross-entry :
    (i : EvaluationInput) (previous : Option ResearchObservation)
    → IsReadable i.current
    → validate_previous previous ≡ ok tt
    → evaluate_cross i previous ≡ ok entry_eligible
    → Above i.current.fast_ema i.current.slow_ema
      × (p : ResearchObservation) × (previous ≡ some p)
      × (p.available_at ≤ i.decision_time)
      × NotAbove p.fast_ema p.slow_ema
unfolding evaluate_cross validate_previous
evaluate_cross-entry i none r valid h = cc
evaluate_cross-entry i (some p) r valid h =
    let (v, good, _) = bind-eq-ok (validate_observation p) _ valid in
    let now = averages-ok i.current r in
    let before = averages-ok p (observation-IsReadable p good) in
    elim (Bool-cases (ltb i.decision_time p.available_at)) [
      | inl late ↦ cc (late, h)
      | inr known ↦
          let (above, not_above) =
            cross_entry i.current.fast_ema i.current.slow_ema p.fast_ema p.slow_ema
              (ok-injective (rw (known, now, before) at h)) in
          (above, p, refl, ground arith, not_above)
    ]

by_benchmark-entry :
    (b : BenchmarkId) (i : EvaluationInput)
    → IsReadable i.current
    → validate_previous i.previous ≡ ok tt
    → by_benchmark b i ≡ ok entry_eligible
    → EntryMeans b i
unfolding evaluate_hybrid evaluate_channel
by_benchmark-entry b01 i r v h =
    hybrid_entry _ _ _ _ (ok-injective (rw (averages-ok i.current r, upper-ok i.current r) at h))
by_benchmark-entry b02 i r v h = evaluate_cross-entry i i.previous r v h
by_benchmark-entry b03 i r v h =
    channel_entry _ _ _ (ok-injective (rw (channel-ok i.current r) at h))
by_benchmark-entry b04 i r v h =
    channel_entry _ _ _ (ok-injective (rw (channel-ok i.current r) at h))

-- An entry decision of B01 means a fast average above the slow one and a close above the previous
-- high; of B02, a fast average above the slow one now, and not so on a previous observation that was
-- available by the decision time; of B03 and B04, a close above the previous high.
pub entry_decision_meaning :
    (i : EvaluationInput) → evaluate i ≡ ok entry_eligible → EntryMeans i.current.benchmark_id i
unfolding evaluate
entry_decision_meaning i h =
    let (v, valid, h1) = bind-eq-ok (validate_input i) _ h in
    let (b, found, h2) = bind-eq-ok (or_raise (get_definition v.current.benchmark_id) _) _ h1 in
    let (_, _, _, decided) = ready_facts v b _ entry_eligible h2 (λ e. cc e) in
    let (readable, previous) = validated i v valid in
    by_benchmark-entry i.current.benchmark_id i readable previous
      (rw (validate_input_self i v valid) at decided)
