-- ===== src/Benchmarks/Rules/Causality.antt =====
-- A decision rests only on what was known when it was taken.
use mathlib.Core.Path.{subst}
use adaptive_trading_ecosyst.Prelude.{
  ◌≤◌, ◌≡◌, ◌≢◌, refl, sym, true, false, Option, none, some, ltb, Bool-cases, inl, inr,
  ok-injective, arith, Result, ok, bind-eq-ok, or_raise, or_raise-eq-ok, if◌then◌else◌,
}
use adaptive_trading_ecosyst.Benchmarks.Contracts.{
  BenchmarkId, b01, b02, b03, b04, BenchmarkDefinition,
}
use adaptive_trading_ecosyst.Benchmarks.Observations.{
  ResearchDecision, ResearchObservation, EvaluationInput, validate_input,
}
use adaptive_trading_ecosyst.Benchmarks.Registry.{get_definition}
use adaptive_trading_ecosyst.Benchmarks.Rules.{evaluate, not_ready, by_benchmark, evaluate_cross}

pub validate_input_self : (i v : EvaluationInput) → validate_input i ≡ ok v → v ≡ i
unfolding validate_input
validate_input_self i v h = ground arith

pub ready_facts :
    (v : EvaluationInput) (b : BenchmarkDefinition) (k : Result ResearchDecision)
    (d : ResearchDecision)
    → (if not_ready v b then ok ResearchDecision.unavailable else k) ≡ ok d
    → d ≢ ResearchDecision.unavailable
    → (v.bar_complete ≡ true)
      × (v.current.available_at ≤ v.decision_time)
      × (b.required_observations ≤ v.current.observed_bar_count)
      × (k ≡ ok d)
ready_facts v b k d h n = ground arith

ready_false :
    (v : EvaluationInput) (b : BenchmarkDefinition) (k : Result ResearchDecision)
    (d : ResearchDecision)
    → (if not_ready v b then ok ResearchDecision.unavailable else k) ≡ ok d
    → d ≢ ResearchDecision.unavailable
    → not_ready v b ≡ false
ready_false v b k d h n = elim (Bool-cases (not_ready v b)) [
  | inl early ↦ absurd (n (sym (ok-injective (rw early at h))))
  | inr ready ↦ ready
]

-- Every benchmark but B02 reads the current observation only.
abbrev pub ReadsPrevious : BenchmarkId → EvaluationInput → ResearchDecision → Type 0
ReadsPrevious b02 i d =
    (p : ResearchObservation) × (i.previous ≡ some p) × (p.available_at ≤ i.decision_time)
ReadsPrevious _ i d =
    (q : Option ResearchObservation)
    → validate_input (record i { previous = q }) ≡ ok (record i { previous = q })
    → evaluate (record i { previous = q }) ≡ ok d

evaluate_cross-known :
    (i : EvaluationInput) (previous : Option ResearchObservation) (d : ResearchDecision)
    → evaluate_cross i previous ≡ ok d
    → d ≢ ResearchDecision.unavailable
    → (p : ResearchObservation) × (previous ≡ some p) × (p.available_at ≤ i.decision_time)
unfolding evaluate_cross
evaluate_cross-known i none d h n = absurd (n (sym (ok-injective h)))
evaluate_cross-known i (some p) d h n = elim (Bool-cases (ltb i.decision_time p.available_at)) [
  | inl late ↦ absurd (n (sym (ok-injective (rw late at h))))
  | inr known ↦ (p, refl, ground arith)
]

-- The same decision with another previous observation, when that is not read.
with_previous :
    (i : EvaluationInput) (d : ResearchDecision) (b : BenchmarkDefinition)
    (q : Option ResearchObservation)
    → get_definition i.current.benchmark_id ≡ some b
    → not_ready i b ≡ false
    → by_benchmark i.current.benchmark_id (record i { previous = q }) ≡ ok d
    → validate_input (record i { previous = q }) ≡ ok (record i { previous = q })
    → evaluate (record i { previous = q }) ≡ ok d
unfolding evaluate
with_previous i d b q found ready decided valid = rw (valid, found, ready) decided

by_benchmark-ReadsPrevious :
    (k : BenchmarkId) (i : EvaluationInput) (d : ResearchDecision) (b : BenchmarkDefinition)
    → i.current.benchmark_id ≡ k
    → get_definition i.current.benchmark_id ≡ some b
    → not_ready i b ≡ false
    → by_benchmark k i ≡ ok d
    → d ≢ ResearchDecision.unavailable
    → ReadsPrevious k i d
by_benchmark-ReadsPrevious b02 i d b own found ready h n = evaluate_cross-known i i.previous d h n
by_benchmark-ReadsPrevious b01 i d b own found ready h n = λ q valid.
    with_previous i d b q found ready
      (subst (λ (k : BenchmarkId). by_benchmark k (record i { previous = q }) ≡ ok d) (sym own) h)
      valid
by_benchmark-ReadsPrevious b03 i d b own found ready h n = λ q valid.
    with_previous i d b q found ready
      (subst (λ (k : BenchmarkId). by_benchmark k (record i { previous = q }) ≡ ok d) (sym own) h)
      valid
by_benchmark-ReadsPrevious b04 i d b own found ready h n = λ q valid.
    with_previous i d b q found ready
      (subst (λ (k : BenchmarkId). by_benchmark k (record i { previous = q }) ≡ ok d) (sym own) h)
      valid

-- Whenever a decision other than `unavailable` is returned, the bar was complete, its values were
-- available by the decision time, and the history was as long as the registered warm-up. The decision
-- of B02 stands on a previous observation that was available by the decision time too; that of every
-- other benchmark is the same with any previous observation that the validation accepts.
pub decision_is_causal :
    (i : EvaluationInput) (d : ResearchDecision)
    → evaluate i ≡ ok d
    → d ≢ ResearchDecision.unavailable
    → (i.bar_complete ≡ true)
      × (i.current.available_at ≤ i.decision_time)
      × ReadsPrevious i.current.benchmark_id i d
      × (b : BenchmarkDefinition) × (get_definition i.current.benchmark_id ≡ some b)
      × (b.required_observations ≤ i.current.observed_bar_count)
unfolding evaluate
decision_is_causal i d h n =
    let (v, valid, h1) = bind-eq-ok (validate_input i) _ h in
    let (b, found, h2) = bind-eq-ok (or_raise (get_definition v.current.benchmark_id) _) _ h1 in
    let same = validate_input_self i v valid in
    let registered = or_raise-eq-ok (get_definition v.current.benchmark_id) _ found in
    let (complete, known, warm, decided) = ready_facts v b _ d h2 n in
    let ready = ready_false v b _ d h2 n in
    let previous =
      by_benchmark-ReadsPrevious v.current.benchmark_id v d b refl registered ready decided n in
    rw (← same) (complete, known, previous, b, registered, warm)
