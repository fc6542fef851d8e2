-- ===== src/Benchmarks/Observations.antt =====
-- benchmarks/contracts.py, from `ResearchObservation` on: what a decision is given.
use adaptive_trading_ecosyst.Prelude.{
  ℕ, ◌+◌, Bool, true, false, not, ◌&&◌, ◌||◌, Option, none, some, ltb, leb, ◌==◌, Result, ok, ◌>>=◌,
  ◌>>◌, raise_if,
}
use adaptive_trading_ecosyst.Decimal.{Decimal, ltb_d}
use adaptive_trading_ecosyst.Domain.Primitives.{UtcTimestamp, positive_decimal}
use adaptive_trading_ecosyst.Benchmarks.Contracts.{BenchmarkId, same_id}

pub data ResearchDecision : Type 0 where
  entry_eligible exit_eligible hold_or_no_action unavailable : ResearchDecision

pub record ResearchObservation : Type 0 where
  pub benchmark_id : BenchmarkId
  pub observed_bar_count : ℕ
  pub bar_close_time : UtcTimestamp
  pub available_at : UtcTimestamp
  pub close : Option Decimal
  pub fast_ema : Option Decimal
  pub slow_ema : Option Decimal
  pub previous_high : Option Decimal
  pub previous_low : Option Decimal

-- `Price | None`
unfoldable pub optional_price : Option Decimal → Result (Option Decimal)
optional_price none = ok none
optional_price (some d) = do v ← positive_decimal d; ok (some v)

abbrev pub reversed_channel : Option Decimal → Option Decimal → Bool
reversed_channel (some high) (some low) = ltb_d high low
reversed_channel _ _ = false

unfoldable pub validate_observation : ResearchObservation → Result ResearchObservation
validate_observation o = do
  optional_price o.close
  optional_price o.fast_ema
  optional_price o.slow_ema
  optional_price o.previous_high
  optional_price o.previous_low
  raise_if (ltb o.available_at o.bar_close_time) "RESEARCH_VALUES_CANNOT_PRECEDE_COMPLETED_BAR"
  raise_if (reversed_channel o.previous_high o.previous_low) "REVERSED_CHANNEL_VALUES"
  ok o

pub record EvaluationInput : Type 0 where
  pub current : ResearchObservation
  pub previous : Option ResearchObservation
  pub decision_time : UtcTimestamp
  pub bar_complete : Bool

-- `PREVIOUS_MUST_BE_ADJACENT_PRIOR_OBSERVATION`
abbrev pub not_adjacent : ResearchObservation → ResearchObservation → Bool
not_adjacent previous current =
    not (same_id previous.benchmark_id current.benchmark_id)
    || leb current.bar_close_time previous.bar_close_time
    || not (previous.observed_bar_count + 1 == current.observed_bar_count)

unfoldable pub validate_previous : Option ResearchObservation → Result (Unit {0})
validate_previous none = ok tt
validate_previous (some previous) = validate_observation previous >> ok tt

abbrev pub adjacency : Option ResearchObservation → ResearchObservation → Bool
adjacency none current = true
adjacency (some previous) current = not (not_adjacent previous current)

unfoldable pub validate_input : EvaluationInput → Result EvaluationInput
validate_input i = do
  validate_observation i.current
  validate_previous i.previous
  raise_if (i.bar_complete && not (i.decision_time == i.current.bar_close_time))
      "DECISION_MUST_BE_AT_COMPLETED_BAR_CLOSE"
  raise_if (not (adjacency i.previous i.current)) "PREVIOUS_MUST_BE_ADJACENT_PRIOR_OBSERVATION"
  ok i
