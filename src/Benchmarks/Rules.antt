-- ===== src/Benchmarks/Rules.antt =====
-- benchmarks/rules.py: the research decision from supplied current and prior values.
pub mod Causality
pub mod Total
pub mod Meaning
use adaptive_trading_ecosyst.Prelude.{
  Bool, true, false, not, ◌&&◌, ◌||◌, Option, none, some, ltb, ◌==◌, if◌then◌else◌, Result, ok, err,
  ◌>>=◌, ◌>>◌, or_raise,
}
use adaptive_trading_ecosyst.Benchmarks.Contracts.{
  BenchmarkId, b01, b02, b03, b04, BenchmarkDefinition,
}
use adaptive_trading_ecosyst.Benchmarks.Observations.{
  ResearchDecision, entry_eligible, exit_eligible, hold_or_no_action, ResearchObservation,
  EvaluationInput, validate_input,
}
use adaptive_trading_ecosyst.Benchmarks.Registry.{get_definition}
use adaptive_trading_ecosyst.Benchmarks.States.{
  MovingAverageState, ChannelState, moving_average_state, channel_breakout_state,
}

abbrev pub hybrid_decision : MovingAverageState → ChannelState → ResearchDecision
hybrid_decision MovingAverageState.unavailable channel = ResearchDecision.unavailable
hybrid_decision trend ChannelState.unavailable = ResearchDecision.unavailable
hybrid_decision MovingAverageState.bullish ChannelState.upside_breakout = entry_eligible
hybrid_decision trend channel = hold_or_no_action

-- B01. A degenerate channel tests the upper boundary.
unfoldable pub evaluate_hybrid : ResearchObservation → Result ResearchDecision
evaluate_hybrid current = do
  trend ← moving_average_state current.fast_ema current.slow_ema
  channel ← channel_breakout_state current.close current.previous_high current.previous_high
  ok (hybrid_decision trend channel)

abbrev pub is_bullish : MovingAverageState → Bool
is_bullish MovingAverageState.bullish = true
is_bullish _ = false

abbrev pub cross_decision : MovingAverageState → MovingAverageState → ResearchDecision
cross_decision MovingAverageState.unavailable now = ResearchDecision.unavailable
cross_decision before MovingAverageState.unavailable = ResearchDecision.unavailable
cross_decision before now =
    if not (is_bullish before) && is_bullish now
    then entry_eligible
    else if is_bullish before && not (is_bullish now)
    then exit_eligible
    else hold_or_no_action

-- B02
unfoldable pub evaluate_cross :
    EvaluationInput → Option ResearchObservation → Result ResearchDecision
evaluate_cross inputs none = ok ResearchDecision.unavailable
evaluate_cross inputs (some previous) =
    if ltb inputs.decision_time previous.available_at then ok ResearchDecision.unavailable else (do
      now ← moving_average_state inputs.current.fast_ema inputs.current.slow_ema
      before ← moving_average_state previous.fast_ema previous.slow_ema
      ok (cross_decision before now))

abbrev pub channel_decision : ChannelState → ResearchDecision
channel_decision ChannelState.unavailable = ResearchDecision.unavailable
channel_decision ChannelState.upside_breakout = entry_eligible
channel_decision ChannelState.downside_breakout = exit_eligible
channel_decision ChannelState.inside = hold_or_no_action

-- B03 and B04
unfoldable pub evaluate_channel : ResearchObservation → Result ResearchDecision
evaluate_channel current = do
  channel ← channel_breakout_state current.close current.previous_high current.previous_low
  ok (channel_decision channel)

abbrev pub by_benchmark : BenchmarkId → EvaluationInput → Result ResearchDecision
by_benchmark b01 inputs = evaluate_hybrid inputs.current
by_benchmark b02 inputs = evaluate_cross inputs inputs.previous
by_benchmark _ inputs = evaluate_channel inputs.current

-- A value from the future, or too short a history, is no ground for a decision.
abbrev pub not_ready : EvaluationInput → BenchmarkDefinition → Bool
not_ready inputs definition =
    not inputs.bar_complete
    || ltb inputs.decision_time inputs.current.available_at
    || ltb inputs.current.observed_bar_count definition.required_observations

unfoldable pub evaluate : EvaluationInput → Result ResearchDecision
evaluate input = do
  inputs ← validate_input input
  definition ← or_raise (get_definition inputs.current.benchmark_id) "StopIteration"
  if not_ready inputs definition
      then ok ResearchDecision.unavailable
      else by_benchmark inputs.current.benchmark_id inputs
