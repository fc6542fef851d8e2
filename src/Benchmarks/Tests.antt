-- ===== src/Benchmarks/Tests.antt =====
-- A breakout of B03 and the theorems of the benchmarks at it.
use adaptive_trading_ecosyst.Prelude.{ℕ, ◌≤◌, ◌≡◌, refl, true, none, some, [], ◌∷◌, ok}
use adaptive_trading_ecosyst.Prelude.Int.{pos}
use adaptive_trading_ecosyst.Decimal.{Decimal, of_int, decimal_arithmetic}
use adaptive_trading_ecosyst.Domain.Primitives.{hours, finite_decimal, positive_decimal}
use adaptive_trading_ecosyst.Benchmarks.Contracts.{
  b02, b03, channel_trend, channel_trend_benchmark, channel_breakout, channel_exit_kind,
  protective_stop, channel_exit, BenchmarkDefinition, validate_definition, validate_entry_rule,
  validate_exit_rule, validate_take_profit, pinned, required_warmup, same_entry, same_exit,
  same_exits,
}
use adaptive_trading_ecosyst.Benchmarks.Registry.{registry, definition, get_definition}
use adaptive_trading_ecosyst.Benchmarks.Registry.Pinned.{registered-valid, valid-registered}
use adaptive_trading_ecosyst.Benchmarks.Observations.{
  ResearchDecision, entry_eligible, EvaluationInput, validate_input, validate_observation,
  validate_previous, optional_price,
}
use adaptive_trading_ecosyst.Benchmarks.States.{optional, channel_breakout_state, crossed}
use adaptive_trading_ecosyst.Benchmarks.Rules.{evaluate, evaluate_channel}
use adaptive_trading_ecosyst.Benchmarks.Rules.Causality.{ReadsPrevious, decision_is_causal}
use adaptive_trading_ecosyst.Benchmarks.Rules.Total.{evaluate_total}
use adaptive_trading_ecosyst.Benchmarks.Rules.Meaning.{EntryMeans, entry_decision_meaning}

abbrev price : ℕ → Decimal
price n = of_int (pos n)

-- Close 120 above a channel from 90 to 110, after 30 bars.
abbrev breakout : EvaluationInput
breakout = record {
  current = record {
    benchmark_id = b03;
    observed_bar_count = 30;
    bar_close_time = hours 30;
    available_at = hours 30;
    close = some (price 120);
    fast_ema = none;
    slow_ema = none;
    previous_high = some (price 110);
    previous_low = some (price 90);
  };
  previous = none;
  decision_time = hours 30;
  bar_complete = true;
}

unfoldable evaluating : Unit {0}
unfolding evaluate evaluate_channel validate_input validate_observation validate_previous
    optional_price positive_decimal finite_decimal decimal_arithmetic optional
    channel_breakout_state crossed get_definition registry definition validate_definition
    validate_entry_rule validate_exit_rule validate_take_profit pinned required_warmup same_entry
    same_exit same_exits
evaluating = tt

breaks_out : evaluate breakout ≡ ok entry_eligible
unfolding evaluating
breaks_out = refl

breakout_valid : validate_input breakout ≡ ok breakout
unfolding evaluating
breakout_valid = refl

decision_is_causal_example :
    (breakout.bar_complete ≡ true)
    × (breakout.current.available_at ≤ breakout.decision_time)
    × ReadsPrevious breakout.current.benchmark_id breakout entry_eligible
    × (b : BenchmarkDefinition) × (get_definition breakout.current.benchmark_id ≡ some b)
    × (b.required_observations ≤ breakout.current.observed_bar_count)
decision_is_causal_example = decision_is_causal breakout entry_eligible breaks_out (λ e. cc e)

evaluate_total_example : (d : ResearchDecision) × (evaluate breakout ≡ ok d)
evaluate_total_example = evaluate_total breakout breakout breakout_valid

entry_decision_meaning_example : EntryMeans b03 breakout
entry_decision_meaning_example = entry_decision_meaning breakout breaks_out

registered-valid_example :
    (d : BenchmarkDefinition) × (get_definition b02 ≡ some d)
    × (d.benchmark_id ≡ b02)
    × (validate_definition d ≡ ok d)
registered-valid_example = registered-valid b02

abbrev channel_20_10 : BenchmarkDefinition
channel_20_10 =
    definition b03 channel_trend channel_trend_benchmark
      (record {
        kind = channel_breakout;
        fast_ema_period = none;
        slow_ema_period = none;
        previous_high_period = some 20;
      })
      (record {
        kind = channel_exit_kind;
        previous_low_period = some 10;
        normal_exits = protective_stop ∷ channel_exit ∷ [];
      })
      21

channel_valid : validate_definition channel_20_10 ≡ ok channel_20_10
unfolding evaluating
channel_valid = refl

valid-registered_example : get_definition channel_20_10.benchmark_id ≡ some channel_20_10
valid-registered_example = valid-registered channel_20_10 channel_20_10 channel_valid
