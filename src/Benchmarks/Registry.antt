-- ===== src/Benchmarks/Registry.antt =====
-- benchmarks/registry.py: the four preregistered definitions.
pub mod Pinned
use adaptive_trading_ecosyst.Prelude.{
  ℕ, true, false, Option, none, some, List, [], ◌∷◌, if◌then◌else◌, find_first,
}
use adaptive_trading_ecosyst.Benchmarks.Contracts.{
  BenchmarkId, b01, b02, b03, b04, BenchmarkFamily, legacy_hybrid, moving_average_trend,
  channel_trend, OriginCategory, project_legacy_hypothesis, moving_average_trend_benchmark,
  channel_trend_benchmark, hybrid_trend_and_breakout, bullish_ema_cross, channel_breakout,
  none_kind, bearish_or_equal_ema_cross, channel_exit_kind, stop_loss, take_profit, protective_stop,
  trend_exit, channel_exit, no_target, fixed_price_r_multiple, EntryRule, ExitRule,
  TakeProfitPolicy, BenchmarkDefinition, same_id,
}

abbrev pub no_take_profit : TakeProfitPolicy
no_take_profit = record {
  kind = no_target;
  r_multiple = false;
  initial_price_risk_basis = false;
  target_basis = false;
}

abbrev pub double_risk_target : TakeProfitPolicy
double_risk_target = record {
  kind = fixed_price_r_multiple;
  r_multiple = true;
  initial_price_risk_basis = true;
  target_basis = true;
}

-- `_definition`
unfoldable pub definition :
    BenchmarkId → BenchmarkFamily → OriginCategory → EntryRule → ExitRule → ℕ → BenchmarkDefinition
definition benchmark_id family origin entry exit_rule warmup = record {
  benchmark_id = benchmark_id;
  family = family;
  origin_category = origin;
  entry_rule = entry;
  exit_rule = exit_rule;
  take_profit = if same_id benchmark_id b01 then double_risk_target else no_take_profit;
  required_observations = warmup;
}

unfoldable pub registry : List BenchmarkDefinition
unfolding definition
registry =
    definition b01 legacy_hybrid project_legacy_hypothesis
      (record {
        kind = hybrid_trend_and_breakout;
        fast_ema_period = some 50;
        slow_ema_period = some 200;
        previous_high_period = some 20;
      })
      (record {
        kind = none_kind;
        previous_low_period = none;
        normal_exits = stop_loss ∷ take_profit ∷ [];
      })
      250
    ∷ definition b02 moving_average_trend moving_average_trend_benchmark
        (record {
          kind = bullish_ema_cross;
          fast_ema_period = some 50;
          slow_ema_period = some 200;
          previous_high_period = none;
        })
        (record {
          kind = bearish_or_equal_ema_cross;
          previous_low_period = none;
          normal_exits = protective_stop ∷ trend_exit ∷ [];
        })
        201
    ∷ definition b03 channel_trend channel_trend_benchmark
        (record {
          kind = channel_breakout;
          fast_ema_period = none;
          slow_ema_period = none;
          previous_high_period = some 20;
        })
        (record {
          kind = channel_exit_kind;
          previous_low_period = some 10;
          normal_exits = protective_stop ∷ channel_exit ∷ [];
        })
        21
    ∷ definition b04 channel_trend channel_trend_benchmark
        (record {
          kind = channel_breakout;
          fast_ema_period = none;
          slow_ema_period = none;
          previous_high_period = some 55;
        })
        (record {
          kind = channel_exit_kind;
          previous_low_period = some 20;
          normal_exits = protective_stop ∷ channel_exit ∷ [];
        })
        56
    ∷ []

-- `next(item for item in REGISTRY.definitions if item.benchmark_id == benchmark_id)`
unfoldable pub get_definition : BenchmarkId → Option BenchmarkDefinition
unfolding registry
get_definition i = find_first (λ d. same_id d.benchmark_id i) registry
