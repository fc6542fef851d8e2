-- ===== src/Simulation/Contracts.antt =====
-- simulation/contracts.py: the inputs of a simulation. The `validate` functions are the model
-- validators with the bounds of the fields. Fields of one possible value are left out.
use adaptive_trading_ecosyst.Prelude.{
  ◌+◌, ◌%◌, Bool, true, not, ◌&&◌, ◌||◌, List, [], ◌∷◌, ltb, leb, ◌==◌, any_of, Result, ok, ◌>>◌,
  raise_if, traverse,
}
use adaptive_trading_ecosyst.Decimal.{Decimal, leb_d, min_d, max_d}
use adaptive_trading_ecosyst.Domain.Primitives.{
  UtcTimestamp, hours, finite_decimal, positive_decimal, nonnegative_decimal,
}
use adaptive_trading_ecosyst.Benchmarks.Contracts.{
  BenchmarkId, same_id, b01, BenchmarkDefinition, validate_definition,
}

pub record SimulationBar : Type 0 where
  pub open_time : UtcTimestamp
  pub close_time : UtcTimestamp
  pub open_price : Decimal
  pub high : Decimal
  pub low : Decimal
  pub close : Decimal

-- `low <= min(open, close) <= max(open, close) <= high`
abbrev pub well_shaped : SimulationBar → Bool
well_shaped b =
    leb_d b.low (min_d b.open_price b.close)
    && leb_d (min_d b.open_price b.close) (max_d b.open_price b.close)
    && leb_d (max_d b.open_price b.close) b.high

unfoldable pub validate_bar : SimulationBar → Result SimulationBar
validate_bar b = do
  positive_decimal b.open_price
  positive_decimal b.high
  positive_decimal b.low
  positive_decimal b.close
  raise_if (not (b.close_time == b.open_time + hours 1)) "H1_DURATION_REQUIRED"
  raise_if (not (b.open_time % hours 1 == 0)) "H1_ALIGNMENT_REQUIRED"
  raise_if (not (well_shaped b)) "INVALID_OHLC"
  ok b

pub record CostModel : Type 0 where
  pub entry_spread_price : Decimal
  pub entry_slippage_price : Decimal
  pub exit_spread_price : Decimal
  pub exit_slippage_price : Decimal
  pub commission_cash : Decimal
  pub financing_cash : Decimal

unfoldable pub validate_costs : CostModel → Result CostModel
validate_costs c = do
  nonnegative_decimal c.entry_spread_price
  nonnegative_decimal c.entry_slippage_price
  nonnegative_decimal c.exit_spread_price
  nonnegative_decimal c.exit_slippage_price
  nonnegative_decimal c.commission_cash
  finite_decimal c.financing_cash
  ok c

pub record EntryIntent : Type 0 where
  pub benchmark_id : BenchmarkId
  pub decision_time : UtcTimestamp
  pub available_at : UtcTimestamp
  pub signal_stop_raw : Decimal

unfoldable pub validate_entry_intent : EntryIntent → Result EntryIntent
validate_entry_intent i = do
  positive_decimal i.signal_stop_raw
  raise_if (not (i.available_at == i.decision_time)) "ELIGIBILITY_MUST_BE_KNOWN_AT_SIGNAL_CLOSE"
  ok i

pub record StrategyExitIntent : Type 0 where
  pub benchmark_id : BenchmarkId
  pub decision_time : UtcTimestamp
  pub available_at : UtcTimestamp

unfoldable pub validate_exit_intent : StrategyExitIntent → Result StrategyExitIntent
validate_exit_intent i = do
  raise_if (not (i.available_at == i.decision_time)) "EXIT_ELIGIBILITY_MUST_BE_KNOWN_AT_CLOSE"
  raise_if (same_id i.benchmark_id b01) "B01_HAS_NO_STRATEGY_EXIT"
  ok i

pub record SimulationSpec : Type 0 where
  pub benchmark : BenchmarkDefinition
  pub bars : List SimulationBar
  pub entry_intent : EntryIntent
  pub strategy_exits : List StrategyExitIntent
  pub tick_size : Decimal
  pub costs : CostModel
  pub flatten_at_boundary : Bool

-- `for previous, current in zip(self.bars, self.bars[1:])`
unfoldable pub ordered_bars : List SimulationBar → Bool
ordered_bars [] = true
ordered_bars (b ∷ []) = true
ordered_bars (b ∷ c ∷ bars) = not (ltb c.open_time b.close_time) && ordered_bars (c ∷ bars)

-- `time in {bar.close_time for bar in self.bars}`
abbrev pub among_closes : UtcTimestamp → List SimulationBar → Bool
among_closes time bars = any_of (λ b. b.close_time == time) bars

-- The loop over `self.strategy_exits`, from the time before.
unfoldable pub check_exits :
    BenchmarkId → List SimulationBar → UtcTimestamp → List StrategyExitIntent → Result (Unit {0})
check_exits benchmark bars previous [] = ok tt
check_exits benchmark bars previous (i ∷ intents) = do
  raise_if (not (same_id i.benchmark_id benchmark)) "EXIT_BENCHMARK_MISMATCH"
  raise_if (not (among_closes i.decision_time bars) || leb i.decision_time previous)
      "EXIT_INTENTS_MUST_BE_UNIQUE_ORDERED_COMPLETED_BARS_AFTER_ENTRY"
  check_exits benchmark bars i.decision_time intents

unfoldable pub validate_spec : SimulationSpec → Result SimulationSpec
validate_spec s = do
  validate_definition s.benchmark
  traverse validate_bar s.bars
  validate_entry_intent s.entry_intent
  traverse validate_exit_intent s.strategy_exits
  positive_decimal s.tick_size
  validate_costs s.costs
  raise_if (not (same_id s.benchmark.benchmark_id s.entry_intent.benchmark_id)) "BENCHMARK_MISMATCH"
  raise_if (not (ordered_bars s.bars)) "BARS_MUST_BE_ORDERED_NONOVERLAPPING"
  raise_if (not (among_closes s.entry_intent.decision_time s.bars))
      "ENTRY_MUST_MATCH_COMPLETED_SIGNAL_BAR"
  check_exits s.benchmark.benchmark_id s.bars s.entry_intent.decision_time s.strategy_exits
  ok s
