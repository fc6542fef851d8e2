-- ===== src/Simulation/Lifecycle/Records.antt =====
-- The results of simulation/contracts.py, and the state that the loop of `simulate` leaves.
use adaptive_trading_ecosyst.Prelude.{ℕ, Option, none, List, String}
use adaptive_trading_ecosyst.Domain.Primitives.{UtcTimestamp}
use adaptive_trading_ecosyst.Benchmarks.Contracts.{BenchmarkId, b01, b02, b03, b04}
use adaptive_trading_ecosyst.Simulation.Contracts.{StrategyExitIntent}
use adaptive_trading_ecosyst.Simulation.Fills.{
  ExitReason, ExitFill, SimulatedPosition, CompletedEpisode,
}
use adaptive_trading_ecosyst.Simulation.Events.{EventKind, SimulationEvent}

pub data ResultStatus : Type 0 where
  no_fill_end_of_data invalid_initial_price_risk : ResultStatus
  open_at_evaluation_boundary completed : ResultStatus

-- The hash of the specification, which a result carries too, is left out.
pub record SimulationResult : Type 0 where
  pub status : ResultStatus
  pub events : List SimulationEvent
  pub position : Option SimulatedPosition
  pub episode : Option CompletedEpisode
  pub pending_strategy_exit : Option StrategyExitIntent

-- What stands in the variables when the loop over the bars ends: the exit with the kind of its
-- event, the pending intent, the last index, and the decision events that it appended.
pub record Loop : Type 0 where
  pub exit : Option (ExitFill × EventKind)
  pub pending : Option StrategyExitIntent
  pub index : ℕ
  pub decisions : List SimulationEvent

abbrev pub event : EventKind → UtcTimestamp → ℕ → String → SimulationEvent
event kind time bar_index detail = record {
  sequence = 0;
  kind = kind;
  time = time;
  bar_index = bar_index;
  detail = detail;
  entry = none;
  exit = none;
}

abbrev pub kind_name : EventKind → String
kind_name EventKind.signal_decision = "SIGNAL_DECISION"
kind_name EventKind.entry_intent = "ENTRY_INTENT"
kind_name EventKind.entry_fill = "ENTRY_FILL"
kind_name EventKind.protective_stop_active = "PROTECTIVE_STOP_ACTIVE"
kind_name EventKind.take_profit_active = "TAKE_PROFIT_ACTIVE"
kind_name EventKind.stop_exit = "STOP_EXIT"
kind_name EventKind.target_exit = "TARGET_EXIT"
kind_name EventKind.strategy_exit_decision = "STRATEGY_EXIT_DECISION"
kind_name EventKind.strategy_exit_fill = "STRATEGY_EXIT_FILL"
kind_name EventKind.evaluation_boundary = "EVALUATION_BOUNDARY"
kind_name EventKind.boundary_status = "BOUNDARY_STATUS"

abbrev pub status_name : ResultStatus → String
status_name no_fill_end_of_data = "NO_FILL_END_OF_DATA"
status_name invalid_initial_price_risk = "INVALID_INITIAL_PRICE_RISK"
status_name open_at_evaluation_boundary = "OPEN_AT_EVALUATION_BOUNDARY"
status_name completed = "COMPLETED"

abbrev pub reason_name : ExitReason → String
reason_name ExitReason.stop_loss = "STOP_LOSS"
reason_name ExitReason.take_profit = "TAKE_PROFIT"
reason_name ExitReason.trend_exit = "TREND_EXIT"
reason_name ExitReason.channel_exit = "CHANNEL_EXIT"
reason_name ExitReason.evaluation_boundary = "EVALUATION_BOUNDARY"

abbrev pub benchmark_name : BenchmarkId → String
benchmark_name b01 = "B01_LEGACY_HYBRID_V0"
benchmark_name b02 = "B02_EMA_TREND_50_200"
benchmark_name b03 = "B03_CHANNEL_20_10"
benchmark_name b04 = "B04_CHANNEL_55_20"
