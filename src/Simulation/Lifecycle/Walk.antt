-- ===== src/Simulation/Lifecycle/Walk.antt =====
-- The loop over the bars of simulation/lifecycle.py.
use adaptive_trading_ecosyst.Prelude.{
  ℕ, ◌+◌, ◌≡◌, Option, none, some, List, [], ◌∷◌, ◌++◌, ◌==◌, find_first, if◌then◌else◌, Result, ok,
  ◌>>=◌,
}
use adaptive_trading_ecosyst.Benchmarks.Contracts.{same_id, b02}
use adaptive_trading_ecosyst.Simulation.Contracts.{
  SimulationBar, StrategyExitIntent, SimulationSpec,
}
use adaptive_trading_ecosyst.Simulation.Fills.{
  ExitReason, trend_exit, channel_exit, ExitFill, is_stop_loss, SimulatedPosition,
}
use adaptive_trading_ecosyst.Simulation.Events.{
  EventKind, stop_exit, target_exit, strategy_exit_decision, strategy_exit_fill, SimulationEvent,
}
use adaptive_trading_ecosyst.Simulation.Execution.{protective_exit, strategy_exit}
use adaptive_trading_ecosyst.Simulation.Lifecycle.Records.{Loop, event, benchmark_name}

-- One bar ends the loop with an exit, or goes on with the intent that the bar's close decided.
pub data BarStep : Type 0 where
  leave : ExitFill → EventKind → BarStep
  stay : Option StrategyExitIntent → BarStep

abbrev pub exit_reason : SimulatedPosition → ExitReason
exit_reason position = if same_id position.benchmark_id b02 then trend_exit else channel_exit

abbrev pub decided_at : SimulationSpec → SimulationBar → Option StrategyExitIntent
decided_at spec bar = find_first (λ i. i.decision_time == bar.close_time) spec.strategy_exits

abbrev pub protected : SimulationSpec → SimulationBar → Option ExitFill → Result BarStep
protected spec bar (some fill) =
    ok (leave fill (if is_stop_loss fill.reason then stop_exit else target_exit))
protected spec bar none = ok (stay (decided_at spec bar))

unfoldable pub bar_step :
    SimulatedPosition → SimulationSpec → Option StrategyExitIntent → SimulationBar → Result BarStep
bar_step position spec (some pending) bar =
    strategy_exit pending bar spec.costs (exit_reason position) >>= λ fill.
    ok (leave fill strategy_exit_fill)
bar_step position spec none bar = protective_exit position bar spec.costs >>= protected spec bar

unfoldable pub decision_event : Option StrategyExitIntent → SimulationBar → ℕ → List SimulationEvent
decision_event none bar index = []
decision_event (some i) bar index =
    event strategy_exit_decision bar.close_time index (benchmark_name i.benchmark_id) ∷ []

abbrev pub prepend : List SimulationEvent → Loop → Loop
prepend es loop = record loop { decisions = es ++ loop.decisions }

abbrev pub exited : ExitFill → EventKind → ℕ → Loop
exited fill kind index = record {
  exit = some (fill, kind);
  pending = none;
  index = index;
  decisions = [];
}

-- The bars from index `last + 1` on.
unfoldable pub walk :
    SimulatedPosition
    → SimulationSpec
    → ℕ
    → Option StrategyExitIntent
    → List SimulationBar
    → Result Loop
walk position spec last pending [] =
    ok (record { exit = none; pending = pending; index = last; decisions = [] })
walk position spec last pending (bar ∷ bars) = bar_step position spec pending bar >>= elim [
  | leave fill kind ↦ ok (exited fill kind (last + 1))
  | stay next ↦ walk position spec (last + 1) next bars >>= λ loop.
      ok (prepend (decision_event next bar (last + 1)) loop)
]

module _ (p : SimulatedPosition) (s : SimulationSpec) (fill : ExitFill) (kind : EventKind) where
  -- What `walk-append` states of the bars `xs`.
  abbrev Settled : ℕ → Option StrategyExitIntent → List SimulationBar → List SimulationBar → Type 0
  Settled last pending xs ys =
      (loop : Loop)
      → walk p s last pending xs ≡ ok loop
      → loop.exit ≡ some (fill, kind)
      → walk p s last pending (xs ++ ys) ≡ ok loop
