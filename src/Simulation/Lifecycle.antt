-- ===== src/Simulation/Lifecycle.antt =====
-- simulation/lifecycle.py: one episode from the signal bar to its exit or to the end of the data.
pub mod Walk
pub mod Records
pub mod Status
unfoldable pub use Walk.{walk, bar_step}
pub use Records.{ResultStatus, SimulationResult, Loop, event, kind_name, status_name}
use adaptive_trading_ecosyst.Prelude.{
  ℕ, ◌+◌, ◌-◌, Bool, true, false, ◌&&◌, Option, none, some, is_none, List, [], ◌∷◌, ◌++◌, ◌==◌,
  length, drop, last?, if◌then◌else◌, String, Result, ok, err, ◌>>=◌, ◌>>◌, or_raise,
}
use adaptive_trading_ecosyst.Decimal.{Decimal, ◌-ᵈ◌, div_d}
use adaptive_trading_ecosyst.Domain.Primitives.{UtcTimestamp}
use adaptive_trading_ecosyst.Simulation.Contracts.{
  SimulationBar, StrategyExitIntent, SimulationSpec, validate_spec,
}
use adaptive_trading_ecosyst.Simulation.Fills.{
  ExitReason, evaluation_boundary, boundary_close, ExitFill, validate_exit, SimulatedPosition,
  CompletedEpisode, validate_episode,
}
use adaptive_trading_ecosyst.Simulation.Events.{
  EventKind, signal_decision, entry_intent, entry_fill, protective_stop_active, take_profit_active,
  boundary_status, SimulationEvent, ordered_events,
}
use adaptive_trading_ecosyst.Simulation.Execution.{open_position}
use adaptive_trading_ecosyst.Simulation.Lifecycle.Records.{
  no_fill_end_of_data, invalid_initial_price_risk, open_at_evaluation_boundary, completed,
  reason_name,
}

-- `next(i for i, bar in enumerate(spec.bars) if bar.close_time == intent.decision_time)`
unfoldable pub signal_index : UtcTimestamp → List SimulationBar → Option ℕ
signal_index time [] = none
signal_index time (b ∷ bars) =
    if b.close_time == time
    then some 0
    else elim (signal_index time bars) [ none ↦ none | some i ↦ some (i + 1) ]

unfoldable pub signal_events : SimulationSpec → ℕ → List SimulationEvent
signal_events spec index =
    event signal_decision spec.entry_intent.decision_time index (kind_name signal_decision)
    ∷ event entry_intent spec.entry_intent.decision_time index (kind_name entry_intent)
    ∷ []

-- A result without an episode and, but at the boundary, without a position.
unfoldable pub unfilled :
    ResultStatus → List SimulationEvent → SimulationEvent → Result SimulationResult
unfilled status events last = do
  ordered ← ordered_events (events ++ last ∷ [])
  ok (record {
    status = status;
    events = ordered;
    position = none;
    episode = none;
    pending_strategy_exit = none;
  })

unfoldable pub entry_events : SimulatedPosition → ℕ → List SimulationEvent
entry_events position index =
    let time = position.entry.modeled_execution_time in
    let filled = event entry_fill time index (kind_name entry_fill) in
    record filled { entry = some position.entry }
    ∷ event protective_stop_active time index (kind_name protective_stop_active)
    ∷ (if is_none position.target
        then []
        else event take_profit_active time index (kind_name take_profit_active) ∷ [])

-- `if exit_fill is None and spec.flatten_at_boundary`
unfoldable pub flatten : SimulationSpec → Loop → SimulationBar → Result Loop
flatten spec loop bar =
    if is_none loop.exit && spec.flatten_at_boundary
    then (do
      fill ← validate_exit (record {
        reason = evaluation_boundary;
        price_reference_time = bar.close_time;
        modeled_execution_time = bar.close_time + 1;
        decision_time = none;
        price_source = boundary_close;
        exit_price = bar.close;
        spread_component = spec.costs.exit_spread_price;
        adverse_slippage_component = spec.costs.exit_slippage_price;
        gap_exit = false;
        intrabar_ambiguous = false;
      })
      ok (record loop { exit = some (fill, EventKind.evaluation_boundary); pending = none }))
    else ok loop

unfoldable pub conclude :
    SimulationSpec
    → SimulatedPosition
    → List SimulationEvent
    → SimulationBar
    → Loop
    → Option (ExitFill × EventKind)
    → Result SimulationResult
conclude spec position events bar loop (some (fill, kind)) = do
  gross ←
      or_raise (div_d (fill.exit_price -ᵈ position.entry.entry_fill) position.initial_price_risk)
        "DivisionByZero"
  episode ←
      validate_episode
        (record { position = position; exit = fill; gross_price_r = gross; costs = spec.costs })
  let left = event kind fill.modeled_execution_time loop.index (reason_name fill.reason)
  ordered ← ordered_events (events ++ record left { exit = some fill } ∷ [])
  ok (record {
    status = completed;
    events = ordered;
    position = none;
    episode = some episode;
    pending_strategy_exit = none;
  })
conclude spec position events bar loop none = do
  ordered ← ordered_events (
      events
      ++ event boundary_status bar.close_time (length spec.bars - 1)
          (status_name open_at_evaluation_boundary)
        ∷ [])
  ok (record {
    status = open_at_evaluation_boundary;
    events = ordered;
    position = some position;
    episode = none;
    pending_strategy_exit = loop.pending;
  })

-- From the bar after the signal on, `bars`, with a position opened on the first of them.
unfoldable pub hold :
    SimulationSpec → ℕ → List SimulationBar → SimulatedPosition → Result SimulationResult
hold spec signal bars position = do
  last ← or_raise (last? spec.bars) "IndexError"
  walked ← walk position spec signal none bars
  loop ← flatten spec walked last
  conclude spec position
      (signal_events spec signal ++ (entry_events position (signal + 1) ++ walked.decisions)) last
      loop loop.exit

abbrev pub enter :
    SimulationSpec
    → ℕ
    → SimulationBar
    → List SimulationBar
    → Option SimulatedPosition
    → Result SimulationResult
enter spec signal bar bars none = unfilled invalid_initial_price_risk (signal_events spec signal) (
    event boundary_status (bar.open_time + 1) (signal + 1) (status_name invalid_initial_price_risk))
enter spec signal bar bars (some position) = hold spec signal (bar ∷ bars) position

unfoldable pub after_signal : SimulationSpec → ℕ → List SimulationBar → Result SimulationResult
after_signal spec signal [] =
    unfilled no_fill_end_of_data (signal_events spec signal) (
      event boundary_status spec.entry_intent.decision_time signal
        (status_name no_fill_end_of_data))
after_signal spec signal (bar ∷ bars) = open_position spec bar >>= enter spec signal bar bars

unfoldable pub simulate : SimulationSpec → Result SimulationResult
simulate input = do
  spec ← validate_spec input
  signal ← or_raise (signal_index spec.entry_intent.decision_time spec.bars) "StopIteration"
  after_signal spec signal (drop (signal + 1) spec.bars)
