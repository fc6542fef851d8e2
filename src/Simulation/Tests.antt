-- ===== src/Simulation/Tests.antt =====
-- One episode of B03 that its stop closes, and the theorems of the simulation at it.
use adaptive_trading_ecosyst.Prelude.{
  ℕ, ◌↔◌, ◌+◌, ◌≡◌, refl, false, none, some, List, [], ◌∷◌, Result, ok, err,
}
use adaptive_trading_ecosyst.Prelude.Int.{pos, negsuc}
use adaptive_trading_ecosyst.Decimal.{Decimal, of_int, decimal_arithmetic, zero_d, one_d}
use adaptive_trading_ecosyst.Domain.Primitives.{
  hours, finite_decimal, positive_decimal, nonnegative_decimal,
}
use adaptive_trading_ecosyst.Domain.Arithmetic.{price_tick_floor, price_tick_ceiling, step_units}
use adaptive_trading_ecosyst.Benchmarks.Contracts.{
  b03, channel_trend, channel_trend_benchmark, channel_breakout, channel_exit_kind, protective_stop,
  channel_exit, BenchmarkDefinition, validate_definition, validate_entry_rule, validate_exit_rule,
  validate_take_profit, pinned, required_warmup, same_entry, same_exit, same_exits,
}
use adaptive_trading_ecosyst.Benchmarks.Registry.{definition}
use adaptive_trading_ecosyst.Simulation.Contracts.{
  SimulationBar, CostModel, SimulationSpec, validate_bar, validate_costs, validate_entry_intent,
  validate_exit_intent, ordered_bars, check_exits, validate_spec,
}
use adaptive_trading_ecosyst.Simulation.Fills.{
  validate_entry_fill, validate_stop, validate_target, validate_exit, validate_optional_target,
  validate_position, validate_episode, SimulatedPosition, ExitFill, stop_loss, intrabar_level,
}
use adaptive_trading_ecosyst.Simulation.Events.{
  EventKind, SimulationEvent, ordered_events, sort_events, insert_event, number_events,
  duplicate_key, before, same_key, boundary_status, signal_decision,
}
use adaptive_trading_ecosyst.Simulation.Execution.{
  open_position, build_target, triggered, protective_fill, protective_exit, strategy_exit,
}
use adaptive_trading_ecosyst.Simulation.Lifecycle.{
  simulate, after_signal, hold, conclude, unfilled, flatten, walk, bar_step, signal_index,
  signal_events, entry_events, SimulationResult, Loop,
}
use adaptive_trading_ecosyst.Simulation.Lifecycle.Walk.{decision_event}
use adaptive_trading_ecosyst.Simulation.Lifecycle.Status.{IsConsistent, simulate-IsConsistent}
use adaptive_trading_ecosyst.Simulation.Lifecycle.Records.{no_fill_end_of_data, completed, event}
use adaptive_trading_ecosyst.Simulation.Execution.Entry.{Opened, open_position-Opened}
use adaptive_trading_ecosyst.Simulation.Execution.Protection.{
  Pessimistic, protective_exit-Pessimistic, untouched_iff,
}
use adaptive_trading_ecosyst.Simulation.Execution.{reaches}
use adaptive_trading_ecosyst.Decimal.{leb_d}
use adaptive_trading_ecosyst.Simulation.Events.Order.{
  ordered_events-IsIncreasing, IsIncreasing, IsNumbered,
}
use mathlib.Core.List.{Perm}

abbrev price : ℕ → Decimal
price n = of_int (pos n)

abbrev bar_at : ℕ → ℕ → ℕ → ℕ → ℕ → SimulationBar
bar_at hour open_price high low close = record {
  open_time = hours hour;
  close_time = hours (hour + 1);
  open_price = price open_price;
  high = price high;
  low = price low;
  close = price close;
}

abbrev channel_20_10 : BenchmarkDefinition
channel_20_10 =
    definition b03 channel_trend channel_trend_benchmark
      (record {
        kind = channel_breakout;
        fast_ema_period = none;
        slow_ema_period = none;
        previous_high_period = some 20;
      })
      (record {
        kind = channel_exit_kind;
        previous_low_period = some 10;
        normal_exits = protective_stop ∷ channel_exit ∷ [];
      })
      21

-- The signal, the bar of the entry, and the bar that reaches the stop.
abbrev signal_bar : SimulationBar
signal_bar = bar_at 1 100 105 99 104

abbrev entry_bar : SimulationBar
entry_bar = bar_at 2 104 108 103 107

abbrev stop_bar : SimulationBar
stop_bar = bar_at 3 106 107 94 96

abbrev later_bar : SimulationBar
later_bar = bar_at 4 96 97 95 96

abbrev costs : CostModel
costs = record {
  entry_spread_price = one_d;
  entry_slippage_price = zero_d;
  exit_spread_price = one_d;
  exit_slippage_price = zero_d;
  commission_cash = zero_d;
  financing_cash = zero_d;
}

abbrev spec : SimulationSpec
spec = record {
  benchmark = channel_20_10;
  bars = signal_bar ∷ entry_bar ∷ stop_bar ∷ [];
  entry_intent = record {
    benchmark_id = b03;
    decision_time = hours 2;
    available_at = hours 2;
    signal_stop_raw = price 95;
  };
  strategy_exits = [];
  tick_size = one_d;
  costs = costs;
  flatten_at_boundary = false;
}

abbrev value_or : {A : Type 0} → A → Result A → A
value_or fallback (ok a) = a
value_or fallback (err e) = fallback

abbrev nothing : SimulationResult
nothing = record {
  status = no_fill_end_of_data;
  events = [];
  position = none;
  episode = none;
  pending_strategy_exit = none;
}

abbrev found : SimulationResult
found = value_or nothing (simulate spec)

-- What the validators and the operations of a run unfold.
unfoldable validation : Unit {0}
unfolding validate_spec validate_bar validate_costs validate_entry_intent validate_exit_intent
    ordered_bars check_exits validate_entry_fill validate_stop validate_target validate_exit
    validate_optional_target validate_position validate_episode positive_decimal nonnegative_decimal
    finite_decimal decimal_arithmetic validate_definition validate_entry_rule validate_exit_rule
    validate_take_profit pinned required_warmup same_entry same_exit same_exits definition
validation = tt

unfoldable running : Unit {0}
unfolding validation simulate after_signal hold conclude unfilled flatten walk bar_step
    decision_event signal_index signal_events entry_events open_position build_target triggered
    protective_fill protective_exit strategy_exit price_tick_floor price_tick_ceiling step_units
    ordered_events sort_events insert_event number_events duplicate_key before same_key
running = tt

runs : simulate spec ≡ ok found
unfolding running
runs = refl

status_runs : found.status ≡ completed
unfolding running
status_runs = refl

-- The stop at 95 is filled at its level, 10 below the entry at 105.
price_runs :
    elim found.episode [ none ↦ none | some e ↦ some e.gross_price_r ] ≡ some (of_int (negsuc 0))
unfolding running
price_runs = refl

simulate-IsConsistent_example : IsConsistent found
simulate-IsConsistent_example = simulate-IsConsistent spec found runs

abbrev opened : SimulatedPosition
opened = record {
  benchmark_id = b03;
  entry = record {
    decision_time = hours 2;
    price_reference_time = hours 2;
    modeled_execution_time = hours 2 + 1;
    reference_open = price 104;
    spread_component = one_d;
    adverse_slippage_component = zero_d;
    entry_fill = price 105;
  };
  stop = record { signal_stop_raw = price 95; fixed_stop = price 95 };
  target = none;
  initial_price_risk = price 10;
}

opens : open_position spec entry_bar ≡ ok (some opened)
unfolding running
opens = refl

open_position-Opened_example : Opened spec entry_bar opened
open_position-Opened_example = open_position-Opened spec entry_bar opened opens

abbrev stopped : ExitFill
stopped = record {
  reason = stop_loss;
  price_reference_time = hours 4;
  modeled_execution_time = hours 4;
  decision_time = none;
  price_source = intrabar_level;
  exit_price = price 95;
  spread_component = one_d;
  adverse_slippage_component = zero_d;
  gap_exit = false;
  intrabar_ambiguous = false;
}

stops : protective_exit opened stop_bar costs ≡ ok (some stopped)
unfolding running
stops = refl

protective_exit-Pessimistic_example : Pessimistic opened stop_bar (price 95) stop_loss false
protective_exit-Pessimistic_example =
    protective_exit-Pessimistic opened stop_bar costs stopped stops

entry_bar_valid : validate_bar entry_bar ≡ ok entry_bar
unfolding running
entry_bar_valid = refl

untouched_iff_example : (triggered opened entry_bar ≡ none) ↔ (
    (leb_d entry_bar.low opened.stop.fixed_stop ≡ false)
    × (reaches opened.target entry_bar.high ≡ false))
untouched_iff_example = untouched_iff opened entry_bar entry_bar entry_bar_valid

abbrev left : Loop
left = record {
  exit = some (stopped, EventKind.stop_exit);
  pending = none;
  index = 2;
  decisions = [];
}

abbrev unsorted : List SimulationEvent
unsorted =
    event boundary_status (hours 3) 2 "OPEN_AT_EVALUATION_BOUNDARY"
    ∷ event signal_decision (hours 2) 0 "SIGNAL_DECISION"
    ∷ []

abbrev sorted : List SimulationEvent
sorted =
    event signal_decision (hours 2) 0 "SIGNAL_DECISION"
    ∷ record (event boundary_status (hours 3) 2 "OPEN_AT_EVALUATION_BOUNDARY") { sequence = 1 }
    ∷ []

sorts : ordered_events unsorted ≡ ok sorted
unfolding running
sorts = refl

ordered_events-IsIncreasing_example :
    IsIncreasing sorted
    × IsNumbered 0 sorted
    × (ordered : List SimulationEvent) × Perm ordered unsorted
    × (sorted ≡ number_events 0 ordered)
ordered_events-IsIncreasing_example = ordered_events-IsIncreasing unsorted sorted sorts
