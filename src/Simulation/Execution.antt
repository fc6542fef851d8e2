-- ===== src/Simulation/Execution.antt =====
-- simulation/execution.py: how an entry, a protective exit and a strategy exit are filled.
pub mod Entry
pub mod Protection
use Prim.Native.Nat.{max}
use adaptive_trading_ecosyst.Prelude.{
  ℕ, ◌+◌, Bool, true, false, ◌&&◌, Option, none, some, ltb, if◌then◌else◌, Result, ok, ◌>>=◌, ◌>>◌,
}
use adaptive_trading_ecosyst.Decimal.{Decimal, leb_d, ltb_d, ◌+ᵈ◌, ◌-ᵈ◌, ◌*ᵈ◌}
use adaptive_trading_ecosyst.Domain.Primitives.{UtcTimestamp}
use adaptive_trading_ecosyst.Domain.Arithmetic.{price_tick_floor, price_tick_ceiling}
use adaptive_trading_ecosyst.Benchmarks.Contracts.{
  TakeProfitKind, no_target, fixed_price_r_multiple,
}
use adaptive_trading_ecosyst.Simulation.Contracts.{
  SimulationBar, CostModel, StrategyExitIntent, SimulationSpec,
}
use adaptive_trading_ecosyst.Simulation.Fills.{
  ModeledEntryFill, validate_entry_fill, ProtectiveStop, validate_stop, TakeProfitTarget,
  validate_target, ExitReason, stop_loss, take_profit, next_observed_bar_open, bar_open,
  intrabar_level, ExitFill, validate_exit, SimulatedPosition, validate_position, two_d,
}

abbrev pub opening_time : UtcTimestamp → UtcTimestamp → UtcTimestamp
opening_time decision reference = max decision reference + 1

unfoldable pub build_target :
    TakeProfitKind → Decimal → Decimal → Decimal → Result (Option TakeProfitTarget)
build_target no_target price risk tick_size = ok none
build_target fixed_price_r_multiple price risk tick_size = do
  let raw = price +ᵈ two_d *ᵈ risk
  target ← price_tick_ceiling raw tick_size
  built ← validate_target (record { target_raw = raw; target = target })
  ok (some built)

abbrev pub modeled_price : SimulationSpec → SimulationBar → Decimal
modeled_price spec bar =
    bar.open_price +ᵈ spec.costs.entry_spread_price +ᵈ spec.costs.entry_slippage_price

abbrev pub modeled_entry : SimulationSpec → SimulationBar → ModeledEntryFill
modeled_entry spec bar = record {
  decision_time = spec.entry_intent.decision_time;
  price_reference_time = bar.open_time;
  modeled_execution_time = opening_time spec.entry_intent.decision_time bar.open_time;
  reference_open = bar.open_price;
  spread_component = spec.costs.entry_spread_price;
  adverse_slippage_component = spec.costs.entry_slippage_price;
  entry_fill = modeled_price spec bar;
}

-- `none` is an entry that would not stand above its stop.
unfoldable pub open_position : SimulationSpec → SimulationBar → Result (Option SimulatedPosition)
open_position spec bar = do
  let intent = spec.entry_intent
  let price = modeled_price spec bar
  stop ← price_tick_floor intent.signal_stop_raw spec.tick_size
  if leb_d price stop then ok none else (do
    entry ← validate_entry_fill (modeled_entry spec bar)
    let risk = price -ᵈ stop
    target ← build_target spec.benchmark.take_profit.kind price risk spec.tick_size
    protection ←
        validate_stop (record { signal_stop_raw = intent.signal_stop_raw; fixed_stop = stop })
    position ← validate_position (record {
      benchmark_id = spec.benchmark.benchmark_id;
      entry = entry;
      stop = protection;
      target = target;
      initial_price_risk = risk;
    })
    ok (some position))

-- `target is not None and value >= target.target`
abbrev pub reaches : Option TakeProfitTarget → Decimal → Bool
reaches none value = false
reaches (some t) value = leb_d t.target value

abbrev pub target_price : Option TakeProfitTarget → Decimal → Decimal
target_price none otherwise = otherwise
target_price (some t) otherwise = t.target

-- The four branches: the price, the reason, whether the open gapped, and whether the bar touched
-- both levels.
unfoldable pub triggered :
    SimulatedPosition → SimulationBar → Option (Decimal × ExitReason × Bool × Bool)
triggered position bar =
    let stop = position.stop.fixed_stop in
    let target = position.target in
    if leb_d bar.open_price stop
    then some (bar.open_price, stop_loss, true, false)
    else if reaches target bar.open_price
    then some (target_price target bar.open_price, take_profit, true, false)
    else if leb_d bar.low stop
    then some (stop, stop_loss, false, reaches target bar.high)
    else if reaches target bar.high
    then some (target_price target bar.high, take_profit, false, false)
    else none

unfoldable pub protective_fill :
    SimulatedPosition → SimulationBar → CostModel → Decimal × ExitReason × Bool × Bool → ExitFill
protective_fill position bar costs (price, reason, gap, ambiguous) = record {
  reason = reason;
  price_reference_time = if gap then bar.open_time else bar.close_time;
  modeled_execution_time =
      if gap then max position.entry.modeled_execution_time (bar.open_time + 1) else bar.close_time;
  decision_time = none;
  price_source = if gap then bar_open else intrabar_level;
  exit_price = price;
  spread_component = costs.exit_spread_price;
  adverse_slippage_component = costs.exit_slippage_price;
  gap_exit = gap;
  intrabar_ambiguous = ambiguous;
}

abbrev pub fill_of :
    SimulatedPosition
    → SimulationBar
    → CostModel
    → Option (Decimal × ExitReason × Bool × Bool)
    → Result (Option ExitFill)
fill_of position bar costs none = ok none
fill_of position bar costs (some t) =
    validate_exit (protective_fill position bar costs t) >>= λ f. ok (some f)

unfoldable pub protective_exit :
    SimulatedPosition → SimulationBar → CostModel → Result (Option ExitFill)
protective_exit position bar costs = fill_of position bar costs (triggered position bar)

unfoldable pub strategy_exit :
    StrategyExitIntent → SimulationBar → CostModel → ExitReason → Result ExitFill
strategy_exit intent bar costs reason = validate_exit (record {
  reason = reason;
  price_reference_time = bar.open_time;
  modeled_execution_time = opening_time intent.decision_time bar.open_time;
  decision_time = some intent.decision_time;
  price_source = next_observed_bar_open;
  exit_price = bar.open_price;
  spread_component = costs.exit_spread_price;
  adverse_slippage_component = costs.exit_slippage_price;
  gap_exit = false;
  intrabar_ambiguous = false;
})
