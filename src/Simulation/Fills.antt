-- ===== src/Simulation/Fills.antt =====
-- simulation/contracts.py: the fills, the position and the episode, with their model validators.
use Prim.Native.Nat.{max}
use adaptive_trading_ecosyst.Prelude.{
  ◌+◌, Bool, true, false, not, ◌&&◌, ◌||◌, Option, none, some, is_none, ltb, ◌==◌, if◌then◌else◌,
  Result, ok, ◌>>=◌, ◌>>◌, raise_if, or_raise,
}
use adaptive_trading_ecosyst.Prelude.Int.{pos}
use adaptive_trading_ecosyst.Decimal.{Decimal, ltb_d, eq_d, of_int, ◌+ᵈ◌, ◌-ᵈ◌, ◌*ᵈ◌, div_d}
use adaptive_trading_ecosyst.Domain.Primitives.{
  UtcTimestamp, finite_decimal, positive_decimal, nonnegative_decimal,
}
use adaptive_trading_ecosyst.Benchmarks.Contracts.{BenchmarkId, same_id, b01}
use adaptive_trading_ecosyst.Simulation.Contracts.{CostModel, validate_costs}

pub record ModeledEntryFill : Type 0 where
  pub decision_time : UtcTimestamp
  pub price_reference_time : UtcTimestamp
  pub modeled_execution_time : UtcTimestamp
  pub reference_open : Decimal
  pub spread_component : Decimal
  pub adverse_slippage_component : Decimal
  pub entry_fill : Decimal

unfoldable pub validate_entry_fill : ModeledEntryFill → Result ModeledEntryFill
validate_entry_fill f = do
  positive_decimal f.reference_open
  nonnegative_decimal f.spread_component
  nonnegative_decimal f.adverse_slippage_component
  positive_decimal f.entry_fill
  raise_if
      (ltb f.price_reference_time f.decision_time
        || not (f.modeled_execution_time == max f.decision_time f.price_reference_time + 1))
      "INVALID_MODELED_OPEN_TIME"
  raise_if
      (not (
        eq_d f.entry_fill (f.reference_open +ᵈ f.spread_component +ᵈ f.adverse_slippage_component)))
      "ENTRY_COMPONENT_MISMATCH"
  ok f

pub record ProtectiveStop : Type 0 where
  pub signal_stop_raw : Decimal
  pub fixed_stop : Decimal

unfoldable pub validate_stop : ProtectiveStop → Result ProtectiveStop
validate_stop s = do
  positive_decimal s.signal_stop_raw
  nonnegative_decimal s.fixed_stop
  raise_if (ltb_d s.signal_stop_raw s.fixed_stop) "STOP_MUST_ROUND_DOWN"
  ok s

pub record TakeProfitTarget : Type 0 where
  pub target_raw : Decimal
  pub target : Decimal

unfoldable pub validate_target : TakeProfitTarget → Result TakeProfitTarget
validate_target t = do
  positive_decimal t.target_raw
  positive_decimal t.target
  raise_if (ltb_d t.target t.target_raw) "TARGET_MUST_ROUND_UP"
  ok t

pub data ExitReason : Type 0 where
  stop_loss take_profit trend_exit channel_exit evaluation_boundary : ExitReason

pub data PriceSource : Type 0 where
  next_observed_bar_open bar_open intrabar_level boundary_close : PriceSource

pub record ExitFill : Type 0 where
  pub reason : ExitReason
  pub price_reference_time : UtcTimestamp
  pub modeled_execution_time : UtcTimestamp
  pub decision_time : Option UtcTimestamp
  pub price_source : PriceSource
  pub exit_price : Decimal
  pub spread_component : Decimal
  pub adverse_slippage_component : Decimal
  pub gap_exit : Bool
  pub intrabar_ambiguous : Bool

abbrev pub is_stop_loss : ExitReason → Bool
is_stop_loss stop_loss = true
is_stop_loss _ = false

abbrev pub is_next_open : PriceSource → Bool
is_next_open next_observed_bar_open = true
is_next_open _ = false

-- `decision_time is None or reference < decision_time`
abbrev pub undecided : Option UtcTimestamp → UtcTimestamp → Bool
undecided none reference = true
undecided (some decided) reference = ltb reference decided

unfoldable pub validate_exit : ExitFill → Result ExitFill
validate_exit f = do
  nonnegative_decimal f.exit_price
  nonnegative_decimal f.spread_component
  nonnegative_decimal f.adverse_slippage_component
  raise_if (ltb f.modeled_execution_time f.price_reference_time) "EXECUTION_BEFORE_REFERENCE"
  raise_if (f.intrabar_ambiguous && (f.gap_exit || not (is_stop_loss f.reason)))
      "AMBIGUITY_REQUIRES_INTRABAR_STOP_FIRST"
  raise_if (is_next_open f.price_source && undecided f.decision_time f.price_reference_time)
      "STRATEGY_EXIT_REQUIRES_PRIOR_DECISION"
  raise_if
      (is_next_open f.price_source && not (f.modeled_execution_time == f.price_reference_time + 1))
      "INVALID_STRATEGY_EXECUTION_TIME"
  ok f

pub record SimulatedPosition : Type 0 where
  pub benchmark_id : BenchmarkId
  pub entry : ModeledEntryFill
  pub stop : ProtectiveStop
  pub target : Option TakeProfitTarget
  pub initial_price_risk : Decimal

abbrev pub two_d : Decimal
two_d = of_int (pos 2)

unfoldable pub validate_optional_target : Option TakeProfitTarget → Result (Unit {0})
validate_optional_target none = ok tt
validate_optional_target (some t) = validate_target t >> ok tt

-- `target.target_raw != entry.entry_fill + 2 * initial_price_risk`
abbrev pub off_target : Option TakeProfitTarget → Decimal → Decimal → Bool
off_target none fill risk = false
off_target (some t) fill risk = not (eq_d t.target_raw (fill +ᵈ two_d *ᵈ risk))

unfoldable pub validate_position : SimulatedPosition → Result SimulatedPosition
validate_position p = do
  validate_entry_fill p.entry
  validate_stop p.stop
  validate_optional_target p.target
  positive_decimal p.initial_price_risk
  raise_if (not (eq_d p.initial_price_risk (p.entry.entry_fill -ᵈ p.stop.fixed_stop)))
      "INVALID_INITIAL_PRICE_RISK"
  raise_if
      (if is_none p.target then same_id p.benchmark_id b01 else not (same_id p.benchmark_id b01))
      "BENCHMARK_TARGET_POLICY_MISMATCH"
  raise_if (off_target p.target p.entry.entry_fill p.initial_price_risk)
      "TARGET_MUST_USE_ACTUAL_MODELED_ENTRY"
  ok p

pub record CompletedEpisode : Type 0 where
  pub position : SimulatedPosition
  pub exit : ExitFill
  pub gross_price_r : Decimal
  pub costs : CostModel

unfoldable pub validate_episode : CompletedEpisode → Result CompletedEpisode
validate_episode e = do
  validate_position e.position
  validate_exit e.exit
  finite_decimal e.gross_price_r
  validate_costs e.costs
  raise_if (ltb e.exit.modeled_execution_time e.position.entry.modeled_execution_time)
      "EXIT_BEFORE_ENTRY"
  expected ←
      or_raise
        (div_d (e.exit.exit_price -ᵈ e.position.entry.entry_fill) e.position.initial_price_risk)
        "DivisionByZero"
  raise_if (not (eq_d e.gross_price_r expected)) "GROSS_PRICE_R_MISMATCH"
  ok e
