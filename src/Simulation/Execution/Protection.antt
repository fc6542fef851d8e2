-- ===== src/Simulation/Execution/Protection.antt =====
-- The protective exit of a bar: when there is one, and at what price it is filled.
use adaptive_trading_ecosyst.Prelude.{
  ◌≡◌, ◌↔◌, ◌⊎◌, inl, inr, Bool, true, false, not, ◌||◌, Option, none, some, arith, ok, bind-eq-ok,
  guard-eq-ok, not-false, ◌+◌, ◌%◌, ◌==◌, Option-cases,
}
use adaptive_trading_ecosyst.Decimal.{Decimal, leb_d}
use adaptive_trading_ecosyst.Decimal.Order.{◌≤ᵈ◌, le_d_refl, le_d_trans, le_d_total}
use adaptive_trading_ecosyst.Domain.Primitives.{positive_decimal, hours}
use adaptive_trading_ecosyst.Simulation.Contracts.{
  SimulationBar, CostModel, validate_bar, well_shaped,
}
use adaptive_trading_ecosyst.Simulation.Fills.{
  ExitReason, stop_loss, take_profit, ExitFill, validate_exit, SimulatedPosition, TakeProfitTarget,
}
use adaptive_trading_ecosyst.Simulation.Execution.{
  triggered, fill_of, protective_fill, protective_exit, reaches,
}

validate_exit_self : (f : ExitFill) {v : ExitFill} → validate_exit f ≡ ok v → v ≡ f
unfolding validate_exit
validate_exit_self f h = ground arith

-- The price is the target's, and there is a target.
abbrev pub AtTarget : Option TakeProfitTarget → Decimal → Type 0
AtTarget none price = ⊥
AtTarget (some t) price = price ≡ t.target

-- What the exit of a bar gives: its price and its reason, by where the bar opened and how far it
-- reached.
pub record Pessimistic (p : SimulatedPosition) (b : SimulationBar) (price : Decimal)
    (reason : ExitReason) (gap : Bool) : Type 0 where
  pub kind : (reason ≡ stop_loss) ⊎ (reason ≡ take_profit)
  pub stopped : reason ≡ stop_loss → price ≤ᵈ p.stop.fixed_stop
  pub gapped :
      reason ≡ stop_loss → leb_d b.open_price p.stop.fixed_stop ≡ true → price ≡ b.open_price
  pub level :
      reason ≡ stop_loss → leb_d b.open_price p.stop.fixed_stop ≡ false → price ≡ p.stop.fixed_stop
  pub dipped :
      reason ≡ stop_loss
      → leb_d b.open_price p.stop.fixed_stop ≡ false
      → leb_d b.low p.stop.fixed_stop ≡ true
  pub target : reason ≡ take_profit → AtTarget p.target price
  pub touched :
      reason ≡ take_profit → (reaches p.target b.open_price || reaches p.target b.high) ≡ true
  pub stop_first : reason ≡ take_profit → leb_d b.open_price p.stop.fixed_stop ≡ false
  pub no_dip :
      reason ≡ take_profit
      → reaches p.target b.open_price ≡ false
      → leb_d b.low p.stop.fixed_stop ≡ false
  pub flagged : gap ≡ (leb_d b.open_price p.stop.fixed_stop || reaches p.target b.open_price)

triggered-Pessimistic :
    (p : SimulatedPosition) (b : SimulationBar) (price : Decimal) (reason : ExitReason)
    (gap both : Bool)
    → triggered p b ≡ some (price, reason, gap, both)
    → Pessimistic p b price reason gap
unfolding triggered
triggered-Pessimistic p b price reason gap both h = ground (arith, le_d_refl p.stop.fixed_stop)

-- A protective exit of a bar is a stop or a target. It never fills a stop above its level: at the open when the bar opened
-- at or below the stop, at the stop otherwise, which its low then touched. A target is filled at its
-- own level, which the open or the high reached, only when the bar opened above the stop, and, unless
-- the open reached the target, only when the bar did not touch the stop. The exit is flagged as a gap
-- exactly when the open was at or below the stop or reached the target.
pub protective_exit-Pessimistic :
    (p : SimulatedPosition) (b : SimulationBar) (c : CostModel) (f : ExitFill)
    → protective_exit p b c ≡ ok (some f)
    → Pessimistic p b f.exit_price f.reason f.gap_exit
unfolding protective_exit protective_fill
protective_exit-Pessimistic p b c f h = elim (Option-cases (triggered p b)) [
  | inl untouched ↦ cc (untouched, h)
  | inr ((price, reason, gap, both), e) ↦
      let filled : fill_of p b c (some (price, reason, gap, both)) ≡ ok (some f) = rw e at h in
      let (v, valid, last) = bind-eq-ok (validate_exit (protective_fill p b c _)) _ filled in
      let same : v ≡ protective_fill p b c (price, reason, gap, both) =
        validate_exit_self _ valid in
      let final : f ≡ protective_fill p b c (price, reason, gap, both) = cc in
      rw final (triggered-Pessimistic p b price reason gap both e)
]

well_shaped_open :
    (b : SimulationBar) → well_shaped b ≡ true → (b.low ≤ᵈ b.open_price) × (b.open_price ≤ᵈ b.high)
well_shaped_open b h = ground (
  arith,
  le_d_trans b.low b.close b.open_price,
  le_d_trans b.open_price b.close b.high,
  le_d_total b.open_price b.close,
)

validate_bar-shape : (b v : SimulationBar) → validate_bar b ≡ ok v → well_shaped b ≡ true
unfolding validate_bar
validate_bar-shape b v h =
    let (_, _, h1) = bind-eq-ok (positive_decimal b.open_price) _ h in
    let (_, _, h2) = bind-eq-ok (positive_decimal b.high) _ h1 in
    let (_, _, h3) = bind-eq-ok (positive_decimal b.low) _ h2 in
    let (_, _, h4) = bind-eq-ok (positive_decimal b.close) _ h3 in
    let (_, h5) = guard-eq-ok (not (b.close_time == b.open_time + hours 1)) _ _ h4 in
    let (_, h6) = guard-eq-ok (not (b.open_time % hours 1 == 0)) _ _ h5 in
    let (shape, _) = guard-eq-ok (not (well_shaped b)) _ _ h6 in not-false _ shape

reaches_mono :
    (o : Option TakeProfitTarget) (v w : Decimal) → v ≤ᵈ w → reaches o v ≡ true → reaches o w ≡ true
reaches_mono none v w h r = r
reaches_mono (some t) v w h r = le_d_trans t.target v w r h

-- On a valid bar there is no protective exit exactly when its low stays above the stop and its
-- high does not reach the target.
pub untouched_iff :
    (p : SimulatedPosition) (b v : SimulationBar)
    → validate_bar b ≡ ok v
    → (triggered p b ≡ none)
      ↔ ((leb_d b.low p.stop.fixed_stop ≡ false) × (reaches p.target b.high ≡ false))
unfolding triggered
untouched_iff p b v h =
    let (low, high) = well_shaped_open b (validate_bar-shape b v h) in
    ground (
      arith,
      le_d_trans b.low b.open_price p.stop.fixed_stop low,
      reaches_mono p.target b.open_price b.high high,
    )
