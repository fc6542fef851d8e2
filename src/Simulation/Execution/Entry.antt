-- ===== src/Simulation/Execution/Entry.antt =====
-- The entry of a position: its price, its stop and its instant.
use adaptive_trading_ecosyst.Prelude.{
  ◌+◌, ◌≤◌, ◌≡◌, Bool, false, not, Option, some, arith, ok, bind-eq-ok, guard-eq-ok, ok-injective,
  sym, Bool-cases, inl, inr, refl, if◌then◌else◌, is_none,
}
use adaptive_trading_ecosyst.Decimal.{Decimal, leb_d, eq_d, ◌+ᵈ◌, ◌-ᵈ◌}
use adaptive_trading_ecosyst.Domain.Primitives.{positive_decimal}
use adaptive_trading_ecosyst.Domain.Arithmetic.{price_tick_floor}
use adaptive_trading_ecosyst.Benchmarks.Contracts.{same_id, b01}
use adaptive_trading_ecosyst.Simulation.Contracts.{SimulationBar, SimulationSpec}
use adaptive_trading_ecosyst.Simulation.Fills.{
  ModeledEntryFill, validate_entry_fill, ProtectiveStop, validate_stop, TakeProfitTarget,
  SimulatedPosition, validate_position, validate_optional_target, off_target,
}
use adaptive_trading_ecosyst.Simulation.Execution.{
  open_position, modeled_price, modeled_entry, build_target,
}

validate_entry_fill_self :
    (f : ModeledEntryFill) {v : ModeledEntryFill}
    → validate_entry_fill f ≡ ok v
    → (v ≡ f) × (f.decision_time ≤ f.price_reference_time)
unfolding validate_entry_fill
validate_entry_fill_self f h = ground arith

validate_stop_self : (s : ProtectiveStop) {v : ProtectiveStop} → validate_stop s ≡ ok v → v ≡ s
unfolding validate_stop
validate_stop_self s h = ground arith

policy_matches : (a b : Bool) → (if a then b else not b) ≡ false → a ≡ not b
policy_matches a b h = ground arith

validate_position_self :
    (p : SimulatedPosition) {v : SimulatedPosition}
    → validate_position p ≡ ok v
    → (v ≡ p) × (is_none p.target ≡ not (same_id p.benchmark_id b01))
unfolding validate_position
validate_position_self p h =
    let (_, _, h1) = bind-eq-ok (validate_entry_fill p.entry) _ h in
    let (_, _, h2) = bind-eq-ok (validate_stop p.stop) _ h1 in
    let (_, _, h3) = bind-eq-ok (validate_optional_target p.target) _ h2 in
    let (_, _, h4) = bind-eq-ok (positive_decimal p.initial_price_risk) _ h3 in
    let (_, h5) =
      guard-eq-ok (not (eq_d p.initial_price_risk (p.entry.entry_fill -ᵈ p.stop.fixed_stop))) _ _
        h4 in
    let (policy, h6) =
      guard-eq-ok
        (if is_none p.target then same_id p.benchmark_id b01 else not (same_id p.benchmark_id b01))
        _ _ h5 in
    let (_, h7) =
      guard-eq-ok (off_target p.target p.entry.entry_fill p.initial_price_risk) _ _ h6 in
    (sym (ok-injective h7), policy_matches (is_none p.target) (same_id p.benchmark_id b01) policy)

-- What an opened position is.
pub record Opened (spec : SimulationSpec) (bar : SimulationBar) (p : SimulatedPosition)
    : Type 0 where
  pub price :
      p.entry.entry_fill
      ≡ bar.open_price +ᵈ spec.costs.entry_spread_price +ᵈ spec.costs.entry_slippage_price
  pub after_open : p.entry.modeled_execution_time ≡ bar.open_time + 1
  pub decided : spec.entry_intent.decision_time ≤ bar.open_time
  pub floor :
      price_tick_floor spec.entry_intent.signal_stop_raw spec.tick_size ≡ ok p.stop.fixed_stop
  pub above : leb_d p.entry.entry_fill p.stop.fixed_stop ≡ false
  pub risk : p.initial_price_risk ≡ p.entry.entry_fill -ᵈ p.stop.fixed_stop
  pub target : is_none p.target ≡ not (same_id spec.benchmark.benchmark_id b01)

-- The position that the branch builds.
abbrev built :
    SimulationSpec → SimulationBar → Decimal → Option TakeProfitTarget → SimulatedPosition
built spec bar stop target = record {
  benchmark_id = spec.benchmark.benchmark_id;
  entry = modeled_entry spec bar;
  stop = record { signal_stop_raw = spec.entry_intent.signal_stop_raw; fixed_stop = stop };
  target = target;
  initial_price_risk = modeled_price spec bar -ᵈ stop;
}

built-Opened :
    (spec : SimulationSpec) (bar : SimulationBar) (stop : Decimal)
    (target : Option TakeProfitTarget)
    → price_tick_floor spec.entry_intent.signal_stop_raw spec.tick_size ≡ ok stop
    → leb_d (modeled_price spec bar) stop ≡ false
    → spec.entry_intent.decision_time ≤ bar.open_time
    → is_none target ≡ not (same_id spec.benchmark.benchmark_id b01)
    → Opened spec bar (built spec bar stop target)
built-Opened spec bar stop target floored above decided policy = record {
  price = refl;
  after_open = omega arith;
  decided = decided;
  floor = floored;
  above = above;
  risk = refl;
  target = policy;
}

-- An opened position is filled at the open of its bar plus the supplied spread and slippage, one
-- microsecond after that open, which is not before the decision; its stop is the signal's stop
-- rounded down to the tick and lies below the fill; its risk is the difference of the two; and it
-- has a target exactly when the benchmark is B01.
pub open_position-Opened :
    (spec : SimulationSpec) (bar : SimulationBar) (p : SimulatedPosition)
    → open_position spec bar ≡ ok (some p)
    → Opened spec bar p
unfolding open_position
open_position-Opened spec bar p h =
    let (stop, floored, h1) =
      bind-eq-ok (price_tick_floor spec.entry_intent.signal_stop_raw spec.tick_size) _ h in
    elim (Bool-cases (leb_d (modeled_price spec bar) stop)) [
      | inl low ↦ cc (low, h1)
      | inr above ↦
          let risk = modeled_price spec bar -ᵈ stop in
          let (entry, e1, h2) =
            bind-eq-ok (validate_entry_fill (modeled_entry spec bar)) _ (rw above at h1) in
          let (target, e2, h3) =
            bind-eq-ok
              (build_target spec.benchmark.take_profit.kind (modeled_price spec bar) risk
                spec.tick_size)
              _ h2 in
          let (protection, e3, h4) =
            bind-eq-ok
              (validate_stop
                (record { signal_stop_raw = spec.entry_intent.signal_stop_raw; fixed_stop = stop }))
              _ h3 in
          let (position, e4, h5) =
            bind-eq-ok
              (validate_position (record {
                benchmark_id = spec.benchmark.benchmark_id;
                entry = entry;
                stop = protection;
                target = target;
                initial_price_risk = risk;
              }))
              _ h4 in
          let (s1, decided) = validate_entry_fill_self (modeled_entry spec bar) e1 in
          let s3 = validate_stop_self _ e3 in
          let (s4, policy) = validate_position_self _ e4 in
          let same : p ≡ position = cc in
          let policy' : is_none target ≡ not (same_id spec.benchmark.benchmark_id b01) = policy in
          let shape : p ≡ built spec bar stop target = cc in
          rw shape (built-Opened spec bar stop target floored above decided policy')
    ]
