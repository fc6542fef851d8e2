-- ===== src/Simulation/Lifecycle/Status.antt =====
-- What a result of `simulate` holds, by its status.
use adaptive_trading_ecosyst.Prelude.{
  ℕ, ◌≤◌, ◌≡◌, Option, none, some, List, [], ◌∷◌, ◌++◌, ok, bind-eq-ok, ok-injective, or_raise,
  arith, last?,
}
use adaptive_trading_ecosyst.Decimal.{div_d, ◌-ᵈ◌}
use adaptive_trading_ecosyst.Simulation.Contracts.{
  SimulationBar, StrategyExitIntent, SimulationSpec, validate_spec, validate_costs,
}
use adaptive_trading_ecosyst.Domain.Primitives.{finite_decimal}
use adaptive_trading_ecosyst.Simulation.Fills.{
  ExitFill, validate_exit, SimulatedPosition, validate_position, CompletedEpisode, validate_episode,
}
use adaptive_trading_ecosyst.Simulation.Events.{EventKind, SimulationEvent, ordered_events}
use adaptive_trading_ecosyst.Simulation.Events.Order.{
  IsIncreasing, IsNumbered, ordered_events-IsIncreasing,
}
use adaptive_trading_ecosyst.Simulation.Execution.{open_position}
use adaptive_trading_ecosyst.Simulation.Lifecycle.Records.{
  ResultStatus, no_fill_end_of_data, invalid_initial_price_risk, open_at_evaluation_boundary,
  completed, SimulationResult, Loop,
}
use adaptive_trading_ecosyst.Simulation.Lifecycle.{
  simulate, after_signal, enter, hold, conclude, unfilled, flatten, walk, signal_index,
}

-- The exit of an episode is not before its entry.
abbrev pub IsChronological : CompletedEpisode → Type 0
IsChronological e = e.position.entry.modeled_execution_time ≤ e.exit.modeled_execution_time

-- What is there and what is not, for each status.
abbrev pub Holds :
    ResultStatus
    → Option SimulatedPosition
    → Option CompletedEpisode
    → Option StrategyExitIntent
    → Type 0
Holds completed none (some e) none = IsChronological e
Holds open_at_evaluation_boundary (some p) none pending = Unit
Holds no_fill_end_of_data none none none = Unit
Holds invalid_initial_price_risk none none none = Unit
Holds _ _ _ _ = ⊥

pub record IsConsistent (r : SimulationResult) : Type 0 where
  pub shape : Holds r.status r.position r.episode r.pending_strategy_exit
  pub increasing : IsIncreasing r.events
  pub numbered : IsNumbered 0 r.events

episode-IsChronological :
    (e v : CompletedEpisode) → validate_episode e ≡ ok v → (v ≡ e) × IsChronological e
unfolding validate_episode
episode-IsChronological e v h =
    let (_, _, h1) = bind-eq-ok (validate_position e.position) _ h in
    let (_, _, h2) = bind-eq-ok (validate_exit e.exit) _ h1 in
    let (_, _, h3) = bind-eq-ok (finite_decimal e.gross_price_r) _ h2 in
    let (_, _, h4) = bind-eq-ok (validate_costs e.costs) _ h3 in ground arith

module _ (spec : SimulationSpec) (r : SimulationResult) where
  unfilled-IsConsistent :
      (status : ResultStatus) (events : List SimulationEvent) (last : SimulationEvent)
      → Holds status none none none
      → unfilled status events last ≡ ok r
      → IsConsistent r
  unfolding unfilled
  unfilled-IsConsistent status events last fits h =
      let (ordered, sorted, done) = bind-eq-ok (ordered_events (events ++ last ∷ [])) _ h in
      let (increasing, numbered, _, _, _) = ordered_events-IsIncreasing _ _ sorted in
      rw (← ok-injective done)
        (record { shape = fits; increasing = increasing; numbered = numbered })

  conclude-IsConsistent :
      (p : SimulatedPosition) (events : List SimulationEvent) (bar : SimulationBar) (loop : Loop)
      (exit : Option (ExitFill × EventKind))
      → conclude spec p events bar loop exit ≡ ok r
      → IsConsistent r
  unfolding conclude
  conclude-IsConsistent p events bar loop (some (fill, kind)) h =
      let (gross, _, h1) =
        bind-eq-ok
          (or_raise (div_d (fill.exit_price -ᵈ p.entry.entry_fill) p.initial_price_risk)
            "DivisionByZero")
          _ h in
      let (e, valid, h2) =
        bind-eq-ok
          (validate_episode
            (record { position = p; exit = fill; gross_price_r = gross; costs = spec.costs }))
          _ h1 in
      let (same, chronological) = episode-IsChronological _ e valid in
      let (ordered, sorted, done) = bind-eq-ok (ordered_events _) _ h2 in
      let (increasing, numbered, _, _, _) = ordered_events-IsIncreasing _ _ sorted in
      rw (← ok-injective done)
        (record { shape = rw same chronological; increasing = increasing; numbered = numbered })
  conclude-IsConsistent p events bar loop none h =
      let (ordered, sorted, done) = bind-eq-ok (ordered_events _) _ h in
      let (increasing, numbered, _, _, _) = ordered_events-IsIncreasing _ _ sorted in
      rw (← ok-injective done) (record { shape = tt; increasing = increasing; numbered = numbered })

  hold-IsConsistent :
      (signal : ℕ) (bars : List SimulationBar) (p : SimulatedPosition)
      → hold spec signal bars p ≡ ok r
      → IsConsistent r
  unfolding hold
  hold-IsConsistent signal bars p h =
      let (last, _, h1) = bind-eq-ok (or_raise (last? spec.bars) "IndexError") _ h in
      let (walked, _, h2) = bind-eq-ok (walk p spec signal none bars) _ h1 in
      let (loop, _, h3) = bind-eq-ok (flatten spec walked last) _ h2 in
      conclude-IsConsistent p _ last loop loop.exit h3

  enter-IsConsistent :
      (signal : ℕ) (bar : SimulationBar) (bars : List SimulationBar) (o : Option SimulatedPosition)
      → enter spec signal bar bars o ≡ ok r
      → IsConsistent r
  enter-IsConsistent signal bar bars none h =
      unfilled-IsConsistent invalid_initial_price_risk _ _ tt h
  enter-IsConsistent signal bar bars (some p) h = hold-IsConsistent signal (bar ∷ bars) p h

  after_signal-IsConsistent :
      (signal : ℕ) (bars : List SimulationBar)
      → after_signal spec signal bars ≡ ok r
      → IsConsistent r
  unfolding after_signal
  after_signal-IsConsistent signal [] h = unfilled-IsConsistent no_fill_end_of_data _ _ tt h
  after_signal-IsConsistent signal (bar ∷ bars) h =
      let (o, _, entered) = bind-eq-ok (open_position spec bar) _ h in
      enter-IsConsistent signal bar bars o entered

-- Every result of a simulation holds what its status says: a completed one an episode whose exit
-- is not before its entry, and no position; one that is open at the boundary a position and no
-- episode; the two others neither. Its events are in strict order and numbered from 0.
pub simulate-IsConsistent :
    (spec : SimulationSpec) (r : SimulationResult) → simulate spec ≡ ok r → IsConsistent r
unfolding simulate
simulate-IsConsistent spec r h =
    let (v, _, h1) = bind-eq-ok (validate_spec spec) _ h in
    let (i, _, h2) =
      bind-eq-ok (or_raise (signal_index v.entry_intent.decision_time v.bars) "StopIteration") _
        h1 in
    after_signal-IsConsistent v r i _ h2
