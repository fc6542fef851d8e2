-- ===== src/Simulation/Events.antt =====
-- simulation/events.py and the event contracts of simulation/contracts.py: the canonical order.
pub mod Order
use adaptive_trading_ecosyst.Prelude.{
  ℕ, ◌+◌, Bool, true, false, ◌&&◌, ◌||◌, Option, none, some, List, [], ◌∷◌, ltb, ◌==◌,
  if◌then◌else◌, any_of, String, Result, ok, ◌>>◌, raise_if,
}
use adaptive_trading_ecosyst.Domain.Primitives.{UtcTimestamp}
use adaptive_trading_ecosyst.Simulation.Fills.{ModeledEntryFill, ExitFill}

pub data EventKind : Type 0 where
  signal_decision entry_intent entry_fill protective_stop_active take_profit_active : EventKind
  stop_exit target_exit strategy_exit_decision strategy_exit_fill : EventKind
  evaluation_boundary boundary_status : EventKind

-- `int(kind)`
abbrev pub kind_value : EventKind → ℕ
kind_value signal_decision = 10
kind_value entry_intent = 20
kind_value entry_fill = 30
kind_value protective_stop_active = 40
kind_value take_profit_active = 50
kind_value stop_exit = 60
kind_value target_exit = 70
kind_value strategy_exit_decision = 80
kind_value strategy_exit_fill = 90
kind_value evaluation_boundary = 100
kind_value boundary_status = 110

pub record SimulationEvent : Type 0 where
  pub sequence : ℕ
  pub kind : EventKind
  pub time : UtcTimestamp
  pub bar_index : ℕ
  pub detail : String
  pub entry : Option ModeledEntryFill
  pub exit : Option ExitFill

-- The order of `(time, int(kind), bar_index)`.
unfoldable pub before : SimulationEvent → SimulationEvent → Bool
before a b =
    if ltb a.time b.time
    then true
    else if ltb b.time a.time
    then false
    else if ltb (kind_value a.kind) (kind_value b.kind)
    then true
    else if ltb (kind_value b.kind) (kind_value a.kind)
    then false
    else ltb a.bar_index b.bar_index

unfoldable pub same_key : SimulationEvent → SimulationEvent → Bool
same_key a b =
    a.time == b.time && kind_value a.kind == kind_value b.kind && a.bar_index == b.bar_index

-- `sorted` keeps the events of one key in their order.
unfoldable pub insert_event : SimulationEvent → List SimulationEvent → List SimulationEvent
insert_event e [] = e ∷ []
insert_event e (x ∷ xs) = if before x e then x ∷ insert_event e xs else e ∷ x ∷ xs

unfoldable pub sort_events : List SimulationEvent → List SimulationEvent
sort_events [] = []
sort_events (e ∷ es) = insert_event e (sort_events es)

-- `len(set(keys)) != len(keys)`
unfoldable pub duplicate_key : List SimulationEvent → Bool
duplicate_key [] = false
duplicate_key (e ∷ es) = any_of (same_key e) es || duplicate_key es

-- `enumerate`, from an index
unfoldable pub number_events : ℕ → List SimulationEvent → List SimulationEvent
number_events n [] = []
number_events n (e ∷ es) = record e { sequence = n } ∷ number_events (n + 1) es

unfoldable pub ordered_events : List SimulationEvent → Result (List SimulationEvent)
ordered_events events = do
  let ordered = sort_events events
  raise_if (duplicate_key ordered) "DUPLICATE_EVENT_ORDER_KEY"
  ok (number_events 0 ordered)
