-- ===== src/Monitoring/Contracts.antt =====
-- monitoring/contracts.py: what a telemetry event says. Fields of one possible value are left out,
-- and a symbol is its text, which an asset's name is too.

pub mod Views
pub mod Inputs
use adaptive_trading_ecosyst.Prelude.{ℕ, Bool, true, false, Option, List, ◌==◌, String}
use adaptive_trading_ecosyst.Decimal.{Decimal}
use adaptive_trading_ecosyst.Domain.Primitives.{EntityId, UtcTimestamp}

pub data Environment : Type 0 where
  backtest paper_forward demo live : Environment

abbrev pub environment_rank : Environment → ℕ
environment_rank backtest = 0
environment_rank paper_forward = 1
environment_rank demo = 2
environment_rank live = 3

abbrev pub same_environment : Environment → Environment → Bool
same_environment a b = environment_rank a == environment_rank b

pub data EventType : Type 0 where
  account_snapshot : EventType
  position_opened position_updated position_closed : EventType
  order_intent_created order_intent_rejected : EventType
  risk_approved risk_rejected risk_state_changed : EventType
  portfolio_snapshot : EventType
  broker_connected broker_disconnected broker_stale : EventType
  reconciliation_started reconciliation_ok reconciliation_mismatch : EventType
  strategy_started strategy_stopped strategy_signal : EventType
  ea_started ea_stopped ea_health : EventType
  execution_incident : EventType
  system_started system_stopped system_health : EventType
  external_observation : EventType

-- The place of a type in the class.
abbrev pub event_type_rank : EventType → ℕ
event_type_rank account_snapshot = 0
event_type_rank position_opened = 1
event_type_rank position_updated = 2
event_type_rank position_closed = 3
event_type_rank order_intent_created = 4
event_type_rank order_intent_rejected = 5
event_type_rank risk_approved = 6
event_type_rank risk_rejected = 7
event_type_rank risk_state_changed = 8
event_type_rank portfolio_snapshot = 9
event_type_rank broker_connected = 10
event_type_rank broker_disconnected = 11
event_type_rank broker_stale = 12
event_type_rank reconciliation_started = 13
event_type_rank reconciliation_ok = 14
event_type_rank reconciliation_mismatch = 15
event_type_rank strategy_started = 16
event_type_rank strategy_stopped = 17
event_type_rank strategy_signal = 18
event_type_rank ea_started = 19
event_type_rank ea_stopped = 20
event_type_rank ea_health = 21
event_type_rank execution_incident = 22
event_type_rank system_started = 23
event_type_rank system_stopped = 24
event_type_rank system_health = 25
event_type_rank external_observation = 26

abbrev pub same_event_type : EventType → EventType → Bool
same_event_type a b = event_type_rank a == event_type_rank b

pub record Scope : Type 0 where
  pub environment : Environment
  pub run_id : Option EntityId
  pub account_id : Option EntityId

pub data RiskStatus : Type 0 where
  active pause_entries halt_and_flatten : RiskStatus

abbrev pub risk_status_rank : RiskStatus → ℕ
risk_status_rank active = 0
risk_status_rank pause_entries = 1
risk_status_rank halt_and_flatten = 2

abbrev pub same_risk_status : RiskStatus → RiskStatus → Bool
same_risk_status a b = risk_status_rank a == risk_status_rank b

pub record AccountView : Type 0 where
  pub domain_identity : String
  pub balance : Decimal
  pub equity : Option Decimal
  pub realized_pnl : Option Decimal
  pub unrealized_pnl : Option Decimal
  pub commissions : Option Decimal
  pub financing : Option Decimal
  pub used_margin : Option Decimal
  pub free_margin : Option Decimal
  pub stale : Bool
  pub complete : Bool

pub record PortfolioView : Type 0 where
  pub account : AccountView
  pub gross_exposure : Option Decimal
  pub open_risk : Option Decimal
  pub reserved_risk : Option Decimal
  pub daily_pnl : Option Decimal
  pub peak_nav : Option Decimal
  pub peak_equity : Option Decimal
  pub drawdown : Option Decimal
  pub risk_state : Option RiskStatus
  pub open_positions : ℕ
  pub reserved_positions : Option ℕ

pub data TradeOutcome : Type 0 where
  win loss flat unknown : TradeOutcome

pub record TradeView : Type 0 where
  pub episode_id : EntityId
  pub closed_at : UtcTimestamp
  pub gross_pnl : Option Decimal
  pub net_pnl : Option Decimal
  pub net_r : Option Decimal
  pub commission : Option Decimal
  pub financing : Option Decimal
  pub spread_cost : Option Decimal
  pub outcome : TradeOutcome
  pub complete : Bool

pub data Side : Type 0 where
  long short : Side

abbrev pub same_side : Side → Side → Bool
same_side long long = true
same_side short short = true
same_side _ _ = false

pub data PositionState : Type 0 where
  open_state closed_state : PositionState

abbrev pub is_closed : PositionState → Bool
is_closed open_state = false
is_closed closed_state = true

pub record PositionView : Type 0 where
  pub domain_identity : String
  pub episode_id : EntityId
  pub side : Side
  pub quantity : Decimal
  pub average_entry : Decimal
  pub mark_price : Option Decimal
  pub unrealized_pnl : Option Decimal
  pub realized_pnl : Option Decimal
  pub stop_loss : Option Decimal
  pub take_profit : Option Decimal
  pub opened_at : UtcTimestamp
  pub updated_at : UtcTimestamp
  pub state : PositionState
  pub trade : Option TradeView

pub record RiskView : Type 0 where
  pub domain_identity : String
  pub policy_id : String
  pub risk_state : RiskStatus
  pub risk_per_trade : Decimal
  pub open_risk : Option Decimal
  pub portfolio_risk_limit : Decimal
  pub daily_loss : Option Decimal
  pub daily_loss_limit : Decimal
  pub drawdown : Option Decimal
  pub drawdown_limit : Decimal
  pub rejection_reasons : List String

pub data Component : Type 0 where
  database broker market_data risk_engine portfolio strategy ea reconciliation system : Component

abbrev pub component_rank : Component → ℕ
component_rank database = 0
component_rank broker = 1
component_rank market_data = 2
component_rank risk_engine = 3
component_rank portfolio = 4
component_rank strategy = 5
component_rank ea = 6
component_rank reconciliation = 7
component_rank system = 8

abbrev pub same_component : Component → Component → Bool
same_component a b = component_rank a == component_rank b

pub data HealthState : Type 0 where
  healthy degraded stale disconnected error : HealthState

abbrev pub health_rank : HealthState → ℕ
health_rank healthy = 0
health_rank degraded = 1
health_rank HealthState.stale = 2
health_rank disconnected = 3
health_rank error = 4

pub record HealthView : Type 0 where
  pub component : Component
  pub state : HealthState
  pub detail : String

pub record ActivityView : Type 0 where
  pub reference_id : Option EntityId
  pub domain_identity : Option String
  pub status : String
  pub reasons : List String
  pub trades : Option ℕ
  pub pnl : Option Decimal
  pub net_r : Option Decimal
  pub drawdown : Option Decimal

-- The union that `kind` discriminates.
pub data Payload : Type 0 where
  account : AccountView → Payload
  of_portfolio : PortfolioView → Payload
  position : PositionView → Payload
  risk : RiskView → Payload
  health : HealthView → Payload
  activity : ActivityView → Payload

pub data EventSource : Type 0 where
  domain external_ea adapter of_system : EventSource

abbrev pub source_rank : EventSource → ℕ
source_rank domain = 0
source_rank external_ea = 1
source_rank adapter = 2
source_rank of_system = 3

abbrev pub same_source : EventSource → EventSource → Bool
same_source a b = source_rank a == source_rank b

pub record EventInput : Type 0 where
  pub event_type : EventType
  pub scope : Scope
  pub occurred_at : UtcTimestamp
  pub recorded_at : UtcTimestamp
  pub source : EventSource
  pub source_instance_id : EntityId
  pub source_sequence : ℕ
  pub strategy_id : Option EntityId
  pub symbol : Option String
  pub correlation_id : EntityId
  pub causation_id : Option EntityId
  pub corrects_event_id : Option EntityId
  pub magic_number : Option ℕ
  pub comment : Option String
  pub broker_ticket : Option String
  pub payload : Payload

pub record TelemetryEvent : Type 0 where
  pub input : EventInput
  pub event_id : EntityId

pub record StoredEvent : Type 0 where
  pub sequence : ℕ
  pub event : TelemetryEvent
  pub previous_hash : String
  pub event_hash : String
