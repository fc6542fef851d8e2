-- ===== src/Monitoring/Contracts/Inputs.antt =====
-- monitoring/contracts.py: the validators of an event and of a stored event. The digests of their
-- canonical texts are parameters.
use Prim.Native.String.{count}
use adaptive_trading_ecosyst.Prelude.{
  ℕ, ◌^◌, Bool, true, false, not, ◌&&◌, ◌||◌, Option, none, some, is_none, List, [], ◌∷◌, ltb, leb,
  ◌==◌, String, str_eq, Result, ok, ◌>>=◌, ◌>>◌, raise_if,
}
use adaptive_trading_ecosyst.Domain.Events.{hash_text}
use adaptive_trading_ecosyst.Accounting.Contracts.{label, optionally}
use adaptive_trading_ecosyst.Monitoring.Contracts.{
  same_environment, live, EventType, EventSource, same_source, Scope, PositionView, RiskView,
  HealthView, Payload, account, of_portfolio, position, risk, health, activity, EventInput,
  TelemetryEvent, StoredEvent, is_closed, same_risk_status, same_component, same_event_type,
  health_rank, Component, HealthState, active,
}
use adaptive_trading_ecosyst.Monitoring.Contracts.Views.{validate_payload, same_flag}

-- `AccountSequence`
unfoldable pub account_sequence : ℕ → Result ℕ
account_sequence n = do
  raise_if (ltb n 1) "greater_than_equal"
  raise_if (leb (2 ^ 63) n) "less_than_equal"
  ok n

unfoldable pub text_of : ℕ → String → Result String
text_of limit s = do raise_if (ltb limit (count s)) "string_too_long"; ok s

-- `ge=0, le=2**63 - 1`
unfoldable pub magic : ℕ → Result ℕ
magic n = do raise_if (leb (2 ^ 63) n) "less_than_equal"; ok n

pub data Kind : Type 0 where
  account_kind portfolio_kind position_kind risk_kind health_kind activity_kind : Kind

abbrev pub kind_rank : Kind → ℕ
kind_rank account_kind = 0
kind_rank portfolio_kind = 1
kind_rank position_kind = 2
kind_rank risk_kind = 3
kind_rank health_kind = 4
kind_rank activity_kind = 5

abbrev pub same_kind : Kind → Kind → Bool
same_kind a b = kind_rank a == kind_rank b

-- `payload.kind`
abbrev pub kind_of : Payload → Kind
kind_of (account _) = account_kind
kind_of (of_portfolio _) = portfolio_kind
kind_of (position _) = position_kind
kind_of (risk _) = risk_kind
kind_of (health _) = health_kind
kind_of (activity _) = activity_kind

-- The kind of payload that the name of a type asks for.
abbrev pub expected_kind : EventType → Kind
expected_kind EventType.account_snapshot = account_kind
expected_kind EventType.portfolio_snapshot = portfolio_kind
expected_kind EventType.position_opened = position_kind
expected_kind EventType.position_updated = position_kind
expected_kind EventType.position_closed = position_kind
expected_kind EventType.risk_approved = risk_kind
expected_kind EventType.risk_rejected = risk_kind
expected_kind EventType.risk_state_changed = risk_kind
expected_kind EventType.broker_connected = health_kind
expected_kind EventType.broker_disconnected = health_kind
expected_kind EventType.broker_stale = health_kind
expected_kind EventType.reconciliation_started = health_kind
expected_kind EventType.reconciliation_ok = health_kind
expected_kind EventType.reconciliation_mismatch = health_kind
expected_kind EventType.ea_health = health_kind
expected_kind EventType.system_health = health_kind
expected_kind _ = activity_kind

abbrev pub is_account_bound : Kind → Bool
is_account_bound health_kind = false
is_account_bound activity_kind = false
is_account_bound _ = true

-- `fixed`
abbrev pub fixed_health : EventType → Option (Component × HealthState)
fixed_health EventType.broker_connected = some (Component.broker, HealthState.healthy)
fixed_health EventType.broker_disconnected = some (Component.broker, HealthState.disconnected)
fixed_health EventType.broker_stale = some (Component.broker, HealthState.stale)
fixed_health EventType.reconciliation_ok = some (Component.reconciliation, HealthState.healthy)
fixed_health EventType.reconciliation_mismatch = some (Component.reconciliation, HealthState.error)
fixed_health EventType.reconciliation_started =
    some (Component.reconciliation, HealthState.degraded)
fixed_health _ = none

abbrev pub is_other_health : Option (Component × HealthState) → HealthView → Bool
is_other_health none v = false
is_other_health (some (c, s)) v =
    not (same_component v.component c && health_rank v.state == health_rank s)

unfoldable pub check_position : EventInput → PositionView → Result (Unit {0})
check_position e v = do
  raise_if (is_none e.symbol || (same_source e.source EventSource.domain && is_none e.strategy_id))
      "POSITION_ATTRIBUTION_REQUIRED"
  raise_if (not (v.updated_at == e.occurred_at)) "POSITION_TIME_MISMATCH"
  raise_if
      (not (same_flag (same_event_type e.event_type EventType.position_closed) (is_closed v.state)))
      "POSITION_EVENT_STATE_MISMATCH"
  ok tt

unfoldable pub check_health : EventInput → HealthView → Result (Unit {0})
check_health e v = do
  raise_if
      (same_event_type e.event_type EventType.ea_health
        && not (same_component v.component Component.ea))
      "EA_HEALTH_COMPONENT_MISMATCH"
  raise_if (is_other_health (fixed_health e.event_type) v) "HEALTH_EVENT_STATE_MISMATCH"
  ok tt

abbrev pub is_empty {ℓ} : {A : Type ℓ} → List A → Bool
is_empty [] = true
is_empty (x ∷ xs) = false

unfoldable pub check_risk : EventInput → RiskView → Result (Unit {0})
check_risk e v = do
  raise_if
      (same_event_type e.event_type EventType.risk_approved
        && (not (same_risk_status v.risk_state active) || not (is_empty v.rejection_reasons)))
      "INVALID_RISK_APPROVAL"
  raise_if (same_event_type e.event_type EventType.risk_rejected && is_empty v.rejection_reasons)
      "RISK_REJECTION_REASON_REQUIRED"
  ok tt

abbrev pub check_view : EventInput → Payload → Result (Unit {0})
check_view e (position v) = check_position e v
check_view e (health v) = check_health e v
check_view e (risk v) = check_risk e v
check_view e _ = ok tt

unfoldable pub validate_input : EventInput → Result EventInput
validate_input e = do
  account_sequence e.source_sequence
  optionally label e.symbol
  optionally magic e.magic_number
  optionally (text_of 2000) e.comment
  optionally label e.broker_ticket
  validate_payload e.payload
  raise_if (ltb e.recorded_at e.occurred_at) "RECORDED_BEFORE_OCCURRENCE"
  raise_if (same_environment e.scope.environment live && same_source e.source EventSource.domain)
      "LIVE_IS_EXTERNAL_OBSERVATION_ONLY"
  raise_if (not (same_kind (kind_of e.payload) (expected_kind e.event_type)))
      "EVENT_PAYLOAD_KIND_MISMATCH"
  raise_if (is_account_bound (expected_kind e.event_type) && is_none e.scope.account_id)
      "ACCOUNT_REQUIRED"
  check_view e e.payload
  ok e

-- The digests of the canonical texts of a scope, of the origin of an event and of a sealed event.
pub record Digests : Type 0 where
  pub stream_id : Scope → ℕ
  pub event_id_of : (stream source sequence : ℕ) → ℕ
  pub seal_hash : TelemetryEvent → ℕ → String → String

module _ (d : Digests) where
  unfoldable pub expected_id : EventInput → ℕ
  expected_id e = d.event_id_of (d.stream_id e.scope) e.source_instance_id e.source_sequence

  unfoldable pub validate_event : TelemetryEvent → Result TelemetryEvent
  unfolding expected_id
  validate_event e = do
    validate_input e.input
    raise_if (not (e.event_id == expected_id e.input)) "EVENT_IDENTITY_MISMATCH"
    ok e

  unfoldable pub create_event : EventInput → Result TelemetryEvent
  unfolding expected_id
  create_event e = do
    v ← validate_input e
    validate_event (record { input = v; event_id = expected_id v })

  unfoldable pub validate_stored : StoredEvent → Result StoredEvent
  validate_stored s = do
    account_sequence s.sequence
    validate_event s.event
    hash_text s.previous_hash
    hash_text s.event_hash
    raise_if (not (str_eq s.event_hash (d.seal_hash s.event s.sequence s.previous_hash)))
        "TELEMETRY_HASH_MISMATCH"
    ok s

  unfoldable pub seal : TelemetryEvent → ℕ → String → Result StoredEvent
  seal e n previous = validate_stored (record {
    sequence = n;
    event = e;
    previous_hash = previous;
    event_hash = d.seal_hash e n previous;
  })
