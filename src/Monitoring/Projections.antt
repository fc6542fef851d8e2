-- ===== src/Monitoring/Projections.antt =====
-- monitoring/projections.py: how a stored event is written to the read models.
pub mod Streams
use adaptive_trading_ecosyst.Prelude.{
  ℕ, Bool, true, false, not, ◌&&◌, ◌||◌, Option, none, some, is_none, List, [], ◌∷◌, ltb, ◌==◌,
  find_first, if◌then◌else◌, String, str_eq, Result, ok, ◌>>=◌, ◌>>◌, raise_if,
}
use adaptive_trading_ecosyst.Domain.Primitives.{EntityId, UtcTimestamp}
use adaptive_trading_ecosyst.Monitoring.Contracts.{
  EventType, same_source, same_event_type, PositionView, RiskView, TradeView, TradeOutcome, Payload,
  account, of_portfolio, position, risk, health, activity, StoredEvent, TelemetryEvent, is_closed,
  same_side, same_risk_status,
}
use adaptive_trading_ecosyst.Monitoring.Contracts.Inputs.{is_empty}
use adaptive_trading_ecosyst.Monitoring.ReadModels.{
  Table, account_snapshots, portfolio_snapshots, position_projection, risk_projection,
  system_health_projection, activity_projection, trade_projection, Entity, episode, of_component,
  of_sequence, the_account, actor, Body, ProjectionRow, has_key, latest, upsert,
}

abbrev pub table_of : Payload → Table
table_of (account _) = account_snapshots
table_of (of_portfolio _) = portfolio_snapshots
table_of (position _) = position_projection
table_of (risk _) = risk_projection
table_of (health _) = system_health_projection
table_of (activity _) = activity_projection

-- `event.strategy_id or event.source_instance_id`
abbrev pub actor_of : TelemetryEvent → EntityId
actor_of e = elim e.input.strategy_id [ some s ↦ s | none ↦ e.input.source_instance_id ]

abbrev pub entity_of : StoredEvent → Payload → Entity
entity_of s (position v) = episode v.episode_id
entity_of s (health v) = of_component v.component s.event.input.source_instance_id
entity_of s (account _) = of_sequence s.sequence
entity_of s (of_portfolio _) = of_sequence s.sequence
entity_of s (risk _) = the_account
entity_of s (activity _) = actor (actor_of s.event)

unfoldable pub previous_row : List ProjectionRow → ℕ → StoredEvent → Payload → Option ProjectionRow
previous_row rows stream s (account _) = latest account_snapshots stream rows
previous_row rows stream s (of_portfolio _) = latest portfolio_snapshots stream rows
previous_row rows stream s p = find_first (has_key (table_of p) stream (entity_of s p)) rows

abbrev pub body_of : StoredEvent → Body
body_of s =
    let e = s.event.input in
    record {
      payload = e.payload;
      environment = e.scope.environment;
      account_id = e.scope.account_id;
      run_id = e.scope.run_id;
      strategy_id = e.strategy_id;
      symbol = e.symbol;
      source = e.source;
      source_instance_id = e.source_instance_id;
      magic_number = e.magic_number;
      broker_ticket = e.broker_ticket;
      comment = e.comment;
      last_rejection_reason = none;
      last_state_change = none;
      trade = none;
    }

-- `a != b` of two optional values
abbrev pub differ_ids : Option ℕ → Option ℕ → Bool
differ_ids none none = false
differ_ids (some a) (some b) = not (a == b)
differ_ids _ _ = true

abbrev pub differ_texts : Option String → Option String → Bool
differ_texts none none = false
differ_texts (some a) (some b) = not (str_eq a b)
differ_texts _ _ = true

-- A position row holds a position view.
abbrev pub position_in : Payload → Option PositionView
position_in (position v) = some v
position_in _ = none

abbrev pub risk_in : Payload → Option RiskView
risk_in (risk v) = some v
risk_in _ = none

-- `any(old[key] != body[key] for key in lineage)`
unfoldable pub lineage_changed : Body → PositionView → Body → PositionView → Bool
lineage_changed old was new v =
    not (same_side was.side v.side)
    || (differ_ids old.strategy_id new.strategy_id
        || (differ_texts old.symbol new.symbol
            || (not (was.opened_at == v.opened_at)
                || (not (same_source old.source new.source)
                    || (not (old.source_instance_id == new.source_instance_id)
                        || (differ_texts old.broker_ticket new.broker_ticket
                            || differ_ids old.magic_number new.magic_number))))))

unfoldable pub check_against : StoredEvent → Body → PositionView → PositionView → Result (Unit {0})
check_against s old was v = do
  raise_if
      (is_closed was.state && (is_none s.event.input.corrects_event_id || not (is_closed v.state)))
      "CLOSED_POSITION_CANNOT_REOPEN"
  raise_if (lineage_changed old was (body_of s) v) "POSITION_LINEAGE_CHANGED"
  ok tt

-- The checks of a position against the row before it.
unfoldable pub check_position_row :
    StoredEvent → PositionView → Option ProjectionRow → Result (Unit {0})
check_position_row s v none = do
  raise_if (not (same_event_type s.event.input.event_type EventType.position_opened))
      "POSITION_WITHOUT_OPEN_EVENT"
  ok tt
check_position_row s v (some r) = do
  raise_if
      (same_event_type s.event.input.event_type EventType.position_opened
        && is_none s.event.input.corrects_event_id)
      "POSITION_ALREADY_EXISTS"
  elim (position_in r.body.payload) [ none ↦ ok tt | some was ↦ check_against s r.body was v ]

unfoldable pub check_row : StoredEvent → Payload → Option ProjectionRow → Result (Unit {0})
check_row s (position v) previous = check_position_row s v previous
check_row s _ previous = ok tt

-- `list(payload.rejection_reasons) or old.get("last_rejection_reason")`
abbrev pub rejection_of : RiskView → Option ProjectionRow → Option (List String)
rejection_of v none = if is_empty v.rejection_reasons then none else some v.rejection_reasons
rejection_of v (some r) =
    if is_empty v.rejection_reasons then r.body.last_rejection_reason else some v.rejection_reasons

abbrev pub state_in : Option ProjectionRow → Option RiskView
state_in none = none
state_in (some r) = risk_in r.body.payload

abbrev pub change_of : Option ProjectionRow → Option UtcTimestamp
change_of none = none
change_of (some r) = r.body.last_state_change

abbrev pub state_change_of : StoredEvent → RiskView → Option ProjectionRow → Option UtcTimestamp
state_change_of s v previous = elim (state_in previous) [
  | none ↦ some s.event.input.occurred_at
  | some was ↦
      if same_risk_status was.risk_state v.risk_state
      then change_of previous
      else some s.event.input.occurred_at
]

unfoldable pub full_body : StoredEvent → Payload → Option ProjectionRow → Body
full_body s (risk v) previous = record (body_of s) {
  last_rejection_reason = rejection_of v previous;
  last_state_change = state_change_of s v previous;
}
full_body s _ previous = body_of s

abbrev pub unknown_trade : StoredEvent → PositionView → TradeView
unknown_trade s v = record {
  episode_id = v.episode_id;
  closed_at = s.event.input.occurred_at;
  gross_pnl = none;
  net_pnl = none;
  net_r = none;
  commission = none;
  financing = none;
  spread_cost = none;
  outcome = TradeOutcome.unknown;
  complete = false;
}

-- The trade of a closed position: the one that it reports, or one of unknown outcome.
abbrev pub trade_of : StoredEvent → PositionView → TradeView
trade_of s v = elim v.trade [ some t ↦ t | none ↦ unknown_trade s v ]

module _ (stream_of : TelemetryEvent → ℕ) (body_hash : Body → String) where
  abbrev pub row_of : StoredEvent → Table → Entity → Body → ProjectionRow
  row_of s t entity b = record {
    table = t;
    stream_id = stream_of s.event;
    entity_id = entity;
    sequence = s.sequence;
    event_id = s.event.event_id;
    occurred_at = s.event.input.occurred_at;
    body = b;
    body_hash = body_hash b;
  }

  unfoldable pub check_previous : StoredEvent → Option ProjectionRow → Result (Unit {0})
  check_previous s none = ok tt
  check_previous s (some r) = do
    raise_if (not (str_eq r.body_hash (body_hash r.body)))
        "PROJECTION_INTEGRITY_FAILURE_REBUILD_REQUIRED"
    raise_if (ltb s.event.input.occurred_at r.occurred_at) "PROJECTION_TIME_REGRESSION"
    ok tt

  -- The second row, of the trade that a closed position ends.
  unfoldable pub with_trade : StoredEvent → Body → Payload → List ProjectionRow → List ProjectionRow
  with_trade s b (position v) rows =
      if is_closed v.state
      then upsert
          (row_of s trade_projection (episode v.episode_id)
            (record b { trade = some (trade_of s v) }))
          rows
      else rows
  with_trade s b _ rows = rows

  unfoldable pub written :
      List ProjectionRow → StoredEvent → Option ProjectionRow → List ProjectionRow
  written rows s previous =
      let p = s.event.input.payload in
      let b = full_body s p previous in
      with_trade s b p (upsert (row_of s (table_of p) (entity_of s p) b) rows)

  unfoldable pub apply_projection : List ProjectionRow → StoredEvent → Result (List ProjectionRow)
  apply_projection rows s = do
    let previous = previous_row rows (stream_of s.event) s s.event.input.payload
    check_previous s previous
    check_row s s.event.input.payload previous
    ok (written rows s previous)

  -- The loop of `rebuild`.
  unfoldable pub project_all : List ProjectionRow → List StoredEvent → Result (List ProjectionRow)
  project_all rows [] = ok rows
  project_all rows (s ∷ ss) = apply_projection rows s >>= λ next. project_all next ss
