-- ===== src/Monitoring/ReadModels.antt =====
-- monitoring/projections.py: the rows of the read models. The tables are one list of rows, in the order in which
-- the rows were first written; a row is written in place when its key is there.
use adaptive_trading_ecosyst.Prelude.{
  ℕ, Bool, true, false, ◌&&◌, Option, none, some, List, [], ◌∷◌, ltb, ◌==◌, keep, if◌then◌else◌,
  String,
}
use adaptive_trading_ecosyst.Domain.Primitives.{EntityId, UtcTimestamp}
use adaptive_trading_ecosyst.Monitoring.Contracts.{
  Environment, EventSource, TradeView, Payload, Component, component_rank,
}

pub data Table : Type 0 where
  account_snapshots portfolio_snapshots position_projection risk_projection : Table
  system_health_projection activity_projection trade_projection : Table

abbrev pub table_rank : Table → ℕ
table_rank account_snapshots = 0
table_rank portfolio_snapshots = 1
table_rank position_projection = 2
table_rank risk_projection = 3
table_rank system_health_projection = 4
table_rank activity_projection = 5
table_rank trade_projection = 6

-- The texts that name an entity: an episode, a component of an instance, a sequence number, the word
-- `account`, or a strategy or an instance. A table holds one sort of them.
pub data Entity : Type 0 where
  episode : EntityId → Entity
  of_component : Component → EntityId → Entity
  of_sequence : ℕ → Entity
  the_account : Entity
  actor : EntityId → Entity

abbrev pub same_entity : Entity → Entity → Bool
same_entity (episode a) (episode b) = a == b
same_entity (of_component c a) (of_component k b) = component_rank c == component_rank k && a == b
same_entity (of_sequence m) (of_sequence n) = m == n
same_entity the_account the_account = true
same_entity (actor a) (actor b) = a == b
same_entity _ _ = false

-- The body of a row: the payload, what is added to it from the event, the two fields that a risk row
-- adds, and the trade that a row of a closed position adds.
pub record Body : Type 0 where
  pub payload : Payload
  pub environment : Environment
  pub account_id : Option EntityId
  pub run_id : Option EntityId
  pub strategy_id : Option EntityId
  pub symbol : Option String
  pub source : EventSource
  pub source_instance_id : EntityId
  pub magic_number : Option ℕ
  pub broker_ticket : Option String
  pub comment : Option String
  pub last_rejection_reason : Option (List String)
  pub last_state_change : Option UtcTimestamp
  pub trade : Option TradeView

pub record ProjectionRow : Type 0 where
  pub table : Table
  pub stream_id : ℕ
  pub entity_id : Entity
  pub sequence : ℕ
  pub event_id : EntityId
  pub occurred_at : UtcTimestamp
  pub body : Body
  pub body_hash : String

abbrev pub in_table : Table → ℕ → ProjectionRow → Bool
in_table t stream r = r.stream_id == stream && table_rank r.table == table_rank t

abbrev pub has_key : Table → ℕ → Entity → ProjectionRow → Bool
has_key t stream entity r = in_table t stream r && same_entity r.entity_id entity

-- `order_by(sequence.desc()).limit(1)`
abbrev pub later_row : Option ProjectionRow → ProjectionRow → ProjectionRow
later_row none r = r
later_row (some s) r = if ltb s.sequence r.sequence then r else s

abbrev pub latest_from : Option ProjectionRow → List ProjectionRow → Option ProjectionRow
latest_from best [] = best
latest_from best (r ∷ rs) = latest_from (some (later_row best r)) rs

unfoldable pub latest : Table → ℕ → List ProjectionRow → Option ProjectionRow
latest t stream rows = latest_from none (keep (in_table t stream) rows)

-- `insert … on_conflict_do_update`
unfoldable pub upsert : ProjectionRow → List ProjectionRow → List ProjectionRow
upsert r [] = r ∷ []
upsert r (x ∷ xs) = if has_key r.table r.stream_id r.entity_id x then r ∷ xs else x ∷ upsert r xs
