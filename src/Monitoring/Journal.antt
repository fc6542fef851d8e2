-- ===== src/Monitoring/Journal.antt =====
-- monitoring/journal.py: the journal of telemetry events. The database is a state whose tables are
-- lists of rows; a call that raises leaves the state as it was, for the transaction is rolled back.
-- The equality of two events, field by field, is a parameter.
pub mod Rows
pub mod Extension
pub mod Written
pub mod Soundness
pub mod Append
pub mod Refinement
pub mod Rebuild
pub mod Reachable
pub mod Integrity
pub mod Range
use adaptive_trading_ecosyst.Prelude.{
  ℕ, ◌+◌, Bool, true, false, not, ◌||◌, Option, none, some, List, [], ◌∷◌, ◌++◌, ltb, ◌==◌, length,
  keep, find_first, if◌then◌else◌, String, str_eq, Result, ok, ◌>>=◌, ◌>>◌, raise_if, or_raise,
}
use adaptive_trading_ecosyst.Domain.Primitives.{EntityId}
use adaptive_trading_ecosyst.Monitoring.Contracts.{
  same_event_type, same_source, Scope, Payload, position, health, same_component, TelemetryEvent,
  StoredEvent,
}
use adaptive_trading_ecosyst.Monitoring.Contracts.Inputs.{
  Digests, validate_event, validate_stored, seal,
}
use adaptive_trading_ecosyst.Monitoring.ReadModels.{Body, ProjectionRow}
use adaptive_trading_ecosyst.Monitoring.Projections.{
  apply_projection, project_all, differ_ids, differ_texts,
}
use adaptive_trading_ecosyst.Domain.Events.{genesis_hash}
use adaptive_trading_ecosyst.Monitoring.Tables.{
  HeadRow, SourceRow, EventRow, Store, same_scope, head_of, sorted_rows, source_rows, source_of,
  put_source, same_sources, insert_event, update_head, upsert_source,
}

-- What the loop of `replay` has read.
pub record Reading : Type 0 where
  pub events : List StoredEvent
  pub previous_hash : String
  pub sources : List SourceRow

abbrev pub first_reading : Reading
first_reading = record { events = []; previous_hash = genesis_hash; sources = [] }

abbrev pub next_of : Option SourceRow → ℕ
next_of none = 1
next_of (some r) = r.sequence + 1

-- `last and (last[1] != event.source or last[2] > event.occurred_at)`
abbrev pub is_regression : TelemetryEvent → Option SourceRow → Bool
is_regression e none = false
is_regression e (some r) =
    not (same_source r.source e.input.source) || ltb e.input.occurred_at r.occurred_at

abbrev pub misordered : Reading → TelemetryEvent → Bool
misordered g e =
    let last = source_of e.input.source_instance_id g.sources in
    not (e.input.source_sequence == next_of last) || is_regression e last

-- `result and head["scope"] != result[0].event.scope`
abbrev pub other_scope : Scope → List StoredEvent → Bool
other_scope scope [] = false
other_scope scope (s ∷ ss) = not (same_scope scope s.event.input.scope)

unfoldable pub check_head : Option HeadRow → Reading → Result (Unit {0})
check_head none g = do raise_if (ltb 0 (length g.events)) "TELEMETRY_HEAD_MISSING"; ok tt
check_head (some h) g = do
  raise_if
      (not (h.sequence == length g.events)
        || (not (str_eq h.event_hash g.previous_hash) || other_scope h.scope g.events))
      "TELEMETRY_HEAD_MISMATCH"
  ok tt

-- `next(e for s in reversed(existing) if …)`
unfoldable pub last_from : EntityId → List StoredEvent → Option StoredEvent
last_from i [] = none
last_from i (s ∷ ss) = elim (last_from i ss) [
  | some t ↦ some t
  | none ↦ if s.event.input.source_instance_id == i then some s else none
]

abbrev pub next_sequence : Option StoredEvent → ℕ
next_sequence none = 1
next_sequence (some s) = s.event.input.source_sequence + 1

abbrev pub regresses : TelemetryEvent → Option StoredEvent → Bool
regresses e none = false
regresses e (some s) =
    not (same_source s.event.input.source e.input.source)
    || ltb e.input.occurred_at s.event.input.occurred_at

abbrev pub is_event : EntityId → StoredEvent → Bool
is_event i s = s.event.event_id == i

abbrev pub other_episode : Payload → Payload → Bool
other_episode (position v) (position w) = not (w.episode_id == v.episode_id)
other_episode (position v) _ = true
other_episode _ _ = false

abbrev pub other_component : Payload → Payload → Bool
other_component (health v) (health w) = not (same_component w.component v.component)
other_component (health v) _ = true
other_component _ _ = false

unfoldable pub check_correction :
    TelemetryEvent → List StoredEvent → Option EntityId → Result (Unit {0})
check_correction e existing none = ok tt
check_correction e existing (some i) = do
  corrected ← or_raise (find_first (is_event i) existing) "INVALID_CORRECTION_REFERENCE"
  let was = corrected.event.input
  raise_if
      (not (same_event_type was.event_type e.input.event_type)
        || (not (was.source_instance_id == e.input.source_instance_id)
            || (differ_ids was.strategy_id e.input.strategy_id
                || differ_texts was.symbol e.input.symbol)))
      "INVALID_CORRECTION_REFERENCE"
  raise_if (other_episode e.input.payload was.payload) "CORRECTION_POSITION_MISMATCH"
  raise_if (other_component e.input.payload was.payload) "CORRECTION_COMPONENT_MISMATCH"
  ok tt

module _ (d : Digests) where
  abbrev pub stream_of : TelemetryEvent → ℕ
  stream_of e = d.stream_id e.input.scope

  -- `stored` and the columns of its row are those that the chain asks for.
  abbrev pub mismatch : ℕ → ℕ → String → EventRow → StoredEvent → Bool
  mismatch stream n previous row s =
      let e = s.event in
      not (s.sequence == n)
      || (not (str_eq s.previous_hash previous)
          || (not (stream_of e == stream)
              || (not (row.event_id == e.event_id)
                  || (not (row.sequence == n)
                      || (not (row.source_sequence == e.input.source_sequence)
                          || (not (row.source_instance_id == e.input.source_instance_id)
                              || (not (same_event_type row.event_type e.input.event_type)
                                  || (not (row.occurred_at == e.input.occurred_at)
                                      || not (row.recorded_at == e.input.recorded_at)))))))))

  abbrev pub source_row_of : ℕ → TelemetryEvent → SourceRow
  source_row_of stream e = record {
    stream_id = stream;
    source_instance_id = e.input.source_instance_id;
    source = e.input.source;
    sequence = e.input.source_sequence;
    occurred_at = e.input.occurred_at;
  }

  unfoldable pub read_row : ℕ → Reading → EventRow → Result Reading
  read_row stream g row = do
    s ← validate_stored d row.body
    raise_if (mismatch stream (length g.events + 1) g.previous_hash row s)
        "TELEMETRY_CHAIN_OR_COLUMN_MISMATCH"
    let last = source_of s.event.input.source_instance_id g.sources
    raise_if (not (s.event.input.source_sequence == next_of last) || is_regression s.event last)
        "TELEMETRY_SOURCE_ORDER_MISMATCH"
    ok (record {
      events = g.events ++ s ∷ [];
      previous_hash = s.event_hash;
      sources = put_source (source_row_of stream s.event) g.sources;
    })

  unfoldable pub read_rows : ℕ → Reading → List EventRow → Result Reading
  read_rows stream g [] = ok g
  read_rows stream g (row ∷ rows) = read_row stream g row >>= λ h. read_rows stream h rows

  unfoldable pub replay : Store → ℕ → Result (List StoredEvent)
  replay s stream = do
    g ← read_rows stream first_reading (sorted_rows s stream)
    check_head (head_of s stream) g
    raise_if (not (same_sources (source_rows s stream) g.sources)) "TELEMETRY_SOURCE_HEAD_MISMATCH"
    ok g.events

  abbrev pub event_row : StoredEvent → EventRow
  event_row s =
      let e = s.event in
      record {
        stream_id = stream_of e;
        sequence = s.sequence;
        event_id = e.event_id;
        source_instance_id = e.input.source_instance_id;
        source_sequence = e.input.source_sequence;
        event_type = e.input.event_type;
        occurred_at = e.input.occurred_at;
        recorded_at = e.input.recorded_at;
        body = s;
      }

  -- `insert(heads) … on_conflict_do_nothing`
  abbrev pub first_head : TelemetryEvent → HeadRow
  first_head e = record {
    stream_id = stream_of e;
    scope = e.input.scope;
    sequence = 0;
    event_hash = genesis_hash;
  }

  abbrev pub add_head : TelemetryEvent → Store → Option HeadRow → Store
  add_head e s none = record s { heads = s.heads ++ first_head e ∷ [] }
  add_head e s (some h) = s

  unfoldable pub with_head : TelemetryEvent → Store → Store
  with_head e s = add_head e s (head_of s (stream_of e))

  module _ (body_hash : Body → String) where
    unfoldable pub write : Store → HeadRow → TelemetryEvent → Result (Store × StoredEvent)
    write s head e = do
      stored ← seal d e (head.sequence + 1) head.event_hash
      events ← insert_event (event_row stored) s.events
      projections ← apply_projection stream_of body_hash s.projections stored
      ok (
        record {
          heads = update_head (stream_of e) stored.sequence stored.event_hash s.heads;
          events = events;
          sources = upsert_source (source_row_of (stream_of e) e) s.sources;
          projections = projections;
        },
        stored,
      )

    unfoldable pub extend :
        Store → HeadRow → List StoredEvent → TelemetryEvent → Result (Store × StoredEvent)
    extend s head existing e = do
      let source = last_from e.input.source_instance_id existing
      raise_if (not (e.input.source_sequence == next_sequence source))
          "SOURCE_SEQUENCE_GAP_OR_REORDER"
      raise_if (regresses e source) "SOURCE_IDENTITY_OR_TIME_REGRESSION"
      check_correction e existing e.input.corrects_event_id
      write s head e

    -- The read models of a stream are dropped and written again; the journal stays.
    unfoldable pub rebuild : Store → ℕ → Result (Store × ℕ)
    rebuild s stream = do
      events ← replay s stream
      rows ←
          project_all stream_of body_hash
            (keep (λ (r : ProjectionRow). not (r.stream_id == stream)) s.projections) events
      ok (record s { projections = rows }, length events)

    module _ (same_event : TelemetryEvent → TelemetryEvent → Bool) where
      -- An event with the identity of `e` is there, or is not.
      unfoldable pub deliver :
          Store
          → HeadRow
          → List StoredEvent
          → TelemetryEvent
          → Option StoredEvent
          → Result (Store × StoredEvent)
      deliver s head existing e none = extend s head existing e
      deliver s head existing e (some stored) = do
        raise_if (not (same_event stored.event e)) "CONFLICTING_TELEMETRY_DUPLICATE"
        ok (s, stored)

      unfoldable pub append : Store → TelemetryEvent → Result (Store × StoredEvent)
      append before event = do
        e ← validate_event d event
        let s = with_head e before
        head ← or_raise (head_of s (stream_of e)) "NoResultFound"
        existing ← replay s (stream_of e)
        deliver s head existing e (find_first (is_event e.event_id) existing)
