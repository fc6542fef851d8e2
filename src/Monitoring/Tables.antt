-- ===== src/Monitoring/Tables.antt =====
-- monitoring/schema.py and monitoring/journal.py: the tables of the journal, as lists of rows, and the
-- statements that read and write them.
pub mod Sources
pub mod Heads
use adaptive_trading_ecosyst.Prelude.{
  ℕ, Bool, false, not, ◌&&◌, ◌||◌, Option, none, some, List, [], ◌∷◌, ◌++◌, ltb, ◌==◌, keep,
  order_by, find_first, any_of, all_of, if◌then◌else◌, String, Result, ok, ◌>>◌, raise_if,
}
use adaptive_trading_ecosyst.Domain.Primitives.{EntityId, UtcTimestamp}
use adaptive_trading_ecosyst.Monitoring.Contracts.{
  same_environment, EventType, EventSource, same_source, Scope, StoredEvent,
}
use adaptive_trading_ecosyst.Monitoring.ReadModels.{ProjectionRow}
use adaptive_trading_ecosyst.Monitoring.Projections.{differ_ids}

pub record HeadRow : Type 0 where
  pub stream_id : ℕ
  pub scope : Scope
  pub sequence : ℕ
  pub event_hash : String

-- A row of the sources, and a value of the mapping that the replay builds.
pub record SourceRow : Type 0 where
  pub stream_id : ℕ
  pub source_instance_id : EntityId
  pub source : EventSource
  pub sequence : ℕ
  pub occurred_at : UtcTimestamp

-- The body is the stored event that its JSON text reads back as.
pub record EventRow : Type 0 where
  pub stream_id : ℕ
  pub sequence : ℕ
  pub event_id : EntityId
  pub source_instance_id : EntityId
  pub source_sequence : ℕ
  pub event_type : EventType
  pub occurred_at : UtcTimestamp
  pub recorded_at : UtcTimestamp
  pub body : StoredEvent

pub record Store : Type 0 where
  pub heads : List HeadRow
  pub events : List EventRow
  pub sources : List SourceRow
  pub projections : List ProjectionRow

abbrev pub empty_store : Store
empty_store = record { heads = []; events = []; sources = []; projections = [] }

abbrev pub same_scope : Scope → Scope → Bool
same_scope a b =
    same_environment a.environment b.environment
    && (not (differ_ids a.run_id b.run_id) && not (differ_ids a.account_id b.account_id))

abbrev pub head_of : Store → ℕ → Option HeadRow
head_of s stream = find_first (λ (h : HeadRow). h.stream_id == stream) s.heads

abbrev pub rows_of : Store → ℕ → List EventRow
rows_of s stream = keep (λ (r : EventRow). r.stream_id == stream) s.events

abbrev pub sorted_rows : Store → ℕ → List EventRow
sorted_rows s stream = order_by (λ (r : EventRow). r.sequence) (rows_of s stream)

abbrev pub source_rows : Store → ℕ → List SourceRow
source_rows s stream = keep (λ (r : SourceRow). r.stream_id == stream) s.sources

abbrev pub is_source : EntityId → SourceRow → Bool
is_source i r = r.source_instance_id == i

abbrev pub source_of : EntityId → List SourceRow → Option SourceRow
source_of i rows = find_first (is_source i) rows

-- `source_order[instance] = …`; the order of a mapping is not observed.
unfoldable pub put_source : SourceRow → List SourceRow → List SourceRow
put_source r rows = keep (λ (x : SourceRow). not (is_source r.source_instance_id x)) rows ++ r ∷ []

abbrev pub same_source_row : SourceRow → SourceRow → Bool
same_source_row a b =
    a.sequence == b.sequence && (same_source a.source b.source && a.occurred_at == b.occurred_at)

abbrev pub agrees : SourceRow → Option SourceRow → Bool
agrees r none = false
agrees r (some x) = same_source_row x r

abbrev pub holds : List SourceRow → SourceRow → Bool
holds rows r = agrees r (source_of r.source_instance_id rows)

-- Two mappings are equal when each holds the entries of the other.
unfoldable pub same_sources : List SourceRow → List SourceRow → Bool
same_sources a b = all_of (holds b) a && all_of (holds a) b

-- The unique keys of the table of events.
abbrev pub conflicts : EventRow → EventRow → Bool
conflicts r x =
    (x.stream_id == r.stream_id && x.sequence == r.sequence)
    || (x.event_id == r.event_id
        || (x.stream_id == r.stream_id
            && (x.source_instance_id == r.source_instance_id
                && x.source_sequence == r.source_sequence)))

unfoldable pub insert_event : EventRow → List EventRow → Result (List EventRow)
insert_event r rows = do raise_if (any_of (conflicts r) rows) "IntegrityError"; ok (rows ++ r ∷ [])

-- `update(heads).where(stream_id == …)`
unfoldable pub update_head : ℕ → ℕ → String → List HeadRow → List HeadRow
update_head stream n hash [] = []
update_head stream n hash (h ∷ hs) =
    let rest = update_head stream n hash hs in
    if h.stream_id == stream then record h { sequence = n; event_hash = hash } ∷ rest else h ∷ rest

abbrev pub has_source : SourceRow → SourceRow → Bool
has_source r x = x.stream_id == r.stream_id && is_source r.source_instance_id x

-- `insert(sources) … on_conflict_do_update`: the source of a row stays. The rows have no order.
unfoldable pub merged_source : SourceRow → Option SourceRow → SourceRow
merged_source r none = r
merged_source r (some x) = record x { sequence = r.sequence; occurred_at = r.occurred_at }

unfoldable pub upsert_source : SourceRow → List SourceRow → List SourceRow
unfolding merged_source
upsert_source r rows =
    keep (λ (x : SourceRow). not (has_source r x)) rows
    ++ merged_source r (find_first (has_source r) rows) ∷ []
