-- ===== src/Monitoring/Tests.antt =====
-- A position is opened and closed in one stream; the events are appended, replayed and projected.
use adaptive_trading_ecosyst.Prelude.{
  order_from, insert_by, ℕ, ◌≡◌, refl, true, none, some, List, [], ◌∷◌, ◌==◌, length, All, String,
  Bool, Result, ok, err, arith,
}
use adaptive_trading_ecosyst.Prelude.Int.{pos, ◌*ℤ◌}
use adaptive_trading_ecosyst.Decimal.{Decimal, of_int, zero_d, num_digits, leb_d}
use adaptive_trading_ecosyst.Domain.Primitives.{
  hours, finite_decimal, positive_decimal, nonnegative_decimal,
}
use adaptive_trading_ecosyst.Accounting.Contracts.{label}
use adaptive_trading_ecosyst.Monitoring.Contracts.{
  Environment, EventType, EventSource, Side, PositionState, PositionView, Payload, EventInput,
  TelemetryEvent, StoredEvent,
}
use adaptive_trading_ecosyst.Monitoring.Contracts.Views.{
  validate_payload, validate_position_view, validate_trade_view,
}
use adaptive_trading_ecosyst.Domain.Events.{hash_text}
use adaptive_trading_ecosyst.Monitoring.Contracts.Inputs.{
  Digests, validate_input, validate_event, validate_stored, seal, expected_id, account_sequence,
  check_position, magic, text_of,
}
use adaptive_trading_ecosyst.Monitoring.ReadModels.{Body, upsert, latest}
use adaptive_trading_ecosyst.Monitoring.Projections.{
  apply_projection, project_all, previous_row, check_previous, check_row, check_position_row,
  check_against, lineage_changed, full_body, written, with_trade,
}
use adaptive_trading_ecosyst.Monitoring.Projections.Streams.{models_of}
use adaptive_trading_ecosyst.Domain.Events.{genesis_hash}
use adaptive_trading_ecosyst.Monitoring.Tables.{
  HeadRow, Store, empty_store, head_of, put_source, same_sources, insert_event, update_head,
  merged_source, upsert_source,
}
use adaptive_trading_ecosyst.Monitoring.Journal.{
  read_row, read_rows, check_head, replay, check_correction, last_from, with_head, write, extend,
  deliver, append, rebuild,
}
use adaptive_trading_ecosyst.Monitoring.Journal.Soundness.{IsSound}
use adaptive_trading_ecosyst.Monitoring.Journal.Refinement.{append-delivered, append_idempotent}
use adaptive_trading_ecosyst.Monitoring.Journal.Reachable.{
  start, appended, Reach-IsSound, Reach-rebuild,
}
use adaptive_trading_ecosyst.Monitoring.Journal.Integrity.{same_head-same_events}
use adaptive_trading_ecosyst.Monitoring.Journal.Range.{InRange, replay-InRange}

unfoldable bundle : Unit {0}
unfolding finite_decimal positive_decimal nonnegative_decimal label validate_payload
    validate_position_view validate_trade_view validate_input validate_event validate_stored seal
    expected_id account_sequence hash_text check_position magic text_of upsert latest
    apply_projection project_all previous_row check_previous check_row check_position_row
    check_against lineage_changed full_body written with_trade insert_by order_from put_source
    same_sources insert_event update_head merged_source upsert_source read_row read_rows check_head
    replay check_correction last_from with_head write extend deliver append rebuild num_digits leb_d
    ◌*ℤ◌
bundle = tt

-- Digests that tell nothing apart but the numbers of a source.
abbrev digests : Digests
digests = record {
  stream_id = λ scope. 7;
  event_id_of = λ stream source sequence. sequence;
  seal_hash = λ e n previous. genesis_hash;
}

abbrev body_digest : Body → String
body_digest b = "body"

abbrev same_identity : TelemetryEvent → TelemetryEvent → Bool
same_identity a b = a.event_id == b.event_id

same_identity_self : (a : TelemetryEvent) → same_identity a a ≡ true
same_identity_self a = ground arith

abbrev money : ℕ → Decimal
money n = of_int (pos n)

abbrev opened_view : PositionView
opened_view = record {
  domain_identity = "episode";
  episode_id = 4;
  side = Side.long;
  quantity = money 2;
  average_entry = money 100;
  mark_price = none;
  unrealized_pnl = none;
  realized_pnl = none;
  stop_loss = none;
  take_profit = none;
  opened_at = hours 1;
  updated_at = hours 1;
  state = PositionState.open_state;
  trade = none;
}

abbrev closed_view : PositionView
closed_view = record opened_view {
  quantity = zero_d;
  updated_at = hours 2;
  state = PositionState.closed_state;
}

abbrev opening_input : EventInput
opening_input = record {
  event_type = EventType.position_opened;
  scope = record { environment = Environment.demo; run_id = none; account_id = some 9 };
  occurred_at = hours 1;
  recorded_at = hours 1;
  source = EventSource.external_ea;
  source_instance_id = 3;
  source_sequence = 1;
  strategy_id = none;
  symbol = some "XAUUSD";
  correlation_id = 11;
  causation_id = none;
  corrects_event_id = none;
  magic_number = some 42;
  comment = none;
  broker_ticket = none;
  payload = Payload.position opened_view;
}

abbrev opening : TelemetryEvent
opening = record { input = opening_input; event_id = 1 }

abbrev closing : TelemetryEvent
closing = record {
  input = record opening_input {
    event_type = EventType.position_closed;
    occurred_at = hours 2;
    recorded_at = hours 2;
    source_sequence = 2;
    payload = Payload.position closed_view;
  };
  event_id = 2;
}

abbrev run : Store → TelemetryEvent → Result (Store × StoredEvent)
run = append digests body_digest same_identity

abbrev stored_opening : StoredEvent
stored_opening = record {
  sequence = 1;
  event = opening;
  previous_hash = genesis_hash;
  event_hash = genesis_hash;
}

abbrev store_of : Result (Store × StoredEvent) → Store
store_of (ok r) = r.0
store_of (err code) = empty_store

opened_store : Store
unfolding bundle
opened_store = store_of (run empty_store opening)

closed_store : Store
unfolding opened_store
closed_store = store_of (run opened_store closing)

opening_runs : run empty_store opening ≡ ok (opened_store, stored_opening)
unfolding bundle opened_store
opening_runs = refl

abbrev stored_closing : StoredEvent
stored_closing = record {
  sequence = 2;
  event = closing;
  previous_hash = genesis_hash;
  event_hash = genesis_hash;
}

closing_runs : run opened_store closing ≡ ok (closed_store, stored_closing)
unfolding bundle opened_store closed_store
closing_runs = refl

-- The position row and the row of the trade that was closed.
closed_models : length (models_of 7 closed_store.projections) ≡ 2
unfolding bundle opened_store closed_store
closed_models = refl

-- An event that skips a number of its source, and one with the identity of another.
skipping_fails :
    run empty_store (record closing { event_id = 2 }) ≡ err "SOURCE_SEQUENCE_GAP_OR_REORDER"
unfolding bundle
skipping_fails = refl

reopening_fails :
    run closed_store (record {
      input = record opening_input {
        occurred_at = hours 2;
        recorded_at = hours 2;
        source_sequence = 3;
        payload = Payload.position (record opened_view { updated_at = hours 2 });
      };
      event_id = 3;
    })
    ≡ err "POSITION_ALREADY_EXISTS"
unfolding bundle opened_store closed_store
reopening_fails = refl

opened-IsSound : IsSound digests opened_store
opened-IsSound =
    Reach-IsSound digests body_digest same_identity
      (appended opening stored_opening start opening_runs)

opened_replays : replay digests opened_store 7 ≡ ok (stored_opening ∷ [])
unfolding bundle opened_store
opened_replays = refl

append-delivered_example : replay digests closed_store 7 ≡ ok (stored_opening ∷ stored_closing ∷ [])
append-delivered_example =
    append-delivered digests body_digest same_identity opened_store closed_store closing
      stored_closing 7 (stored_opening ∷ []) opened-IsSound closing_runs opened_replays

append_idempotent_example : run closed_store closing ≡ ok (closed_store, stored_closing)
append_idempotent_example =
    append_idempotent digests body_digest same_identity opened_store closed_store closing
      stored_closing opened-IsSound same_identity_self closing_runs

Reach-rebuild_example :
    (events : List StoredEvent) × (t : Store) × (replay digests closed_store 7 ≡ ok events)
    × (rebuild digests body_digest closed_store 7 ≡ ok (t, length events))
    × ((u : ℕ) → models_of u t.projections ≡ models_of u closed_store.projections)
Reach-rebuild_example = Reach-rebuild digests body_digest same_identity 7 (
    appended closing stored_closing (appended opening stored_opening start opening_runs)
      closing_runs)

abbrev opened_head : HeadRow
opened_head = record {
  stream_id = 7;
  scope = opening_input.scope;
  sequence = 1;
  event_hash = genesis_hash;
}

opened_head_found : head_of opened_store 7 ≡ some opened_head
unfolding bundle opened_store
opened_head_found = refl

-- The same journal whose read models were lost.
unprojected : Store
unfolding opened_store
unprojected = record opened_store { projections = [] }

unprojected_replays : replay digests unprojected 7 ≡ ok (stored_opening ∷ [])
unfolding bundle opened_store unprojected
unprojected_replays = refl

unprojected_head_found : head_of unprojected 7 ≡ some opened_head
unfolding bundle opened_store unprojected
unprojected_head_found = refl

same_head-same_events_example : stored_opening ∷ [] ≡ stored_opening ∷ []
same_head-same_events_example =
    same_head-same_events digests opened_store unprojected 7 (stored_opening ∷ [])
      (stored_opening ∷ []) opened_head opened_head opened_replays unprojected_replays
      opened_head_found unprojected_head_found refl refl ((λ same. (refl, refl, refl), tt), tt)

replay-InRange_example : All InRange (stored_opening ∷ [])
replay-InRange_example = replay-InRange digests opened_store 7 (stored_opening ∷ []) opened_replays
