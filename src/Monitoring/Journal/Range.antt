-- ===== src/Monitoring/Journal/Range.antt =====
-- monitoring/contracts.py and monitoring/journal.py: what holds of every event that a replay returns.
use adaptive_trading_ecosyst.Prelude.{
  ℕ, ◌^◌, ◌≤◌, ◌<◌, ◌≡◌, true, false, not, ◌&&◌, List, [], ◌∷◌, All, All-append, ltb, leb,
  not-false, ok, bind-eq-ok, guard-eq-ok, ok-injective, arith,
}
use adaptive_trading_ecosyst.Accounting.Contracts.{label, optionally}
use adaptive_trading_ecosyst.Monitoring.Contracts.{
  StoredEvent, same_environment, live, same_source, EventSource,
}
use adaptive_trading_ecosyst.Monitoring.Contracts.Views.{validate_payload}
use adaptive_trading_ecosyst.Monitoring.Contracts.Inputs.{
  Digests, validate_stored, validate_event, validate_input, account_sequence, magic, text_of,
  same_kind, kind_of, expected_kind,
}
use adaptive_trading_ecosyst.Monitoring.Tables.{EventRow, Store, sorted_rows}
use adaptive_trading_ecosyst.Monitoring.Journal.{
  Reading, first_reading, read_row, read_rows, replay,
}
use adaptive_trading_ecosyst.Monitoring.Journal.Rows.{read_row-IsReadRow}
use adaptive_trading_ecosyst.Monitoring.Journal.Extension.{replay-IsRead}

-- The numbers of an event fit into 63 bits and start at 1; it was recorded after it occurred; its
-- payload is of the kind that its type asks for; and the domain says nothing of a live account.
pub record InRange (s : StoredEvent) : Type 0 where
  pub sequence : (1 ≤ s.sequence) × (s.sequence < 2 ^ 63)
  pub source_sequence :
      (1 ≤ s.event.input.source_sequence) × (s.event.input.source_sequence < 2 ^ 63)
  pub chronology : s.event.input.occurred_at ≤ s.event.input.recorded_at
  pub kind :
      same_kind (kind_of s.event.input.payload) (expected_kind s.event.input.event_type) ≡ true
  pub not_live :
      same_environment s.event.input.scope.environment live ≡ true
      → same_source s.event.input.source EventSource.domain ≡ false

account_sequence_range : (n : ℕ) {m : ℕ} → account_sequence n ≡ ok m → (1 ≤ n) × (n < 2 ^ 63)
unfolding account_sequence
account_sequence_range n h =
    let (low, h₁) = guard-eq-ok (ltb n 1) _ _ h in
    let (high, _) = guard-eq-ok (leb (2 ^ 63) n) _ _ h₁ in ground arith

module _ (d : Digests) where
  validate_stored-InRange :
      (s : StoredEvent) {v : StoredEvent} → validate_stored d s ≡ ok v → InRange s
  unfolding validate_stored validate_event validate_input
  validate_stored-InRange s h =
      let e = s.event.input in
      let (_, n, h₁) = bind-eq-ok (account_sequence s.sequence) _ h in
      let (_, checked, _) = bind-eq-ok (validate_event d s.event) _ h₁ in
      let (_, input, _) = bind-eq-ok (validate_input e) _ checked in
      let (_, m, i₁) = bind-eq-ok (account_sequence e.source_sequence) _ input in
      let (_, _, i₂) = bind-eq-ok (optionally label e.symbol) _ i₁ in
      let (_, _, i₃) = bind-eq-ok (optionally magic e.magic_number) _ i₂ in
      let (_, _, i₄) = bind-eq-ok (optionally (text_of 2000) e.comment) _ i₃ in
      let (_, _, i₅) = bind-eq-ok (optionally label e.broker_ticket) _ i₄ in
      let (_, _, i₆) = bind-eq-ok (validate_payload e.payload) _ i₅ in
      let (late, i₇) = guard-eq-ok (ltb e.recorded_at e.occurred_at) _ _ i₆ in
      let (alive, i₈) =
        guard-eq-ok
          (same_environment e.scope.environment live && same_source e.source EventSource.domain) _ _
          i₇ in
      let (kinds, _) =
        guard-eq-ok (not (same_kind (kind_of e.payload) (expected_kind e.event_type))) _ _ i₈ in
      record {
        sequence = account_sequence_range s.sequence n;
        source_sequence = account_sequence_range e.source_sequence m;
        chronology = ground arith;
        kind = not-false _ kinds;
        not_live = λ on. rw on at alive;
      }

  read_rows-InRange :
      (stream : ℕ) (g : Reading) (rows : List EventRow) {h : Reading}
      → All InRange g.events
      → read_rows d stream g rows ≡ ok h
      → All InRange h.events
  unfolding read_rows
  read_rows-InRange stream g [] a e = let same = ok-injective e in rw (← same) a
  read_rows-InRange stream g (row ∷ rows) a e =
      let (k, first, rest) = bind-eq-ok (read_row d stream g row) _ e in
      let r = read_row-IsReadRow d stream g row first in
      read_rows-InRange stream k rows
        (rw r.events (
          All-append InRange g.events (row.body ∷ []) a
            (validate_stored-InRange row.body r.valid, tt)))
        rest

  -- Every event of a replay has its numbers in range and is coherent.
  pub replay-InRange :
      (s : Store) (stream : ℕ) (events : List StoredEvent)
      → replay d s stream ≡ ok events
      → All InRange events
  replay-InRange s stream events r =
      let (g, read, same) = replay-IsRead d s stream r in
      rw (← same) (read_rows-InRange stream first_reading (sorted_rows s stream) tt read.rows)
