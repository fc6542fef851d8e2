-- ===== src/Monitoring/Journal/Written.antt =====
-- monitoring/journal.py: what `append` writes, and what the replays of the streams read then.
use adaptive_trading_ecosyst.Prelude.{
  arith, keep-append_other, order_by-keep, ℕ, ◌+◌, ◌≡◌, refl, sym, ap, ◌∙◌, true, false, not, some,
  [], ◌∷◌, ◌++◌, length, ◌==◌, any_of, String, ok, bind-eq-ok, guard-eq-ok, ok-injective,
}
use adaptive_trading_ecosyst.Monitoring.Contracts.{TelemetryEvent, StoredEvent}
use adaptive_trading_ecosyst.Monitoring.Contracts.Inputs.{Digests, validate_stored, seal}
use adaptive_trading_ecosyst.Monitoring.ReadModels.{Body}
use adaptive_trading_ecosyst.Monitoring.Projections.{apply_projection}
use adaptive_trading_ecosyst.Monitoring.Tables.{
  EventRow, HeadRow, Store, same_scope, head_of, sorted_rows, source_rows, put_source,
  upsert_source, update_head, insert_event, conflicts, rows_of,
}
use adaptive_trading_ecosyst.Monitoring.Tables.Heads.{
  find_first-update_head, find_first-update_head_other,
}
use adaptive_trading_ecosyst.Monitoring.Tables.Sources.{upsert_source-other}
use adaptive_trading_ecosyst.Monitoring.Journal.{
  Reading, first_reading, misordered, last_from, next_sequence, regresses, stream_of, source_row_of,
  replay, event_row, write,
}
use adaptive_trading_ecosyst.Monitoring.Journal.Rows.{
  read_rows-append, read_rows_bound, read_rows-Tracks, first_reading-Tracks,
}
use adaptive_trading_ecosyst.Monitoring.Journal.Extension.{
  IsRead, seal-eq-ok, mismatch_own, misordered-false, read_row-extends, same_sources_after,
  check_head-eq-ok, check_head-extends,
}

module _ (d : Digests) where
  abbrev pub read_after : ℕ → Reading → StoredEvent → Reading
  read_after stream g s = record {
    events = g.events ++ s ∷ [];
    previous_hash = s.event_hash;
    sources = put_source (source_row_of d stream s.event) g.sources;
  }

  module _ (body_hash : Body → String) where
    pub record IsWritten (s : Store) (h : HeadRow) (e : TelemetryEvent) (t : Store)
        (x : StoredEvent) : Type 0 where
      pub event : x.event ≡ e
      pub sequence : x.sequence ≡ h.sequence + 1
      pub previous : x.previous_hash ≡ h.event_hash
      pub valid : validate_stored d x ≡ ok x
      pub heads : t.heads ≡ update_head (stream_of d e) x.sequence x.event_hash s.heads
      pub events : t.events ≡ s.events ++ event_row d x ∷ []
      pub sources : t.sources ≡ upsert_source (source_row_of d (stream_of d e) e) s.sources
      pub projections : apply_projection (stream_of d) body_hash s.projections x ≡ ok t.projections

    pub write-IsWritten :
        (s : Store) (h : HeadRow) (e : TelemetryEvent) {t : Store} {x : StoredEvent}
        → write d body_hash s h e ≡ ok (t, x)
        → IsWritten s h e t x
    unfolding write insert_event
    write-IsWritten s h e w =
        let (y, sealed, w₁) = bind-eq-ok (seal d e (h.sequence + 1) h.event_hash) _ w in
        let (rows, inserted, w₂) = bind-eq-ok (insert_event (event_row d y) s.events) _ w₁ in
        let (models, applied, w₃) =
          bind-eq-ok (apply_projection (stream_of d) body_hash s.projections y) _ w₂ in
        let (_, appended) =
          guard-eq-ok (any_of (conflicts (event_row d y)) s.events) _ _ inserted in
        let (event, sequence, previous, valid) =
          seal-eq-ok d e (h.sequence + 1) h.event_hash sealed in
        let both = ok-injective w₃ in
        let same = ap (λ (p : Store × StoredEvent). p.1) both in
        let store = ap (λ (p : Store × StoredEvent). p.0) both in
        record {
          event = rw (← same) event;
          sequence = rw (← same) sequence;
          previous = rw (← same) previous;
          valid = rw (← same) valid;
          heads = rw (← same) (ap (λ (p : Store). p.heads) (sym store));
          events =
              rw (← same) (ap (λ (p : Store). p.events) (sym store) ∙ sym (ok-injective appended));
          sources = ap (λ (p : Store). p.sources) (sym store);
          projections = rw (← same) (applied ∙ ap (λ (p : Store). ok p.projections) store);
        }

    -- The replay of the stream reads the event after what it has read before.
    pub IsWritten-IsRead :
        (s t : Store) (h : HeadRow) (e : TelemetryEvent) (x : StoredEvent) (g : Reading)
        → IsRead d s (stream_of d e) g
        → head_of s (stream_of d e) ≡ some h
        → not (
            e.input.source_sequence
            == next_sequence (last_from e.input.source_instance_id g.events))
          ≡ false
        → regresses e (last_from e.input.source_instance_id g.events) ≡ false
        → (g.events ≡ [] → same_scope h.scope e.input.scope ≡ true)
        → IsWritten s h e t x
        → IsRead d t (stream_of d e) (read_after (stream_of d e) g x)
    IsWritten-IsRead s t h e x g r own n forward first w =
        let stream = stream_of d e in
        let (counted, chained, scoped) = check_head-eq-ok h g (rw own at r.head) in
        let numbered : x.sequence ≡ length g.events + 1 =
          w.sequence ∙ ap (λ (k : ℕ). k + 1) counted in
        let tracks =
          read_rows-Tracks d stream first_reading (sorted_rows s stream)
            (first_reading-Tracks d stream) r.rows in
        let bound = (read_rows_bound d stream first_reading (sorted_rows s stream) r.rows).1 in
        let placed : stream_of d x.event ≡ stream = ap (stream_of d) w.event in
        let own_row : (stream_of d x.event == stream) ≡ true = ground arith in
        let sorted =
          order_by-keep (λ (r : EventRow). r.sequence) (λ (r : EventRow). r.stream_id == stream)
            s.events (event_row d x) own_row (rw numbered bound) in
        let matching =
          mismatch_own d stream (length g.events + 1) g.previous_hash x numbered
            (w.previous ∙ chained) placed in
        let ordered : misordered g x.event ≡ false = rw w.event (
          misordered-false d stream g e (last_from e.input.source_instance_id g.events)
            (tracks e.input.source_instance_id) n forward) in
        record {
          rows =
              rw
                (
                  w.events,
                  sorted,
                  read_rows-append d stream first_reading (sorted_rows s stream) (event_row d x),
                  r.rows,
                )
                (read_row-extends d stream g x w.valid matching ordered);
          head =
              rw (w.heads, find_first-update_head stream x.sequence x.event_hash s.heads h own)
                (check_head-extends h g x (put_source (source_row_of d stream x.event) g.sources)
                  scoped numbered (rw w.event first));
          sources =
              rw (w.sources, w.event) (same_sources_after d s stream g e r.sources tracks forward);
        }

    -- The other streams are read as before.
    pub IsWritten-other :
        (s t : Store) (h : HeadRow) (e : TelemetryEvent) (x : StoredEvent) (stream : ℕ)
        → (stream_of d e == stream) ≡ false
        → IsWritten s h e t x
        → (rows_of t stream ≡ rows_of s stream)
          × (head_of t stream ≡ head_of s stream)
          × (source_rows t stream ≡ source_rows s stream)
    IsWritten-other s t h e x stream other w =
        let foreign : (stream_of d x.event == stream) ≡ false = rw w.event other in
        (
          rw w.events (
              keep-append_other (λ (r : EventRow). r.stream_id == stream) s.events (event_row d x)
                foreign),
          rw w.heads (
              find_first-update_head_other (stream_of d e) stream x.sequence x.event_hash s.heads
                other),
          rw w.sources
              (upsert_source-other (source_row_of d (stream_of d e) e) s.sources stream other),
        )

  -- A replay reads no more than the rows of the stream.
  pub replay-same :
      (s t : Store) (stream : ℕ)
      → rows_of t stream ≡ rows_of s stream
      → head_of t stream ≡ head_of s stream
      → source_rows t stream ≡ source_rows s stream
      → replay d t stream ≡ replay d s stream
  unfolding replay
  replay-same s t stream rows head sources = rw (rows, head, sources) refl
