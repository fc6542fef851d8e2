-- ===== src/Monitoring/Journal/Rebuild.antt =====
-- monitoring/journal.py: the read models of a journal that has only been appended to and rebuilt.
use adaptive_trading_ecosyst.Prelude.{
  ℕ, ◌≡◌, refl, ◌∙◌, true, false, not, List, [], ◌∷◌, String, All, length, ◌==◌, keep, keep-keep,
  ok, arith,
}
use adaptive_trading_ecosyst.Monitoring.Contracts.{StoredEvent}
use adaptive_trading_ecosyst.Monitoring.Contracts.Inputs.{Digests}
use adaptive_trading_ecosyst.Monitoring.ReadModels.{Body, ProjectionRow}
use adaptive_trading_ecosyst.Monitoring.Projections.{project_all}
use adaptive_trading_ecosyst.Monitoring.Projections.Streams.{models_of, is_of, project_all-lifts}
use adaptive_trading_ecosyst.Monitoring.Tables.{Store, sorted_rows}
use adaptive_trading_ecosyst.Monitoring.Journal.{first_reading, stream_of, replay, rebuild}
use adaptive_trading_ecosyst.Monitoring.Journal.Rows.{read_rows_stream}
use adaptive_trading_ecosyst.Monitoring.Journal.Extension.{replay-IsRead}

module _ (d : Digests) (body_hash : Body → String) where
  -- The rows of a stream are what the projection makes of its events.
  pub record IsDerived (s : Store) : Type 0 where
    pub derives :
        (stream : ℕ) (events : List StoredEvent)
        → replay d s stream ≡ ok events
        → project_all (stream_of d) body_hash [] events ≡ ok (models_of stream s.projections)

  pub replay_stream :
      (s : Store) (stream : ℕ) {events : List StoredEvent}
      → replay d s stream ≡ ok events
      → All (λ (x : StoredEvent). stream_of d x.event ≡ stream) events
  replay_stream s stream r =
      let (g, read, same) = replay-IsRead d s stream r in
      rw (← same) (read_rows_stream d stream first_reading (sorted_rows s stream) tt read.rows)

  models_of-foreign :
      (stream : ℕ) (rows : List ProjectionRow)
      → models_of stream (keep (λ (r : ProjectionRow). not (r.stream_id == stream)) rows) ≡ []
  models_of-foreign stream [] = refl
  models_of-foreign stream (r ∷ rows) = ground (arith, models_of-foreign stream rows)

  models_of-others :
      (stream other : ℕ) (rows : List ProjectionRow)
      → (stream == other) ≡ false
      → models_of other (keep (λ (r : ProjectionRow). not (r.stream_id == stream)) rows)
        ≡ models_of other rows
  models_of-others stream other rows o =
      keep-keep (is_of other) (λ (r : ProjectionRow). not (r.stream_id == stream)) rows
        (λ (r : ProjectionRow) (h : is_of other r ≡ true). ground (arith, o))

  -- What a rebuild leaves.
  pub record IsRebuilt (s t : Store) (stream : ℕ) (rows : List ProjectionRow) : Type 0 where
    pub heads : t.heads ≡ s.heads
    pub events : t.events ≡ s.events
    pub sources : t.sources ≡ s.sources
    pub own : models_of stream t.projections ≡ rows
    pub others :
        (other : ℕ)
        → (stream == other) ≡ false
        → models_of other t.projections ≡ models_of other s.projections

  -- Whatever the read models of a stream hold, a rebuild makes them what the projection makes of the
  -- events, provided that these can be replayed and projected; all else stays.
  pub rebuild-IsRebuilt :
      (s : Store) (stream : ℕ) (events : List StoredEvent) (rows : List ProjectionRow)
      → replay d s stream ≡ ok events
      → project_all (stream_of d) body_hash [] events ≡ ok rows
      → (t : Store) × (rebuild d body_hash s stream ≡ ok (t, length events))
        × IsRebuilt s t stream rows
  unfolding rebuild
  rebuild-IsRebuilt s stream events rows r p =
      let kept = keep (λ (x : ProjectionRow). not (x.stream_id == stream)) s.projections in
      let (next, projected, own, others) =
        project_all-lifts (stream_of d) body_hash kept events stream (replay_stream s stream r)
          (rw (models_of-foreign stream s.projections) p) in
      (
        record s { projections = next },
        rw (r, projected) refl,
        record {
          heads = refl;
          events = refl;
          sources = refl;
          own = own;
          others = λ other o. others other o ∙ models_of-others stream other s.projections o;
        },
      )
