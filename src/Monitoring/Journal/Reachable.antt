-- ===== src/Monitoring/Journal/Reachable.antt =====
-- monitoring/journal.py: the journals that appends and rebuilds reach.
use adaptive_trading_ecosyst.Prelude.{
  order_from, ℕ, ◌≡◌, refl, sym, ap, ◌∙◌, Bool, true, false, List, [], ◌∷◌, ◌++◌, String, length,
  ◌==◌, inl, inr, Bool-cases, ok, ok-injective, arith,
}
use adaptive_trading_ecosyst.Monitoring.Contracts.{TelemetryEvent, StoredEvent}
use adaptive_trading_ecosyst.Monitoring.Contracts.Inputs.{Digests}
use adaptive_trading_ecosyst.Monitoring.ReadModels.{Body, ProjectionRow}
use adaptive_trading_ecosyst.Monitoring.Projections.{project_all}
use adaptive_trading_ecosyst.Monitoring.Projections.Streams.{
  models_of, apply_projection-models_of, apply_projection-other, project_all-append,
}
use adaptive_trading_ecosyst.Monitoring.Tables.{Store, empty_store, HeadRow, head_of, same_sources}
use adaptive_trading_ecosyst.Monitoring.Journal.{
  Reading, stream_of, read_rows, check_head, replay, with_head, append, rebuild,
}
use adaptive_trading_ecosyst.Monitoring.Journal.Extension.{IsRead-replay}
use adaptive_trading_ecosyst.Monitoring.Journal.Written.{replay-same, IsWritten}
use adaptive_trading_ecosyst.Monitoring.Journal.Soundness.{
  IsSound, empty_store-IsSound, with_head-tables,
}
use adaptive_trading_ecosyst.Monitoring.Journal.Append.{
  Delivery, repeated, written, append-Delivery,
}
use adaptive_trading_ecosyst.Monitoring.Journal.Refinement.{Delivery-other, append-IsSound}
use adaptive_trading_ecosyst.Monitoring.Journal.Rebuild.{IsDerived, IsRebuilt, rebuild-IsRebuilt}

same_id : (a b : ℕ) → (a == b) ≡ true → a ≡ b
same_id a b h = ground arith

module _ (d : Digests) (body_hash : Body → String)
    (same_event : TelemetryEvent → TelemetryEvent → Bool) where
  -- The rows of the stream, after an event is written.
  written-derives :
      (s t : Store) (h : HeadRow) (e : TelemetryEvent) (x : StoredEvent) (events : List StoredEvent)
      → IsWritten d body_hash (with_head d e s) h e t x
      → project_all (stream_of d) body_hash [] events ≡ ok (models_of (stream_of d e) s.projections)
      → project_all (stream_of d) body_hash [] (events ++ x ∷ [])
        ≡ ok (models_of (stream_of d e) t.projections)
  written-derives s t h e x events w p =
      let tables = with_head-tables d s e in
      let placed : stream_of d x.event ≡ stream_of d e = ap (stream_of d) w.event in
      let projected = rw tables.2 at w.projections in
      let own =
        rw projected at (apply_projection-models_of (stream_of d) body_hash s.projections x) in
      rw (project_all-append (stream_of d) body_hash [] events x, p) (rw placed at own)

  Delivery-derives :
      (s t : Store) (e : TelemetryEvent) (x : StoredEvent) (g : Reading) (stream : ℕ)
      (events : List StoredEvent)
      → IsDerived d body_hash s
      → replay d s (stream_of d e) ≡ ok g.events
      → Delivery d body_hash same_event s e g t x
      → replay d t stream ≡ ok events
      → project_all (stream_of d) body_hash [] events ≡ ok (models_of stream t.projections)
  Delivery-derives s t e x g stream events derived old (repeated f same stays) r =
      rw stays (derived.derives stream events (rw stays at r))
  Delivery-derives s t e x g stream events derived old (written h found f w read) r =
      elim (Bool-cases (stream_of d e == stream)) [
        | inl own ↦
            let placed = same_id _ _ own in
            let now = IsRead-replay d t (stream_of d e) _ read in
            let same : events ≡ g.events ++ x ∷ [] =
              ok-injective (sym (rw (← placed) at r) ∙ now) in
            rw (same, ← placed)
              (written-derives s t h e x g.events w (derived.derives (stream_of d e) g.events old))
        | inr other ↦
            let before =
              Delivery-other d body_hash same_event s t e x g stream other
                (written h found f w read) in
            let foreign : (stream_of d x.event == stream) ≡ false = rw w.event other in
            let rows =
              apply_projection-other (stream_of d) body_hash (with_head d e s).projections x stream
                foreign w.projections in
            rw (rows, (with_head-tables d s e).2) (derived.derives stream events (sym before.0 ∙ r))
      ]

  append-IsDerived :
      (s t : Store) (e : TelemetryEvent) (x : StoredEvent)
      → IsSound d s
      → IsDerived d body_hash s
      → append d body_hash same_event s e ≡ ok (t, x)
      → IsDerived d body_hash t
  append-IsDerived s t e x sound derived w =
      let (g, old, delivery) = append-Delivery d body_hash same_event s e sound w in
      record {
        derives =
            λ stream events r. Delivery-derives s t e x g stream events derived old delivery r;
      }

  rebuilt-replay :
      (s t : Store) (stream u : ℕ) (rows : List ProjectionRow)
      → IsRebuilt d body_hash s t stream rows
      → (replay d t u ≡ replay d s u) × (head_of t u ≡ head_of s u)
  rebuilt-replay s t stream u rows b =
      let head : head_of t u ≡ head_of s u = rw b.heads refl in
      (replay-same d s t u (rw b.events refl) head (rw b.sources refl), head)

  rebuilt-models :
      (s t : Store) (stream u : ℕ)
      → IsRebuilt d body_hash s t stream (models_of stream s.projections)
      → models_of u t.projections ≡ models_of u s.projections
  rebuilt-models s t stream u b = elim (Bool-cases (stream == u)) [
    | inl own ↦ rw (← same_id stream u own) b.own
    | inr other ↦ b.others u other
  ]

  rebuilt-kept :
      (s t : Store) (stream : ℕ) (n : ℕ)
      → IsSound d s
      → IsDerived d body_hash s
      → rebuild d body_hash s stream ≡ ok (t, n)
      → IsSound d t × IsDerived d body_hash t
  rebuilt-kept s t stream n sound derived w =
      let (events, r) = sound.replays stream in
      let p = derived.derives stream events r in
      let (v, w', b) = rebuild-IsRebuilt d body_hash s stream events _ r p in
      let same : v ≡ t = ap (λ (q : Store × ℕ). q.0) (ok-injective (sym w' ∙ w)) in
      let b' = rw same at b in
      (
        record {
          replays = λ u.
              let (old, q) = sound.replays u in (old, (rebuilt-replay s t stream u _ b').0 ∙ q);
          counted =
              λ u h there. sound.counted u h (sym (rebuilt-replay s t stream u _ b').1 ∙ there);
        },
        record {
          derives = λ u old q.
              rw (rebuilt-models s t stream u b')
                (derived.derives u old (sym (rebuilt-replay s t stream u _ b').0 ∙ q));
        },
      )

  -- What calls that succeed make of an empty database.
  pub data Reach : Store → Type 0 where
    start : Reach empty_store
    appended :
        {s t : Store} (e : TelemetryEvent) (x : StoredEvent)
        → Reach s
        → append d body_hash same_event s e ≡ ok (t, x)
        → Reach t
    rebuilt :
        {s t : Store} (stream n : ℕ) → Reach s → rebuild d body_hash s stream ≡ ok (t, n) → Reach t

  empty_store-IsDerived : IsDerived d body_hash empty_store
  unfolding project_all replay read_rows check_head order_from same_sources
  empty_store-IsDerived = record { derives = λ stream events r. rw (← ok-injective r) refl }

  Reach-invariant : {s : Store} → Reach s → IsSound d s × IsDerived d body_hash s
  Reach-invariant start = (empty_store-IsSound d, empty_store-IsDerived)
  Reach-invariant (appended {s} {t} e x r w) =
      let (sound, derived) = Reach-invariant r in
      (
        append-IsSound d body_hash same_event s t e x sound w,
        append-IsDerived s t e x sound derived w,
      )
  Reach-invariant (rebuilt {s} {t} stream n r w) =
      let (sound, derived) = Reach-invariant r in rebuilt-kept s t stream n sound derived w

  pub Reach-IsSound : {s : Store} → Reach s → IsSound d s
  Reach-IsSound r = (Reach-invariant r).0

  -- In a journal that appends and rebuilds have reached, every stream can be replayed, and a rebuild
  -- of its read models succeeds and leaves the rows of every stream as they were.
  pub Reach-rebuild :
      {s : Store} (stream : ℕ)
      → Reach s
      → (events : List StoredEvent) × (t : Store) × (replay d s stream ≡ ok events)
        × (rebuild d body_hash s stream ≡ ok (t, length events))
        × ((u : ℕ) → models_of u t.projections ≡ models_of u s.projections)
  Reach-rebuild {s} stream reached =
      let (sound, derived) = Reach-invariant reached in
      let (events, r) = sound.replays stream in
      let (t, w, b) =
        rebuild-IsRebuilt d body_hash s stream events _ r (derived.derives stream events r) in
      (events, t, r, w, λ u. rebuilt-models s t stream u b)
