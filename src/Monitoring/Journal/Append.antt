-- ===== src/Monitoring/Journal/Append.antt =====
-- monitoring/journal.py, `append`: what it adds to the streams of a sound journal.
use adaptive_trading_ecosyst.Prelude.{
  ◌≡◌, refl, sym, ap, ◌∙◌, Bool, true, false, not, Option, none, some, List, [], ◌∷◌, ◌++◌, ◌==◌,
  if◌then◌else◌, find_first, any_of, String, ok, bind-eq-ok, guard-eq-ok, not-false, ok-injective,
}
use adaptive_trading_ecosyst.Monitoring.Contracts.{TelemetryEvent, StoredEvent}
use adaptive_trading_ecosyst.Monitoring.Contracts.Inputs.{Digests, validate_event}
use adaptive_trading_ecosyst.Monitoring.ReadModels.{Body}
use adaptive_trading_ecosyst.Monitoring.Tables.{HeadRow, Store, head_of}
use adaptive_trading_ecosyst.Monitoring.Journal.{
  Reading, last_from, next_sequence, regresses, is_event, stream_of, check_correction, replay,
  with_head, extend, deliver, append,
}
use adaptive_trading_ecosyst.Monitoring.Journal.Rows.{validate_event_self}
use adaptive_trading_ecosyst.Monitoring.Journal.Extension.{IsRead, replay-IsRead, IsRead-replay}
use adaptive_trading_ecosyst.Monitoring.Journal.Written.{
  read_after, IsWritten, write-IsWritten, IsWritten-IsRead,
}
use adaptive_trading_ecosyst.Monitoring.Journal.Soundness.{IsSound, IsHeaded, IsHeaded-of}

-- The events of a stream with one that is delivered: an event that is there is not added again.
abbrev pub delivered : StoredEvent → List StoredEvent → List StoredEvent
delivered x events = if any_of (is_event x.event.event_id) events then events else events ++ x ∷ []

module _ (d : Digests) (body_hash : Body → String) where
  -- The checks that a new event has passed.
  extend-eq-ok :
      (s : Store) (h : HeadRow) (existing : List StoredEvent) (e : TelemetryEvent) {t : Store}
      {x : StoredEvent}
      → extend d body_hash s h existing e ≡ ok (t, x)
      → (not (
            e.input.source_sequence
            == next_sequence (last_from e.input.source_instance_id existing))
          ≡ false)
        × (regresses e (last_from e.input.source_instance_id existing) ≡ false)
        × IsWritten d body_hash s h e t x
  unfolding extend
  extend-eq-ok s h existing e w =
      let source = last_from e.input.source_instance_id existing in
      let (n, w₁) = guard-eq-ok (not (e.input.source_sequence == next_sequence source)) _ _ w in
      let (forward, w₂) = guard-eq-ok (regresses e source) _ _ w₁ in
      let (_, _, w₃) = bind-eq-ok (check_correction e existing e.input.corrects_event_id) _ w₂ in
      (n, forward, write-IsWritten d body_hash s h e w₃)

  module _ (same_event : TelemetryEvent → TelemetryEvent → Bool) where
    -- What a delivery has done: the event was there, and nothing changed, or it is written.
    pub data Delivery (s : Store) (e : TelemetryEvent) (g : Reading) (t : Store) (x : StoredEvent)
        : Type 0 where
      repeated :
          find_first (is_event e.event_id) g.events ≡ some x
          → same_event x.event e ≡ true
          → t ≡ s
          → Delivery s e g t x
      written :
          (h : HeadRow)
          → head_of (with_head d e s) (stream_of d e) ≡ some h
          → find_first (is_event e.event_id) g.events ≡ none
          → IsWritten d body_hash (with_head d e s) h e t x
          → IsRead d t (stream_of d e) (read_after d (stream_of d e) g x)
          → Delivery s e g t x

    deliver-Delivery :
        (s : Store) (e : TelemetryEvent) (g : Reading) (o : Option StoredEvent) {t : Store}
        {x : StoredEvent} (h : IsHeaded d s e g)
        → find_first (is_event e.event_id) g.events ≡ o
        → deliver d body_hash same_event (with_head d e s) h.head g.events e o ≡ ok (t, x)
        → Delivery s e g t x
    unfolding deliver
    deliver-Delivery s e g (some stored) h f w =
        let (same, w₁) = guard-eq-ok (not (same_event stored.event e)) _ _ w in
        let both = ok-injective w₁ in
        let own = ap (λ (p : Store × StoredEvent). p.1) both in
        repeated (f ∙ ap some own) (rw own at (not-false (same_event stored.event e) same))
          (sym (ap (λ (p : Store × StoredEvent). p.0) both) ∙ h.kept stored (is_event e.event_id) f)
    deliver-Delivery s e g none h f w =
        let (n, forward, written_to) = extend-eq-ok (with_head d e s) h.head g.events e w in
        written h.head h.found f written_to (
          IsWritten-IsRead d body_hash (with_head d e s) _ h.head e _ g h.read h.found n forward
            h.scoped written_to)

    pub append-Delivery :
        (s : Store) (e : TelemetryEvent) {t : Store} {x : StoredEvent}
        → IsSound d s
        → append d body_hash same_event s e ≡ ok (t, x)
        → (g : Reading) × (replay d s (stream_of d e) ≡ ok g.events) × Delivery s e g t x
    unfolding append
    append-Delivery s e sound w =
        let (v, valid, w₁) = bind-eq-ok (validate_event d e) _ w in
        let self = validate_event_self d e valid in
        let (events, replays) = sound.replays (stream_of d e) in
        let (g, read, same) = replay-IsRead d s (stream_of d e) replays in
        let h = IsHeaded-of d s e g sound read in
        let w₂ = rw self at w₁ in
        let w₃ = rw h.found at w₂ in
        let w₄ = rw (IsRead-replay d (with_head d e s) (stream_of d e) g h.read) at w₃ in
        (
          g,
          replays ∙ ap ok (sym same),
          deliver-Delivery s e g (find_first (is_event e.event_id) g.events) h refl w₄,
        )
