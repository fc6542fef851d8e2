-- ===== src/Monitoring/Journal/Refinement.antt =====
-- monitoring/journal.py: the journal as a list of events for each stream, which an append extends.
use mathlib.Core.Option.{some-injective}
use adaptive_trading_ecosyst.Prelude.{
  ℕ, ◌<◌, ◌≡◌, refl, sym, ap, ◌∙◌, Bool, true, false, none, some, List, [], ◌∷◌, ◌++◌, ◌==◌, inl,
  inr, Bool-cases, if◌then◌else◌, find_first, find_first-append, find_first-holds,
  any_of-find_first, any_of-find_first-none, String, ok, bind-eq-ok, ok-injective, arith,
}
use adaptive_trading_ecosyst.Monitoring.Contracts.{TelemetryEvent, StoredEvent}
use adaptive_trading_ecosyst.Monitoring.Contracts.Inputs.{Digests, validate_event}
use adaptive_trading_ecosyst.Monitoring.ReadModels.{Body}
use adaptive_trading_ecosyst.Monitoring.Tables.{HeadRow, Store, head_of}
use adaptive_trading_ecosyst.Monitoring.Tables.Heads.{find_first-update_head}
use adaptive_trading_ecosyst.Monitoring.Journal.{
  Reading, is_event, stream_of, replay, with_head, deliver, append,
}
use adaptive_trading_ecosyst.Monitoring.Journal.Rows.{validate_event_self}
use adaptive_trading_ecosyst.Monitoring.Journal.Extension.{replay-IsRead, IsRead-replay}
use adaptive_trading_ecosyst.Monitoring.Journal.Written.{IsWritten, IsWritten-other, replay-same}
use adaptive_trading_ecosyst.Monitoring.Journal.Soundness.{
  IsSound, IsHeaded, IsHeaded-of, with_head-other, with_head-tables,
}
use adaptive_trading_ecosyst.Monitoring.Journal.Append.{
  delivered, Delivery, repeated, written, append-Delivery,
}

same_stream : (a b : ℕ) → (a == b) ≡ true → a ≡ b
same_stream a b h = ground arith

module _ (d : Digests) (body_hash : Body → String)
    (same_event : TelemetryEvent → TelemetryEvent → Bool) where
  -- The other streams of the store that is written.
  written-other :
      (s t : Store) (h : HeadRow) (e : TelemetryEvent) (x : StoredEvent) (stream : ℕ)
      → (stream_of d e == stream) ≡ false
      → IsWritten d body_hash (with_head d e s) h e t x
      → (replay d t stream ≡ replay d s stream) × (head_of t stream ≡ head_of s stream)
  written-other s t h e x stream other w =
      let (rows, head, sources) =
        IsWritten-other d body_hash (with_head d e s) t h e x stream other w in
      let (events, origins, _) = with_head-tables d s e in
      let head' = head ∙ with_head-other d s e stream other in
      (replay-same d s t stream (rw events at rows) head' (rw origins at sources), head')

  delivered_new :
      (x : StoredEvent) (old : List StoredEvent) (i : ℕ)
      → x.event.event_id ≡ i
      → find_first (is_event i) old ≡ none
      → delivered x old ≡ old ++ x ∷ []
  delivered_new x old i e f = rw (e, any_of-find_first-none (is_event i) old f) refl

  delivered_there :
      (x : StoredEvent) (old : List StoredEvent) (i : ℕ)
      → find_first (is_event i) old ≡ some x
      → delivered x old ≡ old
  delivered_there x old i f =
      let named : x.event.event_id ≡ i = same_stream _ _ (find_first-holds (is_event i) old f) in
      rw (named, any_of-find_first (is_event i) old f) refl

  Delivery-own :
      (s t : Store) (e : TelemetryEvent) (x : StoredEvent) (g : Reading)
      → replay d s (stream_of d e) ≡ ok g.events
      → Delivery d body_hash same_event s e g t x
      → replay d t (stream_of d e) ≡ ok (delivered x g.events)
  Delivery-own s t e x g r (repeated f same stays) =
      rw (stays, delivered_there x g.events e.event_id f) r
  Delivery-own s t e x g r (written h found f w read) =
      rw (delivered_new x g.events e.event_id (ap (λ (y : TelemetryEvent). y.event_id) w.event) f)
        (IsRead-replay d t (stream_of d e) _ read)

  pub Delivery-other :
      (s t : Store) (e : TelemetryEvent) (x : StoredEvent) (g : Reading) (stream : ℕ)
      → (stream_of d e == stream) ≡ false
      → Delivery d body_hash same_event s e g t x
      → (replay d t stream ≡ replay d s stream) × (head_of t stream ≡ head_of s stream)
  Delivery-other s t e x g stream other (repeated f same stays) = rw stays (refl, refl)
  Delivery-other s t e x g stream other (written h found f w read) =
      written-other s t h e x stream other w

  -- An append makes of the events of its stream those with the event that it returns, added at the
  -- end unless it was there, and leaves the events of every other stream.
  pub append-delivered :
      (s t : Store) (e : TelemetryEvent) (x : StoredEvent) (stream : ℕ) (old : List StoredEvent)
      → IsSound d s
      → append d body_hash same_event s e ≡ ok (t, x)
      → replay d s stream ≡ ok old
      → replay d t stream ≡ ok (if stream_of d e == stream then delivered x old else old)
  append-delivered s t e x stream old sound w r =
      let (g, replays, delivery) = append-Delivery d body_hash same_event s e sound w in
      elim (Bool-cases (stream_of d e == stream)) [
        | inl own ↦
            let same = same_stream _ _ own in
            let old' : g.events ≡ old = ok-injective (sym replays ∙ rw (← same) at r) in
            rw own (rw (← same, ← old') (Delivery-own s t e x g replays delivery))
        | inr other ↦ rw other ((Delivery-other s t e x g stream other delivery).0 ∙ r)
      ]

  head_counted :
      (s t : Store) (e : TelemetryEvent) (x : StoredEvent) (g : Reading) (h : HeadRow)
      → IsSound d s
      → Delivery d body_hash same_event s e g t x
      → head_of t (stream_of d e) ≡ some h
      → 0 < h.sequence
  head_counted s t e x g h sound (repeated f same stays) there =
      sound.counted (stream_of d e) h (rw stays at there)
  head_counted s t e x g h sound (written k found f w read) there =
      let updated =
        find_first-update_head (stream_of d e) x.sequence x.event_hash (with_head d e s).heads k
          found in
      let numbered = w.sequence in
      let same = some-injective _ _ (sym (rw w.heads at there) ∙ updated) in
      rw same (omega (arith, numbered))

  -- Every stream of the journal can still be replayed after an append.
  pub append-IsSound :
      (s t : Store) (e : TelemetryEvent) (x : StoredEvent)
      → IsSound d s
      → append d body_hash same_event s e ≡ ok (t, x)
      → IsSound d t
  append-IsSound s t e x sound w =
      let (g, replays, delivery) = append-Delivery d body_hash same_event s e sound w in
      record {
        replays = λ stream.
            let (old, r) = sound.replays stream in
            (
              (if stream_of d e == stream then delivered x old else old),
              append-delivered s t e x stream old sound w r,
            );
        counted = λ stream h there. elim (Bool-cases (stream_of d e == stream)) [
          | inl own ↦ head_counted s t e x g h sound delivery (rw (← same_stream _ _ own) at there)
          | inr other ↦
              sound.counted stream h
                (sym (Delivery-other s t e x g stream other delivery).1 ∙ there)
        ];
      }

  -- The event that an append returns is found in its stream, and is equal to the one delivered.
  Delivery-found :
      (s t : Store) (e : TelemetryEvent) (x : StoredEvent) (g : Reading)
      → ((a : TelemetryEvent) → same_event a a ≡ true)
      → Delivery d body_hash same_event s e g t x
      → (find_first (is_event e.event_id) (delivered x g.events) ≡ some x)
        × (same_event x.event e ≡ true)
  Delivery-found s t e x g same_self (repeated f same stays) =
      (rw (delivered_there x g.events e.event_id f) f, same)
  Delivery-found s t e x g same_self (written h found f w read) =
      let own : (e.event_id == e.event_id) ≡ true = ground arith in
      (
        rw
            (
              delivered_new x g.events e.event_id (ap (λ (y : TelemetryEvent). y.event_id) w.event)
                  f,
              find_first-append (is_event e.event_id) g.events (x ∷ []),
              f,
              w.event,
              own,
            )
            refl,
        rw w.event (same_self e),
      )

  append_found :
      (t : Store) (e : TelemetryEvent) (x : StoredEvent) (g : Reading)
      → validate_event d e ≡ ok e
      → IsHeaded d t e g
      → find_first (is_event e.event_id) g.events ≡ some x
      → same_event x.event e ≡ true
      → append d body_hash same_event t e ≡ ok (t, x)
  unfolding append deliver
  append_found t e x g valid h f same =
      rw
        (
          valid,
          h.found,
          IsRead-replay d (with_head d e t) (stream_of d e) g h.read,
          f,
          same,
          h.kept x (is_event e.event_id) f,
        )
        refl

  append_validates :
      (s : Store) (e : TelemetryEvent) {r : Store × StoredEvent}
      → append d body_hash same_event s e ≡ ok r
      → validate_event d e ≡ ok e
  unfolding append
  append_validates s e w =
      let (v, valid, _) = bind-eq-ok (validate_event d e) _ w in
      valid ∙ ap ok (validate_event_self d e valid)

  -- An event that is appended again is found: nothing changes, and the same stored event is returned.
  pub append_idempotent :
      (s t : Store) (e : TelemetryEvent) (x : StoredEvent)
      → IsSound d s
      → ((a : TelemetryEvent) → same_event a a ≡ true)
      → append d body_hash same_event s e ≡ ok (t, x)
      → append d body_hash same_event t e ≡ ok (t, x)
  append_idempotent s t e x sound same_self w =
      let (g, replays, delivery) = append-Delivery d body_hash same_event s e sound w in
      let (found, same) = Delivery-found s t e x g same_self delivery in
      let (k, read, events) =
        replay-IsRead d t (stream_of d e) (Delivery-own s t e x g replays delivery) in
      append_found t e x k (append_validates s e w)
        (IsHeaded-of d t e k (append-IsSound s t e x sound w) read) (rw events found) same
