-- ===== src/Monitoring/Journal/Rows.antt =====
-- monitoring/journal.py: what the loop of `replay` has established when it has read a row.
use adaptive_trading_ecosyst.Prelude.{
  ℕ, ◌+◌, ◌<◌, ◌≡◌, refl, sym, ap, ◌∙◌, true, false, not, Option, none, some, List, [], ◌∷◌, ◌++◌,
  All, All-append, length, length-append, ◌==◌, inl, inr, Bool-cases, if◌then◌else◌, String, str_eq,
  ok, ◌>>=◌, bind-ok, bind_append, bind-eq-ok, guard-eq-ok, ok-injective, arith,
}
use adaptive_trading_ecosyst.Domain.Primitives.{EntityId}
use adaptive_trading_ecosyst.Monitoring.Contracts.{TelemetryEvent, StoredEvent}
use adaptive_trading_ecosyst.Domain.Events.{hash_text}
use adaptive_trading_ecosyst.Monitoring.Contracts.Inputs.{
  Digests, validate_input, validate_event, validate_stored, account_sequence, expected_id,
}
use adaptive_trading_ecosyst.Monitoring.Tables.{EventRow, SourceRow, put_source, source_of}
use adaptive_trading_ecosyst.Monitoring.Tables.Sources.{source_of-put_source}
use adaptive_trading_ecosyst.Monitoring.Journal.{
  Reading, first_reading, misordered, last_from, stream_of, mismatch, source_row_of, read_row,
  read_rows,
}

pub last_from-append :
    (i : EntityId) (ss : List StoredEvent) (s : StoredEvent)
    → last_from i (ss ++ s ∷ [])
      ≡ (if s.event.input.source_instance_id == i then some s else last_from i ss)
unfolding last_from
last_from-append i [] s = refl
last_from-append i (x ∷ ss) s = ground (arith, last_from-append i ss s)

module _ (d : Digests) where
  pub validate_event_self :
      (e : TelemetryEvent) {v : TelemetryEvent} → validate_event d e ≡ ok v → v ≡ e
  unfolding validate_event
  validate_event_self e h =
      let (i, vi, h₁) = bind-eq-ok (validate_input e.input) _ h in
      let (_, h₂) = guard-eq-ok (not (e.event_id == expected_id d e.input)) _ _ h₁ in
      sym (ok-injective h₂)

  pub validate_stored_self :
      (s : StoredEvent) {v : StoredEvent} → validate_stored d s ≡ ok v → v ≡ s
  unfolding validate_stored
  validate_stored_self s h =
      let (_, _, h₁) = bind-eq-ok (account_sequence s.sequence) _ h in
      let (_, _, h₂) = bind-eq-ok (validate_event d s.event) _ h₁ in
      let (_, _, h₃) = bind-eq-ok (hash_text s.previous_hash) _ h₂ in
      let (_, _, h₄) = bind-eq-ok (hash_text s.event_hash) _ h₃ in
      let (_, h₅) =
        guard-eq-ok (not (str_eq s.event_hash (d.seal_hash s.event s.sequence s.previous_hash))) _ _
          h₄ in
      sym (ok-injective h₅)

  -- What a row that was read adds.
  pub record IsReadRow (stream : ℕ) (g : Reading) (row : EventRow) (h : Reading) : Type 0 where
    pub valid : validate_stored d row.body ≡ ok row.body
    pub matching : mismatch d stream (length g.events + 1) g.previous_hash row row.body ≡ false
    pub events : h.events ≡ g.events ++ row.body ∷ []
    pub hash : h.previous_hash ≡ row.body.event_hash
    pub sources : h.sources ≡ put_source (source_row_of d stream row.body.event) g.sources

  pub read_row-IsReadRow :
      (stream : ℕ) (g : Reading) (row : EventRow) {h : Reading}
      → read_row d stream g row ≡ ok h
      → IsReadRow stream g row h
  unfolding read_row
  read_row-IsReadRow stream g row h =
      let (s, v, h₁) = bind-eq-ok (validate_stored d row.body) _ h in
      let self = validate_stored_self row.body v in
      let own = rw self at h₁ in
      let (m, h₂) =
        guard-eq-ok (mismatch d stream (length g.events + 1) g.previous_hash row row.body) _ _
          own in
      let (_, h₃) = guard-eq-ok (misordered g row.body.event) _ _ h₂ in
      let e = ok-injective h₃ in
      record {
        valid = v ∙ ap ok self;
        matching = m;
        events = ap (λ (x : Reading). x.events) (sym e);
        hash = ap (λ (x : Reading). x.previous_hash) (sym e);
        sources = ap (λ (x : Reading). x.sources) (sym e);
      }

  pub read_rows-append :
      (stream : ℕ) (g : Reading) (rows : List EventRow) (row : EventRow)
      → read_rows d stream g (rows ++ row ∷ [])
        ≡ (read_rows d stream g rows >>= λ h. read_row d stream h row)
  unfolding read_rows
  read_rows-append stream g [] row = bind-ok (read_row d stream g row)
  read_rows-append stream g (x ∷ rows) row =
      bind_append (read_row d stream g x) (λ (h : Reading). read_rows d stream h (rows ++ row ∷ []))
        (λ (h : Reading). read_rows d stream h rows) (λ (h : Reading). read_row d stream h row)
        (λ (h : Reading). read_rows-append stream h rows row)

  -- The columns of a row that was read.
  pub mismatch-false :
      (stream n : ℕ) (previous : String) (row : EventRow) (s : StoredEvent)
      → mismatch d stream n previous row s ≡ false
      → (s.sequence ≡ n)
        × (row.sequence ≡ n)
        × (stream_of d s.event ≡ stream)
        × (str_eq s.previous_hash previous ≡ true)
  mismatch-false stream n previous row s h = ground arith

  -- The rows that were read are numbered, and their events stand in the reading.
  pub read_rows_bound :
      (stream : ℕ) (g : Reading) (rows : List EventRow) {h : Reading}
      → read_rows d stream g rows ≡ ok h
      → (length h.events ≡ length g.events + length rows)
        × All (λ (row : EventRow). row.sequence < length h.events + 1) rows
  unfolding read_rows
  read_rows_bound stream g [] e = (let same = ok-injective e in rw same (omega arith), tt)
  read_rows_bound stream g (row ∷ rows) {h} e =
      let (k, first, rest) = bind-eq-ok (read_row d stream g row) _ e in
      let r = read_row-IsReadRow stream g row first in
      let (n, inside) = read_rows_bound stream k rows rest in
      let m = mismatch-false stream (length g.events + 1) g.previous_hash row row.body r.matching in
      let l = ap length r.events ∙ length-append g.events (row.body ∷ []) in
      (omega (arith, l, n), (omega (arith, l, n, m.1), inside))

  abbrev pub row_for : ℕ → Option StoredEvent → Option SourceRow
  row_for stream none = none
  row_for stream (some s) = some (source_row_of d stream s.event)

  -- The mapping of sources says for each source what its last event says.
  abbrev pub Tracks : ℕ → Reading → Type 0
  Tracks stream g = (i : EntityId) → source_of i g.sources ≡ row_for stream (last_from i g.events)

  row_for_if :
      (stream : ℕ) (i : EntityId) (s : StoredEvent) (o : Option StoredEvent) {r : Option SourceRow}
      → r ≡ row_for stream o
      → (if s.event.input.source_instance_id == i then some (source_row_of d stream s.event) else r)
        ≡ row_for stream (if s.event.input.source_instance_id == i then some s else o)
  row_for_if stream i s o e = elim (Bool-cases (s.event.input.source_instance_id == i)) [
    | inl own ↦ rw own
    | inr other ↦ rw other e
  ]

  pub read_row-Tracks :
      (stream : ℕ) (g : Reading) (row : EventRow) {h : Reading}
      → Tracks stream g
      → IsReadRow stream g row h
      → Tracks stream h
  read_row-Tracks stream g row t r i =
      rw
        (
          r.sources,
          r.events,
          last_from-append i g.events row.body,
          source_of-put_source i (source_row_of d stream row.body.event) g.sources,
        )
        (row_for_if stream i row.body (last_from i g.events) (t i))

  pub first_reading-Tracks : (stream : ℕ) → Tracks stream first_reading
  unfolding last_from
  first_reading-Tracks stream i = refl

  pub read_rows-Tracks :
      (stream : ℕ) (g : Reading) (rows : List EventRow) {h : Reading}
      → Tracks stream g
      → read_rows d stream g rows ≡ ok h
      → Tracks stream h
  unfolding read_rows
  read_rows-Tracks stream g [] t e = let same = ok-injective e in rw (← same) t
  read_rows-Tracks stream g (row ∷ rows) t e =
      let (k, first, rest) = bind-eq-ok (read_row d stream g row) _ e in
      read_rows-Tracks stream k rows
        (read_row-Tracks stream g row t (read_row-IsReadRow stream g row first)) rest

  -- The events of a reading belong to the stream.
  pub read_rows_stream :
      (stream : ℕ) (g : Reading) (rows : List EventRow) {h : Reading}
      → All (λ (s : StoredEvent). stream_of d s.event ≡ stream) g.events
      → read_rows d stream g rows ≡ ok h
      → All (λ (s : StoredEvent). stream_of d s.event ≡ stream) h.events
  unfolding read_rows
  read_rows_stream stream g [] own e = let same = ok-injective e in rw (← same) own
  read_rows_stream stream g (row ∷ rows) own e =
      let (k, first, rest) = bind-eq-ok (read_row d stream g row) _ e in
      let r = read_row-IsReadRow stream g row first in
      let m = mismatch-false stream (length g.events + 1) g.previous_hash row row.body r.matching in
      read_rows_stream stream k rows
        (rw r.events (
          All-append (λ (s : StoredEvent). stream_of d s.event ≡ stream) g.events (row.body ∷ [])
            own (m.2, tt)))
        rest
