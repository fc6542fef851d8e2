-- ===== src/Monitoring/Journal/Extension.antt =====
-- monitoring/journal.py: the replay of a stream to which `append` has written one event.
use adaptive_trading_ecosyst.Prelude.{
  ℕ, ◌+◌, ◌≡◌, refl, sym, ap, true, false, not, ◌||◌, Option, none, some, List, [], ◌∷◌, ◌++◌,
  length, length-append, ◌==◌, and_true, not-false, keep, all_of, all_of-find_first,
  find_first-holds, String, str_eq, eq_iff, ok, bind-eq-ok, guard-eq-ok, ok-injective, arith,
}
use adaptive_trading_ecosyst.Domain.Primitives.{EntityId}
use adaptive_trading_ecosyst.Monitoring.Contracts.{Scope, TelemetryEvent, StoredEvent}
use adaptive_trading_ecosyst.Monitoring.Contracts.Inputs.{Digests, validate_stored, seal}
use adaptive_trading_ecosyst.Monitoring.Tables.{
  HeadRow, SourceRow, Store, same_scope, head_of, sorted_rows, source_rows, same_sources,
  put_source, source_of, same_source_row, agrees, holds, merged_source, upsert_source, is_source,
}
use adaptive_trading_ecosyst.Monitoring.Tables.Sources.{
  upsert_source-put_source, same_sources-put_source,
}
use adaptive_trading_ecosyst.Monitoring.Journal.{
  Reading, first_reading, misordered, last_from, next_sequence, regresses, stream_of, mismatch,
  source_row_of, read_row, read_rows, other_scope, check_head, replay, event_row,
}
use adaptive_trading_ecosyst.Monitoring.Journal.Rows.{Tracks, row_for, validate_stored_self}

other_scope-append :
    (scope : Scope) (events : List StoredEvent) (s : StoredEvent)
    → other_scope scope events ≡ false
    → (events ≡ [] → same_scope scope s.event.input.scope ≡ true)
    → other_scope scope (events ++ s ∷ []) ≡ false
other_scope-append scope [] s o same = rw (same refl) refl
other_scope-append scope (x ∷ events) s o same = o

-- What a head says of the events of its stream.
pub check_head-eq-ok :
    (h : HeadRow) (g : Reading)
    → check_head (some h) g ≡ ok tt
    → (h.sequence ≡ length g.events)
      × (h.event_hash ≡ g.previous_hash)
      × (other_scope h.scope g.events ≡ false)
unfolding check_head
check_head-eq-ok h g c =
    let (passed, _) =
      guard-eq-ok
        (not (h.sequence == length g.events)
          || (not (str_eq h.event_hash g.previous_hash) || other_scope h.scope g.events))
        _ _ c in
    ground (arith, eq_iff h.event_hash g.previous_hash)

pub check_head-extends :
    (h : HeadRow) (g : Reading) (s : StoredEvent) (sources : List SourceRow)
    → other_scope h.scope g.events ≡ false
    → s.sequence ≡ length g.events + 1
    → (g.events ≡ [] → same_scope h.scope s.event.input.scope ≡ true)
    → check_head
        (some (record h { sequence = s.sequence; event_hash = s.event_hash }))
        (record { events = g.events ++ s ∷ []; previous_hash = s.event_hash; sources = sources })
      ≡ ok tt
unfolding check_head
check_head-extends h g s sources o n first =
    let l = length-append g.events (s ∷ []) in
    let counted : (s.sequence == length (g.events ++ s ∷ [])) ≡ true = ground arith in
    rw
      (
        counted,
        (eq_iff s.event_hash s.event_hash).1 refl,
        other_scope-append h.scope g.events s o first,
      )
      refl

module _ (d : Digests) where
  -- The replay of a stream, with all that it has read.
  pub record IsRead (s : Store) (stream : ℕ) (g : Reading) : Type 0 where
    pub rows : read_rows d stream first_reading (sorted_rows s stream) ≡ ok g
    pub head : check_head (head_of s stream) g ≡ ok tt
    pub sources : same_sources (source_rows s stream) g.sources ≡ true

  pub replay-IsRead :
      (s : Store) (stream : ℕ) {events : List StoredEvent}
      → replay d s stream ≡ ok events
      → (g : Reading) × IsRead s stream g × (g.events ≡ events)
  unfolding replay
  replay-IsRead s stream h =
      let (g, rows, h₁) =
        bind-eq-ok (read_rows d stream first_reading (sorted_rows s stream)) _ h in
      let (u, head, h₂) = bind-eq-ok (check_head (head_of s stream) g) _ h₁ in
      let (sources, h₃) =
        guard-eq-ok (not (same_sources (source_rows s stream) g.sources)) _ _ h₂ in
      (g, record { rows = rows; head = head; sources = not-false _ sources }, ok-injective h₃)

  pub IsRead-replay :
      (s : Store) (stream : ℕ) (g : Reading) → IsRead s stream g → replay d s stream ≡ ok g.events
  unfolding replay
  IsRead-replay s stream g r = rw (r.rows, r.head, r.sources) refl

  -- A sealed event says what it was made of, and is valid.
  pub seal-eq-ok :
      (e : TelemetryEvent) (n : ℕ) (previous : String) {s : StoredEvent}
      → seal d e n previous ≡ ok s
      → (s.event ≡ e)
        × (s.sequence ≡ n)
        × (s.previous_hash ≡ previous)
        × (validate_stored d s ≡ ok s)
  unfolding seal
  seal-eq-ok e n previous h =
      let self = validate_stored_self d _ h in
      (
        ap (λ (x : StoredEvent). x.event) self,
        ap (λ (x : StoredEvent). x.sequence) self,
        ap (λ (x : StoredEvent). x.previous_hash) self,
        rw (← self) at h,
      )

  pub mismatch_own :
      (stream n : ℕ) (previous : String) (s : StoredEvent)
      → s.sequence ≡ n
      → s.previous_hash ≡ previous
      → stream_of d s.event ≡ stream
      → mismatch d stream n previous (event_row d s) s ≡ false
  mismatch_own stream n previous s e p m = ground (arith, eq_iff s.previous_hash previous)

  -- The order that the replay asks for is the one that `append` has checked.
  pub misordered-false :
      (stream : ℕ) (g : Reading) (e : TelemetryEvent) (o : Option StoredEvent)
      → source_of e.input.source_instance_id g.sources ≡ row_for d stream o
      → not (e.input.source_sequence == next_sequence o) ≡ false
      → regresses e o ≡ false
      → misordered g e ≡ false
  misordered-false stream g e none t n r = rw (t, n) refl
  misordered-false stream g e (some s) t n r = rw (t, n) r

  pub read_row-extends :
      (stream : ℕ) (g : Reading) (s : StoredEvent)
      → validate_stored d s ≡ ok s
      → mismatch d stream (length g.events + 1) g.previous_hash (event_row d s) s ≡ false
      → misordered g s.event ≡ false
      → read_row d stream g (event_row d s)
        ≡ ok (record {
          events = g.events ++ s ∷ [];
          previous_hash = s.event_hash;
          sources = put_source (source_row_of d stream s.event) g.sources;
        })
  unfolding read_row
  read_row-extends stream g s v m o = rw (v, m, o) refl

  merged_same :
      (stream : ℕ) (e : TelemetryEvent) (o : Option SourceRow) (l : Option StoredEvent)
      → ((x : SourceRow)
          → o ≡ some x
          → (x.source_instance_id ≡ e.input.source_instance_id)
            × (agrees x (row_for d stream l) ≡ true))
      → regresses e l ≡ false
      → ((source_row_of d stream e).source_instance_id
          ≡ (merged_source (source_row_of d stream e) o).source_instance_id)
        × (same_source_row (source_row_of d stream e) (merged_source (source_row_of d stream e) o)
            ≡ true)
  unfolding merged_source
  merged_same stream e none l h r = (refl, ground arith)
  merged_same stream e (some x) none h r = cc ((h x refl).1)
  merged_same stream e (some x) (some s) h r = (sym (h x refl).0, ground (arith, (h x refl).1))

  found_agrees :
      (table : List SourceRow) (stream : ℕ) (g : Reading) (i : EntityId) (x : SourceRow)
      → same_sources table g.sources ≡ true
      → Tracks d stream g
      → source_of i table ≡ some x
      → (x.source_instance_id ≡ i) × (agrees x (row_for d stream (last_from i g.events)) ≡ true)
  unfolding same_sources
  found_agrees table stream g i x same t f =
      let inside =
        (and_true (all_of (holds g.sources) table) (all_of (holds table) g.sources) same).0 in
      let own = find_first-holds (is_source i) table f in
      let named : x.source_instance_id ≡ i = ground arith in
      let held = all_of-find_first (holds g.sources) (is_source i) table inside f in
      (named, rw (named, t i) at held)

  -- The table of source heads and the mapping of the replay, after the event.
  pub same_sources_after :
      (s : Store) (stream : ℕ) (g : Reading) (e : TelemetryEvent)
      → same_sources (source_rows s stream) g.sources ≡ true
      → Tracks d stream g
      → regresses e (last_from e.input.source_instance_id g.events) ≡ false
      → same_sources
          (keep
            (λ (x : SourceRow). x.stream_id == stream)
            (upsert_source (source_row_of d stream e) s.sources))
          (put_source (source_row_of d stream e) g.sources)
        ≡ true
  same_sources_after s stream g e same t r =
      let i = e.input.source_instance_id in
      let table = source_rows s stream in
      let (key, like) =
        merged_same stream e (source_of i table) (last_from i g.events)
          (λ (x : SourceRow) (f : source_of i table ≡ some x).
            found_agrees table stream g i x same t f)
          r in
      rw (upsert_source-put_source (source_row_of d stream e) s.sources) (
        same_sources-put_source (source_row_of d stream e)
          (merged_source (source_row_of d stream e) (source_of i table)) table g.sources key like
          same)
