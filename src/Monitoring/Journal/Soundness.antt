-- ===== src/Monitoring/Journal/Soundness.antt =====
-- monitoring/journal.py: the journal from which every stream can be replayed, and what an append adds
-- to its streams.
use adaptive_trading_ecosyst.Prelude.{
  order_from, ℕ, ◌<◌, ◌≡◌, refl, sym, ap, Bool, true, false, Option, none, some, List, [], ◌∷◌,
  length, ltb, ◌==◌, or_else-none, find_first, find_first-append, ok, guard-eq-ok, ok-injective,
  arith,
}
use adaptive_trading_ecosyst.Monitoring.Contracts.{Scope, TelemetryEvent, StoredEvent}
use adaptive_trading_ecosyst.Monitoring.Contracts.Inputs.{Digests}
use adaptive_trading_ecosyst.Monitoring.Tables.{
  same_sources, HeadRow, EventRow, Store, empty_store, same_scope, head_of, sorted_rows,
}
use adaptive_trading_ecosyst.Monitoring.Journal.{
  Reading, first_reading, stream_of, read_rows, check_head, replay, first_head, with_head, add_head,
}
use adaptive_trading_ecosyst.Monitoring.Journal.Rows.{read_rows_bound}
use adaptive_trading_ecosyst.Monitoring.Journal.Extension.{IsRead, check_head-eq-ok}

-- Two environments, and two scopes, are equal to themselves.
same_scope_self : (c : Scope) → same_scope c c ≡ true
same_scope_self c = ground arith

check_head-none : (g : Reading) → check_head none g ≡ ok tt → length g.events ≡ 0
unfolding check_head
check_head-none g c = let (empty, _) = guard-eq-ok (ltb 0 (length g.events)) _ _ c in ground arith

length_zero {ℓ} : {A : Type ℓ} (xs : List A) → length xs ≡ 0 → xs ≡ []
length_zero [] h = refl
length_zero (x ∷ xs) h = absurd (omega arith)

module _ (d : Digests) where
  -- Every stream can be replayed, and a head has counted an event.
  pub record IsSound (s : Store) : Type 0 where
    pub replays : (stream : ℕ) → (events : List StoredEvent) × (replay d s stream ≡ ok events)
    pub counted : (stream : ℕ) (h : HeadRow) → head_of s stream ≡ some h → 0 < h.sequence

  pub empty_store-IsSound : IsSound empty_store
  unfolding replay read_rows check_head order_from same_sources
  empty_store-IsSound = record { replays = λ stream. ([], refl); counted = λ stream h e. cc }

  first_head_checked :
      (e : TelemetryEvent) → check_head (some (first_head d e)) first_reading ≡ ok tt
  unfolding check_head
  first_head_checked e = refl

  -- With no rows the loop of the replay has read nothing.
  read_rows_none :
      (stream : ℕ) (rows : List EventRow) {g : Reading}
      → read_rows d stream first_reading rows ≡ ok g
      → length g.events ≡ 0
      → g ≡ first_reading
  unfolding read_rows
  read_rows_none stream [] e n = sym (ok-injective e)
  read_rows_none stream (row ∷ rows) e n =
      let bound = (read_rows_bound d stream first_reading (row ∷ rows) e).0 in
      absurd (omega (arith, bound, n))

  -- The head that `append` inserts or finds.
  pub record IsHeaded (s : Store) (e : TelemetryEvent) (g : Reading) : Type 0 where
    pub head : HeadRow
    pub found : head_of (with_head d e s) (stream_of d e) ≡ some head
    pub read : IsRead d (with_head d e s) (stream_of d e) g
    pub scoped : g.events ≡ [] → same_scope head.scope e.input.scope ≡ true
    pub kept :
        (x : StoredEvent) (p : StoredEvent → Bool)
        → find_first p g.events ≡ some x
        → with_head d e s ≡ s

  IsHeaded-by :
      (s : Store) (e : TelemetryEvent) (g : Reading) (o : Option HeadRow)
      → IsSound s
      → IsRead d s (stream_of d e) g
      → head_of s (stream_of d e) ≡ o
      → IsHeaded s e g
  unfolding with_head
  IsHeaded-by s e g (some h) sound r found =
      let (count, _, _) = check_head-eq-ok h g (rw found at r.head) in
      let positive = sound.counted (stream_of d e) h found in
      record {
        head = h;
        found = rw found found;
        read = rw found r;
        scoped = λ none. absurd (omega (arith, positive, count, ap length none));
        kept = λ x p f. rw found refl;
      }
  IsHeaded-by s e g none sound r found =
      let empty = check_head-none g (rw found at r.head) in
      let same = read_rows_none (stream_of d e) (sorted_rows s (stream_of d e)) r.rows empty in
      let own : (stream_of d e == stream_of d e) ≡ true = ground arith in
      let head : head_of (with_head d e s) (stream_of d e) ≡ some (first_head d e) = rw found (
        rw
          (
            find_first-append (λ (x : HeadRow). x.stream_id == stream_of d e) s.heads
                (first_head d e ∷ []),
            found,
            own,
          )
          refl) in
      record {
        head = first_head d e;
        found = head;
        read = record {
          rows = rw found r.rows;
          head = rw head (rw same (first_head_checked e));
          sources = rw found r.sources;
        };
        scoped = λ none. same_scope_self e.input.scope;
        kept = λ x p f. cc (rw same at f);
      }

  pub IsHeaded-of :
      (s : Store) (e : TelemetryEvent) (g : Reading)
      → IsSound s
      → IsRead d s (stream_of d e) g
      → IsHeaded s e g
  IsHeaded-of s e g sound r = IsHeaded-by s e g (head_of s (stream_of d e)) sound r refl

  -- The other streams of the store with the head.
  pub with_head-other :
      (s : Store) (e : TelemetryEvent) (stream : ℕ)
      → (stream_of d e == stream) ≡ false
      → head_of (with_head d e s) stream ≡ head_of s stream
  unfolding with_head
  with_head-other s e stream other = by_head (head_of s (stream_of d e))
    where
      by_head : (o : Option HeadRow) → head_of (add_head d e s o) stream ≡ head_of s stream
      by_head none =
          rw
            (
              find_first-append (λ (x : HeadRow). x.stream_id == stream) s.heads
                  (first_head d e ∷ []),
              other,
            )
            (or_else-none (find_first (λ (x : HeadRow). x.stream_id == stream) s.heads))
      by_head (some h) = refl

  pub with_head-tables :
      (s : Store) (e : TelemetryEvent)
      → ((with_head d e s).events ≡ s.events)
        × ((with_head d e s).sources ≡ s.sources)
        × ((with_head d e s).projections ≡ s.projections)
  unfolding with_head
  with_head-tables s e = by_head (head_of s (stream_of d e))
    where
      by_head :
          (o : Option HeadRow)
          → ((add_head d e s o).events ≡ s.events)
            × ((add_head d e s o).sources ≡ s.sources)
            × ((add_head d e s o).projections ≡ s.projections)
      by_head none = (refl, refl, refl)
      by_head (some h) = (refl, refl, refl)
