-- ===== src/Monitoring/Journal/Integrity.antt =====
-- monitoring/journal.py, `replay`: the chain of hashes that a replay has verified.
use adaptive_trading_ecosyst.Prelude.{
  ℕ, ◌+◌, ◌≡◌, refl, sym, ◌∙◌, not, some, List, [], ◌∷◌, length, String, str_eq, eq_iff, not-false,
  ok, bind-eq-ok, guard-eq-ok, ok-injective, arith,
}
use adaptive_trading_ecosyst.Chain.{Link, Linked, NoCollision, Linked-append, Linked-unique}
use adaptive_trading_ecosyst.Monitoring.Contracts.{StoredEvent}
use adaptive_trading_ecosyst.Domain.Events.{hash_text}
use adaptive_trading_ecosyst.Monitoring.Contracts.Inputs.{
  Digests, validate_stored, validate_event, account_sequence,
}
use adaptive_trading_ecosyst.Domain.Events.{genesis_hash}
use adaptive_trading_ecosyst.Monitoring.Tables.{HeadRow, EventRow, Store, head_of, sorted_rows}
use adaptive_trading_ecosyst.Monitoring.Journal.{
  Reading, first_reading, read_row, read_rows, replay,
}
use adaptive_trading_ecosyst.Monitoring.Journal.Rows.{read_row-IsReadRow, mismatch-false}
use adaptive_trading_ecosyst.Monitoring.Journal.Extension.{replay-IsRead, check_head-eq-ok}

module _ (d : Digests) where
  abbrev pub sealed_as : StoredEvent → String
  sealed_as s = d.seal_hash s.event s.sequence s.previous_hash

  pub same_stored :
      (a b : StoredEvent)
      → (a.event ≡ b.event) × (a.sequence ≡ b.sequence) × (a.previous_hash ≡ b.previous_hash)
      → a.event_hash ≡ b.event_hash
      → a ≡ b
  same_stored a b same h = cc (same.0, same.1, same.2, h)

  -- A stored event as a link of the chain of its stream.
  abbrev pub stored_link : Link StoredEvent
  stored_link = record {
    number = λ s. s.sequence;
    previous = λ s. s.previous_hash;
    hash = λ s. s.event_hash;
    sealed = sealed_as;
    Same = λ a b.
        (a.event ≡ b.event) × (a.sequence ≡ b.sequence) × (a.previous_hash ≡ b.previous_hash);
    same_previous = λ a b same. same.2;
    same_link = same_stored;
  }

  validate_stored-sealed :
      (s : StoredEvent) {v : StoredEvent} → validate_stored d s ≡ ok v → s.event_hash ≡ sealed_as s
  unfolding validate_stored
  validate_stored-sealed s h =
      let (_, _, h₁) = bind-eq-ok (account_sequence s.sequence) _ h in
      let (_, _, h₂) = bind-eq-ok (validate_event d s.event) _ h₁ in
      let (_, _, h₃) = bind-eq-ok (hash_text s.previous_hash) _ h₂ in
      let (_, _, h₄) = bind-eq-ok (hash_text s.event_hash) _ h₃ in
      let (same, _) = guard-eq-ok (not (str_eq s.event_hash (sealed_as s))) _ _ h₄ in
      (eq_iff s.event_hash (sealed_as s)).0 (not-false _ same)

  read_rows-Linked :
      (stream : ℕ) (g : Reading) (rows : List EventRow) {h : Reading}
      → Linked stored_link genesis_hash 1 g.events g.previous_hash
      → read_rows d stream g rows ≡ ok h
      → Linked stored_link genesis_hash 1 h.events h.previous_hash
  unfolding read_rows
  read_rows-Linked stream g [] l e = let same = ok-injective e in rw (← same) l
  read_rows-Linked stream g (row ∷ rows) l e =
      let (k, first, rest) = bind-eq-ok (read_row d stream g row) _ e in
      let r = read_row-IsReadRow d stream g row first in
      let m =
        mismatch-false d stream (length g.events + 1) g.previous_hash row row.body r.matching in
      read_rows-Linked stream k rows
        (rw (r.events, r.hash)
          (Linked-append stored_link genesis_hash 1 g.events g.previous_hash row.body l
            ((eq_iff row.body.previous_hash g.previous_hash).0 m.3) (omega (arith, m.0))
            (validate_stored-sealed row.body r.valid)))
        rest

  replay-Linked :
      (s : Store) (stream : ℕ) (events : List StoredEvent) (h : HeadRow)
      → replay d s stream ≡ ok events
      → head_of s stream ≡ some h
      → (h.sequence ≡ length events) × Linked stored_link genesis_hash 1 events h.event_hash
  replay-Linked s stream events h r there =
      let (g, read, same) = replay-IsRead d s stream r in
      let (count, hash, _) = check_head-eq-ok h g (rw there at read.head) in
      let linked = read_rows-Linked stream first_reading (sorted_rows s stream) refl read.rows in
      rw (← same, hash) (count, linked)

  -- Two databases with the same head of a stream have the same events in it, when no two sealed
  -- events of theirs collide: nothing before the head can be changed, dropped or reordered.
  pub same_head-same_events :
      (s t : Store) (stream : ℕ) (xs ys : List StoredEvent) (h k : HeadRow)
      → replay d s stream ≡ ok xs
      → replay d t stream ≡ ok ys
      → head_of s stream ≡ some h
      → head_of t stream ≡ some k
      → h.sequence ≡ k.sequence
      → h.event_hash ≡ k.event_hash
      → NoCollision stored_link xs ys
      → xs ≡ ys
  same_head-same_events s t stream xs ys h k r q there here count hash apart =
      let (m, lx) = replay-Linked s stream xs h r there in
      let (n, ly) = replay-Linked t stream ys k q here in
      (Linked-unique stored_link genesis_hash genesis_hash 1 xs ys k.event_hash (sym m ∙ count ∙ n)
        apart (rw hash at lx) ly).1
