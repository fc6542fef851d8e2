-- ===== src/Journal/Postgres/Integrity.antt =====
-- persistence/journal.py and journal/contracts.py: the head of an account fixes its events.
use adaptive_trading_ecosyst.Prelude.{◌≡◌, sym, ◌∙◌, some, List, length, ok}
use adaptive_trading_ecosyst.Chain.{Linked, NoCollision, Linked-unique}
use adaptive_trading_ecosyst.Domain.Primitives.{EntityId}
use adaptive_trading_ecosyst.Domain.Events.{EventDigests, JournalEvent, genesis_hash}
use adaptive_trading_ecosyst.Journal.Contracts.{verify_chain}
use adaptive_trading_ecosyst.Journal.Postgres.{JournalHead, Ledgers, journal_head, replay_account}
use adaptive_trading_ecosyst.Journal.Postgres.Chained.{
  event_link, verify_from-Linked, replay_locked-IsReplayed,
}
use adaptive_trading_ecosyst.Journal.Postgres.Append.{check_journal_head-eq-ok}

module _ (d : EventDigests) where
  replay_account-Linked :
      (s : Ledgers) (account : EntityId) (events : List JournalEvent) (h : JournalHead)
      → replay_account d s account ≡ ok events
      → journal_head s account ≡ some h
      → (h.sequence ≡ length events) × Linked (event_link d) genesis_hash 1 events h.event_hash
  unfolding replay_account verify_chain
  replay_account-Linked s account events h r there =
      let (final, read, checked) = replay_locked-IsReplayed d s account (some h) (rw there at r) in
      let (counted, hash) = check_journal_head-eq-ok h (length events) final checked in
      (counted, rw hash (verify_from-Linked d account 1 genesis_hash events read.verifies).0)

  -- Two databases with the same head of an account replay the same events, when no two of them
  -- collide.
  pub same_head-same_account :
      (s t : Ledgers) (account : EntityId) (xs ys : List JournalEvent) (h k : JournalHead)
      → replay_account d s account ≡ ok xs
      → replay_account d t account ≡ ok ys
      → journal_head s account ≡ some h
      → journal_head t account ≡ some k
      → h.sequence ≡ k.sequence
      → h.event_hash ≡ k.event_hash
      → NoCollision (event_link d) xs ys
      → xs ≡ ys
  same_head-same_account s t account xs ys h k r q there here count hash apart =
      let (m, lx) = replay_account-Linked s account xs h r there in
      let (n, ly) = replay_account-Linked t account ys k q here in
      (Linked-unique (event_link d) genesis_hash genesis_hash 1 xs ys k.event_hash
        (sym m ∙ count ∙ n) apart (rw hash at lx) ly).1
