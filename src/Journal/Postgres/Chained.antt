-- ===== src/Journal/Postgres/Chained.antt =====
-- persistence/journal.py and journal/contracts.py: what a replay of an account has verified, and the
-- replay of an account to which an event is written.
use adaptive_trading_ecosyst.Prelude.{
  ℕ, suc, ◌+◌, ◌<◌, ◌≡◌, refl, sym, ap, ◌∙◌, true, false, not, ◌||◌, Option, List, [], ◌∷◌, ◌++◌,
  All, length, ltb, ◌==◌, order_by-keep, String, str_eq, eq_iff, Result, ok, err, bind-eq-ok,
  guard-eq-ok, ok-injective, bind-ok, not-false, leb, ◌^◌, traverse, traverse-append, arith,
}
use adaptive_trading_ecosyst.Chain.{Link, Linked}
use adaptive_trading_ecosyst.Domain.Primitives.{EntityId}
use adaptive_trading_ecosyst.Domain.Events.{
  EventDigests, JournalEvent, genesis_hash, hash_text, validate_draft, check_hashes,
  validate_journal_event,
}
use adaptive_trading_ecosyst.Journal.Contracts.{
  or_else_raise, off_chain, verify_link, verify_from, verify_chain,
}
use adaptive_trading_ecosyst.Journal.Postgres.{
  JournalHead, JournalRow, Ledgers, is_row_of, account_rows, misfiled, journal_row,
  check_journal_head, read_event, replay_locked,
}

or_else_raise-eq-ok {ℓ} :
    {A : Type ℓ} (r : Result A) (code : String) {a : A} → or_else_raise r code ≡ ok a → r ≡ ok a
or_else_raise-eq-ok (ok a) code h = h
or_else_raise-eq-ok (err e) code h = cc

below_suc :
    (n k : ℕ) (es : List JournalEvent)
    → All (λ (e : JournalEvent). e.account_sequence < n + 1 + k) es
    → All (λ (e : JournalEvent). e.account_sequence < n + suc k) es
below_suc n k es a = let same : n + suc k ≡ n + 1 + k = omega arith in rw same a

module _ (d : EventDigests) where
  -- The digest that an event has to carry.
  abbrev pub digest_of : JournalEvent → String
  digest_of e = d.event_digest e.draft e.account_sequence e.payload_hash e.previous_event_hash

  -- A valid event is returned as it is, and carries the digests of its payload and its envelope.
  pub validate_journal_event-eq-ok :
      (e : JournalEvent) {v : JournalEvent}
      → validate_journal_event d e ≡ ok v
      → (v ≡ e) × (e.payload_hash ≡ d.payload_digest e.draft.payload) × (e.event_hash ≡ digest_of e)
  unfolding validate_journal_event check_hashes
  validate_journal_event-eq-ok e h =
      let (_, _, h₁) = bind-eq-ok (validate_draft d e.draft) _ h in
      let (_, h₂) =
        guard-eq-ok (ltb e.account_sequence 1 || leb (2 ^ 63) e.account_sequence) _ _ h₁ in
      let (_, _, h₃) = bind-eq-ok (hash_text e.payload_hash) _ h₂ in
      let (_, _, h₄) = bind-eq-ok (hash_text e.previous_event_hash) _ h₃ in
      let (_, _, h₅) = bind-eq-ok (hash_text e.event_hash) _ h₄ in
      let (p, h₆) =
        guard-eq-ok (not (str_eq e.payload_hash (d.payload_digest e.draft.payload))) _ _ h₅ in
      let (q, h₇) = guard-eq-ok (not (str_eq e.event_hash (digest_of e))) _ _ h₆ in
      (
        sym (ok-injective h₇),
        (eq_iff e.payload_hash (d.payload_digest e.draft.payload)).0 (not-false _ p),
        (eq_iff e.event_hash (digest_of e)).0 (not-false _ q),
      )

  -- The columns of a row are those of the event in it.
  read_event-eq-ok :
      (r : JournalRow) {e : JournalEvent}
      → read_event d r ≡ ok e
      → (e ≡ r.body) × (misfiled r e ≡ false) × (validate_journal_event d e ≡ ok e)
  unfolding read_event
  read_event-eq-ok r h =
      let h₁ = or_else_raise-eq-ok _ _ h in
      let (v, valid, h₂) = bind-eq-ok (validate_journal_event d r.body) _ h₁ in
      let self = (validate_journal_event-eq-ok r.body valid).0 in
      let (filed, h₃) = guard-eq-ok (misfiled r v) _ _ h₂ in
      let same = ok-injective h₃ in
      (sym same ∙ self, rw (← same) filed, rw (← same) (rw (← self) at valid))

  pub read_event-body : (r : JournalRow) {e : JournalEvent} → read_event d r ≡ ok e → e ≡ r.body
  read_event-body r h = (read_event-eq-ok r h).0

  pub read_event_self :
      (e : JournalEvent) → validate_journal_event d e ≡ ok e → read_event d (journal_row e) ≡ ok e
  unfolding read_event
  read_event_self e valid =
      let filed : misfiled (journal_row e) e ≡ false =
        ground (arith, eq_iff e.event_hash e.event_hash) in
      rw (valid, filed) refl

  -- The links that the verification of a chain has passed.
  verify_link-eq-ok :
      (account n : ℕ) (previous : String) (e : JournalEvent) {hash : String}
      → verify_link d account n previous e ≡ ok hash
      → (hash ≡ e.event_hash)
        × (e.account_sequence ≡ n)
        × (e.previous_event_hash ≡ previous)
        × (e.draft.account_id ≡ account)
        × (e.event_hash ≡ digest_of e)
  unfolding verify_link
  verify_link-eq-ok account n previous e h =
      let (v, checked, h₁) = bind-eq-ok (or_else_raise (validate_journal_event d e) _) _ h in
      let (self, _, sealed) = validate_journal_event-eq-ok e (or_else_raise-eq-ok _ _ checked) in
      let (placed, h₂) = guard-eq-ok (off_chain account n previous v) _ _ h₁ in
      let chained = rw self at placed in
      let last = rw self at (ok-injective h₂) in
      let fields : (e.account_sequence ≡ n)
          × (e.previous_event_hash ≡ previous)
          × (e.draft.account_id ≡ account) =
        ground (arith, eq_iff e.previous_event_hash previous) in
      (sym last, fields.0, fields.1, fields.2, sealed)

  pub verify_from-append :
      (account n : ℕ) (previous : String) (es : List JournalEvent) (e : JournalEvent)
      {hash : String}
      → verify_from d account n previous es ≡ ok hash
      → verify_from d account n previous (es ++ e ∷ [])
        ≡ verify_link d account (n + length es) hash e
  unfolding verify_from
  verify_from-append account n previous [] e h =
      let same = ok-injective h in
      let start : n + 0 ≡ n = omega arith in
      rw (← same, start) (bind-ok (verify_link d account n previous e))
  verify_from-append account n previous (x ∷ es) e {hash} h =
      let (mid, first, rest) = bind-eq-ok (verify_link d account n previous x) _ h in
      rw first (
        verify_from-append account (n + 1) mid es e rest
        ∙ ap (λ (k : ℕ). verify_link d account k hash e) (omega arith))

  verify_link_next :
      (account n : ℕ) (previous : String) (e : JournalEvent)
      → validate_journal_event d e ≡ ok e
      → e.account_sequence ≡ n
      → e.previous_event_hash ≡ previous
      → e.draft.account_id ≡ account
      → verify_link d account n previous e ≡ ok e.event_hash
  unfolding verify_link
  verify_link_next account n previous e valid number chained placed =
      let on : off_chain account n previous e ≡ false =
        ground (arith, eq_iff e.previous_event_hash previous) in
      rw (valid, on) refl

  pub same_event :
      (a b : JournalEvent)
      → (a.draft ≡ b.draft)
        × (a.account_sequence ≡ b.account_sequence)
        × (a.payload_hash ≡ b.payload_hash)
        × (a.previous_event_hash ≡ b.previous_event_hash)
      → a.event_hash ≡ b.event_hash
      → a ≡ b
  same_event a b same h = cc (same.0, same.1, same.2, same.3, h)

  -- An event as a link of the chain of its account.
  abbrev pub event_link : Link JournalEvent
  event_link = record {
    number = λ e. e.account_sequence;
    previous = λ e. e.previous_event_hash;
    hash = λ e. e.event_hash;
    sealed = digest_of;
    Same = λ a b.
        (a.draft ≡ b.draft)
        × (a.account_sequence ≡ b.account_sequence)
        × (a.payload_hash ≡ b.payload_hash)
        × (a.previous_event_hash ≡ b.previous_event_hash);
    same_previous = λ a b same. same.3;
    same_link = same_event;
  }

  -- A verified chain: its events are linked, numbered, and belong to the account.
  pub verify_from-Linked :
      (account n : ℕ) (previous : String) (es : List JournalEvent) {hash : String}
      → verify_from d account n previous es ≡ ok hash
      → Linked event_link previous n es hash
        × All (λ (e : JournalEvent). e.account_sequence < n + length es) es
        × All (λ (e : JournalEvent). e.draft.account_id ≡ account) es
  unfolding verify_from
  verify_from-Linked account n previous [] h = (ok-injective h, tt, tt)
  verify_from-Linked account n previous (x ∷ es) h =
      let (mid, first, rest) = bind-eq-ok (verify_link d account n previous x) _ h in
      let (hash, number, chained, placed, sealed) = verify_link-eq-ok account n previous x first in
      let (links, numbers, places) = verify_from-Linked account (n + 1) mid es rest in
      (
        (chained, number, sealed, rw hash at links),
        (omega (arith, number), below_suc n (length es) es numbers),
        (placed, places),
      )

  rows_below :
      (rows : List JournalRow) (events : List JournalEvent) (m : ℕ)
      → traverse (read_event d) rows ≡ ok events
      → All (λ (e : JournalEvent). e.account_sequence < m) events
      → All (λ (r : JournalRow). r.account_sequence < m) rows
  rows_below [] events m h a = tt
  rows_below (r ∷ rows) events m h a =
      let (e, first, h₁) = bind-eq-ok (read_event d r) _ h in
      let (es, rest, h₂) = bind-eq-ok (traverse (read_event d) rows) _ h₁ in
      let (_, filed, _) = read_event-eq-ok r first in
      let both = rw (← ok-injective h₂) at a in
      let number : e.account_sequence ≡ r.account_sequence = ground arith in
      (omega (arith, both.0, number), rows_below rows es m rest both.1)

  -- What a replay of an account has read.
  pub record IsReplayed (s : Ledgers) (account : EntityId) (events : List JournalEvent)
      (final : String) : Type 0 where
    pub reads : traverse (read_event d) (account_rows s account) ≡ ok events
    pub verifies : verify_chain d events account ≡ ok final

  pub replay_locked-IsReplayed :
      (s : Ledgers) (account : EntityId) (head : Option JournalHead) {events : List JournalEvent}
      → replay_locked d s account head ≡ ok events
      → (final : String) × IsReplayed s account events final
        × (check_journal_head head (length events) final ≡ ok tt)
  unfolding replay_locked
  replay_locked-IsReplayed s account head h =
      let (events, reads, h₁) = bind-eq-ok (traverse (read_event d) (account_rows s account)) _ h in
      let (final, verifies, h₂) = bind-eq-ok (verify_chain d events account) _ h₁ in
      let (_, checked, h₃) = bind-eq-ok (check_journal_head head (length events) final) _ h₂ in
      let same = ok-injective h₃ in
      (
        final,
        record { reads = rw (← same) reads; verifies = rw (← same) verifies },
        rw (← same) checked,
      )

  pub IsReplayed-replay :
      (s : Ledgers) (account : EntityId) (head : Option JournalHead) (events : List JournalEvent)
      (final : String)
      → IsReplayed s account events final
      → check_journal_head head (length events) final ≡ ok tt
      → replay_locked d s account head ≡ ok events
  unfolding replay_locked
  IsReplayed-replay s account head events final r c = rw (r.reads, r.verifies, c) refl

  -- The rows of an account with the row of a next link.
  pub extended-IsReplayed :
      (s t : Ledgers) (e : JournalEvent) (events : List JournalEvent) (final : String)
      → t.events ≡ s.events ++ journal_row e ∷ []
      → IsReplayed s e.draft.account_id events final
      → validate_journal_event d e ≡ ok e
      → e.account_sequence ≡ length events + 1
      → e.previous_event_hash ≡ final
      → IsReplayed t e.draft.account_id (events ++ e ∷ []) e.event_hash
  unfolding verify_chain
  extended-IsReplayed s t e events final rows r valid number chained =
      let account = e.draft.account_id in
      let numbers = (verify_from-Linked account 1 genesis_hash events r.verifies).1 in
      let own : (account == account) ≡ true = ground arith in
      let count : e.account_sequence ≡ 1 + length events = omega (arith, number) in
      let below = rows_below (account_rows s account) events (1 + length events) r.reads numbers in
      let sorted =
        order_by-keep (λ (x : JournalRow). x.account_sequence) (is_row_of account) s.events
          (journal_row e) own (rw count below) in
      let linked : verify_link d account (1 + length events) final e ≡ ok e.event_hash =
        verify_link_next account (1 + length events) final e valid count chained refl in
      record {
        reads =
            rw (rows, sorted)
              (traverse-append (read_event d) (account_rows s account) (journal_row e) events e
                r.reads (read_event_self e valid));
        verifies = verify_from-append account 1 genesis_hash events e r.verifies ∙ linked;
      }
