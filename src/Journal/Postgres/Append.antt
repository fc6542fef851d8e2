-- ===== src/Journal/Postgres/Append.antt =====
-- persistence/journal.py, `append`: the accounts' events after a draft is appended.
use mathlib.Core.Path.{subst}
use mathlib.Core.Option.{some-injective}
use adaptive_trading_ecosyst.Prelude.{
  ℕ, ◌+◌, ◌≡◌, refl, sym, ap, ◌∙◌, true, false, not, ◌||◌, Option, none, some, List, [], ◌∷◌, ◌++◌,
  length, length-append, ◌==◌, keep, keep-append_other, find_first, find_first-append, or_else-none,
  any_of, String, str_eq, eq_iff, ok, bind-eq-ok, guard-eq-ok, ok-injective, arith,
}
use adaptive_trading_ecosyst.Domain.Primitives.{EntityId}
use adaptive_trading_ecosyst.Domain.Events.{
  EventDigests, EventDraft, JournalEvent, genesis_hash, validate_journal_event, seal_event,
}
use adaptive_trading_ecosyst.Journal.Postgres.{
  JournalHead, Ledgers, is_head_of, is_row_of, journal_head, journal_row, refuses,
  insert_journal_row, set_journal_head, open_head, check_journal_head, replay_locked, replay_with,
  replay_account, store_event,
}
use adaptive_trading_ecosyst.Journal.Postgres.Chained.{
  validate_journal_event-eq-ok, IsReplayed, replay_locked-IsReplayed, IsReplayed-replay,
  extended-IsReplayed,
}

find_first-set_journal_head :
    (account n : ℕ) (hash : String) (hs : List JournalHead) (h : JournalHead)
    → find_first (is_head_of account) hs ≡ some h
    → find_first (is_head_of account) (set_journal_head account n hash hs)
      ≡ some (record h { sequence = n; event_hash = hash })
unfolding set_journal_head
find_first-set_journal_head account n hash [] h e = cc
find_first-set_journal_head account n hash (x ∷ hs) h e =
    ground (arith, find_first-set_journal_head account n hash hs h)

find_first-set_journal_head_other :
    (account other n : ℕ) (hash : String) (hs : List JournalHead)
    → (account == other) ≡ false
    → find_first (is_head_of other) (set_journal_head account n hash hs)
      ≡ find_first (is_head_of other) hs
unfolding set_journal_head
find_first-set_journal_head_other account other n hash [] o = refl
find_first-set_journal_head_other account other n hash (x ∷ hs) o =
    ground (arith, find_first-set_journal_head_other account other n hash hs o)

pub check_journal_head-eq-ok :
    (h : JournalHead) (n : ℕ) (hash : String)
    → check_journal_head (some h) n hash ≡ ok tt
    → (h.sequence ≡ n) × (h.event_hash ≡ hash)
unfolding check_journal_head
check_journal_head-eq-ok h n hash c =
    let (passed, _) = guard-eq-ok (not (h.sequence == n) || not (str_eq h.event_hash hash)) _ _ c in
    ground (arith, eq_iff h.event_hash hash)

check_journal_head-next :
    (h : JournalHead) (n : ℕ) (hash : String)
    → h.sequence ≡ n
    → h.event_hash ≡ hash
    → check_journal_head (some h) n hash ≡ ok tt
unfolding check_journal_head
check_journal_head-next h n hash e f = ground (arith, eq_iff h.event_hash hash)

no_events : (events : List JournalEvent) → 0 ≡ length events → events ≡ []
no_events [] h = refl
no_events (x ∷ events) h = absurd (omega arith)

module _ (d : EventDigests) where
  -- What the head that is inserted or found says of the account before the call.
  pub head_replays :
      (s : Ledgers) (account : EntityId) (o : Option JournalHead) (h : JournalHead)
      (old : List JournalEvent)
      → journal_head s account ≡ o
      → journal_head (open_head s account o) account ≡ some h
      → replay_locked d (open_head s account o) account (some h) ≡ ok old
      → replay_with d s account o ≡ ok old
  head_replays s account (some k) h old e f r =
      let same = some-injective _ _ (sym e ∙ f) in rw same r
  head_replays s account none h old e f r =
      let (final, _, c) = replay_locked-IsReplayed d _ account (some h) r in
      let (counted, _) = check_journal_head-eq-ok h (length old) final c in
      let own : (account == account) ≡ true = ground arith in
      let opened =
        rw
          (
            find_first-append (is_head_of account) s.heads
                (record { account_id = account; sequence = 0; event_hash = genesis_hash } ∷ []),
            e,
            own,
          )
          at f in
      let zero : 0 ≡ h.sequence =
        ap (λ (k : JournalHead). k.sequence) (some-injective _ _ opened) in
      ap ok (sym (no_events old (zero ∙ counted)))

  pub open_head-other :
      (s : Ledgers) (account other : EntityId) (o : Option JournalHead)
      → (account == other) ≡ false
      → journal_head (open_head s account o) other ≡ journal_head s other
  open_head-other s account other (some k) o = refl
  open_head-other s account other none o =
      rw
        (
          find_first-append (is_head_of other) s.heads
              (record { account_id = account; sequence = 0; event_hash = genesis_hash } ∷ []),
          o,
        )
        (or_else-none (find_first (is_head_of other) s.heads))

  pub open_head-events :
      (s : Ledgers) (account : EntityId) (o : Option JournalHead)
      → (open_head s account o).events ≡ s.events
  open_head-events s account none = refl
  open_head-events s account (some k) = refl

  replay_with-same :
      (s t : Ledgers) (account : EntityId) (o : Option JournalHead)
      → keep (is_row_of account) t.events ≡ keep (is_row_of account) s.events
      → replay_with d t account o ≡ replay_with d s account o
  unfolding replay_locked
  replay_with-same s t account none rows = refl
  replay_with-same s t account (some h) rows = rw rows refl

  -- A replay reads the head and the rows of its account.
  pub replay_account-same :
      (s t : Ledgers) (account : EntityId)
      → journal_head t account ≡ journal_head s account
      → keep (is_row_of account) t.events ≡ keep (is_row_of account) s.events
      → replay_account d t account ≡ replay_account d s account
  unfolding replay_account
  replay_account-same s t account head rows =
      rw head (replay_with-same s t account (journal_head s account) rows)

  seal_event-eq-ok :
      (draft : EventDraft) (n : ℕ) (previous : String) {e : JournalEvent}
      → seal_event d draft n previous ≡ ok e
      → (e.draft ≡ draft)
        × (e.account_sequence ≡ n)
        × (e.previous_event_hash ≡ previous)
        × (validate_journal_event d e ≡ ok e)
  unfolding seal_event
  seal_event-eq-ok draft n previous h =
      let (self, _, _) = validate_journal_event-eq-ok d _ h in
      (
        ap (λ (x : JournalEvent). x.draft) self,
        ap (λ (x : JournalEvent). x.account_sequence) self,
        ap (λ (x : JournalEvent). x.previous_event_hash) self,
        rw (← self) at h,
      )

  -- The account and the other accounts, after an event is stored.
  pub record IsStored (s : Ledgers) (draft : EventDraft) (old : List JournalEvent) (t : Ledgers)
      (e : JournalEvent) : Type 0 where
    pub draft_kept : e.draft ≡ draft
    pub replays : replay_account d t draft.account_id ≡ ok (old ++ e ∷ [])
    pub others :
        (other : EntityId)
        → (draft.account_id == other) ≡ false
        → (journal_head t other ≡ journal_head s other)
          × (keep (is_row_of other) t.events ≡ keep (is_row_of other) s.events)

  pub replay_account-locked :
      (s : Ledgers) (account : EntityId) (h : JournalHead) {events : List JournalEvent}
      → journal_head s account ≡ some h
      → replay_locked d s account (some h) ≡ ok events
      → replay_account d s account ≡ ok events
  unfolding replay_account
  replay_account-locked s account h found r = rw found r

  stored_replays :
      (s t : Ledgers) (account : EntityId) (e : JournalEvent) (h : JournalHead)
      (old : List JournalEvent) (final : String)
      → e.draft.account_id ≡ account
      → t.events ≡ s.events ++ journal_row e ∷ []
      → t.heads ≡ set_journal_head account e.account_sequence e.event_hash s.heads
      → journal_head s account ≡ some h
      → IsReplayed d s account old final
      → validate_journal_event d e ≡ ok e
      → e.account_sequence ≡ length old + 1
      → e.previous_event_hash ≡ final
      → replay_account d t account ≡ ok (old ++ e ∷ [])
  stored_replays s t account e h old final placed rows heads found r valid number chained =
      let next : IsReplayed d t account (old ++ e ∷ []) e.event_hash =
        subst
          (λ (a : EntityId).
            IsReplayed d s a old final → IsReplayed d t a (old ++ e ∷ []) e.event_hash)
          placed (λ q. extended-IsReplayed d s t e old final rows q valid number chained) r in
      let count : e.account_sequence ≡ length (old ++ e ∷ []) =
        number ∙ sym (length-append old (e ∷ [])) in
      let head : journal_head t account
          ≡ some (record h { sequence = e.account_sequence; event_hash = e.event_hash }) =
        ap (find_first (is_head_of account)) heads
        ∙ find_first-set_journal_head account e.account_sequence e.event_hash s.heads h found in
      replay_account-locked t account _ head (
        IsReplayed-replay d t account _ (old ++ e ∷ []) e.event_hash next
          (check_journal_head-next _ (length (old ++ e ∷ [])) e.event_hash count refl))

  pub store_event-IsStored :
      (s : Ledgers) (h : JournalHead) (draft : EventDraft) (old : List JournalEvent) {t : Ledgers}
      {e : JournalEvent}
      → journal_head s draft.account_id ≡ some h
      → replay_locked d s draft.account_id (some h) ≡ ok old
      → store_event d s h draft ≡ ok (t, e)
      → IsStored s draft old t e
  unfolding store_event insert_journal_row
  store_event-IsStored s h draft old {t} {e} found r w =
      let (x, sealed, w₁) = bind-eq-ok (seal_event d draft (h.sequence + 1) h.event_hash) _ w in
      let (rows, inserted, w₂) = bind-eq-ok (insert_journal_row (journal_row x) s.events) _ w₁ in
      let (_, appended) = guard-eq-ok (any_of (refuses (journal_row x)) s.events) _ _ inserted in
      let both = ok-injective w₂ in
      let own : x ≡ e = ap (λ (p : Ledgers × JournalEvent). p.1) both in
      let (same, number, previous, valid) =
        rw own at (seal_event-eq-ok draft (h.sequence + 1) h.event_hash sealed) in
      let (final, read, checked) = replay_locked-IsReplayed d s draft.account_id (some h) r in
      let (counted, chained) = check_journal_head-eq-ok h (length old) final checked in
      let written : t.events ≡ s.events ++ journal_row e ∷ [] = rw own at (
        ap (λ (p : Ledgers × JournalEvent). p.0.events) (sym both) ∙ sym (ok-injective appended)) in
      let headed : t.heads
          ≡ set_journal_head draft.account_id e.account_sequence e.event_hash s.heads =
        rw own at (ap (λ (p : Ledgers × JournalEvent). p.0.heads) (sym both)) in
      record {
        draft_kept = same;
        replays =
            stored_replays s t draft.account_id e h old final
              (ap (λ (x : EventDraft). x.account_id) same) written headed found read valid
              (number ∙ ap (λ (k : ℕ). k + 1) counted) (previous ∙ chained);
        others = λ other o. (
          rw headed (find_first-set_journal_head_other draft.account_id other _ _ s.heads o),
          rw written (keep-append_other (is_row_of other) s.events (journal_row e) (rw same o)),
        );
      }
