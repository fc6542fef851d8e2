-- ===== src/Journal/Postgres/Delivery.antt =====
-- persistence/journal.py, `append`: what a call that returns has done to the journals of the accounts.
use adaptive_trading_ecosyst.Prelude.{
  ◌==◌, ◌≡◌, refl, sym, ap, ◌∙◌, Bool, true, false, not, Option, none, some, List, [], ◌∷◌, ◌++◌,
  ◌==◌, ◌⊎◌, inl, inr, keep, find_first, ok, bind-eq-ok, guard-eq-ok, ok-injective, not-false,
  or_raise, or_raise-eq-ok,
}
use adaptive_trading_ecosyst.Domain.Primitives.{EntityId}
use adaptive_trading_ecosyst.Domain.Events.{EventDigests, EventDraft, JournalEvent}
use adaptive_trading_ecosyst.Journal.Postgres.{
  JournalHead, JournalRow, Ledgers, is_row_of, journal_head, open_head, with_journal_head,
  read_event, replay_locked, replay_account, find_or_store, append_draft,
}
use adaptive_trading_ecosyst.Journal.Postgres.Chained.{read_event-body}
use adaptive_trading_ecosyst.Journal.Postgres.Append.{
  head_replays, open_head-other, open_head-events, replay_account-same, replay_account-locked,
  store_event-IsStored,
}

abbrev pub is_identity : EntityId → JournalRow → Bool
is_identity i r = r.event_id == i

module _ (d : EventDigests) (same_draft : EventDraft → EventDraft → Bool) where
  -- The events of the account before and after the call, and the event that is returned: it is that of
  -- the row of its identity, with the content of the draft, or it stands at the end. The other accounts
  -- replay as before.
  pub record Appends (s : Ledgers) (draft : EventDraft) (t : Ledgers) (e : JournalEvent)
      : Type 0 where
    pub old : List JournalEvent
    pub before : replay_account d s draft.account_id ≡ ok old
    pub after :
        ((row : JournalRow) × (find_first (is_identity draft.event_id) s.events ≡ some row)
          × (e ≡ row.body)
          × (same_draft e.draft draft ≡ true)
          × (replay_account d t draft.account_id ≡ ok old))
        ⊎ ((find_first (is_identity draft.event_id) s.events ≡ none)
            × (e.draft ≡ draft)
            × (replay_account d t draft.account_id ≡ ok (old ++ e ∷ [])))
    pub others :
        (other : EntityId)
        → (draft.account_id == other) ≡ false
        → replay_account d t other ≡ replay_account d s other

  -- The store with the head, by the row that is found.
  found_or_stored :
      (s : Ledgers) (draft : EventDraft) (o : Option JournalHead) (h : JournalHead)
      (old : List JournalEvent) (found : Option JournalRow) {t : Ledgers} {e : JournalEvent}
      → journal_head s draft.account_id ≡ o
      → journal_head (open_head s draft.account_id o) draft.account_id ≡ some h
      → replay_locked d (open_head s draft.account_id o) draft.account_id (some h) ≡ ok old
      → find_first (is_identity draft.event_id) s.events ≡ found
      → find_or_store d same_draft (open_head s draft.account_id o) h draft found ≡ ok (t, e)
      → Appends s draft t e
  unfolding find_or_store replay_account
  found_or_stored s draft o h old (some row) e₀ head r f w =
      let (x, read, w₁) = bind-eq-ok (read_event d row) _ w in
      let (same, w₂) = guard-eq-ok (not (same_draft x.draft draft)) _ _ w₁ in
      let both = ok-injective w₂ in
      let store = ap (λ (p : Ledgers × JournalEvent). p.0) both in
      let own = ap (λ (p : Ledgers × JournalEvent). p.1) both in
      let after =
        replay_account-locked d (open_head s draft.account_id o) draft.account_id h head r in
      record {
        old = old;
        before = rw e₀ (head_replays d s draft.account_id o h old e₀ head r);
        after = inl (
          row,
          f,
          sym own ∙ read_event-body d row read,
          rw own at (not-false _ same),
          rw store at after,
        );
        others = λ other q. rw (← store) (
            replay_account-same d s (open_head s draft.account_id o) other
              (open_head-other d s draft.account_id other o q)
              (ap (keep (is_row_of other)) (open_head-events d s draft.account_id o)));
      }
  found_or_stored s draft o h old none e₀ head r f w =
      let k = store_event-IsStored d (open_head s draft.account_id o) h draft old head r w in
      record {
        old = old;
        before = rw e₀ (head_replays d s draft.account_id o h old e₀ head r);
        after = inr (f, k.draft_kept, k.replays);
        others = λ other q.
            let (heads, rows) = k.others other q in
            replay_account-same d s _ other (heads ∙ open_head-other d s draft.account_id other o q)
              (rows ∙ ap (keep (is_row_of other)) (open_head-events d s draft.account_id o));
      }

  -- An append that returns has found the account's journal intact; it adds the event at its end, or
  -- adds nothing when there is a row of that identity; and no other account's journal changes.
  pub append_draft-Appends :
      (s t : Ledgers) (draft : EventDraft) (e : JournalEvent)
      → append_draft d same_draft s draft ≡ ok (t, e)
      → Appends s draft t e
  unfolding append_draft with_journal_head
  append_draft-Appends s t draft e w =
      let o = journal_head s draft.account_id in
      let opened = open_head s draft.account_id o in
      let (h, found, w₁) =
        bind-eq-ok (or_raise (journal_head opened draft.account_id) "NoResultFound") _ w in
      let (old, r, w₂) = bind-eq-ok (replay_locked d opened draft.account_id (some h)) _ w₁ in
      let same = open_head-events d s draft.account_id o in
      found_or_stored s draft o h old (find_first (is_identity draft.event_id) s.events) refl
        (or_raise-eq-ok _ _ found) r refl (rw same at w₂)
