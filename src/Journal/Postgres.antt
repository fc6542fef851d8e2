-- ===== src/Journal/Postgres.antt =====
-- persistence/journal.py: the journal over two tables of a database, which are lists of rows. A call
-- that raises rolls its transaction back; a statement that the tables refuse fails the transaction.
-- The equality of two drafts, field by field, is a parameter.
pub mod Chained
pub mod Append
pub mod Delivery
pub mod Integrity
use adaptive_trading_ecosyst.Prelude.{
  ℕ, ◌+◌, Bool, true, false, not, ◌&&◌, ◌||◌, Option, none, some, List, [], ◌∷◌, ◌++◌, ltb, ◌==◌,
  length, keep, order_by, find_first, any_of, if◌then◌else◌, String, str_eq, Result, ok, err, ◌>>=◌,
  ◌>>◌, raise_if, or_raise, traverse,
}
use adaptive_trading_ecosyst.Domain.Primitives.{EntityId}
use adaptive_trading_ecosyst.Domain.Events.{
  EventDigests, EventDraft, JournalEvent, genesis_hash, validate_journal_event, seal_event,
}
use adaptive_trading_ecosyst.Journal.Contracts.{or_else_raise, verify_chain}

pub record JournalHead : Type 0 where
  pub account_id : EntityId
  pub sequence : ℕ
  pub event_hash : String

-- The body is the event that its JSON text reads back as.
pub record JournalRow : Type 0 where
  pub account_id : EntityId
  pub account_sequence : ℕ
  pub event_id : EntityId
  pub event_hash : String
  pub body : JournalEvent

pub record Ledgers : Type 0 where
  pub heads : List JournalHead
  pub events : List JournalRow

abbrev pub no_ledgers : Ledgers
no_ledgers = record { heads = []; events = [] }

abbrev pub is_head_of : EntityId → JournalHead → Bool
is_head_of account h = h.account_id == account

abbrev pub is_row_of : EntityId → JournalRow → Bool
is_row_of account r = r.account_id == account

abbrev pub journal_head : Ledgers → EntityId → Option JournalHead
journal_head s account = find_first (is_head_of account) s.heads

abbrev pub account_rows : Ledgers → EntityId → List JournalRow
account_rows s account =
    order_by (λ (r : JournalRow). r.account_sequence) (keep (is_row_of account) s.events)

-- The primary key of the table of events and the unique identity of an event.
abbrev pub refuses : JournalRow → JournalRow → Bool
refuses r x =
    (x.account_id == r.account_id && x.account_sequence == r.account_sequence)
    || x.event_id == r.event_id

unfoldable pub insert_journal_row : JournalRow → List JournalRow → Result (List JournalRow)
insert_journal_row r rows = do
  raise_if (any_of (refuses r) rows) "journal transaction failed"
  ok (rows ++ r ∷ [])

unfoldable pub set_journal_head : EntityId → ℕ → String → List JournalHead → List JournalHead
set_journal_head account n hash [] = []
set_journal_head account n hash (h ∷ hs) =
    let rest = set_journal_head account n hash hs in
    if is_head_of account h then record h { sequence = n; event_hash = hash } ∷ rest else h ∷ rest

abbrev pub open_head : Ledgers → EntityId → Option JournalHead → Ledgers
open_head s account (some h) = s
open_head s account none = record s {
  heads = s.heads ++ record { account_id = account; sequence = 0; event_hash = genesis_hash } ∷ [];
}

-- `insert(journal_heads) … on_conflict_do_nothing`
unfoldable pub with_journal_head : Ledgers → EntityId → Ledgers
with_journal_head s account = open_head s account (journal_head s account)

unfoldable pub check_journal_head : Option JournalHead → ℕ → String → Result (Unit {0})
check_journal_head none n hash = do raise_if (ltb 0 n) "journal head missing"; ok tt
check_journal_head (some h) n hash = do
  raise_if (not (h.sequence == n) || not (str_eq h.event_hash hash))
      "journal head integrity failure"
  ok tt

abbrev pub misfiled : JournalRow → JournalEvent → Bool
misfiled r e =
    not (e.draft.account_id == r.account_id)
    || (not (e.account_sequence == r.account_sequence)
        || (not (e.draft.event_id == r.event_id) || not (str_eq e.event_hash r.event_hash)))

abbrev pub journal_row : JournalEvent → JournalRow
journal_row e = record {
  account_id = e.draft.account_id;
  account_sequence = e.account_sequence;
  event_id = e.draft.event_id;
  event_hash = e.event_hash;
  body = e;
}

module _ (d : EventDigests) where
  unfoldable pub read_event : JournalRow → Result JournalEvent
  read_event r =
      or_else_raise (validate_journal_event d r.body >>= λ e. raise_if (misfiled r e) "" >> ok e)
        "stored journal integrity failure"

  -- `_replay_locked`
  unfoldable pub replay_locked :
      Ledgers → EntityId → Option JournalHead → Result (List JournalEvent)
  replay_locked s account head = do
    events ← traverse read_event (account_rows s account)
    final ← verify_chain d events account
    check_journal_head head (length events) final
    ok events

  abbrev pub replay_with : Ledgers → EntityId → Option JournalHead → Result (List JournalEvent)
  replay_with s account none = ok []
  replay_with s account (some h) = replay_locked s account (some h)

  unfoldable pub replay_account : Ledgers → EntityId → Result (List JournalEvent)
  replay_account s account = replay_with s account (journal_head s account)

  unfoldable pub store_event : Ledgers → JournalHead → EventDraft → Result (Ledgers × JournalEvent)
  store_event s head draft = do
    e ← seal_event d draft (head.sequence + 1) head.event_hash
    rows ← insert_journal_row (journal_row e) s.events
    ok (
      record {
        heads = set_journal_head draft.account_id e.account_sequence e.event_hash s.heads;
        events = rows;
      },
      e,
    )

  module _ (same_draft : EventDraft → EventDraft → Bool) where
    -- A row with the identity of the draft is there, or is not.
    unfoldable pub find_or_store :
        Ledgers → JournalHead → EventDraft → Option JournalRow → Result (Ledgers × JournalEvent)
    find_or_store s head draft none = store_event s head draft
    find_or_store s head draft (some r) = do
      e ← read_event r
      raise_if (not (same_draft e.draft draft)) "event identifier conflicts with existing content"
      ok (s, e)

    -- `append`
    unfoldable pub append_draft : Ledgers → EventDraft → Result (Ledgers × JournalEvent)
    append_draft before draft = do
      let s = with_journal_head before draft.account_id
      head ← or_raise (journal_head s draft.account_id) "NoResultFound"
      replay_locked s draft.account_id (some head)
      find_or_store s head draft
          (find_first (λ (r : JournalRow). r.event_id == draft.event_id) s.events)
