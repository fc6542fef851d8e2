-- ===== src/Journal/Tests.antt =====
-- Two events of an account are appended and replayed; a conflicting and a damaged journal are refused.
use adaptive_trading_ecosyst.Prelude.{
  ℕ, ◌≡◌, refl, true, none, List, [], ◌∷◌, ◌==◌, ◌&&◌, str_eq, Bool, Result, ok, err, insert_by,
  order_from,
}
use adaptive_trading_ecosyst.Domain.Primitives.{RuntimeMode, hours}
use adaptive_trading_ecosyst.Domain.Events.{
  EventDigests, EventDraft, JournalEvent, genesis_hash, hash_text, validate_draft, check_hashes,
  validate_journal_event, seal_event,
}
use adaptive_trading_ecosyst.Journal.Contracts.{verify_link, verify_from, verify_chain}
use adaptive_trading_ecosyst.Journal.Postgres.{
  JournalRow, Ledgers, no_ledgers, insert_journal_row, set_journal_head, with_journal_head,
  check_journal_head, read_event, replay_locked, replay_account, store_event, find_or_store,
  append_draft, journal_row,
}
use adaptive_trading_ecosyst.Journal.Postgres.Delivery.{Appends, append_draft-Appends}
use adaptive_trading_ecosyst.Journal.Postgres.Integrity.{same_head-same_account}

unfoldable bundle : Unit {0}
unfolding hash_text validate_draft check_hashes validate_journal_event seal_event verify_link
    verify_from verify_chain insert_journal_row set_journal_head with_journal_head
    check_journal_head read_event replay_locked replay_account store_event find_or_store
    append_draft insert_by order_from
bundle = tt

-- Digests that do not tell two texts apart.
abbrev digests : EventDigests
digests = record {
  is_canonical = λ payload. true;
  payload_digest = λ payload. genesis_hash;
  event_digest = λ draft sequence payload previous. genesis_hash;
}

abbrev same_content : EventDraft → EventDraft → Bool
same_content a b = a.event_id == b.event_id && str_eq a.payload b.payload

abbrev deposit : EventDraft
deposit = record {
  event_id = 1;
  account_id = 9;
  event_type = "CASH_DEPOSITED";
  correlation_id = 11;
  causation_id = none;
  actor = "operator";
  runtime_mode = RuntimeMode.paper_forward;
  release_reference = none;
  event_time = hours 1;
  recorded_time = hours 1;
  payload = "{}";
}

abbrev fee : EventDraft
fee = record deposit { event_id = 2; event_type = "FEE_CHARGED"; event_time = hours 2 }

abbrev run : Ledgers → EventDraft → Result (Ledgers × JournalEvent)
run = append_draft digests same_content

abbrev sealed : EventDraft → ℕ → JournalEvent
sealed draft n = record {
  draft = draft;
  account_sequence = n;
  payload_hash = genesis_hash;
  previous_event_hash = genesis_hash;
  event_hash = genesis_hash;
}

abbrev ledgers_of : ℕ → List JournalRow → Ledgers
ledgers_of n rows = record {
  heads = record { account_id = 9; sequence = n; event_hash = genesis_hash } ∷ [];
  events = rows;
}

abbrev first_row : JournalRow
first_row = journal_row (sealed deposit 1)

abbrev deposited : Ledgers
deposited = ledgers_of 1 (first_row ∷ [])

abbrev charged : Ledgers
charged = ledgers_of 2 (first_row ∷ journal_row (sealed fee 2) ∷ [])

deposit_runs : run no_ledgers deposit ≡ ok (deposited, sealed deposit 1)
unfolding bundle
deposit_runs = refl

fee_runs : run deposited fee ≡ ok (charged, sealed fee 2)
unfolding bundle
fee_runs = refl

-- A journal that has lost its last event no longer agrees with its head.
lost_event_fails : run (ledgers_of 2 (first_row ∷ [])) fee ≡ err "journal head integrity failure"
unfolding bundle
lost_event_fails = refl

deposited_replays : replay_account digests deposited 9 ≡ ok (sealed deposit 1 ∷ [])
unfolding bundle
deposited_replays = refl

-- The same journal of the account beside that of another one.
abbrev shared : Ledgers
shared = record deposited {
  events = record first_row { account_id = 8; event_id = 5 } ∷ first_row ∷ [];
}

shared_replays : replay_account digests shared 9 ≡ ok (sealed deposit 1 ∷ [])
unfolding bundle
shared_replays = refl

append_draft-Appends_example : Appends digests same_content deposited fee charged (sealed fee 2)
append_draft-Appends_example =
    append_draft-Appends digests same_content deposited charged fee (sealed fee 2) fee_runs

abbrev changed : EventDraft
changed = record deposit { payload = "[]" }

same_head-same_account_example : sealed deposit 1 ∷ [] ≡ sealed deposit 1 ∷ []
same_head-same_account_example =
    same_head-same_account digests deposited shared 9 (sealed deposit 1 ∷ [])
      (sealed deposit 1 ∷ []) (record { account_id = 9; sequence = 1; event_hash = genesis_hash })
      (record { account_id = 9; sequence = 1; event_hash = genesis_hash }) deposited_replays
      shared_replays refl refl refl refl ((λ same. (refl, refl, refl, refl), tt), tt)
