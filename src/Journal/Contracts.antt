-- ===== src/Journal/Contracts.antt =====
-- journal/contracts.py: the verification of a chain of events.
use adaptive_trading_ecosyst.Prelude.{
  ℕ, ◌+◌, Bool, not, ◌||◌, List, [], ◌∷◌, ◌==◌, String, str_eq, Result, ok, err, ◌>>=◌, ◌>>◌,
  raise_if,
}
use adaptive_trading_ecosyst.Domain.Primitives.{EntityId}
use adaptive_trading_ecosyst.Domain.Events.{
  EventDigests, JournalEvent, genesis_hash, validate_journal_event,
}

-- `except ValueError: raise IntegrityError(code)`
abbrev pub or_else_raise {ℓ} : {A : Type ℓ} → Result A → String → Result A
or_else_raise (ok a) code = ok a
or_else_raise (err e) code = err code

abbrev pub off_chain : EntityId → ℕ → String → JournalEvent → Bool
off_chain account n previous e =
    not (e.draft.account_id == account)
    || (not (e.account_sequence == n) || not (str_eq e.previous_event_hash previous))

module _ (d : EventDigests) where
  unfoldable pub verify_link : EntityId → ℕ → String → JournalEvent → Result String
  verify_link account n previous e = do
    v ← or_else_raise (validate_journal_event d e) "event integrity failure"
    raise_if (off_chain account n previous v) "journal sequence or chain failure"
    ok v.event_hash

  unfoldable pub verify_from : EntityId → ℕ → String → List JournalEvent → Result String
  verify_from account n previous [] = ok previous
  verify_from account n previous (e ∷ es) =
      verify_link account n previous e >>= λ hash. verify_from account (n + 1) hash es

  unfoldable pub verify_chain : List JournalEvent → EntityId → Result String
  verify_chain es account = verify_from account 1 genesis_hash es
