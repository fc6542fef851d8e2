-- ===== src/Domain/Events.antt =====
-- domain/events.py: the events of the operational journal, sealed with the digests of their payload
-- and of their envelope, which are parameters. A payload is its canonical text.
use Prim.Native.Char.{code}
use Prim.Native.String.{count, [], ◌∷◌}
use adaptive_trading_ecosyst.Prelude.{
  ℕ, ◌^◌, Bool, true, false, not, ◌&&◌, ◌||◌, Option, none, some, ltb, leb, ◌==◌, String, str_eq,
  Result, ok, ◌>>◌, raise_if,
}
use adaptive_trading_ecosyst.Domain.Primitives.{EntityId, UtcTimestamp, RuntimeMode}

pub record EventDraft : Type 0 where
  pub event_id : EntityId
  pub account_id : EntityId
  pub event_type : String
  pub correlation_id : EntityId
  pub causation_id : Option EntityId
  pub actor : String
  pub runtime_mode : RuntimeMode
  pub release_reference : Option String
  pub event_time : UtcTimestamp
  pub recorded_time : UtcTimestamp
  pub payload : String

pub record JournalEvent : Type 0 where
  pub draft : EventDraft
  pub account_sequence : ℕ
  pub payload_hash : String
  pub previous_event_hash : String
  pub event_hash : String

-- `GENESIS_HASH`
abbrev pub genesis_hash : String
genesis_hash = "0000000000000000000000000000000000000000000000000000000000000000"

abbrev pub is_between : ℕ → ℕ → ℕ → Bool
is_between lo hi c = leb lo c && leb c hi

-- `[0-9a-f]*`
abbrev pub is_hexadecimal : String → Bool
is_hexadecimal [] = true
is_hexadecimal (c ∷ s) =
    (is_between b'0' b'9' (code c) || is_between b'a' b'f' (code c)) && is_hexadecimal s

-- `Hash`
unfoldable pub hash_text : String → Result String
hash_text s = do
  raise_if (not (count s == 64) || not (is_hexadecimal s)) "string_pattern_mismatch"
  ok s

-- `[A-Z0-9_]*`
abbrev pub is_upper_word : String → Bool
is_upper_word [] = true
is_upper_word (c ∷ s) =
    (is_between b'A' b'Z' (code c) || (is_between b'0' b'9' (code c) || code c == b'_'))
    && is_upper_word s

-- `^[A-Z][A-Z0-9_]*$`
abbrev pub is_event_type : String → Bool
is_event_type [] = false
is_event_type (c ∷ s) = is_between b'A' b'Z' (code c) && is_upper_word s

abbrev pub too_long : ℕ → Option String → Bool
too_long limit none = false
too_long limit (some s) = ltb limit (count s)

-- What the code computes from texts: the validation and the digest of a canonical payload, and the
-- digest of the canonical text of an event without its own hash.
pub record EventDigests : Type 0 where
  pub is_canonical : String → Bool
  pub payload_digest : String → String
  pub event_digest : EventDraft → ℕ → String → String → String

module _ (d : EventDigests) where
  unfoldable pub validate_draft : EventDraft → Result EventDraft
  validate_draft e = do
    raise_if (ltb (count e.event_type) 1 || ltb 100 (count e.event_type)) "string_length"
    raise_if (not (is_event_type e.event_type)) "string_pattern_mismatch"
    raise_if (ltb (count e.actor) 1 || ltb 100 (count e.actor)) "string_length"
    raise_if (too_long 200 e.release_reference) "string_too_long"
    raise_if (not (d.is_canonical e.payload)) "invalid canonical payload"
    ok e

  unfoldable pub check_hashes : JournalEvent → Result JournalEvent
  check_hashes e = do
    raise_if (not (str_eq e.payload_hash (d.payload_digest e.draft.payload)))
        "payload integrity failure"
    raise_if
        (not (
          str_eq e.event_hash
            (d.event_digest e.draft e.account_sequence e.payload_hash e.previous_event_hash)))
        "event integrity failure"
    ok e

  -- `JournalEvent.model_validate`
  unfoldable pub validate_journal_event : JournalEvent → Result JournalEvent
  validate_journal_event e = do
    validate_draft e.draft
    raise_if (ltb e.account_sequence 1 || leb (2 ^ 63) e.account_sequence) "greater_than_equal"
    hash_text e.payload_hash
    hash_text e.previous_event_hash
    hash_text e.event_hash
    check_hashes e

  unfoldable pub seal_event : EventDraft → ℕ → String → Result JournalEvent
  seal_event draft sequence previous =
      let payload = d.payload_digest draft.payload in
      validate_journal_event (record {
        draft = draft;
        account_sequence = sequence;
        payload_hash = payload;
        previous_event_hash = previous;
        event_hash = d.event_digest draft sequence payload previous;
      })
