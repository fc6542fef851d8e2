-- ===== src/Accounting/Ledger.antt =====
-- accounting/contracts.py, `AccountInput.ordered`: what a ledger has to be.
pub mod Corrections
use adaptive_trading_ecosyst.Prelude.{
  ℕ, ◌+◌, Bool, true, false, not, ◌&&◌, ◌||◌, Option, none, some, is_none, List, [], ◌∷◌, ◌++◌, ltb,
  leb, ◌==◌, map, length, find_first, any_of, if◌then◌else◌, Result, ok, ◌>>=◌, ◌>>◌, raise_if,
  or_raise, traverse,
}
use adaptive_trading_ecosyst.Decimal.{copy_negate, eq_d}
use adaptive_trading_ecosyst.Domain.Primitives.{
  EntityId, UtcTimestamp, Asset, asset_rank, finite_decimal, nonnegative_decimal,
}
use adaptive_trading_ecosyst.Accounting.Contracts.{
  same_category, LedgerEntry, validate_ledger_entry, LongPosition, validate_long_position,
  AccountReservation, AccountInput, optionally,
}

-- What the loop over the ledger has read: the entries, the identities that are reversed and those
-- that are replaced, and the last two times.
pub record Reading : Type 0 where
  pub entries : List LedgerEntry
  pub reversed_ids : List EntityId
  pub replaced_ids : List EntityId
  pub previous_time : UtcTimestamp
  pub previous_recorded : UtcTimestamp

abbrev pub find_entry : EntityId → List LedgerEntry → Option LedgerEntry
find_entry i es = find_first (λ e. e.entry_id == i) es

abbrev pub among_ids : EntityId → List EntityId → Bool
among_ids i is = any_of (λ j. j == i) is

-- `entry.reverses or entry.replaces`
abbrev pub target_id : LedgerEntry → Option EntityId
target_id e = elim e.reverses [ some i ↦ some i | none ↦ e.replaces ]

-- The identities that the entry adds, when it reverses or replaces `target`.
unfoldable pub correct : Reading → LedgerEntry → EntityId → Result Reading
correct r e i = do
  target ← or_raise (find_entry i r.entries) "CORRECTION_REQUIRES_ORIGINAL_PRIOR_ENTRY"
  raise_if (not (is_none target.reverses) || not (is_none target.replaces))
      "CORRECTION_REQUIRES_ORIGINAL_PRIOR_ENTRY"
  raise_if
      (not (same_category e.category target.category)
        || not (e.reference_id == target.reference_id))
      "CORRECTION_LINEAGE_MISMATCH"
  if not (is_none e.reverses)
      then (do
        raise_if (among_ids i r.reversed_ids || not (eq_d e.amount (copy_negate target.amount)))
            "INVALID_REVERSAL"
        ok (record r { reversed_ids = i ∷ r.reversed_ids }))
      else (do
        raise_if (not (among_ids i r.reversed_ids) || among_ids i r.replaced_ids)
            "REPLACEMENT_REQUIRES_SINGLE_PRIOR_REVERSAL"
        ok (record r { replaced_ids = i ∷ r.replaced_ids }))

abbrev pub corrected : Reading → LedgerEntry → Option EntityId → Result Reading
corrected r e none = ok r
corrected r e (some i) = correct r e i

unfoldable pub read_entry : AccountInput → ℕ → Reading → LedgerEntry → Result Reading
read_entry a n r e = do
  raise_if (not (is_none (find_entry e.entry_id r.entries))) "DUPLICATE_LEDGER_IDENTITY"
  raise_if (not (e.sequence == n) || not (e.account_id == a.account_id))
      "ACCOUNT_OR_CONTIGUOUS_SEQUENCE_MISMATCH"
  raise_if
      (not (
        leb r.previous_time e.effective_at
        && leb e.effective_at e.recorded_at
        && leb e.recorded_at a.reconciled_at))
      "INVALID_LEDGER_CHRONOLOGY"
  raise_if (ltb e.recorded_at r.previous_recorded) "REVERSED_RECORDING_ORDER"
  s ← corrected r e (target_id e)
  ok (record s {
    entries = e ∷ s.entries;
    previous_time = e.effective_at;
    previous_recorded = e.recorded_at;
  })

unfoldable pub read_ledger : AccountInput → ℕ → Reading → List LedgerEntry → Result Reading
read_ledger a n r [] = ok r
read_ledger a n r (e ∷ es) = read_entry a n r e >>= λ s. read_ledger a (n + 1) s es

abbrev pub first_reading : AccountInput → Reading
first_reading a = record {
  entries = [];
  reversed_ids = [];
  replaced_ids = [];
  previous_time = a.opening_at;
  previous_recorded = a.opening_at;
}

-- A stable sort by the asset's text leaves the list as it is.
unfoldable pub in_asset_order : List Asset → Bool
in_asset_order [] = true
in_asset_order (a ∷ []) = true
in_asset_order (a ∷ b ∷ rest) = leb (asset_rank a) (asset_rank b) && in_asset_order (b ∷ rest)

-- `len(set(xs)) != len(xs)`
unfoldable pub repeated : List ℕ → Bool
repeated [] = false
repeated (x ∷ xs) = any_of (λ y. y == x) xs || repeated xs

abbrev pub occupied_assets : AccountInput → List ℕ
occupied_assets a =
    map (λ (p : LongPosition). asset_rank p.asset) a.positions
    ++ map (λ (r : AccountReservation). asset_rank r.asset) a.reservations

abbrev pub occupied_episodes : AccountInput → List EntityId
occupied_episodes a =
    map (λ (p : LongPosition). p.episode_id) a.positions
    ++ map (λ (r : AccountReservation). r.episode_id) a.reservations

-- `quote_at is not None and quote_at > valuation_at`
abbrev pub future_quote : Option UtcTimestamp → UtcTimestamp → Bool
future_quote none at = false
future_quote (some quoted) at = ltb at quoted

unfoldable pub check_positions : AccountInput → List LongPosition → Result (Unit {0})
check_positions a [] = ok tt
check_positions a (p ∷ ps) = do
  raise_if (not (p.reconciled_sequence == length a.ledger)) "POSITION_LEDGER_BOUNDARY_MISMATCH"
  raise_if (future_quote p.quote_at a.valuation_at) "FUTURE_QUOTE"
  check_positions a ps

unfoldable pub ordered : AccountInput → Result AccountInput
ordered a = do
  raise_if (not (leb a.opening_at a.reconciled_at && leb a.reconciled_at a.valuation_at))
      "INVALID_ACCOUNT_CHRONOLOGY"
  read_ledger a 1 (first_reading a) a.ledger
  raise_if
      (not (in_asset_order (map (λ (p : LongPosition). p.asset) a.positions))
        || not (in_asset_order (map (λ (r : AccountReservation). r.asset) a.reservations)))
      "LEXICAL_ASSET_ORDER_REQUIRED"
  raise_if (repeated (occupied_assets a)) "ONE_OPEN_OR_PENDING_EPISODE_PER_ASSET"
  raise_if (repeated (occupied_episodes a)) "DUPLICATE_EPISODE_IDENTITY"
  check_positions a a.positions
  ok a

-- An account with its parts, as `model_validate` checks it.
unfoldable pub validate_account : AccountInput → Result AccountInput
validate_account a = do
  finite_decimal a.opening_cash
  traverse validate_ledger_entry a.ledger
  traverse validate_long_position a.positions
  optionally nonnegative_decimal a.used_margin
  optionally nonnegative_decimal a.reserved_margin
  optionally nonnegative_decimal a.open_stop_risk
  optionally nonnegative_decimal a.reserved_stop_risk
  ordered a
