-- ===== src/Portfolio/Fills.antt =====
-- portfolio/fills.py: how a fill changes the book.
pub mod Replay
pub mod Lookup
pub mod Realized
pub mod Reduction
use adaptive_trading_ecosyst.Prelude.{
  ℕ, ◌+◌, Bool, true, false, not, ◌&&◌, ◌||◌, Option, none, some, is_none, List, [], ◌∷◌, ◌++◌, ltb,
  leb, ◌==◌, length, find_first, if◌then◌else◌, String, str_eq, Result, ok, err, ◌>>=◌, ◌>>◌,
  raise_if, or_raise,
}
use adaptive_trading_ecosyst.Prelude.Int.{pos, negsuc, nat_abs}
use adaptive_trading_ecosyst.Decimal.{
  Decimal, zero_d, of_int, leb_d, ltb_d, eq_d, ◌+ᵈ◌, ◌-ᵈ◌, ◌*ᵈ◌, div_d,
}
use adaptive_trading_ecosyst.Domain.Primitives.{EntityId, asset_rank}
use adaptive_trading_ecosyst.Accounting.Contracts.{
  Category, realized_pnl, commission, LedgerEntry, validate_ledger_entry,
}
use adaptive_trading_ecosyst.Accounting.Ledger.{validate_account, among_ids}
use adaptive_trading_ecosyst.Portfolio.Contracts.{
  Direction, is_long, same_bool, same_asset, Economics, Position, validate_position, Fill,
  validate_fill, FillReceipt, validate_receipt, Book, validate_book, increase, reduce, Action,
}

abbrev pub find_receipt : EntityId → List FillReceipt → Option FillReceipt
find_receipt i receipts = find_first (λ r. r.fill_id == i) receipts

-- The positions by episode, a dictionary in the order of its insertions.
abbrev pub find_position : EntityId → List Position → Option Position
find_position i positions = find_first (λ p. p.episode_id == i) positions

unfoldable pub put_position : Position → List Position → List Position
put_position p [] = p ∷ []
put_position p (q ∷ qs) = if q.episode_id == p.episode_id then p ∷ qs else q ∷ put_position p qs

unfoldable pub remove_position : EntityId → List Position → List Position
remove_position i [] = []
remove_position i (q ∷ qs) = if q.episode_id == i then qs else q ∷ remove_position i qs

-- The order of `(p.asset.value, str(p.episode_id))`.
abbrev pub position_before : Position → Position → Bool
position_before p q =
    ltb (asset_rank p.asset) (asset_rank q.asset)
    || (same_asset p.asset q.asset && ltb p.episode_id q.episode_id)

unfoldable pub insert_position : Position → List Position → List Position
insert_position p [] = p ∷ []
insert_position p (q ∷ qs) = if position_before q p then q ∷ insert_position p qs else p ∷ q ∷ qs

unfoldable pub sort_positions : List Position → List Position
sort_positions [] = []
sort_positions (p ∷ ps) = insert_position p (sort_positions ps)

abbrev pub same_label : Option String → Option String → Bool
same_label none none = true
same_label (some a) (some b) = str_eq a b
same_label _ _ = false

unfoldable pub same_economics : Economics → Economics → Bool
same_economics a b =
    str_eq a.instrument_id b.instrument_id
    && same_asset a.asset b.asset
    && str_eq a.version b.version
    && eq_d a.tick_size b.tick_size
    && eq_d a.tick_value_per_lot b.tick_value_per_lot
    && eq_d a.contract_size b.contract_size
    && eq_d a.usd_per_price_unit_per_lot b.usd_per_price_unit_per_lot
    && eq_d a.volume_min b.volume_min
    && eq_d a.volume_max b.volume_max
    && eq_d a.volume_step b.volume_step
    && eq_d a.margin_per_lot b.margin_per_lot
    && eq_d a.commission_per_lot_per_side b.commission_per_lot_per_side
    && eq_d a.commission_fixed_per_side b.commission_fixed_per_side
    && eq_d a.minimum_stop_distance b.minimum_stop_distance
    && a.valid_from == b.valid_from
    && a.valid_until == b.valid_until
    && same_label a.validation_reference b.validation_reference

abbrev pub other_lineage : Option Position → Fill → Bool
other_lineage none fill = false
other_lineage (some p) fill =
    not (same_bool (is_long p.direction) (is_long fill.direction))
    || not (p.strategy_id == fill.strategy_id)
    || not (same_economics p.economics fill.economics)
    || not (eq_d p.fixed_stop fill.fixed_stop)

abbrev pub held_quantity : Option Position → Decimal
held_quantity none = zero_d
held_quantity (some p) = p.quantity

abbrev pub held_value : Option Position → Decimal
held_value none = zero_d
held_value (some p) = p.quantity *ᵈ p.weighted_entry

abbrev pub is_reducing : Option Position → Bool
is_reducing none = false
is_reducing (some p) = p.reducing

-- The positions, the closed episodes and the realized amount after a fill.
pub record Change : Type 0 where
  pub positions : List Position
  pub closed : List EntityId
  pub realized : Decimal

unfoldable pub increase_position : Book → Fill → Option Position → Result Change
increase_position book fill previous = do
  raise_if (is_reducing previous) "ENTRY_AFTER_REDUCTION_REQUIRES_RECONCILIATION"
  let quantity = fill.quantity +ᵈ held_quantity previous
  weighted ←
      or_raise (div_d (held_value previous +ᵈ fill.quantity *ᵈ fill.actual_price) quantity)
        "DivisionByZero"
  position ← validate_position (record {
    episode_id = fill.episode_id;
    strategy_id = fill.strategy_id;
    asset = fill.asset;
    direction = fill.direction;
    economics = fill.economics;
    quantity = quantity;
    weighted_entry = weighted;
    fixed_stop = fill.fixed_stop;
    reducing = false;
  })
  ok (record {
    positions = put_position position book.positions;
    closed = book.closed_episodes;
    realized = zero_d;
  })

abbrev pub direction_sign : Direction → Decimal
direction_sign d = if is_long d then of_int (pos 1) else of_int (negsuc 0)

unfoldable pub realized_amount : Fill → Position → Decimal
realized_amount fill previous =
    direction_sign fill.direction
    *ᵈ (fill.actual_price -ᵈ previous.weighted_entry)
    *ᵈ fill.quantity
    *ᵈ fill.economics.usd_per_price_unit_per_lot

-- What is left of the position, or the closed episode when nothing is.
unfoldable pub leave_remaining : Book → Fill → Position → Decimal → Result Change
leave_remaining book fill previous remaining =
    if nat_abs remaining.coef == 0
    then ok (record {
      positions = remove_position fill.episode_id book.positions;
      closed = book.closed_episodes ++ fill.episode_id ∷ [];
      realized = realized_amount fill previous;
    })
    else (do
      position ← validate_position (record previous { quantity = remaining; reducing = true })
      ok (record {
        positions = put_position position book.positions;
        closed = book.closed_episodes;
        realized = realized_amount fill previous;
      }))

unfoldable pub reduce_position : Book → Fill → Option Position → Result Change
reduce_position book fill none = err "REDUCTION_WOULD_REVERSE_OR_HAS_NO_POSITION"
reduce_position book fill (some previous) = do
  raise_if (ltb_d previous.quantity fill.quantity) "REDUCTION_WOULD_REVERSE_OR_HAS_NO_POSITION"
  leave_remaining book fill previous (previous.quantity -ᵈ fill.quantity)

abbrev pub change_position : Action → Book → Fill → Option Position → Result Change
change_position increase book fill previous = increase_position book fill previous
change_position reduce book fill previous = reduce_position book fill previous

abbrev pub posting : Fill → ℕ → EntityId → Category → Decimal → LedgerEntry
posting fill sequence identifier category amount = record {
  entry_id = identifier;
  account_id = fill.account_id;
  sequence = sequence;
  amount = amount;
  category = category;
  reference_id = fill.fill_id;
  effective_at = fill.at;
  recorded_at = fill.at;
  reverses = none;
  replaces = none;
  audit_reference = none;
}

-- `content` is the identity of the fill's content.
unfoldable pub post : Book → Fill → String → Change → Result Book
post book fill content change = do
  let ledger = book.cash.ledger
  realized ←
      validate_ledger_entry
        (posting fill (length ledger + 1) fill.realized_entry_id realized_pnl change.realized)
  charged ←
      validate_ledger_entry (
        posting fill (length ledger + 2) fill.commission_entry_id commission fill.actual_commission)
  cash ← validate_account (record book.cash {
    ledger = ledger ++ realized ∷ charged ∷ [];
    valuation_at = fill.at;
    reconciled_at = fill.at;
  })
  receipt ← validate_receipt (record { fill_id = fill.fill_id; content_id = content })
  validate_book (record {
    cash = cash;
    positions = sort_positions change.positions;
    receipts = book.receipts ++ receipt ∷ [];
    closed_episodes = change.closed;
  })

unfoldable pub record_fill : Book → Fill → String → Result Book
record_fill book fill content = do
  raise_if (not (fill.account_id == book.cash.account_id) || ltb fill.at book.cash.valuation_at)
      "FILL_ACCOUNT_OR_TIME_MISMATCH"
  raise_if
      (is_none fill.economics.validation_reference
        || not (leb fill.economics.valid_from fill.at && ltb fill.at fill.economics.valid_until))
      "UNVALIDATED_FILL_ECONOMICS"
  raise_if (among_ids fill.episode_id book.closed_episodes) "CLOSED_EPISODE_REOPENED"
  let previous = find_position fill.episode_id book.positions
  raise_if (other_lineage previous fill) "FILL_EPISODE_LINEAGE_MISMATCH"
  change ← change_position fill.action book fill previous
  post book fill content change

-- A fill that has a receipt changes nothing, and must be the one that was recorded.
unfoldable pub replay : Book → Fill → String → Option FillReceipt → Result Book
replay book fill content (some receipt) = do
  raise_if (not (str_eq receipt.content_id content)) "CONFLICTING_DUPLICATE_FILL"
  ok book
replay book fill content none = record_fill book fill content

-- `identity` is the digest of a fill's content, which `hashlib` computes.
module _ (identity : Fill → String) where
  unfoldable pub apply_fill : Book → Fill → Result Book
  apply_fill given_book given_fill = do
    book ← validate_book given_book
    fill ← validate_fill given_fill
    replay book fill (identity fill) (find_receipt fill.fill_id book.receipts)
