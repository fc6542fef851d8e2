-- ===== src/Portfolio/Fills/Replay.antt =====
-- A fill that is applied again.
use adaptive_trading_ecosyst.Prelude.{
  ℕ, ◌+◌, ◌≡◌, refl, true, not, Option, none, some, List, [], ◌∷◌, ◌++◌, ◌==◌, length, Bool-cases,
  inl, inr, String, str_eq, eq_iff, not-false, ok, bind-eq-ok, guard-eq-ok, ok-injective, traverse,
  arith, ◌||◌, ◌&&◌, leb, ltb, is_none,
}
use adaptive_trading_ecosyst.Decimal.{Decimal}
use adaptive_trading_ecosyst.Domain.Primitives.{EntityId, finite_decimal, nonnegative_decimal}
use adaptive_trading_ecosyst.Accounting.Contracts.{
  AccountInput, optionally, validate_long_position, LedgerEntry, validate_ledger_entry, Category,
  realized_pnl, commission,
}
use adaptive_trading_ecosyst.Accounting.Ledger.{
  validate_account, ordered, read_ledger, first_reading, among_ids,
}
use adaptive_trading_ecosyst.Portfolio.Contracts.{
  Fill, validate_fill, FillReceipt, validate_receipt, Book, validate_book, Position,
  validate_position,
}
use adaptive_trading_ecosyst.Portfolio.Fills.Realized.{Realizes, change_position-Realizes}
use adaptive_trading_ecosyst.Portfolio.Fills.{
  find_receipt, apply_fill, replay, record_fill, post, Change, posting, change_position,
  find_position, other_lineage,
}

pub validate_book_self : (b : Book) {v : Book} → validate_book b ≡ ok v → v ≡ b
unfolding validate_book
validate_book_self b h =
    let (_, _, h1) = bind-eq-ok (validate_account b.cash) _ h in
    let (_, _, h2) = bind-eq-ok (traverse validate_position b.positions) _ h1 in
    let (_, _, h3) = bind-eq-ok (traverse validate_receipt b.receipts) _ h2 in ground arith

pub validate_position_self : (p : Position) {v : Position} → validate_position p ≡ ok v → v ≡ p
unfolding validate_position
validate_position_self p h = ground arith

pub validate_fill_self : (f : Fill) {v : Fill} → validate_fill f ≡ ok v → v ≡ f
unfolding validate_fill
validate_fill_self f h = ground arith

same_text : (s : String) → str_eq s s ≡ true
same_text s = (eq_iff s s).1 refl

-- A receipt that is looked up after a new one was appended.
find_receipt-append :
    (f : FillReceipt) (rs : List FillReceipt)
    → find_receipt f.fill_id rs ≡ none
    → find_receipt f.fill_id (rs ++ f ∷ []) ≡ some f
find_receipt-append f [] h = ground arith
find_receipt-append f (r ∷ rs) h = elim (Bool-cases (r.fill_id == f.fill_id)) [
  | inl same ↦ cc (same, h)
  | inr other ↦ rw other (find_receipt-append f rs (rw other at h))
]

-- An entry of the fill, at its time, that corrects nothing.
abbrev pub entry_of : Fill → ℕ → EntityId → Category → Decimal → LedgerEntry
entry_of f n identifier kind amount = record {
  entry_id = identifier;
  account_id = f.account_id;
  sequence = n;
  amount = amount;
  category = kind;
  reference_id = f.fill_id;
  effective_at = f.at;
  recorded_at = f.at;
  reverses = none;
  replaces = none;
  audit_reference = none;
}

-- What a fill that is recorded leaves.
pub record Posted (b : Book) (f : Fill) (content : String) (v : Book) : Type 0 where
  pub valid : validate_book v ≡ ok v
  pub realized : Decimal
  pub gain : Realizes f.action b f realized
  pub ledger :
      v.cash.ledger
      ≡ b.cash.ledger
        ++ entry_of f (length b.cash.ledger + 1) f.realized_entry_id realized_pnl realized
          ∷ entry_of f
              (length b.cash.ledger + 2)
              f.commission_entry_id
              commission
              f.actual_commission
          ∷ []
  pub receipts :
      v.receipts ≡ b.receipts ++ record { fill_id = f.fill_id; content_id = content } ∷ []
  pub at : v.cash.valuation_at ≡ f.at

ordered_self : (a : AccountInput) {v : AccountInput} → ordered a ≡ ok v → v ≡ a
unfolding ordered
ordered_self a h =
    let (_, h1) =
      guard-eq-ok (not (leb a.opening_at a.reconciled_at && leb a.reconciled_at a.valuation_at)) _ _
        h in
    let (_, _, h2) = bind-eq-ok (read_ledger a 1 (first_reading a) a.ledger) _ h1 in ground arith

validate_account_self : (a : AccountInput) {v : AccountInput} → validate_account a ≡ ok v → v ≡ a
unfolding validate_account
validate_account_self a h =
    let (_, _, h1) = bind-eq-ok (finite_decimal a.opening_cash) _ h in
    let (_, _, h2) = bind-eq-ok (traverse validate_ledger_entry a.ledger) _ h1 in
    let (_, _, h3) = bind-eq-ok (traverse validate_long_position a.positions) _ h2 in
    let (_, _, h4) = bind-eq-ok (optionally nonnegative_decimal a.used_margin) _ h3 in
    let (_, _, h5) = bind-eq-ok (optionally nonnegative_decimal a.reserved_margin) _ h4 in
    let (_, _, h6) = bind-eq-ok (optionally nonnegative_decimal a.open_stop_risk) _ h5 in
    let (_, _, h7) = bind-eq-ok (optionally nonnegative_decimal a.reserved_stop_risk) _ h6 in
    ordered_self a h7

validate_ledger_entry_self :
    (e : LedgerEntry) {v : LedgerEntry} → validate_ledger_entry e ≡ ok v → v ≡ e
unfolding validate_ledger_entry
validate_ledger_entry_self e h = ground arith

validate_receipt_self : (r : FillReceipt) {v : FillReceipt} → validate_receipt r ≡ ok v → v ≡ r
validate_receipt_self r h = ground arith

post-Posted :
    (b : Book) (f : Fill) (content : String) (c : Change) (v : Book)
    → Realizes f.action b f c.realized
    → post b f content c ≡ ok v
    → Posted b f content v
unfolding post
post-Posted b f content c v gain h =
    let (r, e1, h1) =
      bind-eq-ok
        (validate_ledger_entry
          (posting f (length b.cash.ledger + 1) f.realized_entry_id realized_pnl c.realized))
        _ h in
    let (m, e2, h2) =
      bind-eq-ok
        (validate_ledger_entry (
          posting f (length b.cash.ledger + 2) f.commission_entry_id commission
            f.actual_commission))
        _ h1 in
    let (cash, e3, h3) =
      bind-eq-ok
        (validate_account (record b.cash {
          ledger = b.cash.ledger ++ r ∷ m ∷ [];
          valuation_at = f.at;
          reconciled_at = f.at;
        }))
        _ h2 in
    let (receipt, e4, h4) =
      bind-eq-ok (validate_receipt (record { fill_id = f.fill_id; content_id = content })) _ h3 in
    let s1 = validate_ledger_entry_self _ e1 in
    let s2 = validate_ledger_entry_self _ e2 in
    let s3 = validate_account_self _ e3 in
    let s4 = validate_receipt_self _ e4 in
    let s5 = validate_book_self _ h4 in
    record {
      valid = rw (← s5) at h4;
      realized = c.realized;
      gain = gain;
      ledger = rw (s5, s3, s1, s2) refl;
      receipts = rw (s5, s4) refl;
      at = rw (s5, s3) refl;
    }

record_fill-Posted :
    (b : Book) (f : Fill) (content : String) (v : Book)
    → record_fill b f content ≡ ok v
    → Posted b f content v
unfolding record_fill
record_fill-Posted b f content v h =
    let (_, h1) =
      guard-eq-ok (not (f.account_id == b.cash.account_id) || ltb f.at b.cash.valuation_at) _ _ h in
    let (_, h2) =
      guard-eq-ok
        (is_none f.economics.validation_reference
          || not (leb f.economics.valid_from f.at && ltb f.at f.economics.valid_until))
        _ _ h1 in
    let (_, h3) = guard-eq-ok (among_ids f.episode_id b.closed_episodes) _ _ h2 in
    let (_, h4) = guard-eq-ok (other_lineage (find_position f.episode_id b.positions) f) _ _ h3 in
    let (c, changed, h5) =
      bind-eq-ok (change_position f.action b f (find_position f.episode_id b.positions)) _ h4 in
    post-Posted b f content c v (change_position-Realizes f.action b f changed) h5

-- Applying a fill has two outcomes: it was recorded before with the same content, and the book
-- stays as it is; or it is new, and the book gains its receipt and two postings.
pub data Outcome (b : Book) (f : Fill) (content : String) : Book → Type 0 where
  replayed :
      (r : FillReceipt)
      → find_receipt f.fill_id b.receipts ≡ some r
      → str_eq r.content_id content ≡ true
      → Outcome b f content b
  recorded :
      {v : Book}
      → find_receipt f.fill_id b.receipts ≡ none
      → Posted b f content v
      → Outcome b f content v

replay-Outcome :
    (b : Book) (f : Fill) (content : String) (o : Option FillReceipt) (v : Book)
    → find_receipt f.fill_id b.receipts ≡ o
    → replay b f content o ≡ ok v
    → Outcome b f content v
unfolding replay
replay-Outcome b f content none v found h = recorded found (record_fill-Posted b f content v h)
replay-Outcome b f content (some r) v found h =
    let (same, done) = guard-eq-ok (not (str_eq r.content_id content)) _ _ h in
    rw (← ok-injective done) (replayed r found (not-false _ same))

module _ (identity : Fill → String) where
  -- A fill that is applied either has a receipt of the same content, and leaves the book as it is,
  -- or has no receipt, and appends its receipt, the realized amount and the commission, at the two
  -- next numbers of the ledger, to a book that is valid again. The realized amount is zero for an
  -- increase; for a reduction it is the difference of its price and the weighted entry of the position
  -- of its episode, times one for a long and minus one for a short fill, times the quantity and the
  -- value of a unit of the price.
  pub apply_fill-Outcome :
      (b : Book) (f : Fill) (v : Book) → apply_fill identity b f ≡ ok v → Outcome b f (identity f) v
  unfolding apply_fill
  apply_fill-Outcome b f v h =
      let (b', e1, h1) = bind-eq-ok (validate_book b) _ h in
      let (f', e2, h2) = bind-eq-ok (validate_fill f) _ h1 in
      replay-Outcome b f (identity f) _ v refl
        (rw (validate_book_self b e1, validate_fill_self f e2) at h2)

  inputs_valid :
      (b : Book) (f : Fill) (v : Book)
      → apply_fill identity b f ≡ ok v
      → (validate_book b ≡ ok b) × (validate_fill f ≡ ok f)
  unfolding apply_fill
  inputs_valid b f v h =
      let (b', e1, h1) = bind-eq-ok (validate_book b) _ h in
      let (f', e2, h2) = bind-eq-ok (validate_fill f) _ h1 in
      (rw (validate_book_self b e1) at e1, rw (validate_fill_self f e2) at e2)

  replayed-again :
      (v : Book) (f : Fill) (r : FillReceipt)
      → validate_book v ≡ ok v
      → validate_fill f ≡ ok f
      → find_receipt f.fill_id v.receipts ≡ some r
      → str_eq r.content_id (identity f) ≡ true
      → apply_fill identity v f ≡ ok v
  unfolding apply_fill replay
  replayed-again v f r valid fits found same = rw (valid, fits, found, same) refl

  again :
      (b : Book) (f : Fill) (v : Book)
      → validate_book b ≡ ok b
      → validate_fill f ≡ ok f
      → Outcome b f (identity f) v
      → apply_fill identity v f ≡ ok v
  again b f v valid fits (replayed r found same) = replayed-again b f r valid fits found same
  again b f v valid fits (recorded none_yet p) =
      let receipt : FillReceipt = record { fill_id = f.fill_id; content_id = identity f } in
      replayed-again v f receipt p.valid fits
        (rw p.receipts (find_receipt-append receipt b.receipts none_yet)) (same_text (identity f))

  -- Applying a fill a second time changes nothing.
  pub apply_fill-idempotent :
      (b : Book) (f : Fill) (v : Book)
      → apply_fill identity b f ≡ ok v
      → apply_fill identity v f ≡ ok v
  apply_fill-idempotent b f v h =
      let (valid, fits) = inputs_valid b f v h in
      again b f v valid fits (apply_fill-Outcome b f v h)
