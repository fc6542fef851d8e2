-- ===== src/Portfolio/Fills/Reduction.antt =====
-- A reduction takes no more than the position holds.
use adaptive_trading_ecosyst.Prelude.{
  ◌+◌, ◌≡◌, refl, sym, ap, ◌∙◌, true, false, not, Option, none, some, List, [], ◌∷◌, ◌++◌, ◌==◌,
  Bool-cases, inl, inr, if◌then◌else◌, String, not-false, ok, bind-eq-ok, guard-eq-ok, ok-injective,
  ◌||◌, ◌&&◌, is_none, leb, ltb, traverse, arith, length,
}
use adaptive_trading_ecosyst.Prelude.Int.{nat_abs}
use adaptive_trading_ecosyst.Decimal.{Decimal, leb_d, ltb_d, ◌-ᵈ◌}
use adaptive_trading_ecosyst.Domain.Primitives.{EntityId}
use adaptive_trading_ecosyst.Accounting.Contracts.{validate_ledger_entry, realized_pnl, commission}
use adaptive_trading_ecosyst.Accounting.Ledger.{validate_account, repeated, among_ids}
use adaptive_trading_ecosyst.Portfolio.Contracts.{
  Fill, reduce, increase, Action, validate_fill, validate_receipt, Book, validate_book, Position,
  validate_position, empty,
}
use adaptive_trading_ecosyst.Portfolio.Fills.{
  find_receipt, apply_fill, replay, record_fill, post, Change, posting, change_position,
  find_position, sort_positions, other_lineage, leave_remaining, reduce_position, put_position,
}
use adaptive_trading_ecosyst.Portfolio.Fills.Lookup.{
  episodes, sort-find, put-find, put-episodes, remove-repeated, remove-find,
}
use adaptive_trading_ecosyst.Portfolio.Fills.Replay.{
  validate_book_self, validate_fill_self, validate_position_self,
}

-- What the book holds of the position `p` of which the fill leaves `remaining`.
abbrev pub left_of : Position → Decimal → Option Position
left_of p remaining =
    if nat_abs remaining.coef == 0
    then none
    else some (record p { quantity = remaining; reducing = true })

abbrev pub closed_after : Book → Fill → Decimal → List EntityId
closed_after b f remaining =
    if nat_abs remaining.coef == 0
    then b.closed_episodes ++ f.episode_id ∷ []
    else b.closed_episodes

-- A recorded reduction of the position `p` of the book `b`.
pub record Reduced (b : Book) (f : Fill) (v : Book) : Type 0 where
  pub position : Position
  pub held : find_position f.episode_id b.positions ≡ some position
  pub enough : leb_d f.quantity position.quantity ≡ true
  pub left :
      find_position f.episode_id v.positions ≡ left_of position (position.quantity -ᵈ f.quantity)
  pub closed : v.closed_episodes ≡ closed_after b f (position.quantity -ᵈ f.quantity)
  pub was_open : among_ids f.episode_id b.closed_episodes ≡ false

-- A position that is found has the episode it was found by.
found_episode :
    (i : EntityId) (ps : List Position) (p : Position)
    → find_position i ps ≡ some p
    → p.episode_id ≡ i
found_episode i [] p h = cc h
found_episode i (q ∷ qs) p h = elim (Bool-cases (q.episode_id == i)) [
  | inl same ↦ ground (arith, same, h)
  | inr other ↦ found_episode i qs p (rw other at h)
]

validate_book_unique :
    (b v : Book) → validate_book b ≡ ok v → repeated (episodes b.positions) ≡ false
unfolding validate_book
validate_book_unique b v h =
    let (_, _, h1) = bind-eq-ok (validate_account b.cash) _ h in
    let (_, _, h2) = bind-eq-ok (traverse validate_position b.positions) _ h1 in
    let (_, _, h3) = bind-eq-ok (traverse validate_receipt b.receipts) _ h2 in
    let (_, h4) =
      guard-eq-ok (not (empty b.cash.positions) || not (empty b.cash.reservations)) _ _ h3 in
    let (unique, _) = guard-eq-ok (repeated (episodes b.positions)) _ _ h4 in unique

-- What the change of a reduction holds, before it is posted.
record Taken (b : Book) (f : Fill) (p : Position) (c : Change) : Type 0 where
  enough : leb_d f.quantity p.quantity ≡ true
  left :
      find_position f.episode_id (sort_positions c.positions) ≡ left_of p (p.quantity -ᵈ f.quantity)
  closed : c.closed ≡ closed_after b f (p.quantity -ᵈ f.quantity)

put-left :
    (q p : Position) (ps : List Position)
    → repeated (episodes ps) ≡ false
    → find_position q.episode_id ps ≡ some p
    → find_position q.episode_id (sort_positions (put_position q ps)) ≡ some q
put-left q p ps unique held =
    sort-find q.episode_id (put_position q ps) (rw (put-episodes q p ps held) unique)
    ∙ put-find q ps

leave_remaining-left :
    (b : Book) (f : Fill) (p : Position) (remaining : Decimal) (c : Change)
    → repeated (episodes b.positions) ≡ false
    → find_position f.episode_id b.positions ≡ some p
    → leave_remaining b f p remaining ≡ ok c
    → (find_position f.episode_id (sort_positions c.positions) ≡ left_of p remaining)
      × (c.closed ≡ closed_after b f remaining)
unfolding leave_remaining
leave_remaining-left b f p remaining c unique held h =
    elim (Bool-cases (nat_abs remaining.coef == 0)) [
      | inl gone ↦
          let done = ok-injective (rw gone at h) in
          rw (gone, ← done)
            (
              sort-find f.episode_id _ (remove-repeated f.episode_id b.positions unique)
                  ∙ remove-find f.episode_id b.positions unique,
              refl,
            )
      | inr some_left ↦
          let (q, valid, done) =
            bind-eq-ok (validate_position (record p { quantity = remaining; reducing = true })) _
              (rw some_left at h) in
          let same = validate_position_self _ valid in
          let e = found_episode f.episode_id b.positions p held in
          let r : Position = record p { quantity = remaining; reducing = true } in
          let kept =
            put-left r p b.positions unique
              (ap (λ (j : EntityId). find_position j b.positions) e ∙ held) in
          let moved =
            ap (λ (j : EntityId). find_position j (sort_positions (put_position r b.positions)))
              (sym e)
            ∙ kept in
          rw (some_left, ← ok-injective done, same) (moved, refl)
    ]

reduce_position-Taken :
    (b : Book) (f : Fill) (o : Option Position) (c : Change)
    → repeated (episodes b.positions) ≡ false
    → find_position f.episode_id b.positions ≡ o
    → reduce_position b f o ≡ ok c
    → (p : Position) × (find_position f.episode_id b.positions ≡ some p) × Taken b f p c
unfolding reduce_position
reduce_position-Taken b f none c unique held h = cc h
reduce_position-Taken b f (some p) c unique held h =
    let (enough, h1) = guard-eq-ok (ltb_d p.quantity f.quantity) _ _ h in
    let (left, closed) = leave_remaining-left b f p (p.quantity -ᵈ f.quantity) c unique held h1 in
    (p, held, record { enough = not-false _ enough; left = left; closed = closed })

post-keeps :
    (b : Book) (f : Fill) (content : String) (c : Change) (v : Book)
    → post b f content c ≡ ok v
    → (v.positions ≡ sort_positions c.positions) × (v.closed_episodes ≡ c.closed)
unfolding post
post-keeps b f content c v h =
    let (r, _, h1) =
      bind-eq-ok
        (validate_ledger_entry
          (posting f (length b.cash.ledger + 1) f.realized_entry_id realized_pnl c.realized))
        _ h in
    let (m, _, h2) =
      bind-eq-ok
        (validate_ledger_entry (
          posting f (length b.cash.ledger + 2) f.commission_entry_id commission
            f.actual_commission))
        _ h1 in
    let (cash, _, h3) =
      bind-eq-ok
        (validate_account (record b.cash {
          ledger = b.cash.ledger ++ r ∷ m ∷ [];
          valuation_at = f.at;
          reconciled_at = f.at;
        }))
        _ h2 in
    let (receipt, _, h4) =
      bind-eq-ok (validate_receipt (record { fill_id = f.fill_id; content_id = content })) _ h3 in
    let same = validate_book_self _ h4 in rw same (refl, refl)

change-reduces :
    (a : Action) (b : Book) (f : Fill) (o : Option Position) (c : Change)
    → a ≡ reduce
    → change_position a b f o ≡ ok c
    → reduce_position b f o ≡ ok c
change-reduces increase b f o c reduces h = cc reduces
change-reduces reduce b f o c reduces h = h

posted-Reduced :
    (b : Book) (f : Fill) (p : Position) (c : Change) (v : Book)
    → find_position f.episode_id b.positions ≡ some p
    → Taken b f p c
    → among_ids f.episode_id b.closed_episodes ≡ false
    → (v.positions ≡ sort_positions c.positions) × (v.closed_episodes ≡ c.closed)
    → Reduced b f v
posted-Reduced b f p c v held taken was_open (positions, closed) = record {
  position = p;
  held = held;
  enough = taken.enough;
  left = ap (λ (ps : List Position). find_position f.episode_id ps) positions ∙ taken.left;
  closed = closed ∙ taken.closed;
  was_open = was_open;
}

record_fill-Reduced :
    (b : Book) (f : Fill) (content : String) (v : Book)
    → repeated (episodes b.positions) ≡ false
    → f.action ≡ reduce
    → record_fill b f content ≡ ok v
    → Reduced b f v
unfolding record_fill
record_fill-Reduced b f content v unique reduces h =
    let (_, h1) =
      guard-eq-ok (not (f.account_id == b.cash.account_id) || ltb f.at b.cash.valuation_at) _ _ h in
    let (_, h2) =
      guard-eq-ok
        (is_none f.economics.validation_reference
          || not (leb f.economics.valid_from f.at && ltb f.at f.economics.valid_until))
        _ _ h1 in
    let (was_open, h3) = guard-eq-ok (among_ids f.episode_id b.closed_episodes) _ _ h2 in
    let (_, h4) = guard-eq-ok (other_lineage (find_position f.episode_id b.positions) f) _ _ h3 in
    let (c, changed, h5) =
      bind-eq-ok (change_position f.action b f (find_position f.episode_id b.positions)) _ h4 in
    let (p, held, taken) =
      reduce_position-Taken b f (find_position f.episode_id b.positions) c unique refl
        (change-reduces f.action b f _ c reduces changed) in
    posted-Reduced b f p c v held taken was_open (post-keeps b f content c v h5)

module _ (identity : Fill → String) where
  -- A reduction without a receipt that is applied takes no more than the open position of its
  -- episode holds; what is left stays with the episode, marked as reducing, and when nothing is
  -- left the position is gone and the episode is closed.
  pub apply_fill-Reduced :
      (b : Book) (f : Fill) (v : Book)
      → f.action ≡ reduce
      → find_receipt f.fill_id b.receipts ≡ none
      → apply_fill identity b f ≡ ok v
      → Reduced b f v
  unfolding apply_fill replay
  apply_fill-Reduced b f v reduces fresh h =
      let (b', e1, h1) = bind-eq-ok (validate_book b) _ h in
      let (f', e2, h2) = bind-eq-ok (validate_fill f) _ h1 in
      let done = rw (validate_book_self b e1, validate_fill_self f e2) at h2 in
      record_fill-Reduced b f (identity f) v (validate_book_unique b b' e1) reduces
        (rw fresh at done)
