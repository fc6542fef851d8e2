-- ===== src/Portfolio/Fills/Realized.antt =====
-- portfolio/fills.py: the amount that a fill realizes.
use adaptive_trading_ecosyst.Prelude.{
  ◌≡◌, refl, sym, ap, true, Option, none, some, ◌==◌, Bool-cases, inl, inr, ok, bind-eq-ok,
  guard-eq-ok, ok-injective, or_raise,
}
use adaptive_trading_ecosyst.Prelude.Int.{pos, negsuc, nat_abs}
use adaptive_trading_ecosyst.Decimal.{Decimal, of_int, zero_d, ltb_d, div_d, ◌+ᵈ◌, ◌-ᵈ◌, ◌*ᵈ◌}
use adaptive_trading_ecosyst.Portfolio.Contracts.{
  Direction, long, short, Position, validate_position, Fill, Book, increase, reduce, Action,
}
use adaptive_trading_ecosyst.Portfolio.Fills.{
  Change, find_position, is_reducing, held_quantity, increase_position, reduce_position,
  leave_remaining, change_position, realized_amount,
}

-- What the quantity gains from the entry to the price: a long position when the price has risen, a
-- short one when it has fallen.
abbrev pub gained : Direction → Decimal → Decimal → Decimal → Decimal → Decimal
gained long price entry quantity unit = of_int (pos 1) *ᵈ (price -ᵈ entry) *ᵈ quantity *ᵈ unit
gained short price entry quantity unit = of_int (negsuc 0) *ᵈ (price -ᵈ entry) *ᵈ quantity *ᵈ unit

-- An increase realizes nothing; a reduction realizes what its quantity gained over the weighted entry
-- of the position of its episode.
abbrev pub Realizes : Action → Book → Fill → Decimal → Type 0
Realizes increase b f amount = amount ≡ zero_d
Realizes reduce b f amount =
    (p : Position) × (find_position f.episode_id b.positions ≡ some p)
    × (amount
        ≡ gained f.direction f.actual_price p.weighted_entry f.quantity
            f.economics.usd_per_price_unit_per_lot)

realized_amount-gained :
    (f : Fill) (p : Position) (d : Direction)
    → f.direction ≡ d
    → realized_amount f p
      ≡ gained d f.actual_price p.weighted_entry f.quantity f.economics.usd_per_price_unit_per_lot
unfolding realized_amount
realized_amount-gained f p long e = rw e refl
realized_amount-gained f p short e = rw e refl

leave_remaining-realized :
    (b : Book) (f : Fill) (p : Position) (remaining : Decimal) {c : Change}
    → leave_remaining b f p remaining ≡ ok c
    → c.realized ≡ realized_amount f p
unfolding leave_remaining
leave_remaining-realized b f p remaining h = elim (Bool-cases (nat_abs remaining.coef == 0)) [
  | inl gone ↦ sym (ap (λ (x : Change). x.realized) (ok-injective (rw gone at h)))
  | inr left ↦
      let (_, _, h₁) =
        bind-eq-ok (validate_position (record p { quantity = remaining; reducing = true })) _
          (rw left at h) in
      sym (ap (λ (x : Change). x.realized) (ok-injective h₁))
]

reduce_position-Realizes :
    (b : Book) (f : Fill) (o : Option Position) {c : Change}
    → find_position f.episode_id b.positions ≡ o
    → reduce_position b f o ≡ ok c
    → Realizes reduce b f c.realized
unfolding reduce_position
reduce_position-Realizes b f none found h = cc h
reduce_position-Realizes b f (some p) found h =
    let (_, h₁) = guard-eq-ok (ltb_d p.quantity f.quantity) _ _ h in
    let amount = leave_remaining-realized b f p (p.quantity -ᵈ f.quantity) h₁ in
    (p, found, rw (realized_amount-gained f p f.direction refl) at amount)

increase_position-realized :
    (b : Book) (f : Fill) (o : Option Position) {c : Change}
    → increase_position b f o ≡ ok c
    → c.realized ≡ zero_d
unfolding increase_position
increase_position-realized b f o h =
    let (_, h₁) = guard-eq-ok (is_reducing o) _ _ h in
    let (_, _, h₂) =
      bind-eq-ok (or_raise (div_d _ (f.quantity +ᵈ held_quantity o)) "DivisionByZero") _ h₁ in
    let (_, _, h₃) = bind-eq-ok (validate_position _) _ h₂ in
    sym (ap (λ (x : Change). x.realized) (ok-injective h₃))

pub change_position-Realizes :
    (a : Action) (b : Book) (f : Fill) {c : Change}
    → change_position a b f (find_position f.episode_id b.positions) ≡ ok c
    → Realizes a b f c.realized
change_position-Realizes increase b f h = increase_position-realized b f _ h
change_position-Realizes reduce b f h = reduce_position-Realizes b f _ refl h
