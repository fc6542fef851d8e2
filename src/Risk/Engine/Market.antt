-- ===== src/Risk/Engine/Market.antt =====
-- risk/engine.py, `evaluate`: what an intent, its economics and its quote have passed.
use native.Mathlib.Nat.{div-add-mod, mul_comm}
use adaptive_trading_ecosyst.Prelude.{
  ℕ, ◌+◌, ◌*◌, ◌/◌, ◌%◌, ◌≤◌, ◌<◌, ◌≡◌, refl, Bool, true, false, not, ◌&&◌, Option, none, some,
  is_none, List, [], ◌∷◌, All, any_of, ltb, leb, ◌==◌, ==_iff, ltb→lt, leb→le, length,
  if◌then◌else◌, String, eq_iff, not-false, and_true, or_false, arith,
}
use adaptive_trading_ecosyst.Prelude.Int.{pos, negsuc}
use adaptive_trading_ecosyst.Decimal.{Decimal, of_int, zero_d, leb_d, ◌-ᵈ◌, ◌*ᵈ◌, denominator}
use adaptive_trading_ecosyst.Decimal.Order.{◌≤ᵈ◌}
use adaptive_trading_ecosyst.Domain.Primitives.{Asset}
use adaptive_trading_ecosyst.Domain.Arithmetic.{top}
use adaptive_trading_ecosyst.Portfolio.Contracts.{
  Direction, long, short, is_long, same_asset, Economics, Quote, Position,
}
use adaptive_trading_ecosyst.Portfolio.Fills.{direction_sign}
use adaptive_trading_ecosyst.Portfolio.Observations.{Reservation}
use adaptive_trading_ecosyst.Portfolio.Projection.{Snapshot}
use adaptive_trading_ecosyst.Risk.Contracts.{
  Policy, v0_conservative, hr_demo_5pct, is_v0, limits, Request,
}
use adaptive_trading_ecosyst.Risk.Sizing.{stop_distance}
use adaptive_trading_ecosyst.Risk.Engine.{
  first_failure, intent_tests, economics_tests, market_tests,
}

pub leb-false : (a b : ℕ) → leb a b ≡ false → b < a
leb-false a b h = ground arith

pub first_failure-none :
    (ts : List (Bool × String))
    → first_failure ts ≡ none
    → All (λ (t : Bool × String). t.0 ≡ false) ts
first_failure-none [] h = tt
first_failure-none ((true, s) ∷ ts) h = cc h
first_failure-none ((false, s) ∷ ts) h = (refl, first_failure-none ts h)

-- The conservative policy takes long positions, and the time is between signal and expiry.
pub record IsEntitled (r : Request) : Type 0 where
  pub long_only : r.policy ≡ v0_conservative → r.intent.direction ≡ long
  pub signalled : r.intent.signal_at < r.at
  pub pending : r.at < r.intent.expires_at

directed :
    (p : Policy) (d : Direction)
    → (is_v0 p && not (is_long d)) ≡ false
    → p ≡ v0_conservative
    → d ≡ long
directed p long h e = refl
directed v0_conservative short h e = cc h
directed hr_demo_5pct short h e = cc e

pub intent_tests-IsEntitled : (r : Request) → first_failure (intent_tests r) ≡ none → IsEntitled r
intent_tests-IsEntitled r h =
    let (side, h₁) = first_failure-none (intent_tests r) h in
    let (time, _) = h₁ in
    let (after, before) = and_true (ltb r.intent.signal_at r.at) _ (not-false _ time) in
    record {
      long_only = directed r.policy r.intent.direction side;
      signalled = ltb→lt _ _ after;
      pending = ltb→lt _ _ before;
    }

-- The economics have been validated and are in force.
pub record IsInForce (r : Request) (e : Economics) : Type 0 where
  pub reference : String
  pub audited : e.validation_reference ≡ some reference
  pub begun : e.valid_from ≤ r.at
  pub lasting : r.at < e.valid_until

the_some : (o : Option String) → is_none o ≡ false → (s : String) × (o ≡ some s)
the_some none h = cc h
the_some (some s) h = (s, refl)

pub economics_tests-IsInForce :
    (r : Request) (e : Economics) → first_failure (economics_tests r e) ≡ none → IsInForce r e
economics_tests-IsInForce r e h =
    let (there, h₁) = first_failure-none (economics_tests r e) h in
    let (time, _) = h₁ in
    let (begun, lasting) = and_true (leb e.valid_from r.at) _ (not-false _ time) in
    let (s, audited) = the_some e.validation_reference there in
    record {
      reference = s;
      audited = audited;
      begun = leb→le _ _ begun;
      lasting = ltb→lt _ _ lasting;
    }

-- The price at which a position of the direction would begin.
abbrev pub quoted_price : Direction → Quote → Decimal
quoted_price long q = q.ask
quoted_price short q = q.bid

-- How far a long position begins above a price, or a short one below it.
abbrev pub distance_from : Direction → Quote → Decimal → Decimal
distance_from long q price = of_int (pos 1) *ᵈ (q.ask -ᵈ price)
distance_from short q price = of_int (negsuc 0) *ᵈ (q.bid -ᵈ price)

pub distance_from_lem :
    (d : Direction) (q : Quote) (price : Decimal)
    → direction_sign d *ᵈ ((if is_long d then q.ask else q.bid) -ᵈ price) ≡ distance_from d q price
distance_from_lem long q price = refl
distance_from_lem short q price = refl

-- The instrument of the quote and of the economics is the asset of the intent, which no position and
-- no reservation holds, and a place is free; the spread is at most a tenth of the range; the stop is
-- a positive distance from the entry, no less than the least one, and a multiple of the tick; and the
-- price has moved by at most a quarter of the range since the signal.
pub record IsTradable (r : Request) (s : Snapshot) (e : Economics) (q : Quote) : Type 0 where
  pub asset : e.asset ≡ r.intent.asset
  pub instrument : q.instrument_id ≡ e.instrument_id
  pub no_position :
      All (λ (p : Position). same_asset p.asset r.intent.asset ≡ false) s.source.book.positions
  pub no_reservation :
      All (λ (v : Reservation). same_asset v.asset r.intent.asset ≡ false) s.source.reservations
  pub counted :
      length s.source.book.positions + length s.source.reservations < (limits r.policy).positions
  pub spread : q.ask -ᵈ q.bid ≤ᵈ r.intent.atr *ᵈ record { coef = pos 10; exp = negsuc 1 }
  pub protected : leb_d (distance_from r.intent.direction q r.intent.fixed_stop) zero_d ≡ false
  pub distant : e.minimum_stop_distance ≤ᵈ distance_from r.intent.direction q r.intent.fixed_stop
  pub on_tick :
      (k : ℕ) × (top r.intent.fixed_stop * denominator e.tick_size
        ≡ k * (denominator r.intent.fixed_stop * top e.tick_size))
  pub unmoved :
      distance_from r.intent.direction q r.intent.signal_close
      ≤ᵈ r.intent.atr *ᵈ record { coef = pos 25; exp = negsuc 1 }

equal_assets : (a b : Asset) → same_asset a b ≡ true → a ≡ b
equal_assets Asset.btcusd Asset.btcusd h = refl
equal_assets Asset.ustec100 Asset.ustec100 h = refl
equal_assets Asset.xauusd Asset.xauusd h = refl
equal_assets Asset.btcusd Asset.ustec100 h = cc h
equal_assets Asset.btcusd Asset.xauusd h = cc h
equal_assets Asset.ustec100 Asset.btcusd h = cc h
equal_assets Asset.ustec100 Asset.xauusd h = cc h
equal_assets Asset.xauusd Asset.btcusd h = cc h
equal_assets Asset.xauusd Asset.ustec100 h = cc h

All-of_none :
    {A : Type 0} (p : A → Bool) (xs : List A)
    → any_of p xs ≡ false
    → All (λ (x : A). p x ≡ false) xs
All-of_none p [] h = tt
All-of_none p (x ∷ xs) h = let (a, b) = or_false (p x) _ h in (a, All-of_none p xs b)

-- A number that leaves no remainder is a multiple.
pub whole_multiple : (n d : ℕ) → not (n % d == 0) ≡ false → (k : ℕ) × (n ≡ k * d)
whole_multiple n d h = (
  n / d,
  omega (arith, div-add-mod n d, mul_comm d (n / d), (==_iff (n % d) 0).0 (not-false _ h)),
)

pub market_tests-IsTradable :
    (r : Request) (s : Snapshot) (e : Economics) (q : Quote)
    → first_failure (market_tests r s e q) ≡ none
    → IsTradable r s e q
unfolding market_tests stop_distance
market_tests-IsTradable r s e q h =
    let (same, h₁) = first_failure-none (market_tests r s e q) h in
    let (free, h₂) = h₁ in
    let (few, h₃) = h₂ in
    let (narrow, h₄) = h₃ in
    let (stop, h₅) = h₄ in
    let (tick, h₆) = h₅ in
    let (near, _) = h₆ in
    let (asset, instrument) = or_false (not (same_asset e.asset r.intent.asset)) _ same in
    let (positions, reservations) =
      or_false
        (any_of (λ (p : Position). same_asset p.asset r.intent.asset) s.source.book.positions) _
        free in
    let (ahead, apart) = or_false (leb_d (stop_distance r.intent q) zero_d) _ stop in
    record {
      asset = equal_assets _ _ (not-false _ asset);
      instrument = (eq_iff _ _).0 (not-false _ instrument);
      no_position = All-of_none _ _ positions;
      no_reservation = All-of_none _ _ reservations;
      counted = leb-false _ _ few;
      spread = not-false _ narrow;
      protected = rw (← distance_from_lem r.intent.direction q r.intent.fixed_stop) ahead;
      distant =
          rw (← distance_from_lem r.intent.direction q r.intent.fixed_stop) (not-false _ apart);
      on_tick = whole_multiple _ _ tick;
      unmoved =
          rw (← distance_from_lem r.intent.direction q r.intent.signal_close) (not-false _ near);
    }
