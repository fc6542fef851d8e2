-- ===== src/Accounting/Performance/Nav.antt =====
-- The net asset value and its high-water mark.
use adaptive_trading_ecosyst.Prelude.{
  ℕ, suc, ◌+◌, ◌≡◌, refl, sym, ap, ◌∙◌, Bool, false, not, Option, none, some, List, [], ◌∷◌, length,
  ◌==◌, Bool-cases, Option-cases, inl, inr, String, ok, bind-eq-ok, or_raise, ok-injective, arith,
  ◌||◌, or_false,
}
use adaptive_trading_ecosyst.Decimal.{Decimal, one_d, zero_d, leb_d, max_d, div_d, ◌+ᵈ◌, ◌-ᵈ◌}
use adaptive_trading_ecosyst.Decimal.Order.{◌≤ᵈ◌, le_d_refl, le_d_trans, le_d_total}
use adaptive_trading_ecosyst.Domain.Primitives.{finite_decimal}
use adaptive_trading_ecosyst.Accounting.Contracts.{LedgerEntry}
use adaptive_trading_ecosyst.Accounting.Balance.{EquitySnapshot}
use adaptive_trading_ecosyst.Accounting.Performance.{
  stopped_for, or_zero_d, NavState, NavLoop, new_entries, take_flow, after_flows, advance, counted,
  nav_loop, nav_of, nav_from, nav_state, first_loop, units_reason, high_of, nonpositive,
  flow_mismatch,
}

-- What holds of the variables of the loop while no reason ended it.
record IsBounded (s : NavLoop) : Type 0 where
  risen : one_d ≤ᵈ s.high
  below : s.nav ≤ᵈ s.high
  owned : leb_d s.units zero_d ≡ false

-- What an iteration leaves alone, and that it keeps the units positive.
record Advanced (s t : NavLoop) : Type 0 where
  high : t.high ≡ s.high
  points : t.valid_points ≡ s.valid_points
  owned : t.reason ≡ none → leb_d s.units zero_d ≡ false → leb_d t.units zero_d ≡ false

some-none : {A : Type 0} {a : A} → some a ≡ none → ⊥
some-none h = cc h

some_value : {A : Type 0} {a b : A} → some a ≡ some b → a ≡ b
some_value h = cc

units_positive : (o : Option Decimal) → nonpositive o ≡ false → leb_d (or_zero_d o) zero_d ≡ false
units_positive none h = cc h
units_positive (some d) h = h

-- The first test of `take_flow`.
abbrev misplaced : EquitySnapshot → NavLoop → EquitySnapshot → Decimal → LedgerEntry → Bool
misplaced p s c e f =
    not (length (new_entries p c) == 1)
    || not (p.source.valuation_at == f.effective_at)
    || not (c.source.valuation_at == f.effective_at)
    || flow_mismatch p.equity f.amount e

stopped-Advanced :
    (reason : String) (s t : NavLoop) → ok (stopped_for reason s) ≡ ok t → Advanced s t
stopped-Advanced reason s t h =
    rw (← ok-injective h)
      (record { high = refl; points = refl; owned = λ absent _. elim (some-none absent) [ ] })

bought-Advanced :
    (s t : NavLoop) (units : Decimal)
    → leb_d units zero_d ≡ false
    → ok (record s { units = units }) ≡ ok t
    → Advanced s t
bought-Advanced s t units positive h =
    rw (← ok-injective h) (record { high = refl; points = refl; owned = λ _ _. positive })

take_flow-Advanced :
    (p : EquitySnapshot) (s : NavLoop) (c : EquitySnapshot) (e : Decimal) (f : LedgerEntry)
    (t : NavLoop)
    → take_flow p s c e f ≡ ok t
    → Advanced s t
unfolding take_flow
take_flow-Advanced p s c e f t h = elim (Bool-cases (misplaced p s c e f)) [
  | inl bad ↦ stopped-Advanced _ s t (rw bad at h)
  | inr placed ↦
      let h1 = rw placed at h in
      elim (Bool-cases (leb_d s.nav zero_d)) [
        | inl low ↦ stopped-Advanced _ s t (rw low at h1)
        | inr positive ↦
            let (b, _, h2) =
              bind-eq-ok (or_raise (div_d f.amount s.nav) "DivisionByZero") _ (rw positive at h1) in
            elim (Bool-cases (leb_d (s.units +ᵈ b) zero_d || leb_d e zero_d)) [
              | inl spent ↦ stopped-Advanced _ s t (rw spent at h2)
              | inr left ↦
                  bought-Advanced s t (s.units +ᵈ b)
                    (or_false (leb_d (s.units +ᵈ b) zero_d) (leb_d e zero_d) left).0 (rw left at h2)
            ]
      ]
]

max_upper : (a b : Decimal) → (a ≤ᵈ max_d a b) × (b ≤ᵈ max_d a b)
max_upper a b = elim (Bool-cases (leb_d b a)) [
  | inl h ↦ rw h (le_d_refl a, h)
  | inr h ↦ rw h (le_d_total b a h, le_d_refl b)
]

after_flows-Advanced :
    (p : EquitySnapshot) (s : NavLoop) (c : EquitySnapshot) (e : Decimal) (fs : List LedgerEntry)
    (t : NavLoop)
    → after_flows p s c e fs ≡ ok t
    → Advanced s t
after_flows-Advanced p s c e [] t h =
    let (nav, _, done) = bind-eq-ok (or_raise (div_d e s.units) "DivisionByZero") _ h in
    rw (← ok-injective done) (record { high = refl; points = refl; owned = λ _ positive. positive })
after_flows-Advanced p s c e (f ∷ fs) t h = take_flow-Advanced p s c e f t h

advance-Advanced :
    (o : Option EquitySnapshot) (s : NavLoop) (c : EquitySnapshot) (e : Decimal) (t : NavLoop)
    → advance o s c e ≡ ok t
    → Advanced s t
unfolding advance
advance-Advanced none s c e t h =
    rw (← ok-injective h) (record { high = refl; points = refl; owned = λ _ positive. positive })
advance-Advanced (some p) s c e t h = after_flows-Advanced p s c e _ t h

counted-IsBounded :
    (s t : NavLoop) → IsBounded s → Advanced s t → t.reason ≡ none → IsBounded (counted t)
counted-IsBounded s t b a running =
    let (high, nav) = max_upper t.high t.nav in
    record {
      risen = le_d_trans one_d t.high _ (rw a.high b.risen) high;
      below = nav;
      owned = a.owned running b.owned;
    }

-- What the loop leaves when no reason ended it.
record Walked (s : NavLoop) (n : ℕ) (t : NavLoop) : Type 0 where
  bounded : IsBounded t
  points : t.valid_points ≡ s.valid_points + n

nav_loop-step :
    (c : EquitySnapshot) (cs : List EquitySnapshot) (s u t : NavLoop)
    → IsBounded s
    → Advanced s u
    → (IsBounded (counted u)
        → nav_loop (some c) (counted u) cs ≡ ok t
        → Walked (counted u) (length cs) t)
    → (elim u.reason [ some _ ↦ ok u | none ↦ nav_loop (some c) (counted u) cs ]) ≡ ok t
    → t.reason ≡ none
    → Walked s (length (c ∷ cs)) t
nav_loop-step c cs s u t b a rest h running = elim (Option-cases u.reason) [
  | inr (r, ended) ↦
      elim (some-none
        (sym ended ∙ ap (λ (x : NavLoop). x.reason) (ok-injective (rw ended at h)) ∙ running)) [ ]
  | inl going ↦
      let walked = rest (counted-IsBounded s u b a going) (rw going at h) in
      record { bounded = walked.bounded; points = omega (arith, walked.points, a.points) }
]

nav_loop-Walked :
    (o : Option EquitySnapshot) (s : NavLoop) (cs : List EquitySnapshot) (t : NavLoop)
    → IsBounded s
    → nav_loop o s cs ≡ ok t
    → t.reason ≡ none
    → Walked s (length cs) t
unfolding nav_loop
nav_loop-Walked o s [] t b h running =
    rw (← ok-injective h) (record { bounded = b; points = omega arith })
nav_loop-Walked o s (c ∷ cs) t b h running = elim (Bool-cases (not c.complete || c.stale)) [
  | inl unusable ↦
      elim (some-none
        (ap (λ (x : NavLoop). x.reason) (ok-injective (rw unusable at h)) ∙ running)) [ ]
  | inr usable ↦
      let (e, _, h1) = bind-eq-ok (or_raise c.equity "AssertionError") _ (rw usable at h) in
      let (u, advanced, h2) = bind-eq-ok (advance o s c e) _ h1 in
      nav_loop-step c cs s u t b (advance-Advanced o s c e u advanced)
        (λ b' h'. nav_loop-Walked (some c) (counted u) cs t b' h' running) h2 running
]

-- A state with a value is the state of a loop that no reason ended.
record Measured (s : NavLoop) (n : NavState) (v : Decimal) : Type 0 where
  value : v ≡ s.nav
  high : n.high_water_mark ≡ high_of s
  units : n.units ≡ some s.units

nav_state-Measured :
    (s : NavLoop) (o : Option String) (n : NavState) (v : Decimal)
    → nav_state s o ≡ ok n
    → n.nav ≡ some v
    → (o ≡ none) × Measured s n v
unfolding nav_state
nav_state-Measured s (some r) n v h given =
    elim (some-none (sym given ∙ sym (ap (λ (x : NavState). x.nav) (ok-injective h)))) [ ]
nav_state-Measured s none n v h given =
    let (ratio, _, h1) = bind-eq-ok (or_raise (div_d s.nav s.high) "DivisionByZero") _ h in
    let (_, _, h2) = bind-eq-ok (finite_decimal s.units) _ h1 in
    let (_, _, h3) = bind-eq-ok (finite_decimal s.nav) _ h2 in
    let (_, _, h4) = bind-eq-ok (finite_decimal s.high) _ h3 in
    let (_, _, h5) = bind-eq-ok (finite_decimal (one_d -ᵈ ratio)) _ h4 in
    let same = ok-injective h5 in
    (
      refl,
      record {
        value = some_value (sym given ∙ sym (ap (λ (x : NavState). x.nav) same));
        high = sym (ap (λ (x : NavState). x.high_water_mark) same);
        units = sym (ap (λ (x : NavState). x.units) same);
      },
    )

-- What a state with the value `v` holds.
pub record Available (n : NavState) (v : Decimal) : Type 0 where
  pub mark : Decimal
  pub marked : n.high_water_mark ≡ some mark
  pub below : v ≤ᵈ mark
  pub risen : one_d ≤ᵈ mark
  pub held : Decimal
  pub units : n.units ≡ some held
  pub owned : leb_d held zero_d ≡ false

first_loop-IsBounded : (s : EquitySnapshot) → units_reason s ≡ none → IsBounded (first_loop s)
first_loop-IsBounded s h = elim (Bool-cases (nonpositive s.equity)) [
  | inl bad ↦ elim (some-none (rw bad at h)) [ ]
  | inr good ↦ record {
    risen = le_d_refl one_d;
    below = le_d_refl one_d;
    owned = units_positive s.equity good;
  }
]

high_of-some : (s : NavLoop) (n : ℕ) → s.valid_points ≡ 0 + suc n → high_of s ≡ some s.high
high_of-some s n h = ground arith

nav_from-Available :
    (s : EquitySnapshot) (ss : List EquitySnapshot) (o : Option String) (n : NavState) (v : Decimal)
    → units_reason s ≡ o
    → nav_from s ss o ≡ ok n
    → n.nav ≡ some v
    → Available n v
unfolding nav_from
nav_from-Available s ss (some r) n v reason h given =
    elim (some-none (nav_state-Measured (first_loop s) (some r) n v h given).0) [ ]
nav_from-Available s ss none n v reason h given =
    let (t, looped, stated) = bind-eq-ok (nav_loop none (first_loop s) (s ∷ ss)) _ h in
    let (running, m) = nav_state-Measured t t.reason n v stated given in
    let w =
      nav_loop-Walked none (first_loop s) (s ∷ ss) t (first_loop-IsBounded s reason) looped
        running in
    record {
      mark = t.high;
      marked = m.high ∙ high_of-some t (length ss) w.points;
      below = rw m.value w.bounded.below;
      risen = w.bounded.risen;
      held = t.units;
      units = m.units;
      owned = w.bounded.owned;
    }

-- A history that has a net asset value has a high-water mark that is at least 1 and at least that
-- value, and a positive number of units.
pub nav_of-Available :
    (ss : List EquitySnapshot) (n : NavState) (v : Decimal)
    → nav_of ss ≡ ok n
    → n.nav ≡ some v
    → Available n v
unfolding nav_of
nav_of-Available [] n v h given = cc h
nav_of-Available (s ∷ ss) n v h given = nav_from-Available s ss (units_reason s) n v refl h given
