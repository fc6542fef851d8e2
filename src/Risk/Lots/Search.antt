-- ===== src/Risk/Lots/Search.antt =====
-- What the search finds.
use adaptive_trading_ecosyst.Prelude.{
  ℕ, zero, suc, ◌+◌, ◌-◌, ◌≤◌, ◌<◌, ◌≡◌, refl, ◌⊎◌, inl, inr, Bool, true, false, ltb, Bool-cases,
  arith, ltb→lt,
}
use adaptive_trading_ecosyst.Risk.Lots.{middle_of, narrowed, lot_search}

-- The count `r` lies between the bounds; it is the lower one or feasible; and it is the upper one or
-- the next count is not feasible.
pub record IsPeak (feasible : ℕ → Bool) (lower upper r : ℕ) : Type 0 where
  pub above : lower ≤ r
  pub below : r ≤ upper
  pub reached : (r ≡ lower) ⊎ (feasible r ≡ true)
  pub maximal : (r ≡ upper) ⊎ (feasible (r + 1) ≡ false)

middle_bounds : (l u : ℕ) → l < u → (l < middle_of l u) × (middle_of l u ≤ u)
middle_bounds l u h = omega arith

next_of : (f : ℕ → Bool) (m r : ℕ) → f m ≡ false → r + 1 ≡ m → f (r + 1) ≡ false
next_of f m r fm same = rw same fm

-- One more iteration from the narrowed bounds.
raised : (f : ℕ → Bool) (l m u r : ℕ) → l < m → f m ≡ true → IsPeak f m u r → IsPeak f l u r
raised f l m u r h fm p = record {
  above = omega (arith, p.above, h);
  below = p.below;
  reached = elim p.reached [ inl same ↦ inr (rw same fm) | inr feasible ↦ inr feasible ];
  maximal = p.maximal;
}

lowered :
    (f : ℕ → Bool) (l m u r : ℕ)
    → l < m
    → m ≤ u
    → f m ≡ false
    → IsPeak f l (m - 1) r
    → IsPeak f l u r
lowered f l m u r h hu fm p = record {
  above = p.above;
  below = omega (arith, p.below, hu);
  reached = p.reached;
  maximal = elim p.maximal [
    | inl same ↦ inr (next_of f m r fm (omega (arith, same, h)))
    | inr stop ↦ inr stop
  ];
}

ended : (l u : ℕ) → l ≤ u → ltb l u ≡ false → l ≡ u
ended l u h e = ground arith

lot_search-step :
    (fuel : ℕ) (f : ℕ → Bool) (l u : ℕ)
    → l < u
    → u ≤ l + suc fuel
    → ((a b : ℕ) → a ≤ b → b ≤ a + fuel → IsPeak f a b (lot_search fuel f a b))
    → IsPeak f l u (lot_search fuel f (narrowed f l u).0 (narrowed f l u).1)
lot_search-step fuel f l u h enough ih =
    let (low, high) = middle_bounds l u h in
    elim (Bool-cases (f (middle_of l u))) [
      | inl fits ↦ rw fits (
          raised f l (middle_of l u) u _ low fits
            (ih (middle_of l u) u high (omega (arith, low, enough))))
      | inr fails ↦ rw fails (
          lowered f l (middle_of l u) u _ low high fails
            (ih l (middle_of l u - 1) (omega (arith, low)) (omega (arith, low, high, enough))))
    ]

lot_search-bounded :
    (fuel : ℕ) (f : ℕ → Bool) (l u : ℕ)
    → l ≤ u
    → u ≤ l + suc fuel
    → ((a b : ℕ) → a ≤ b → b ≤ a + fuel → IsPeak f a b (lot_search fuel f a b))
    → (less : Bool) → ltb l u ≡ less
    → IsPeak f l u
        (elim less [ false ↦ l | true ↦ lot_search fuel f (narrowed f l u).0 (narrowed f l u).1 ])
lot_search-bounded fuel f l u ordered enough ih true e =
    lot_search-step fuel f l u (ltb→lt l u e) enough ih
lot_search-bounded fuel f l u ordered enough ih false e = record {
  above = omega arith;
  below = ordered;
  reached = inl refl;
  maximal = inl (ended l u ordered e);
}

-- The search ends within the distance of its bounds, at a count between them that is the lower
-- bound or feasible, and of which the next count is infeasible or beyond the upper bound.
pub lot_search-IsPeak :
    (fuel : ℕ) (feasible : ℕ → Bool) (lower upper : ℕ)
    → lower ≤ upper
    → upper ≤ lower + fuel
    → IsPeak feasible lower upper (lot_search fuel feasible lower upper)
unfolding lot_search
lot_search-IsPeak zero f l u ordered enough = record {
  above = omega arith;
  below = ordered;
  reached = inl refl;
  maximal = inl (omega (arith, ordered, enough));
}
lot_search-IsPeak (suc fuel) f l u ordered enough =
    lot_search-bounded fuel f l u ordered enough (lot_search-IsPeak fuel f) (ltb l u) refl
