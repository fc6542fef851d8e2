-- ===== src/Simulation/Events/Order.antt =====
-- The events of a result stand in the strict order of their keys, numbered from 0, and are the
-- events that were collected.
use mathlib.Core.List.{Perm}
use mathlib.Core.List.Perm
use adaptive_trading_ecosyst.Prelude.{
  ℕ, ◌+◌, ◌≡◌, refl, true, false, List, [], ◌∷◌, All, any_of, arith, ok, inl, inr, Bool-cases,
  or_false, guard-eq-ok, ok-injective,
}
use adaptive_trading_ecosyst.Simulation.Events.{
  SimulationEvent, before, same_key, insert_event, sort_events, duplicate_key, number_events,
  ordered_events,
}

abbrev pub IsSorted : List SimulationEvent → Type 0
IsSorted [] = Unit
IsSorted (e ∷ es) = All (λ x. before x e ≡ false) es × IsSorted es

-- Each event comes before all the later ones.
abbrev pub IsIncreasing : List SimulationEvent → Type 0
IsIncreasing [] = Unit
IsIncreasing (e ∷ es) = All (λ x. before e x ≡ true) es × IsIncreasing es

abbrev pub IsNumbered : ℕ → List SimulationEvent → Type 0
IsNumbered n [] = Unit
IsNumbered n (e ∷ es) = (e.sequence ≡ n) × IsNumbered (n + 1) es

before_asym : (a b : SimulationEvent) → before a b ≡ true → before b a ≡ false
unfolding before
before_asym a b h = ground arith

before_trans :
    (a b c : SimulationEvent) → before a b ≡ false → before c b ≡ true → before a c ≡ false
unfolding before
before_trans a b c h k = ground arith

not_before_trans :
    (a b c : SimulationEvent) → before b a ≡ false → before c b ≡ false → before c a ≡ false
unfolding before
not_before_trans a b c h k = ground arith

strict : (a b : SimulationEvent) → before b a ≡ false → same_key a b ≡ false → before a b ≡ true
unfolding before same_key
strict a b h k = ground arith

All-insert_event :
    (P : SimulationEvent → Type 0) (e : SimulationEvent) (xs : List SimulationEvent)
    → P e
    → All P xs
    → All P (insert_event e xs)
unfolding insert_event
All-insert_event P e [] p h = (p, tt)
All-insert_event P e (x ∷ xs) p h = elim (Bool-cases (before x e)) [
  | inl earlier ↦ rw earlier (h.0, All-insert_event P e xs p h.1)
  | inr later ↦ rw later (p, h)
]

after_head :
    (e x : SimulationEvent) (xs : List SimulationEvent)
    → before x e ≡ false
    → All (λ y. before y x ≡ false) xs
    → All (λ y. before y e ≡ false) xs
after_head e x [] h s = tt
after_head e x (y ∷ xs) h s = (not_before_trans e x y h s.0, after_head e x xs h s.1)

insert_event-IsSorted :
    (e : SimulationEvent) (xs : List SimulationEvent) → IsSorted xs → IsSorted (insert_event e xs)
unfolding insert_event
insert_event-IsSorted e [] s = (tt, tt)
insert_event-IsSorted e (x ∷ xs) s = elim (Bool-cases (before x e)) [
  | inl earlier ↦ rw earlier (
    All-insert_event (λ y. before y x ≡ false) e xs (before_asym x e earlier) s.0,
    insert_event-IsSorted e xs s.1,
  )
  | inr later ↦ rw later ((later, after_head e x xs later s.0), s)
]

sort_events-IsSorted : (es : List SimulationEvent) → IsSorted (sort_events es)
unfolding sort_events
sort_events-IsSorted [] = tt
sort_events-IsSorted (e ∷ es) = insert_event-IsSorted e (sort_events es) (sort_events-IsSorted es)

insert_event-perm :
    (e : SimulationEvent) (xs : List SimulationEvent) → Perm (insert_event e xs) (e ∷ xs)
unfolding insert_event
insert_event-perm e [] = Perm.refl _
insert_event-perm e (x ∷ xs) = elim (Bool-cases (before x e)) [
  | inl earlier ↦ rw earlier (Perm.trans (Perm.cons x (insert_event-perm e xs)) (Perm.swap e x xs))
  | inr later ↦ rw later (Perm.refl _)
]

sort_events-perm : (es : List SimulationEvent) → Perm (sort_events es) es
unfolding sort_events
sort_events-perm [] = Perm.refl _
sort_events-perm (e ∷ es) =
    Perm.trans (insert_event-perm e (sort_events es)) (Perm.cons e (sort_events-perm es))

strict-All :
    (e : SimulationEvent) (xs : List SimulationEvent)
    → All (λ x. before x e ≡ false) xs
    → any_of (same_key e) xs ≡ false
    → All (λ x. before e x ≡ true) xs
strict-All e [] s d = tt
strict-All e (x ∷ xs) s d =
    let (first, rest) = or_false (same_key e x) (any_of (same_key e) xs) d in
    (strict e x s.0 first, strict-All e xs s.1 rest)

sorted-IsIncreasing :
    (xs : List SimulationEvent) → IsSorted xs → duplicate_key xs ≡ false → IsIncreasing xs
unfolding duplicate_key
sorted-IsIncreasing [] s d = tt
sorted-IsIncreasing (x ∷ xs) s d =
    let (first, rest) = or_false (any_of (same_key x) xs) (duplicate_key xs) d in
    (strict-All x xs s.0 first, sorted-IsIncreasing xs s.1 rest)

number_events-after :
    (e : SimulationEvent) (m n : ℕ) (xs : List SimulationEvent)
    → All (λ x. before e x ≡ true) xs
    → All (λ x. before (record e { sequence = m }) x ≡ true) (number_events n xs)
unfolding number_events before
number_events-after e m n [] h = tt
number_events-after e m n (x ∷ xs) h = (h.0, number_events-after e m (n + 1) xs h.1)

number_events-IsIncreasing :
    (n : ℕ) (xs : List SimulationEvent) → IsIncreasing xs → IsIncreasing (number_events n xs)
unfolding number_events
number_events-IsIncreasing n [] h = tt
number_events-IsIncreasing n (x ∷ xs) h =
    (number_events-after x n (n + 1) xs h.0, number_events-IsIncreasing (n + 1) xs h.1)

number_events-IsNumbered : (n : ℕ) (xs : List SimulationEvent) → IsNumbered n (number_events n xs)
unfolding number_events
number_events-IsNumbered n [] = tt
number_events-IsNumbered n (x ∷ xs) = (refl, number_events-IsNumbered (n + 1) xs)

-- The ordered events are a permutation of the collected ones with new sequence numbers: they stand
-- in the strict order of time, kind and bar, and are numbered from 0 without a gap.
pub ordered_events-IsIncreasing :
    (es rs : List SimulationEvent)
    → ordered_events es ≡ ok rs
    → IsIncreasing rs
      × IsNumbered 0 rs
      × (ordered : List SimulationEvent) × Perm ordered es
      × (rs ≡ number_events 0 ordered)
unfolding ordered_events
ordered_events-IsIncreasing es rs h =
    let (distinct, done) = guard-eq-ok (duplicate_key (sort_events es)) _ _ h in
    let increasing = sorted-IsIncreasing (sort_events es) (sort_events-IsSorted es) distinct in
    rw (← ok-injective done) (
      number_events-IsIncreasing 0 (sort_events es) increasing,
      number_events-IsNumbered 0 (sort_events es),
      sort_events es,
      sort_events-perm es,
      refl,
    )
