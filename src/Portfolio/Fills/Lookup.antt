-- ===== src/Portfolio/Fills/Lookup.antt =====
-- The positions of a book by episode, through the operations of portfolio/fills.py on them.
use adaptive_trading_ecosyst.Prelude.{
  ℕ, ◌≡◌, refl, sym, ap, ◌∙◌, false, none, some, List, [], ◌∷◌, ◌==◌, map, any_of, Bool-cases, inl,
  inr, or_false, ==_iff, arith,
}
use adaptive_trading_ecosyst.Domain.Primitives.{EntityId}
use adaptive_trading_ecosyst.Accounting.Ledger.{repeated}
use adaptive_trading_ecosyst.Portfolio.Contracts.{Position}
use adaptive_trading_ecosyst.Portfolio.Fills.{
  find_position, put_position, remove_position, position_before, insert_position, sort_positions,
}

abbrev pub episodes : List Position → List EntityId
episodes ps = map (λ (p : Position). p.episode_id) ps

absent :
    (i : EntityId) (ps : List Position)
    → any_of (λ y. y == i) (episodes ps) ≡ false
    → find_position i ps ≡ none
absent i [] h = refl
absent i (p ∷ ps) h =
    let (other, rest) = or_false (p.episode_id == i) _ h in rw other (absent i ps rest)

own_first : (p : Position) (qs : List Position) → find_position p.episode_id (p ∷ qs) ≡ some p
own_first p qs = ground arith

insert-own :
    (p : Position) (qs : List Position)
    → find_position p.episode_id qs ≡ none
    → find_position p.episode_id (insert_position p qs) ≡ some p
unfolding insert_position
insert-own p [] h = ground arith
insert-own p (q ∷ qs) h = elim (Bool-cases (q.episode_id == p.episode_id)) [
  | inl same ↦ cc (same, h)
  | inr other ↦
      let ih = insert-own p qs (rw other at h) in
      elim (Bool-cases (position_before q p)) [
        | inl first ↦ rw (first, other) ih
        | inr last ↦ rw last (own_first p (q ∷ qs))
      ]
]

insert-other :
    (i : EntityId) (p : Position) (qs : List Position)
    → (p.episode_id == i) ≡ false
    → find_position i (insert_position p qs) ≡ find_position i qs
unfolding insert_position
insert-other i p [] h = rw h refl
insert-other i p (q ∷ qs) h = elim (Bool-cases (position_before q p)) [
  | inl first ↦ rw (first, insert-other i p qs h) refl
  | inr last ↦ rw (last, h) refl
]

sort-own :
    (p : Position) (ps : List Position)
    → any_of (λ y. y == p.episode_id) (episodes ps) ≡ false
    → find_position p.episode_id (sort_positions ps) ≡ find_position p.episode_id ps
    → find_position p.episode_id (sort_positions (p ∷ ps)) ≡ find_position p.episode_id (p ∷ ps)
unfolding sort_positions
sort-own p ps unique ih =
    insert-own p (sort_positions ps) (ih ∙ absent p.episode_id ps unique) ∙ sym (own_first p ps)

pub sort-find :
    (i : EntityId) (ps : List Position)
    → repeated (episodes ps) ≡ false
    → find_position i (sort_positions ps) ≡ find_position i ps
unfolding sort_positions repeated
sort-find i [] h = refl
sort-find i (p ∷ ps) h =
    let (unique, rest) = or_false (any_of (λ y. y == p.episode_id) (episodes ps)) _ h in
    let ih = sort-find i ps rest in
    elim (Bool-cases (p.episode_id == i)) [
      | inl same ↦
          let e = (==_iff p.episode_id i).0 same in
          ap (λ (j : ℕ). find_position j (sort_positions (p ∷ ps))) (sym e)
          ∙ sort-own p ps unique (sort-find p.episode_id ps rest)
          ∙ ap (λ (j : ℕ). find_position j (p ∷ ps)) e
      | inr other ↦ rw (insert-other i p (sort_positions ps) other, ih, other) refl
    ]

pub put-find :
    (p : Position) (ps : List Position) → find_position p.episode_id (put_position p ps) ≡ some p
unfolding put_position
put-find p [] = ground arith
put-find p (q ∷ qs) = elim (Bool-cases (q.episode_id == p.episode_id)) [
  | inl same ↦ rw same (ground arith)
  | inr other ↦ rw (other, other) (put-find p qs)
]

pub put-episodes :
    (p q : Position) (ps : List Position)
    → find_position p.episode_id ps ≡ some q
    → episodes (put_position p ps) ≡ episodes ps
unfolding put_position
put-episodes p q [] h = cc h
put-episodes p q (r ∷ rs) h = elim (Bool-cases (r.episode_id == p.episode_id)) [
  | inl same ↦
      rw same (ap (λ (x : ℕ). x ∷ episodes rs) (sym ((==_iff r.episode_id p.episode_id).0 same)))
  | inr other ↦
      rw other (ap (λ (xs : List ℕ). r.episode_id ∷ xs) (put-episodes p q rs (rw other at h)))
]

remove-any :
    (i j : EntityId) (ps : List Position)
    → any_of (λ y. y == j) (episodes ps) ≡ false
    → any_of (λ y. y == j) (episodes (remove_position i ps)) ≡ false
unfolding remove_position
remove-any i j [] h = refl
remove-any i j (p ∷ ps) h =
    let (other, rest) = or_false (p.episode_id == j) _ h in
    elim (Bool-cases (p.episode_id == i)) [
      | inl gone ↦ rw gone rest
      | inr kept ↦ rw (kept, other) (remove-any i j ps rest)
    ]

pub remove-repeated :
    (i : EntityId) (ps : List Position)
    → repeated (episodes ps) ≡ false
    → repeated (episodes (remove_position i ps)) ≡ false
unfolding remove_position repeated
remove-repeated i [] h = refl
remove-repeated i (p ∷ ps) h =
    let (unique, rest) = or_false (any_of (λ y. y == p.episode_id) (episodes ps)) _ h in
    elim (Bool-cases (p.episode_id == i)) [
      | inl gone ↦ rw gone rest
      | inr kept ↦ rw (kept, remove-any i p.episode_id ps unique) (remove-repeated i ps rest)
    ]

pub remove-find :
    (i : EntityId) (ps : List Position)
    → repeated (episodes ps) ≡ false
    → find_position i (remove_position i ps) ≡ none
unfolding remove_position repeated
remove-find i [] h = refl
remove-find i (p ∷ ps) h =
    let (unique, rest) = or_false (any_of (λ y. y == p.episode_id) (episodes ps)) _ h in
    elim (Bool-cases (p.episode_id == i)) [
      | inl gone ↦ rw gone (rw (← (==_iff p.episode_id i).0 gone) (absent p.episode_id ps unique))
      | inr kept ↦ rw (kept, kept) (remove-find i ps rest)
    ]
