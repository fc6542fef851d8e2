-- ===== src/Features/Splits/Leakage.antt =====
-- features/splits.py: a row that is assigned to a period lies in it with all the rows of its group.
use mathlib.Core.List.{Mem, mem-cons_self, mem-cons_of_mem}
use adaptive_trading_ecosyst.Prelude.{
  ◌≡◌, ◌<◌, refl, Bool, true, List, [], ◌∷◌, leb, ◌==◌, All, keep, inl, inr, Bool-cases, ok,
  bind-eq-ok, guard-eq-ok, ok-injective, All-order_from, arith,
}
use adaptive_trading_ecosyst.Domain.Primitives.{EntityId, UtcTimestamp}
use adaptive_trading_ecosyst.Features.Splits.{
  FeatureRow, EpisodeOutcome, GroupBy, Bucket, Group, Assignment, Split, group_key, add_rows,
  set_item, assign_rows, label_members, assign_groups, split,
}
use adaptive_trading_ecosyst.Features.Splits.Groups.{is_in, Selects, add_rows-IsGrouped}
use adaptive_trading_ecosyst.Features.Splits.Periods.{Within, label_members-Within}

keep-Chosen :
    (p : FeatureRow → Bool) (rows : List FeatureRow)
    → All (λ (r : FeatureRow). (p r ≡ true) × Mem r rows) (keep p rows)
keep-Chosen p [] = tt
keep-Chosen p (r ∷ rows) = elim (Bool-cases (p r)) [
  | inl e ↦ rw e ((e, mem-cons_self), further (keep p rows) (keep-Chosen p rows))
  | inr e ↦ rw e (further (keep p rows) (keep-Chosen p rows))
]
  where
    further :
        (xs : List FeatureRow)
        → All (λ (x : FeatureRow). (p x ≡ true) × Mem x rows) xs
        → All (λ (x : FeatureRow). (p x ≡ true) × Mem x (r ∷ rows)) xs
    further [] c = tt
    further (x ∷ xs) c = ((c.0.0, mem-cons_of_mem r c.0.1), further xs c.1)

module _ (outcomes : List EpisodeOutcome) (train_end validation_end : UtcTimestamp) where
  -- An assignment is that of a row, all of whose group lies in the period of the label.
  abbrev pub Placed : GroupBy → List FeatureRow → Assignment → Type 0
  Placed by rows a =
      (r : FeatureRow) × Mem r rows
      × (r.row_id ≡ a.0)
      × All (Within outcomes train_end validation_end a.1) (keep (is_in by (group_key by r)) rows)

  All-set_item :
      (P : Assignment → Type 0) (a : Assignment) (acc : List Assignment)
      → P a
      → All P acc
      → All P (set_item a acc)
  unfolding set_item
  All-set_item P a [] p h = (p, tt)
  All-set_item P a (x ∷ xs) p h = elim (Bool-cases (x.0 == a.0)) [
    | inl e ↦ rw e (p, h.1)
    | inr e ↦ rw e (h.0, All-set_item P a xs p h.1)
  ]

  assign_rows-Placed :
      (P : Assignment → Type 0) (l : Bucket) (rs : List FeatureRow) (acc : List Assignment)
      → All (λ (r : FeatureRow). P (r.row_id, l)) rs
      → All P acc
      → All P (assign_rows l rs acc)
  unfolding assign_rows
  assign_rows-Placed P l [] acc h a = a
  assign_rows-Placed P l (r ∷ rs) acc h a =
      assign_rows-Placed P l rs (set_item (r.row_id, l) acc) h.1
        (All-set_item P (r.row_id, l) acc h.0 a)

  module _ (by : GroupBy) (rows : List FeatureRow) where
    -- The rows of a group are placed by its label.
    members-Placed :
        (key : EntityId) (l : Bucket) (rs : List FeatureRow)
        → All (Within outcomes train_end validation_end l) (keep (is_in by key) rows)
        → All (λ (r : FeatureRow). (is_in by key r ≡ true) × Mem r rows) rs
        → All (λ (r : FeatureRow). Placed by rows (r.row_id, l)) rs
    members-Placed key l [] w c = tt
    members-Placed key l (r ∷ rs) w c =
        let same : group_key by r ≡ key = (let own = c.0.0 in ground arith) in
        ((r, c.0.1, refl, rw same w), members-Placed key l rs w c.1)

    assign_groups-Placed :
        (groups : List Group) (acc : List Assignment) {assignments : List Assignment}
        → train_end < validation_end
        → All (Selects by rows) groups
        → All (Placed by rows) acc
        → assign_groups train_end validation_end outcomes groups acc ≡ ok assignments
        → All (Placed by rows) assignments
    unfolding assign_groups
    assign_groups-Placed [] acc w s a h = rw (ok-injective h) at a
    assign_groups-Placed (g ∷ gs) acc w s a h =
        let (l, labelled, h₁) =
          bind-eq-ok (label_members train_end validation_end outcomes g.1) _ h in
        let within =
          label_members-Within outcomes train_end validation_end (keep (is_in by g.0) rows) w
            (rw s.0 at labelled) in
        let placed =
          members-Placed g.0 l (keep (is_in by g.0) rows) within
            (keep-Chosen (is_in by g.0) rows) in
        assign_groups-Placed gs (assign_rows l g.1 acc) w s.1
          (assign_rows-Placed (Placed by rows) l g.1 acc (rw (← s.0) at placed) a) h₁

-- Every assignment of a split is that of a row, and all rows of its group, with their outcomes, lie in
-- the period of the label.
pub split-Placed :
    (rows : List FeatureRow) (outcomes : List EpisodeOutcome)
    (train_end validation_end : UtcTimestamp) (by : GroupBy) (s : Split)
    → split rows outcomes train_end validation_end by ≡ ok s
    → All (Placed outcomes train_end validation_end by rows) s.assignments
unfolding split
split-Placed rows outcomes train_end validation_end by s h =
    let (ordered, h₁) = guard-eq-ok (leb validation_end train_end) _ _ h in
    let (assignments, assigned, h₂) =
      bind-eq-ok (assign_groups train_end validation_end outcomes (add_rows by [] rows) []) _ h₁ in
    let groups =
      add_rows-IsGrouped by [] rows []
        (record { selects = tt; distinct = tt; complete = λ key a. refl }) in
    rw (← ok-injective h₂) (
      All-order_from (Placed outcomes train_end validation_end by rows) (λ (a : Assignment). a.0) []
        assignments tt
        (assign_groups-Placed outcomes train_end validation_end by rows (add_rows by [] rows) []
          (ground arith) groups.selects tt assigned))
