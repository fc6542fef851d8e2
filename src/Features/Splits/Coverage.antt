-- ===== src/Features/Splits/Coverage.antt =====
-- features/splits.py: every row of the input is assigned.
use adaptive_trading_ecosyst.Prelude.{
  ◌≡◌, ◌∙◌, Bool, true, ◌||◌, List, [], ◌∷◌, leb, ◌==◌, any_of, any_of-append, any_of-order_from,
  inl, inr, Bool-cases, ok, bind-eq-ok, guard-eq-ok, ok-injective, arith,
}
use adaptive_trading_ecosyst.Domain.Primitives.{EntityId, UtcTimestamp}
use adaptive_trading_ecosyst.Features.Splits.{
  FeatureRow, EpisodeOutcome, GroupBy, Bucket, Group, Assignment, Split, group_key, add_row,
  add_rows, set_item, assign_rows, label_members, assign_groups, split,
}

abbrev pub is_named : EntityId → FeatureRow → Bool
is_named i r = r.row_id == i

abbrev pub is_assigned : EntityId → Assignment → Bool
is_assigned i a = a.0 == i

abbrev pub holds : EntityId → Group → Bool
holds i g = any_of (is_named i) g.1

add_row-holds :
    (i key : EntityId) (r : FeatureRow) (groups : List Group)
    → (any_of (holds i) groups || is_named i r) ≡ true
    → any_of (holds i) (add_row key r groups) ≡ true
unfolding add_row
add_row-holds i key r [] h = ground arith
add_row-holds i key r (g ∷ gs) h = elim (Bool-cases (g.0 == key)) [
  | inl e ↦ rw e (let here = any_of-append (is_named i) g.1 (r ∷ []) in ground arith)
  | inr e ↦ rw e (elim (Bool-cases (holds i g)) [
    | inl f ↦ rw f
    | inr f ↦ rw f (add_row-holds i key r gs (rw f at h))
  ])
]

add_rows-holds :
    (i : EntityId) (by : GroupBy) (groups : List Group) (rs : List FeatureRow)
    → (any_of (holds i) groups || any_of (is_named i) rs) ≡ true
    → any_of (holds i) (add_rows by groups rs) ≡ true
unfolding add_rows
add_rows-holds i by groups [] h = ground arith
add_rows-holds i by groups (r ∷ rs) h =
    add_rows-holds i by (add_row (group_key by r) r groups) rs
      (let kept = add_row-holds i (group_key by r) r groups in ground arith)

set_item-is_assigned :
    (i : EntityId) (a : Assignment) (acc : List Assignment)
    → (any_of (is_assigned i) acc || is_assigned i a) ≡ true
    → any_of (is_assigned i) (set_item a acc) ≡ true
unfolding set_item
set_item-is_assigned i a [] h = ground arith
set_item-is_assigned i a (x ∷ xs) h = elim (Bool-cases (x.0 == a.0)) [
  | inl e ↦ rw e (ground arith)
  | inr e ↦ rw e (elim (Bool-cases (is_assigned i x)) [
    | inl f ↦ rw f
    | inr f ↦ rw f (set_item-is_assigned i a xs (rw f at h))
  ])
]

assign_rows-is_assigned :
    (i : EntityId) (l : Bucket) (rs : List FeatureRow) (acc : List Assignment)
    → (any_of (is_assigned i) acc || any_of (is_named i) rs) ≡ true
    → any_of (is_assigned i) (assign_rows l rs acc) ≡ true
unfolding assign_rows
assign_rows-is_assigned i l [] acc h = ground arith
assign_rows-is_assigned i l (r ∷ rs) acc h =
    assign_rows-is_assigned i l rs (set_item (r.row_id, l) acc)
      (let kept = set_item-is_assigned i (r.row_id, l) acc in ground arith)

assign_groups-is_assigned :
    (train_end validation_end : UtcTimestamp) (outcomes : List EpisodeOutcome) (i : EntityId)
    (groups : List Group) (acc : List Assignment) {assignments : List Assignment}
    → (any_of (is_assigned i) acc || any_of (holds i) groups) ≡ true
    → assign_groups train_end validation_end outcomes groups acc ≡ ok assignments
    → any_of (is_assigned i) assignments ≡ true
unfolding assign_groups
assign_groups-is_assigned train_end validation_end outcomes i [] acc h w =
    let same = ok-injective w in rw (← same) (ground arith)
assign_groups-is_assigned train_end validation_end outcomes i (g ∷ gs) acc h w =
    let (l, labelled, w₁) = bind-eq-ok (label_members train_end validation_end outcomes g.1) _ w in
    assign_groups-is_assigned train_end validation_end outcomes i gs (assign_rows l g.1 acc)
      (let kept = assign_rows-is_assigned i l g.1 acc in ground arith) w₁

-- Every row has an assignment, when the split returns.
pub split-assigns :
    (rows : List FeatureRow) (outcomes : List EpisodeOutcome)
    (train_end validation_end : UtcTimestamp) (by : GroupBy) (s : Split) (i : EntityId)
    → any_of (is_named i) rows ≡ true
    → split rows outcomes train_end validation_end by ≡ ok s
    → any_of (is_assigned i) s.assignments ≡ true
unfolding split
split-assigns rows outcomes train_end validation_end by s i named h =
    let (ordered, h₁) = guard-eq-ok (leb validation_end train_end) _ _ h in
    let (assignments, assigned, h₂) =
      bind-eq-ok (assign_groups train_end validation_end outcomes (add_rows by [] rows) []) _ h₁ in
    rw (← ok-injective h₂) (
      any_of-order_from (is_assigned i) (λ (a : Assignment). a.0) [] assignments
      ∙ assign_groups-is_assigned train_end validation_end outcomes i (add_rows by [] rows) []
          (add_rows-holds i by [] rows named) assigned)
