-- ===== src/Features/Tests.antt =====
-- Three groups of rows are split: one before the first boundary, one across it and one after both.
use adaptive_trading_ecosyst.Prelude.{
  ℕ, ◌≡◌, refl, true, List, [], ◌∷◌, All, any_of, ok, err, insert_by, order_from,
}
use adaptive_trading_ecosyst.Domain.Primitives.{hours}
use adaptive_trading_ecosyst.Features.Splits.{
  FeatureRow, EpisodeOutcome, GroupBy, Bucket, Split, add_row, add_rows, earliest_from, row_end,
  latest_from, set_item, assign_rows, bucket, label_members, assign_groups, split,
}
use adaptive_trading_ecosyst.Features.Splits.Coverage.{is_assigned, split-assigns}
use adaptive_trading_ecosyst.Features.Splits.Leakage.{Placed, split-Placed}

unfoldable bundle : Unit {0}
unfolding add_row add_rows earliest_from row_end latest_from set_item assign_rows bucket
    label_members assign_groups split insert_by order_from
bundle = tt

abbrev row : ℕ → ℕ → ℕ → FeatureRow
row i group at = record {
  row_id = i;
  session_id = 1;
  sequence_group_id = group;
  episode_id = i;
  prediction_cutoff = hours at;
}

abbrev rows : List FeatureRow
rows = row 4 20 2 ∷ row 2 10 1 ∷ row 1 20 5 ∷ row 3 30 9 ∷ []

abbrev known : ℕ → ℕ → EpisodeOutcome
known i at = record { episode_id = i; available_at = hours at }

abbrev outcomes : List EpisodeOutcome
outcomes = known 1 6 ∷ known 2 3 ∷ known 3 10 ∷ known 4 3 ∷ []

abbrev expected : Split
expected = record {
  group_by = GroupBy.episode;
  train_end = hours 4;
  validation_end = hours 8;
  assignments =
      (1, Bucket.purged_boundary_crossing)
      ∷ (2, Bucket.train)
      ∷ (3, Bucket.locked_oos)
      ∷ (4, Bucket.purged_boundary_crossing)
      ∷ [];
}

split_runs : split rows outcomes (hours 4) (hours 8) GroupBy.episode ≡ ok expected
unfolding bundle
split_runs = refl

missing_outcome_fails : split rows [] (hours 4) (hours 8) GroupBy.session ≡ err "KeyError"
unfolding bundle
missing_outcome_fails = refl

split-Placed_example :
    All (Placed outcomes (hours 4) (hours 8) GroupBy.episode rows) expected.assignments
split-Placed_example =
    split-Placed rows outcomes (hours 4) (hours 8) GroupBy.episode expected split_runs

split-assigns_example : any_of (is_assigned 4) expected.assignments ≡ true
split-assigns_example =
    split-assigns rows outcomes (hours 4) (hours 8) GroupBy.episode expected 4 refl split_runs
