-- ===== src/Features/Splits.antt =====
-- features/splits.py: the chronological split of rows into training, validation and locked periods.
pub mod Coverage
pub mod Groups
pub mod Leakage
pub mod Periods
use adaptive_trading_ecosyst.Prelude.{
  ℕ, Bool, not, Option, none, some, List, [], ◌∷◌, ◌++◌, ltb, leb, ◌==◌, or_else, order_by,
  if◌then◌else◌, Result, ok, err, ◌>>=◌, ◌>>◌, raise_if, or_raise,
}
use adaptive_trading_ecosyst.Domain.Primitives.{EntityId, UtcTimestamp}

-- The fields of a row that the split reads.
pub record FeatureRow : Type 0 where
  pub row_id : EntityId
  pub session_id : EntityId
  pub sequence_group_id : EntityId
  pub episode_id : EntityId
  pub prediction_cutoff : UtcTimestamp

pub record EpisodeOutcome : Type 0 where
  pub episode_id : EntityId
  pub available_at : UtcTimestamp

pub data GroupBy : Type 0 where
  episode session : GroupBy

pub data Bucket : Type 0 where
  train validation locked_oos purged_boundary_crossing : Bucket

abbrev pub bucket_rank : Bucket → ℕ
bucket_rank train = 0
bucket_rank validation = 1
bucket_rank locked_oos = 2
bucket_rank purged_boundary_crossing = 3

-- A dictionary is the list of its items in the order of their insertion.
abbrev pub Group : Type 0
Group = EntityId × List FeatureRow

abbrev pub Assignment : Type 0
Assignment = EntityId × Bucket

pub record Split : Type 0 where
  pub group_by : GroupBy
  pub train_end : UtcTimestamp
  pub validation_end : UtcTimestamp
  pub assignments : List Assignment

-- `outcome_map`: the last outcome of an episode.
abbrev pub outcome_for : List EpisodeOutcome → EntityId → Option EpisodeOutcome
outcome_for [] wanted = none
outcome_for (o ∷ os) wanted =
    or_else (outcome_for os wanted) (if o.episode_id == wanted then some o else none)

abbrev pub group_key : GroupBy → FeatureRow → EntityId
group_key GroupBy.session r = r.session_id
group_key GroupBy.episode r = r.sequence_group_id

-- `groups.setdefault(key, []).append(row)`
unfoldable pub add_row : EntityId → FeatureRow → List Group → List Group
add_row key r [] = (key, r ∷ []) ∷ []
add_row key r (g ∷ gs) =
    let rest = add_row key r gs in if g.0 == key then (g.0, g.1 ++ r ∷ []) ∷ gs else g ∷ rest

unfoldable pub add_rows : GroupBy → List Group → List FeatureRow → List Group
add_rows by groups [] = groups
add_rows by groups (r ∷ rs) = add_rows by (add_row (group_key by r) r groups) rs

-- `min` of the cutoffs
unfoldable pub earliest_from : UtcTimestamp → List FeatureRow → UtcTimestamp
earliest_from m [] = m
earliest_from m (r ∷ rs) =
    earliest_from (if ltb r.prediction_cutoff m then r.prediction_cutoff else m) rs

abbrev pub later_of : UtcTimestamp → UtcTimestamp → UtcTimestamp
later_of a b = if ltb a b then b else a

-- The later of the cutoff of a row and the availability of its outcome.
unfoldable pub row_end : List EpisodeOutcome → FeatureRow → Result UtcTimestamp
row_end outcomes r = do
  o ← or_raise (outcome_for outcomes r.episode_id) "KeyError"
  ok (later_of r.prediction_cutoff o.available_at)

-- `max` of the ends
unfoldable pub latest_from :
    List EpisodeOutcome → UtcTimestamp → List FeatureRow → Result UtcTimestamp
latest_from outcomes m [] = ok m
latest_from outcomes m (r ∷ rs) = row_end outcomes r >>= λ e. latest_from outcomes (later_of m e) rs

unfoldable pub set_item : Assignment → List Assignment → List Assignment
set_item a [] = a ∷ []
set_item a (x ∷ xs) = let rest = set_item a xs in if x.0 == a.0 then a ∷ xs else x ∷ rest

unfoldable pub assign_rows : Bucket → List FeatureRow → List Assignment → List Assignment
assign_rows label [] acc = acc
assign_rows label (r ∷ rs) acc = assign_rows label rs (set_item (r.row_id, label) acc)

module _ (train_end validation_end : UtcTimestamp) where
  unfoldable pub bucket : UtcTimestamp → Bucket
  bucket at =
      if ltb at train_end
      then Bucket.train
      else if ltb at validation_end
      then Bucket.validation
      else Bucket.locked_oos

  abbrev pub label_between : UtcTimestamp → UtcTimestamp → Bucket
  label_between start end =
      if bucket_rank (bucket start) == bucket_rank (bucket end)
      then bucket start
      else Bucket.purged_boundary_crossing

  unfoldable pub label_members : List EpisodeOutcome → List FeatureRow → Result Bucket
  label_members outcomes [] = err "min() iterable argument is empty"
  label_members outcomes (r ∷ rs) = do
    first ← row_end outcomes r
    end ← latest_from outcomes first rs
    ok (label_between (earliest_from r.prediction_cutoff rs) end)

  unfoldable pub assign_groups :
      List EpisodeOutcome → List Group → List Assignment → Result (List Assignment)
  assign_groups outcomes [] acc = ok acc
  assign_groups outcomes (g ∷ gs) acc =
      label_members outcomes g.1 >>= λ label. assign_groups outcomes gs (assign_rows label g.1 acc)

unfoldable pub split :
    List FeatureRow → List EpisodeOutcome → UtcTimestamp → UtcTimestamp → GroupBy → Result Split
split rows outcomes train_end validation_end by = do
  raise_if (leb validation_end train_end) "INVALID_SPLIT_BOUNDARIES"
  assignments ← assign_groups train_end validation_end outcomes (add_rows by [] rows) []
  ok (record {
    group_by = by;
    train_end = train_end;
    validation_end = validation_end;
    assignments = order_by (λ (a : Assignment). a.0) assignments;
  })
