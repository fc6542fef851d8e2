-- ===== src/Benchmarks/Contracts.antt =====
-- benchmarks/contracts.py: the definitions of the benchmarks and the values that a decision reads.
-- A field whose type is a `Literal` of one value holds nothing and is left out. The functions named
-- `validate` are the model validators, the bounds of the fields included.
use adaptive_trading_ecosyst.Prelude.{
  ℕ, ◌+◌, Bool, true, false, not, ◌&&◌, ◌||◌, Option, none, some, List, [], ◌∷◌, ltb, leb, ◌==◌,
  is_none, length, if◌then◌else◌, Result, ok, ◌>>=◌, ◌>>◌, raise_if,
}
use Prim.Native.Nat.{max}

pub data BenchmarkId : Type 0 where
  b01 b02 b03 b04 : BenchmarkId

pub data BenchmarkFamily : Type 0 where
  legacy_hybrid moving_average_trend channel_trend : BenchmarkFamily

pub data OriginCategory : Type 0 where
  project_legacy_hypothesis moving_average_trend_benchmark channel_trend_benchmark : OriginCategory

pub data EntryKind : Type 0 where
  hybrid_trend_and_breakout bullish_ema_cross channel_breakout : EntryKind

pub data ExitKind : Type 0 where
  none_kind bearish_or_equal_ema_cross channel_exit_kind : ExitKind

pub data NormalExit : Type 0 where
  stop_loss take_profit protective_stop trend_exit channel_exit : NormalExit

pub data TakeProfitKind : Type 0 where
  no_target fixed_price_r_multiple : TakeProfitKind

-- The members of an enumeration are told apart by their places in it.
abbrev pub id_rank : BenchmarkId → ℕ
id_rank b01 = 1
id_rank b02 = 2
id_rank b03 = 3
id_rank b04 = 4

abbrev pub family_rank : BenchmarkFamily → ℕ
family_rank legacy_hybrid = 0
family_rank moving_average_trend = 1
family_rank channel_trend = 2

abbrev pub origin_rank : OriginCategory → ℕ
origin_rank project_legacy_hypothesis = 0
origin_rank moving_average_trend_benchmark = 1
origin_rank channel_trend_benchmark = 2

abbrev pub entry_rank : EntryKind → ℕ
entry_rank hybrid_trend_and_breakout = 0
entry_rank bullish_ema_cross = 1
entry_rank channel_breakout = 2

abbrev pub exit_rank : ExitKind → ℕ
exit_rank none_kind = 0
exit_rank bearish_or_equal_ema_cross = 1
exit_rank channel_exit_kind = 2

abbrev pub normal_exit_rank : NormalExit → ℕ
normal_exit_rank stop_loss = 0
normal_exit_rank take_profit = 1
normal_exit_rank protective_stop = 2
normal_exit_rank trend_exit = 3
normal_exit_rank channel_exit = 4

abbrev pub target_rank : TakeProfitKind → ℕ
target_rank no_target = 0
target_rank fixed_price_r_multiple = 1

abbrev pub same_id : BenchmarkId → BenchmarkId → Bool
same_id a b = id_rank a == id_rank b

abbrev pub same_period : Option ℕ → Option ℕ → Bool
same_period none none = true
same_period (some m) (some n) = m == n
same_period _ _ = false

unfoldable pub same_exits : List NormalExit → List NormalExit → Bool
same_exits [] [] = true
same_exits (a ∷ as') (b ∷ bs) = normal_exit_rank a == normal_exit_rank b && same_exits as' bs
same_exits _ _ = false

-- `Period`, and `Period | None`
abbrev period : ℕ → Result (Unit {0})
period n = raise_if (ltb n 1) "greater_than_equal"

abbrev optional_period : Option ℕ → Result (Unit {0})
optional_period none = ok tt
optional_period (some n) = period n

abbrev pub or_zero : Option ℕ → ℕ
or_zero none = 0
or_zero (some n) = n

pub record EntryRule : Type 0 where
  pub kind : EntryKind
  pub fast_ema_period : Option ℕ
  pub slow_ema_period : Option ℕ
  pub previous_high_period : Option ℕ

-- `fast is None or slow is None or fast >= slow`
abbrev not_below : Option ℕ → Option ℕ → Bool
not_below (some fast) (some slow) = leb slow fast
not_below _ _ = true

unfoldable pub validate_entry_rule : EntryRule → Result EntryRule
validate_entry_rule r = do
  optional_period r.fast_ema_period
  optional_period r.slow_ema_period
  optional_period r.previous_high_period
  let fast = r.fast_ema_period
  let slow = r.slow_ema_period
  let channel = r.previous_high_period
  if entry_rank r.kind == 2
      then (do
        raise_if (not (is_none fast) || not (is_none slow) || is_none channel)
            "INVALID_CHANNEL_ENTRY"
        ok r)
      else (do
        raise_if (not_below fast slow) "INVALID_EMA_ENTRY"
        raise_if (if is_none channel then entry_rank r.kind == 0 else not (entry_rank r.kind == 0))
            "INVALID_ENTRY_COMPOSITION"
        ok r)

pub record ExitRule : Type 0 where
  pub kind : ExitKind
  pub previous_low_period : Option ℕ
  pub normal_exits : List NormalExit

abbrev among : NormalExit → List NormalExit → Bool
among e [] = false
among e (x ∷ xs) = normal_exit_rank e == normal_exit_rank x || among e xs

-- `len(set(xs)) != len(xs)`
abbrev has_repeat : List NormalExit → Bool
has_repeat [] = false
has_repeat (x ∷ xs) = among x xs || has_repeat xs

unfoldable pub validate_exit_rule : ExitRule → Result ExitRule
validate_exit_rule r = do
  optional_period r.previous_low_period
  raise_if
      (if is_none r.previous_low_period then exit_rank r.kind == 2 else not (exit_rank r.kind == 2))
      "INVALID_EXIT_COMPOSITION"
  raise_if (length r.normal_exits == 0 || has_repeat r.normal_exits) "INVALID_NORMAL_EXITS"
  ok r

-- The three other fields have one value each; the flags say which of them are given.
pub record TakeProfitPolicy : Type 0 where
  pub kind : TakeProfitKind
  pub r_multiple : Bool
  pub initial_price_risk_basis : Bool
  pub target_basis : Bool

unfoldable pub validate_take_profit : TakeProfitPolicy → Result TakeProfitPolicy
validate_take_profit p = do
  raise_if
      (target_rank p.kind == 0 && (p.r_multiple || p.initial_price_risk_basis || p.target_basis))
      "NONE_TP_REQUIRES_EMPTY_METADATA"
  raise_if
      (target_rank p.kind == 1
        && (not p.r_multiple || not p.initial_price_risk_basis || not p.target_basis))
      "ACTUAL_ENTRY_BASIS_REQUIRED"
  ok p

pub record BenchmarkDefinition : Type 0 where
  pub benchmark_id : BenchmarkId
  pub family : BenchmarkFamily
  pub origin_category : OriginCategory
  pub entry_rule : EntryRule
  pub exit_rule : ExitRule
  pub take_profit : TakeProfitPolicy
  pub required_observations : ℕ

abbrev atr_period : ℕ
atr_period = 14

-- The pinned parameters: the entry and the exit of each benchmark.
abbrev pub expected_entry : BenchmarkId → EntryRule
expected_entry b01 = record {
  kind = hybrid_trend_and_breakout;
  fast_ema_period = some 50;
  slow_ema_period = some 200;
  previous_high_period = some 20;
}
expected_entry b02 = record {
  kind = bullish_ema_cross;
  fast_ema_period = some 50;
  slow_ema_period = some 200;
  previous_high_period = none;
}
expected_entry b03 = record {
  kind = channel_breakout;
  fast_ema_period = none;
  slow_ema_period = none;
  previous_high_period = some 20;
}
expected_entry b04 = record {
  kind = channel_breakout;
  fast_ema_period = none;
  slow_ema_period = none;
  previous_high_period = some 55;
}

abbrev pub expected_exit : BenchmarkId → ExitKind × Option ℕ
expected_exit b01 = (none_kind, none)
expected_exit b02 = (bearish_or_equal_ema_cross, none)
expected_exit b03 = (channel_exit_kind, some 10)
expected_exit b04 = (channel_exit_kind, some 20)

abbrev pub is_legacy : BenchmarkId → Bool
is_legacy i = same_id i b01

abbrev pub is_ema_only : BenchmarkId → Bool
is_ema_only i = same_id i b02

abbrev pub expected_exits : BenchmarkId → List NormalExit
expected_exits i =
    if is_legacy i
    then stop_loss ∷ take_profit ∷ []
    else protective_stop ∷ (if is_ema_only i then trend_exit else channel_exit) ∷ []

unfoldable pub required_warmup : BenchmarkDefinition → ℕ
required_warmup d =
    if is_legacy d.benchmark_id
    then 250
    else max
        (max atr_period
          (or_zero d.entry_rule.slow_ema_period + (if is_ema_only d.benchmark_id then 1 else 0)))
        (max (or_zero d.entry_rule.previous_high_period + 1)
          (or_zero d.exit_rule.previous_low_period + 1))

unfoldable pub same_entry : EntryRule → EntryRule → Bool
same_entry a b =
    entry_rank a.kind == entry_rank b.kind
    && same_period a.fast_ema_period b.fast_ema_period
    && same_period a.slow_ema_period b.slow_ema_period
    && same_period a.previous_high_period b.previous_high_period

unfoldable pub same_exit : ExitRule → ExitKind × Option ℕ → Bool
same_exit a b = exit_rank a.kind == exit_rank b.0 && same_period a.previous_low_period b.1

abbrev pub expected_family : BenchmarkId → BenchmarkFamily
expected_family i =
    if is_legacy i
    then legacy_hybrid
    else if is_ema_only i
    then moving_average_trend
    else channel_trend

abbrev pub expected_origin : BenchmarkId → OriginCategory
expected_origin i =
    if is_legacy i
    then project_legacy_hypothesis
    else if is_ema_only i
    then moving_average_trend_benchmark
    else channel_trend_benchmark

-- `pinned`
unfoldable pub pinned : BenchmarkDefinition → Result BenchmarkDefinition
pinned d = do
  raise_if
      (not (
        same_entry d.entry_rule (expected_entry d.benchmark_id)
        && same_exit d.exit_rule (expected_exit d.benchmark_id)))
      "PREREGISTERED_PARAMETERS_CANNOT_CHANGE"
  raise_if
      (not (family_rank d.family == family_rank (expected_family d.benchmark_id))
        || not (origin_rank d.origin_category == origin_rank (expected_origin d.benchmark_id))
        || not (same_exits d.exit_rule.normal_exits (expected_exits d.benchmark_id)))
      "PREREGISTERED_PROVENANCE_OR_EXITS_MISMATCH"
  raise_if (not (target_rank d.take_profit.kind == (if is_legacy d.benchmark_id then 1 else 0)))
      "PREREGISTERED_TP_MISMATCH"
  raise_if (not (d.required_observations == required_warmup d)) "INCORRECT_DERIVED_WARMUP"
  ok d

-- A definition with its parts, as `model_validate` checks it.
unfoldable pub validate_definition : BenchmarkDefinition → Result BenchmarkDefinition
unfolding validate_entry_rule validate_exit_rule validate_take_profit pinned
validate_definition d = do
  entry ← validate_entry_rule d.entry_rule
  leave ← validate_exit_rule d.exit_rule
  target ← validate_take_profit d.take_profit
  period d.required_observations
  pinned d
