-- ===== src/Benchmarks/Registry/Pinned.antt =====
-- The validators of benchmarks/contracts.py accept the registered definitions and nothing else.
use adaptive_trading_ecosyst.Prelude.{
  ℕ, ◌≡◌, refl, true, Bool, Option, some, List, ok, not, not-false, ◌&&◌, ◌||◌, false, ==_iff,
  and_true, ap₂, [], ◌∷◌, ltb, if◌then◌else◌, bind-eq-ok, guard-eq-ok, arith, ◌==◌,
}
use adaptive_trading_ecosyst.Benchmarks.Contracts.{
  BenchmarkId, b01, b02, b03, b04, BenchmarkDefinition, EntryKind, ExitKind, NormalExit,
  same_period, same_exits, entry_rank, exit_rank, validate_definition, EntryRule, ExitRule,
  TakeProfitPolicy, normal_exit_rank, BenchmarkFamily, OriginCategory, family_rank, origin_rank,
  target_rank, same_entry, same_exit, expected_family, expected_origin, expected_exits,
  required_warmup, expected_entry, expected_exit, validate_take_profit, validate_entry_rule,
  validate_exit_rule, is_legacy, same_id, pinned,
}
use adaptive_trading_ecosyst.Benchmarks.Registry.{
  get_definition, double_risk_target, no_take_profit,
}

same_period_sound : (a b : Option ℕ) → same_period a b ≡ true → a ≡ b
same_period_sound a b h = ground arith

normal_exit_sound : (a b : NormalExit) → (normal_exit_rank a == normal_exit_rank b) ≡ true → a ≡ b
normal_exit_sound a b h = ground arith

same_exits_sound : (a b : List NormalExit) → same_exits a b ≡ true → a ≡ b
unfolding same_exits
same_exits_sound [] [] h = refl
same_exits_sound [] (y ∷ b) h = cc
same_exits_sound (x ∷ a) [] h = cc
same_exits_sound (x ∷ a) (y ∷ b) h =
    let (first, rest) = and_true (normal_exit_rank x == normal_exit_rank y) (same_exits a b) h in
    ap₂ ◌∷◌ (normal_exit_sound x y first) (same_exits_sound a b rest)

entry_kind_sound : (a b : EntryKind) → (entry_rank a == entry_rank b) ≡ true → a ≡ b
entry_kind_sound a b h = ground arith

exit_kind_sound : (a b : ExitKind) → (exit_rank a == exit_rank b) ≡ true → a ≡ b
exit_kind_sound a b h = ground arith

family_sound : (a b : BenchmarkFamily) → (family_rank a == family_rank b) ≡ true → a ≡ b
family_sound a b h = ground arith

origin_sound : (a b : OriginCategory) → (origin_rank a == origin_rank b) ≡ true → a ≡ b
origin_sound a b h = ground arith

same_entry_sound : (a b : EntryRule) → same_entry a b ≡ true → a ≡ b
unfolding same_entry
same_entry_sound a b h = ground (
  arith,
  entry_kind_sound a.kind b.kind,
  same_period_sound a.fast_ema_period b.fast_ema_period,
  same_period_sound a.slow_ema_period b.slow_ema_period,
  same_period_sound a.previous_high_period b.previous_high_period,
)

same_exit_sound :
    (a : ExitRule) (b : ExitKind × Option ℕ)
    → same_exit a b ≡ true
    → (a.kind ≡ b.0) × (a.previous_low_period ≡ b.1)
unfolding same_exit
same_exit_sound a b h =
    ground (arith, exit_kind_sound a.kind b.0, same_period_sound a.previous_low_period b.1)

-- Every benchmark has a definition in the registry, and the validators accept it unchanged.
pub registered-valid :
    (i : BenchmarkId)
    → (d : BenchmarkDefinition) × (get_definition i ≡ some d)
      × (d.benchmark_id ≡ i)
      × (validate_definition d ≡ ok d)
unfolding get_definition validate_definition same_entry same_exit same_exits required_warmup
registered-valid b01 = (_, refl, refl, refl)
registered-valid b02 = (_, refl, refl, refl)
registered-valid b03 = (_, refl, refl, refl)
registered-valid b04 = (_, refl, refl, refl)

target_sound :
    (p t : TakeProfitPolicy) (i : BenchmarkId)
    → validate_take_profit p ≡ ok t
    → (target_rank p.kind == (if is_legacy i then 1 else 0)) ≡ true
    → p ≡ (if same_id i b01 then double_risk_target else no_take_profit)
unfolding validate_take_profit
target_sound p t i h k = ground arith

-- The fields that `pinned` compares.
record Agrees (d : BenchmarkDefinition) : Type 0 where
  entry : d.entry_rule ≡ expected_entry d.benchmark_id
  exit :
      (d.exit_rule.kind ≡ (expected_exit d.benchmark_id).0)
      × (d.exit_rule.previous_low_period ≡ (expected_exit d.benchmark_id).1)
  family : d.family ≡ expected_family d.benchmark_id
  origin : d.origin_category ≡ expected_origin d.benchmark_id
  exits : d.exit_rule.normal_exits ≡ expected_exits d.benchmark_id
  kind : (target_rank d.take_profit.kind == (if is_legacy d.benchmark_id then 1 else 0)) ≡ true
  warmup : d.required_observations ≡ required_warmup d

three_false :
    (a b c : Bool) → (not a || not b || not c) ≡ false → (a ≡ true) × (b ≡ true) × (c ≡ true)
three_false a b c h = ground arith

pinned-Agrees : (d v : BenchmarkDefinition) → pinned d ≡ ok v → Agrees d
unfolding pinned
pinned-Agrees d v h =
    let same =
      same_entry d.entry_rule (expected_entry d.benchmark_id)
      && same_exit d.exit_rule (expected_exit d.benchmark_id) in
    let family = family_rank d.family == family_rank (expected_family d.benchmark_id) in
    let origin = origin_rank d.origin_category == origin_rank (expected_origin d.benchmark_id) in
    let exits = same_exits d.exit_rule.normal_exits (expected_exits d.benchmark_id) in
    let kind = target_rank d.take_profit.kind == (if is_legacy d.benchmark_id then 1 else 0) in
    let warmup = d.required_observations == required_warmup d in
    let (g1, h1) = guard-eq-ok (not same) _ _ h in
    let (g2, h2) = guard-eq-ok (not family || not origin || not exits) _ _ h1 in
    let (g3, h3) = guard-eq-ok (not kind) _ _ h2 in
    let (g4, _) = guard-eq-ok (not warmup) _ _ h3 in
    let (entry, exit) = and_true _ _ (not-false same g1) in
    let (f, o, x) = three_false family origin exits g2 in
    record {
      entry = same_entry_sound _ _ entry;
      exit = same_exit_sound _ _ exit;
      family = family_sound _ _ f;
      origin = origin_sound _ _ o;
      exits = same_exits_sound _ _ x;
      kind = not-false kind g3;
      warmup = (==_iff _ _).0 (not-false warmup g4);
    }

-- A definition that agrees with the pinned parameters of its benchmark is the registered one.
Agrees-registered :
    (i : BenchmarkId) (d : BenchmarkDefinition)
    → d.benchmark_id ≡ i
    → Agrees d
    → d.take_profit ≡ (if same_id i b01 then double_risk_target else no_take_profit)
    → get_definition i ≡ some d
unfolding get_definition required_warmup
Agrees-registered b01 d e a t = ground arith
Agrees-registered b02 d e a t = ground arith
Agrees-registered b03 d e a t = ground arith
Agrees-registered b04 d e a t = ground arith

-- A definition that the validators accept is the registered one of its benchmark.
pub valid-registered :
    (d v : BenchmarkDefinition)
    → validate_definition d ≡ ok v
    → get_definition d.benchmark_id ≡ some d
unfolding validate_definition
valid-registered d v h =
    let (e, _, h1) = bind-eq-ok (validate_entry_rule d.entry_rule) _ h in
    let (x, _, h2) = bind-eq-ok (validate_exit_rule d.exit_rule) _ h1 in
    let (t, target, h3) = bind-eq-ok (validate_take_profit d.take_profit) _ h2 in
    let (_, h4) = guard-eq-ok (ltb d.required_observations 1) _ _ h3 in
    let agrees = pinned-Agrees d v h4 in
    Agrees-registered d.benchmark_id d refl agrees
      (target_sound d.take_profit t d.benchmark_id target agrees.kind)
