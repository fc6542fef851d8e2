-- ===== src/Features/Splits/Periods.antt =====
-- features/splits.py: what the label of a group says of its rows and of their outcomes.
use mathlib.Core.Path.{subst}
use adaptive_trading_ecosyst.Prelude.{
  ℕ, zero, suc, ◌≡◌, ◌<◌, ◌≤◌, refl, sym, ap, ◌∙◌, true, some, List, [], ◌∷◌, ltb, ◌==◌, All, inl,
  inr, Bool-cases, if◌then◌else◌, ok, or_raise, bind-eq-ok, ok-injective, or_raise-eq-ok, arith,
}
use adaptive_trading_ecosyst.Domain.Primitives.{UtcTimestamp}
use adaptive_trading_ecosyst.Features.Splits.{
  FeatureRow, EpisodeOutcome, Bucket, bucket_rank, outcome_for, earliest_from, later_of, row_end,
  latest_from, bucket, label_between, label_members,
}

-- The cutoff of a row and the availability of its outcome are no later than an instant.
abbrev pub EndsBy : List EpisodeOutcome → UtcTimestamp → FeatureRow → Type 0
EndsBy outcomes end r =
    (r.prediction_cutoff ≤ end)
    × (o : EpisodeOutcome) × (outcome_for outcomes r.episode_id ≡ some o)
    × (o.available_at ≤ end)

EndsBy-later :
    (outcomes : List EpisodeOutcome) (a b : UtcTimestamp) (r : FeatureRow)
    → a ≤ b
    → EndsBy outcomes a r
    → EndsBy outcomes b r
EndsBy-later outcomes a b r h (before, o, found, known) =
    (omega (arith, h, before), o, found, omega (arith, h, known))

earliest_from-bound :
    (m : UtcTimestamp) (rs : List FeatureRow)
    → (earliest_from m rs ≤ m)
      × All (λ (r : FeatureRow). earliest_from m rs ≤ r.prediction_cutoff) rs
unfolding earliest_from
earliest_from-bound m [] = (omega arith, tt)
earliest_from-bound m (r ∷ rs) =
    let next = if ltb r.prediction_cutoff m then r.prediction_cutoff else m in
    let (first, rest) = earliest_from-bound next rs in
    let below : (next ≤ m) × (next ≤ r.prediction_cutoff) = (ground arith, ground arith) in
    (omega (arith, first, below.0), (omega (arith, first, below.1), rest))

row_end-EndsBy :
    (outcomes : List EpisodeOutcome) (r : FeatureRow) {end : UtcTimestamp}
    → row_end outcomes r ≡ ok end
    → EndsBy outcomes end r
unfolding row_end
row_end-EndsBy outcomes r h =
    let (o, found, h₁) = bind-eq-ok (or_raise (outcome_for outcomes r.episode_id) "KeyError") _ h in
    let end = ok-injective h₁ in
    rw (← end) (ground arith, o, or_raise-eq-ok _ _ found, ground arith)

latest_from-EndsBy :
    (outcomes : List EpisodeOutcome) (m : UtcTimestamp) (rs : List FeatureRow) {end : UtcTimestamp}
    → latest_from outcomes m rs ≡ ok end
    → (m ≤ end) × All (EndsBy outcomes end) rs
unfolding latest_from
latest_from-EndsBy outcomes m [] h = (let same = ok-injective h in omega (arith, same), tt)
latest_from-EndsBy outcomes m (r ∷ rs) {end} h =
    let (e, own, h₁) = bind-eq-ok (row_end outcomes r) _ h in
    let (later, rest) = latest_from-EndsBy outcomes (later_of m e) rs h₁ in
    let below : (m ≤ later_of m e) × (e ≤ later_of m e) = (ground arith, ground arith) in
    (
      omega (arith, later, below.0),
      (
        EndsBy-later outcomes e end r (omega (arith, later, below.1))
            (row_end-EndsBy outcomes r own),
        rest,
      ),
    )

bucket_of_rank : ℕ → Bucket
bucket_of_rank zero = Bucket.train
bucket_of_rank (suc zero) = Bucket.validation
bucket_of_rank (suc (suc zero)) = Bucket.locked_oos
bucket_of_rank (suc (suc (suc n))) = Bucket.purged_boundary_crossing

bucket_of_rank-bucket_rank : (b : Bucket) → bucket_of_rank (bucket_rank b) ≡ b
unfolding bucket_of_rank
bucket_of_rank-bucket_rank Bucket.train = refl
bucket_of_rank-bucket_rank Bucket.validation = refl
bucket_of_rank-bucket_rank Bucket.locked_oos = refl
bucket_of_rank-bucket_rank Bucket.purged_boundary_crossing = refl

same_bucket : (a b : Bucket) → (bucket_rank a == bucket_rank b) ≡ true → b ≡ a
same_bucket a b h =
    let same : bucket_rank b ≡ bucket_rank a = ground arith in
    sym (bucket_of_rank-bucket_rank b) ∙ ap bucket_of_rank same ∙ bucket_of_rank-bucket_rank a

module _ (outcomes : List EpisodeOutcome) (train_end validation_end : UtcTimestamp) where
  -- A row, with its outcome, in the period of a label.
  abbrev pub Within : Bucket → FeatureRow → Type 0
  Within Bucket.train r = (e : UtcTimestamp) × EndsBy outcomes e r × (e < train_end)
  Within Bucket.validation r =
      (train_end ≤ r.prediction_cutoff)
      × (e : UtcTimestamp) × EndsBy outcomes e r
      × (e < validation_end)
  Within Bucket.locked_oos r =
      (train_end ≤ r.prediction_cutoff) × (validation_end ≤ r.prediction_cutoff)
  Within Bucket.purged_boundary_crossing r = Unit

  -- What a label says of the first cutoff and of the last end.
  abbrev pub Spans : Bucket → UtcTimestamp → UtcTimestamp → Type 0
  Spans Bucket.train start end = end < train_end
  Spans Bucket.validation start end = (train_end ≤ start) × (end < validation_end)
  Spans Bucket.locked_oos start end = (train_end ≤ start) × (validation_end ≤ start)
  Spans Bucket.purged_boundary_crossing start end = Unit

  bucket-Spans :
      (start end : UtcTimestamp) (l : Bucket)
      → train_end < validation_end
      → bucket train_end validation_end start ≡ l
      → bucket train_end validation_end end ≡ l
      → Spans l start end
  unfolding bucket
  bucket-Spans start end Bucket.train w s e = ground arith
  bucket-Spans start end Bucket.validation w s e = (ground arith, ground arith)
  bucket-Spans start end Bucket.locked_oos w s e = (ground arith, ground arith)
  bucket-Spans start end Bucket.purged_boundary_crossing w s e = tt

  label_between-Spans :
      (start end : UtcTimestamp)
      → train_end < validation_end
      → Spans (label_between train_end validation_end start end) start end
  label_between-Spans start end w =
      elim (Bool-cases (
        bucket_rank (bucket train_end validation_end start)
        == bucket_rank (bucket train_end validation_end end))) [
          | inl same ↦ rw same (
              bucket-Spans start end (bucket train_end validation_end start) w refl
                (same_bucket _ _ same))
          | inr crossing ↦ rw crossing tt
        ]

  Spans-Within :
      (l : Bucket) (start end : UtcTimestamp) (r : FeatureRow)
      → Spans l start end
      → start ≤ r.prediction_cutoff
      → EndsBy outcomes end r
      → Within l r
  Spans-Within Bucket.train start end r s b e = (end, e, s)
  Spans-Within Bucket.validation start end r s b e = (omega (arith, s.0, b), end, e, s.1)
  Spans-Within Bucket.locked_oos start end r s b e = (omega (arith, s.0, b), omega (arith, s.1, b))
  Spans-Within Bucket.purged_boundary_crossing start end r s b e = tt

  All-Within :
      (l : Bucket) (start end : UtcTimestamp) (rs : List FeatureRow)
      → Spans l start end
      → All (λ (r : FeatureRow). start ≤ r.prediction_cutoff) rs
      → All (EndsBy outcomes end) rs
      → All (Within l) rs
  All-Within l start end [] s b e = tt
  All-Within l start end (r ∷ rs) s b e =
      (Spans-Within l start end r s b.0 e.0, All-Within l start end rs s b.1 e.1)

  pub label_members-Within :
      (members : List FeatureRow) {l : Bucket}
      → train_end < validation_end
      → label_members train_end validation_end outcomes members ≡ ok l
      → All (Within l) members
  unfolding label_members
  label_members-Within [] w h = cc
  label_members-Within (r ∷ rs) w h =
      let (first, own, h₁) = bind-eq-ok (row_end outcomes r) _ h in
      let (end, last, h₂) = bind-eq-ok (latest_from outcomes first rs) _ h₁ in
      let (later, ends) = latest_from-EndsBy outcomes first rs last in
      let (start, starts) = earliest_from-bound r.prediction_cutoff rs in
      subst (λ (x : Bucket). All (Within x) (r ∷ rs)) (ok-injective h₂)
        (All-Within _ _ end (r ∷ rs) (label_between-Spans _ end w) (start, starts)
          (EndsBy-later outcomes first end r later (row_end-EndsBy outcomes r own), ends))
