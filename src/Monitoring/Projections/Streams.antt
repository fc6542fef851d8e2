-- ===== src/Monitoring/Projections/Streams.antt =====
-- monitoring/projections.py: an event is projected by the rows of its stream alone.
use adaptive_trading_ecosyst.Prelude.{
  ℕ, ◌≡◌, refl, sym, ◌∙◌, Bool, true, false, Option, List, [], ◌∷◌, ◌++◌, All, ◌==◌, inl, inr,
  Bool-cases, and_true, keep, keep-keep, find_first, find_first-keep, String, Result, ok, err,
  ◌>>=◌, ◌>>◌, bind-ok, bind_append, bind-eq-ok, ok-injective, arith,
}
use adaptive_trading_ecosyst.Monitoring.Contracts.{
  TelemetryEvent, StoredEvent, Payload, account, of_portfolio, position, risk, health, activity,
  is_closed,
}
use adaptive_trading_ecosyst.Monitoring.ReadModels.{
  Body, ProjectionRow, Table, account_snapshots, portfolio_snapshots, in_table, has_key, latest,
  upsert,
}
use adaptive_trading_ecosyst.Monitoring.Projections.{
  table_of, entity_of, previous_row, check_previous, check_row, with_trade, written,
  apply_projection, project_all,
}

abbrev pub is_of : ℕ → ProjectionRow → Bool
is_of stream r = r.stream_id == stream

-- The rows of a stream.
abbrev pub models_of : ℕ → List ProjectionRow → List ProjectionRow
models_of stream rows = keep (is_of stream) rows

in_table_of :
    (t : Table) (stream : ℕ) (r : ProjectionRow)
    → in_table t stream r ≡ true
    → is_of stream r ≡ true
in_table_of t stream r h = ground arith

latest-models_of :
    (t : Table) (stream : ℕ) (rows : List ProjectionRow)
    → latest t stream (models_of stream rows) ≡ latest t stream rows
unfolding latest
latest-models_of t stream rows =
    rw (keep-keep (in_table t stream) (is_of stream) rows (in_table_of t stream)) refl

found-models_of :
    (s : StoredEvent) (p : Payload) (stream : ℕ) (rows : List ProjectionRow)
    → find_first (has_key (table_of p) stream (entity_of s p)) (models_of stream rows)
      ≡ find_first (has_key (table_of p) stream (entity_of s p)) rows
found-models_of s p stream rows =
    find_first-keep (has_key (table_of p) stream (entity_of s p)) (is_of stream) rows
      (λ (r : ProjectionRow) (h : has_key (table_of p) stream (entity_of s p) r ≡ true).
        in_table_of (table_of p) stream r (and_true (in_table (table_of p) stream r) _ h).0)

previous_row-models_of :
    (rows : List ProjectionRow) (stream : ℕ) (s : StoredEvent) (p : Payload)
    → previous_row (models_of stream rows) stream s p ≡ previous_row rows stream s p
unfolding previous_row
previous_row-models_of rows stream s (account v) = latest-models_of account_snapshots stream rows
previous_row-models_of rows stream s (of_portfolio v) =
    latest-models_of portfolio_snapshots stream rows
previous_row-models_of rows stream s (position v) = found-models_of s (position v) stream rows
previous_row-models_of rows stream s (risk v) = found-models_of s (risk v) stream rows
previous_row-models_of rows stream s (health v) = found-models_of s (health v) stream rows
previous_row-models_of rows stream s (activity v) = found-models_of s (activity v) stream rows

upsert-models_of :
    (r : ProjectionRow) (rows : List ProjectionRow)
    → models_of r.stream_id (upsert r rows) ≡ upsert r (models_of r.stream_id rows)
unfolding upsert
upsert-models_of r [] = ground arith
upsert-models_of r (x ∷ rows) =
    let own : is_of r.stream_id r ≡ true = ground arith in
    elim (Bool-cases (has_key r.table r.stream_id r.entity_id x)) [
      | inl there ↦
          let theirs =
            in_table_of r.table r.stream_id x
              (and_true (in_table r.table r.stream_id x) _ there).0 in
          rw there (rw (own, theirs) (rw there refl))
      | inr absent ↦ elim (Bool-cases (is_of r.stream_id x)) [
        | inl mine ↦ rw (absent, mine) (rw (absent, upsert-models_of r rows) refl)
        | inr foreign ↦ rw (absent, foreign) (upsert-models_of r rows)
      ]
    ]

upsert-models_of_other :
    (r : ProjectionRow) (rows : List ProjectionRow) (stream : ℕ)
    → (r.stream_id == stream) ≡ false
    → models_of stream (upsert r rows) ≡ models_of stream rows
unfolding upsert
upsert-models_of_other r [] stream other = rw other
upsert-models_of_other r (x ∷ rows) stream other =
    elim (Bool-cases (has_key r.table r.stream_id r.entity_id x)) [
      | inl there ↦
          let theirs =
            in_table_of r.table r.stream_id x
              (and_true (in_table r.table r.stream_id x) _ there).0 in
          let foreign : is_of stream x ≡ false = ground arith in rw there (rw (other, foreign) refl)
      | inr absent ↦ elim (Bool-cases (is_of stream x)) [
        | inl mine ↦ rw (absent, mine, upsert-models_of_other r rows stream other) refl
        | inr foreign ↦ rw (absent, foreign) (upsert-models_of_other r rows stream other)
      ]
    ]

-- Two guards before a result.
map_guarded {ℓ} :
    {A : Type ℓ} (f : A → A) (first second : Result (Unit {0})) (a : A)
    → (first >> (second >> ok (f a))) ≡ ((first >> (second >> ok a)) >>= λ x. ok (f x))
map_guarded f (err code) second a = refl
map_guarded f (ok u) (err code) a = refl
map_guarded f (ok u) (ok v) a = refl

module _ (stream_of : TelemetryEvent → ℕ) (body_hash : Body → String) where
  with_trade-models_of :
      (s : StoredEvent) (b : Body) (p : Payload) (rows : List ProjectionRow)
      → models_of (stream_of s.event) (with_trade stream_of body_hash s b p rows)
        ≡ with_trade stream_of body_hash s b p (models_of (stream_of s.event) rows)
  unfolding with_trade
  with_trade-models_of s b (position v) rows = elim (Bool-cases (is_closed v.state)) [
    | inl closed ↦ rw closed (upsert-models_of _ rows)
    | inr opened ↦ rw opened refl
  ]
  with_trade-models_of s b (account v) rows = refl
  with_trade-models_of s b _ rows = refl

  written-models_of :
      (rows : List ProjectionRow) (s : StoredEvent) (previous : Option ProjectionRow)
      → models_of (stream_of s.event) (written stream_of body_hash rows s previous)
        ≡ written stream_of body_hash (models_of (stream_of s.event) rows) s previous
  unfolding written
  written-models_of rows s previous =
      with_trade-models_of s _ s.event.input.payload _ ∙ rw (upsert-models_of _ rows) refl

  -- An event is projected to the rows of its stream as it is to all rows.
  pub apply_projection-models_of :
      (rows : List ProjectionRow) (s : StoredEvent)
      → apply_projection stream_of body_hash (models_of (stream_of s.event) rows) s ≡ (
          apply_projection stream_of body_hash rows s >>= λ r. ok (models_of (stream_of s.event) r))
  unfolding apply_projection
  apply_projection-models_of rows s =
      let p = s.event.input.payload in
      let previous = previous_row rows (stream_of s.event) s p in
      rw (previous_row-models_of rows (stream_of s.event) s p, ← written-models_of rows s previous)
        (map_guarded (models_of (stream_of s.event)) (check_previous stream_of body_hash s previous)
          (check_row s p previous) (written stream_of body_hash rows s previous))

  with_trade-models_of_other :
      (s : StoredEvent) (b : Body) (p : Payload) (rows : List ProjectionRow) (stream : ℕ)
      → (stream_of s.event == stream) ≡ false
      → models_of stream (with_trade stream_of body_hash s b p rows) ≡ models_of stream rows
  unfolding with_trade
  with_trade-models_of_other s b (position v) rows stream other =
      elim (Bool-cases (is_closed v.state)) [
        | inl closed ↦ rw closed (upsert-models_of_other _ rows stream other)
        | inr opened ↦ rw opened refl
      ]
  with_trade-models_of_other s b (account v) rows stream other = refl
  with_trade-models_of_other s b _ rows stream other = refl

  -- The rows of the other streams stay.
  pub apply_projection-other :
      (rows : List ProjectionRow) (s : StoredEvent) (stream : ℕ) {next : List ProjectionRow}
      → (stream_of s.event == stream) ≡ false
      → apply_projection stream_of body_hash rows s ≡ ok next
      → models_of stream next ≡ models_of stream rows
  unfolding apply_projection written
  apply_projection-other rows s stream other h =
      let p = s.event.input.payload in
      let previous = previous_row rows (stream_of s.event) s p in
      let (_, _, h₁) = bind-eq-ok (check_previous stream_of body_hash s previous) _ h in
      let (_, _, h₂) = bind-eq-ok (check_row s p previous) _ h₁ in
      rw (← ok-injective h₂) (
        with_trade-models_of_other s _ p _ stream other
        ∙ upsert-models_of_other _ rows stream other)

  pub project_all-append :
      (rows : List ProjectionRow) (ss : List StoredEvent) (s : StoredEvent)
      → project_all stream_of body_hash rows (ss ++ s ∷ []) ≡ (
          project_all stream_of body_hash rows ss >>= λ r. apply_projection stream_of body_hash r s)
  unfolding project_all
  project_all-append rows [] s = bind-ok (apply_projection stream_of body_hash rows s)
  project_all-append rows (x ∷ ss) s =
      bind_append (apply_projection stream_of body_hash rows x)
        (λ (r : List ProjectionRow). project_all stream_of body_hash r (ss ++ s ∷ []))
        (λ (r : List ProjectionRow). project_all stream_of body_hash r ss)
        (λ (r : List ProjectionRow). apply_projection stream_of body_hash r s)
        (λ (r : List ProjectionRow). project_all-append r ss s)

  apply_projection-lifts :
      (rows : List ProjectionRow) (s : StoredEvent) (stream : ℕ) {own : List ProjectionRow}
      → stream_of s.event ≡ stream
      → apply_projection stream_of body_hash (models_of stream rows) s ≡ ok own
      → (next : List ProjectionRow) × (apply_projection stream_of body_hash rows s ≡ ok next)
        × (models_of stream next ≡ own)
  apply_projection-lifts rows s stream e h =
      let on_stream = rw (← e) at h in
      let (next, applied, same) =
        bind-eq-ok (apply_projection stream_of body_hash rows s) _
          (sym (apply_projection-models_of rows s) ∙ on_stream) in
      (next, applied, rw e at (ok-injective same))

  -- When the events of a stream project onto its rows, they project onto all rows.
  pub project_all-lifts :
      (rows : List ProjectionRow) (ss : List StoredEvent) (stream : ℕ) {own : List ProjectionRow}
      → All (λ (s : StoredEvent). stream_of s.event ≡ stream) ss
      → project_all stream_of body_hash (models_of stream rows) ss ≡ ok own
      → (next : List ProjectionRow) × (project_all stream_of body_hash rows ss ≡ ok next)
        × (models_of stream next ≡ own)
        × ((other : ℕ) → (stream == other) ≡ false → models_of other next ≡ models_of other rows)
  unfolding project_all
  project_all-lifts rows [] stream a h = (rows, refl, ok-injective h, λ other o. refl)
  project_all-lifts rows (s ∷ ss) stream a h =
      let (step, applied, rest) =
        bind-eq-ok (apply_projection stream_of body_hash (models_of stream rows) s) _ h in
      let (next, on_all, same) = apply_projection-lifts rows s stream a.0 applied in
      let (last, projected, own, others) = project_all-lifts next ss stream a.1 (rw same rest) in
      (
        last,
        rw on_all projected,
        own,
        λ other o. others other o ∙ apply_projection-other rows s other (rw a.0 o) on_all,
      )
