-- ===== src/Observer/Deals/Kept.antt =====
-- observer/replay.py: what the steps of a deal leave of an episode, and what makes it complete.
use adaptive_trading_ecosyst.Prelude.{
  ℕ, ◌≡◌, ◌≤◌, refl, sym, ap, ◌∙◌, true, false, not, some, List, [], ◌∷◌, ltb, All, inl, inr,
  Bool-cases, and_true, ok, bind-eq-ok, ok-injective, arith,
}
use adaptive_trading_ecosyst.Decimal.{Decimal, zero_d, eq_d}
use adaptive_trading_ecosyst.Domain.Primitives.{EntityId, UtcTimestamp}
use adaptive_trading_ecosyst.Observer.Contracts.{ObservationSession, Attribution, Deal, Frame}
use adaptive_trading_ecosyst.Observer.Episodes.{
  Episode, is_open, is_active, same_attribution, set_active,
}
use adaptive_trading_ecosyst.Observer.Booking.{
  Opening, deal_time, is_none, was_initial, new_episode, added, increases, reverses,
  attributed_with, counted, reversed_by, closed_by,
}
use adaptive_trading_ecosyst.Observer.Deals.{with_amounts}

-- The parts that tell whether an episode is complete and active.
abbrev pub Keeps : Episode → Episode → Type 0
Keeps a b =
    (b.complete ≡ a.complete)
    × (b.opened_at ≡ a.opened_at)
    × (b.position_id ≡ a.position_id)
    × (b.reversal_count ≡ a.reversal_count)
    × (b.closed_at ≡ a.closed_at)

pub Keeps-trans : (a b c : Episode) → Keeps a b → Keeps b c → Keeps a c
Keeps-trans a b c h k = (k.0 ∙ h.0, k.1 ∙ h.1, k.2 ∙ h.2, k.3 ∙ h.3, k.4 ∙ h.4)

pub attributed_with-Keeps : (a : Attribution) (e : Episode) → Keeps e (attributed_with a e)
unfolding attributed_with
attributed_with-Keeps a e = elim (Bool-cases (same_attribution a e.attribution)) [
  | inl same ↦ rw same (refl, refl, refl, refl, refl)
  | inr other ↦ rw other (refl, refl, refl, refl, refl)
]

pub with_amounts-Keeps :
    (row : Deal) (e : Episode) {k : Episode} → with_amounts row e ≡ ok k → Keeps e k
unfolding with_amounts
with_amounts-Keeps row e h =
    let (gross, _, h₁) = bind-eq-ok (added e.gross_pnl row.profit) _ h in
    let (commission, _, h₂) = bind-eq-ok (added e.commission row.commission) _ h₁ in
    let (fee, _, h₃) = bind-eq-ok (added e.fee row.fee) _ h₂ in
    let (swap, _, h₄) = bind-eq-ok (added e.swap row.swap) _ h₃ in
    let same = sym (ok-injective h₄) in
    (
      ap (λ (x : Episode). x.complete) same,
      ap (λ (x : Episode). x.opened_at) same,
      ap (λ (x : Episode). x.position_id) same,
      ap (λ (x : Episode). x.reversal_count) same,
      ap (λ (x : Episode). x.closed_at) same,
    )

pub counted-Keeps :
    (before sign after volume price : Decimal) (e : Episode)
    → Keeps e (counted before sign after volume price e)
unfolding counted
counted-Keeps before sign after volume price e = elim (Bool-cases (increases before sign)) [
  | inl up ↦ rw up (refl, refl, refl, refl, refl)
  | inr down ↦ rw down (refl, refl, refl, refl, refl)
]

pub set_active-All :
    (P : Episode → Type 0) (pid : ℕ) (e : Episode) (xs : List Episode)
    → P e
    → All P xs
    → All P (set_active pid e xs)
unfolding set_active
set_active-All P pid e [] p h = tt
set_active-All P pid e (x ∷ xs) p h = elim (Bool-cases (is_active pid x)) [
  | inl own ↦ rw own (p, h.1)
  | inr other ↦ rw other (h.0, set_active-All P pid e xs p h.1)
]

module _ (session : ObservationSession) (frames : List Frame) where
  -- A complete episode opened with a deal after the session had started, at a position that the first
  -- frame did not show, and was never reversed.
  abbrev pub Certain : Episode → Type 0
  Certain e =
      e.complete ≡ true
      → (t : UtcTimestamp) × (e.opened_at ≡ some t)
        × (session.started_at ≤ t)
        × (was_initial frames e.position_id ≡ false)
        × (e.reversal_count ≡ 0)

  -- An episode is closed exactly when its volume is zero.
  abbrev pub IsSettled : Episode → Type 0
  IsSettled e = is_open e.closed_at ≡ not (eq_d e.signed_volume zero_d)

  abbrev pub IsSound : Episode → Type 0
  IsSound e = Certain e × IsSettled e

  pub Certain-Keeps : (a b : Episode) → Keeps a b → Certain a → Certain b
  Certain-Keeps a b k c h =
      let (t, opened, started, later, once) = c (sym k.0 ∙ h) in
      (t, k.1 ∙ opened, started, ap (was_initial frames) k.2 ∙ later, k.3 ∙ once)

  pub reversed_by-Certain :
      (before after : Decimal) (e : Episode) → Certain e → Certain (reversed_by before after e)
  unfolding reversed_by
  reversed_by-Certain before after e c = elim (Bool-cases (reverses before after)) [
    | inl turned ↦ rw turned (λ h. cc)
    | inr same ↦ rw same c
  ]

  pub reversed_by-volume :
      (before after : Decimal) (e : Episode)
      → ((reversed_by before after e).signed_volume ≡ e.signed_volume)
        × ((reversed_by before after e).closed_at ≡ e.closed_at)
  unfolding reversed_by
  reversed_by-volume before after e = elim (Bool-cases (reverses before after)) [
    | inl turned ↦ rw turned (refl, refl)
    | inr same ↦ rw same (refl, refl)
  ]

  pub closed_by-IsSound :
      (at : UtcTimestamp) (after : Decimal) (e : Episode)
      → e.signed_volume ≡ after
      → is_open e.closed_at ≡ true
      → Certain e
      → Certain (closed_by at after e) × IsSettled (closed_by at after e)
  unfolding closed_by
  closed_by-IsSound at after e same active c = elim (Bool-cases (eq_d after zero_d)) [
    | inl flat ↦ rw flat (c, let v : eq_d e.signed_volume zero_d ≡ true = rw same flat in rw v refl)
    | inr held ↦
        rw held
          (c, let v : eq_d e.signed_volume zero_d ≡ false = rw same held in rw (v, active) refl)
  ]

  pub new_episode-Certain :
      (episode_id_of : EntityId → ℕ → ℕ → EntityId) (episodes : List Episode) (row : Deal)
      (frame : Frame) (o : Opening) (a : Attribution) (sign : Decimal)
      → Certain (new_episode episode_id_of session frames episodes row frame o a sign)
  unfolding new_episode
  new_episode-Certain episode_id_of episodes row frame o a sign h =
      let (began, h₁) = and_true (not (ltb (deal_time row) session.started_at)) _ h in
      let (_, h₂) = and_true (not o.missing_open) _ h₁ in
      let (seen, fresh) = and_true (is_none o.anchor_at) _ h₂ in
      (deal_time row, rw seen refl, ground arith, ground arith, refl)

  pub new_episode-open :
      (episode_id_of : EntityId → ℕ → ℕ → EntityId) (episodes : List Episode) (row : Deal)
      (frame : Frame) (o : Opening) (a : Attribution) (sign : Decimal)
      → is_open (new_episode episode_id_of session frames episodes row frame o a sign).closed_at
        ≡ true
  unfolding new_episode
  new_episode-open episode_id_of episodes row frame o a sign = refl
