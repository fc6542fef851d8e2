-- ===== src/Observer/Deals/Reports.antt =====
-- observer/replay.py, `replay`: what a reported episode says, by whether it counts for the metrics.
use adaptive_trading_ecosyst.Prelude.{
  ℕ, ◌≡◌, ◌≤◌, sym, ap, Bool, true, false, some, List, [], ◌∷◌, All, and_true, All-order_from, ok,
  traverse, bind-eq-ok, guard-eq-ok, ok-injective, traverse-All, arith,
}
use adaptive_trading_ecosyst.Domain.Primitives.{EntityId, UtcTimestamp}
use adaptive_trading_ecosyst.Observer.Contracts.{ObservationSession, Deal, Frame}
use adaptive_trading_ecosyst.Observer.Episodes.{Episode, LifecycleEvent}
use adaptive_trading_ecosyst.Observer.Booking.{was_initial, net_of, known_values}
use adaptive_trading_ecosyst.Observer.Deals.{
  sort_deals, see_frames, misnumbered, nonmonotonic, deal_loop, Reported, is_known_ea, report,
  replay_deals,
}
use adaptive_trading_ecosyst.Observer.Deals.Kept.{IsSettled, IsSound}
use adaptive_trading_ecosyst.Observer.Deals.Sound.{deal_loop-IsSound}

module _ (session : ObservationSession) (frames : List Frame) where
  -- An episode counts only when it is wholly seen, by one known expert.
  abbrev pub Counts : Episode → Type 0
  Counts e =
      (is_known_ea e.attribution ≡ true)
      × (e.is_ambiguous ≡ false)
      × (t : UtcTimestamp) × (e.opened_at ≡ some t)
      × (session.started_at ≤ t)
      × (was_initial frames e.position_id ≡ false)
      × (e.reversal_count ≡ 0)

  abbrev pub IsFaithful : Reported → Type 0
  IsFaithful r =
      IsSettled session frames r.episode × (r.ea_metrics_eligible ≡ true → Counts r.episode)

  report-IsFaithful :
      (e : Episode) (r : Reported) → report e ≡ ok r → IsSound session frames e → IsFaithful r
  unfolding report
  report-IsFaithful e r h s =
      let (net, _, h₁) =
        bind-eq-ok (net_of (known_values (e.gross_pnl ∷ e.commission ∷ e.fee ∷ e.swap ∷ []))) _ h in
      rw (← ok-injective h₁) (
        s.1,
        λ eligible.
            let (complete, h₂) = and_true e.complete _ eligible in
            let (known, clear) = and_true (is_known_ea e.attribution) _ h₂ in
            let (t, opened, started, later, once) = s.0 complete in
            (known, ground arith, t, opened, started, later, once),
      )

  -- Every reported episode is closed exactly when its volume is zero, and one that counts for the
  -- metrics is that of a known expert, is not ambiguous, opened by a deal after the session had
  -- started at a position that the first frame did not show, and was never reversed.
  pub replay_deals-IsFaithful :
      (same_row : Deal → Deal → Bool) (episode_id_of : EntityId → ℕ → ℕ → EntityId)
      (events : List LifecycleEvent) (reported : List Reported)
      → replay_deals same_row episode_id_of session frames ≡ ok (events, reported)
      → All IsFaithful reported
  unfolding replay_deals
  replay_deals-IsFaithful same_row episode_id_of events reported h =
      let (_, h₁) = guard-eq-ok (misnumbered session.session_id 1 frames) _ _ h in
      let (_, h₂) = guard-eq-ok (nonmonotonic frames) _ _ h₁ in
      let (seen, _, h₃) = bind-eq-ok (see_frames same_row frames []) _ h₂ in
      let (st, looped, h₄) =
        bind-eq-ok
          (deal_loop episode_id_of session frames (sort_deals seen)
            (record { events = []; episodes = [] }))
          _ h₃ in
      let (rs, told, h₅) = bind-eq-ok (traverse report st.episodes) _ h₄ in
      let sound = deal_loop-IsSound episode_id_of session frames (sort_deals seen) _ tt looped in
      let faithful =
        traverse-All report (IsSound session frames) IsFaithful report-IsFaithful st.episodes told
          sound in
      rw (ap (λ (p : List LifecycleEvent × List Reported). p.1) (sym (ok-injective h₅)))
        (All-order_from IsFaithful _ [] rs tt faithful)
