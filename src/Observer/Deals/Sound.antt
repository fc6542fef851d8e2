-- ===== src/Observer/Deals/Sound.antt =====
-- observer/replay.py: every episode that a replay reports is settled, and a complete one is certain.
use adaptive_trading_ecosyst.Prelude.{
  ℕ, ◌≡◌, refl, sym, ap, ◌∙◌, true, false, not, Option, none, some, List, [], ◌∷◌, ltb, All,
  All-append, inl, inr, Bool-cases, and_true, All-find_first, find_first-holds, ok, bind-eq-ok,
  guard-eq-ok, ok-injective,
}
use adaptive_trading_ecosyst.Decimal.{Decimal, zero_d, leb_d, ◌+ᵈ◌, ◌*ᵈ◌}
use adaptive_trading_ecosyst.Domain.Primitives.{EntityId, finite_decimal}
use adaptive_trading_ecosyst.Observer.Contracts.{ObservationSession, Deal, Frame, attribute}
use adaptive_trading_ecosyst.Observer.Episodes.{
  Episode, Replay, is_of, is_open, is_active, active_of,
}
use adaptive_trading_ecosyst.Observer.Booking.{
  deal_time, is_buy, unit_of, Opening, volume_before, opening_of, lacks_evidence, net_of,
  known_values, attributed_with, counted, reversed_by,
}
use adaptive_trading_ecosyst.Observer.Deals.{
  Seen, emit, with_episode, doubted, is_trade, known_entry, with_amounts, seen_by, starting, booked,
  book, trade_deal, deal_step, deal_loop,
}
use adaptive_trading_ecosyst.Observer.Deals.Kept.{
  Keeps, Keeps-trans, attributed_with-Keeps, with_amounts-Keeps, counted-Keeps, set_active-All,
  Certain, IsSound, Certain-Keeps, reversed_by-Certain, reversed_by-volume, closed_by-IsSound,
  new_episode-Certain, new_episode-open,
}

module _ (episode_id_of : EntityId → ℕ → ℕ → EntityId) (session : ObservationSession)
    (frames : List Frame) where
  booked-IsSound :
      (row : Deal) (frame : Frame) (o : Opening) (sign after volume price : Decimal)
      (start : Episode) {e : Episode}
      → is_open start.closed_at ≡ true
      → Certain session frames start
      → booked episode_id_of session frames row frame o sign after volume price start ≡ ok e
      → IsSound session frames e
  unfolding booked
  booked-IsSound row frame o sign after volume price start active c h =
      let a =
        attributed_with (attribute row.magic row.symbol row.comment session.candidates) start in
      let (k, amounts, h₁) = bind-eq-ok (with_amounts row (seen_by row frame a)) _ h in
      let traded = counted o.signed_before sign after volume price k in
      let moved : Episode = record traded { signed_volume = after } in
      let all : Keeps start moved =
        Keeps-trans start k moved
          (Keeps-trans start (seen_by row frame a) k
            (attributed_with-Keeps (attribute row.magic row.symbol row.comment session.candidates)
              start)
            (with_amounts-Keeps row (seen_by row frame a) amounts))
          (counted-Keeps o.signed_before sign after volume price k) in
      let (volume_kept, closing_kept) =
        reversed_by-volume session frames o.signed_before after moved in
      rw (← ok-injective h₁) (
        closed_by-IsSound session frames (deal_time row) after
          (reversed_by o.signed_before after moved) volume_kept
          (ap is_open (closing_kept ∙ all.4) ∙ active)
          (reversed_by-Certain session frames o.signed_before after moved
            (Certain-Keeps session frames start moved all c)))

  active_of-IsSound :
      (pid : ℕ) (episodes : List Episode) {e : Episode}
      → All (IsSound session frames) episodes
      → active_of pid episodes ≡ some e
      → IsSound session frames e × (is_open e.closed_at ≡ true)
  active_of-IsSound pid episodes {e} s f = (
    All-find_first (IsSound session frames) (is_active pid) episodes s f,
    (and_true (is_of pid e) (is_open e.closed_at) (find_first-holds (is_active pid) episodes f)).1,
  )

  with_episode-IsSound :
      (pid : ℕ) (before : Option Episode) (e : Episode) (episodes : List Episode)
      → IsSound session frames e
      → All (IsSound session frames) episodes
      → All (IsSound session frames) (with_episode pid before e episodes)
  with_episode-IsSound pid none e episodes s a =
      All-append (IsSound session frames) episodes (e ∷ []) a (s, tt)
  with_episode-IsSound pid (some old) e episodes s a =
      set_active-All (IsSound session frames) pid e episodes s a

  doubted-IsSound :
      (pid : ℕ) (before : Option Episode) (episodes : List Episode)
      → active_of pid episodes ≡ before
      → All (IsSound session frames) episodes
      → All (IsSound session frames) (doubted pid before episodes)
  doubted-IsSound pid none episodes f a = a
  doubted-IsSound pid (some e) episodes f a =
      let (s, _) = active_of-IsSound pid episodes a f in
      set_active-All (IsSound session frames) pid (record e { complete = false }) episodes
        ((λ h. cc), s.1) a

  -- The episode that a deal is booked on: the active one, or a new one.
  starting-Certain :
      (row : Deal) (frame : Frame) (o : Opening) (sign : Decimal) (before : Option Episode)
      (episodes : List Episode)
      → active_of row.position_id episodes ≡ before
      → All (IsSound session frames) episodes
      → Certain session frames
          (starting episode_id_of session frames row frame o sign before episodes)
        × (is_open
              (starting episode_id_of session frames row frame o sign before episodes).closed_at
            ≡ true)
  starting-Certain row frame o sign none episodes f a = (
    new_episode-Certain session frames episode_id_of episodes row frame o
        (attribute row.magic row.symbol row.comment session.candidates) sign,
    new_episode-open session frames episode_id_of episodes row frame o
        (attribute row.magic row.symbol row.comment session.candidates) sign,
  )
  starting-Certain row frame o sign (some e) episodes f a =
      let (s, active) = active_of-IsSound row.position_id episodes a f in (s.0, active)

  book-IsSound :
      (row : Deal) (frame : Frame) (o : Opening) (sign after volume : Decimal)
      (before : Option Episode) (st : Replay) {t : Replay}
      → active_of row.position_id st.episodes ≡ before
      → All (IsSound session frames) st.episodes
      → book episode_id_of session frames row frame o sign after volume before st ≡ ok t
      → All (IsSound session frames) t.episodes
  unfolding book
  book-IsSound row frame o sign after volume before st f a h =
      let (price, _, h₁) = bind-eq-ok (finite_decimal row.price) _ h in
      let start = starting episode_id_of session frames row frame o sign before st.episodes in
      let (e, made, h₂) =
        bind-eq-ok (booked episode_id_of session frames row frame o sign after volume price start) _
          h₁ in
      let (net, _, h₃) =
        bind-eq-ok (net_of (known_values (row.profit ∷ row.commission ∷ row.fee ∷ row.swap ∷ []))) _
          h₂ in
      let (c, active) = starting-Certain row frame o sign before st.episodes f a in
      let sound = booked-IsSound row frame o sign after volume price start active c made in
      rw (ap (λ (x : Replay). x.episodes) (sym (ok-injective h₃)))
        (with_episode-IsSound row.position_id before e st.episodes sound a)

  trade_deal-IsSound :
      (row : Deal) (frame : Frame) (before : Option Episode) (st : Replay) {t : Replay}
      → active_of row.position_id st.episodes ≡ before
      → All (IsSound session frames) st.episodes
      → trade_deal episode_id_of session frames row frame before st ≡ ok t
      → All (IsSound session frames) t.episodes
  unfolding trade_deal emit
  trade_deal-IsSound row frame before st f a h =
      let (volume, _, h₁) = bind-eq-ok (finite_decimal row.volume) _ h in
      let (_, h₂) = guard-eq-ok (leb_d volume zero_d) _ _ h₁ in
      let (signed, _, h₃) = bind-eq-ok (volume_before before) _ h₂ in
      let (_, h₄) = guard-eq-ok (not (known_entry row.entry)) _ _ h₃ in
      let (o, _, h₅) =
        bind-eq-ok (opening_of frames (deal_time row) row.position_id before row.entry signed) _
          h₄ in
      let sign = unit_of (is_buy row) in
      let after = o.signed_before +ᵈ sign *ᵈ volume in
      elim (Bool-cases (lacks_evidence o row.entry sign after)) [
        | inl lacking ↦
            rw (ap (λ (x : Replay). x.episodes) (sym (ok-injective (rw lacking at h₅))))
              (doubted-IsSound row.position_id before st.episodes f a)
        | inr enough ↦ book-IsSound row frame o sign after volume before st f a (rw enough at h₅)
      ]

  deal_step-IsSound :
      (x : Seen) (st : Replay) {t : Replay}
      → All (IsSound session frames) st.episodes
      → deal_step episode_id_of session frames x st ≡ ok t
      → All (IsSound session frames) t.episodes
  unfolding deal_step emit
  deal_step-IsSound x st a h =
      let (_, h₁) = guard-eq-ok (ltb x.1.observed_at (deal_time x.0)) _ _ h in
      elim (Bool-cases (is_trade x.0)) [
        | inl trades ↦
            trade_deal-IsSound x.0 x.1 (active_of x.0.position_id st.episodes) _ refl a
              (rw trades at h₁)
        | inr other ↦ rw (ap (λ (y : Replay). y.episodes) (sym (ok-injective (rw other at h₁)))) a
      ]

  pub deal_loop-IsSound :
      (xs : List Seen) (st : Replay) {t : Replay}
      → All (IsSound session frames) st.episodes
      → deal_loop episode_id_of session frames xs st ≡ ok t
      → All (IsSound session frames) t.episodes
  unfolding deal_loop
  deal_loop-IsSound [] st a h = rw (← ok-injective h) a
  deal_loop-IsSound (x ∷ xs) st a h =
      let (next, stepped, h₁) = bind-eq-ok (deal_step episode_id_of session frames x st) _ h in
      deal_loop-IsSound xs next (deal_step-IsSound x st a stepped) h₁
