-- ===== src/Observer/Deals.antt =====
-- observer/replay.py: the deals of the frames, each once, in the order of their times, and the loop over
-- them. The equality of two rows and the digest of an episode's identity are parameters.
pub mod Kept
pub mod Sound
pub mod Reports
use adaptive_trading_ecosyst.Prelude.{
  ℕ, ◌+◌, Bool, true, false, not, ◌&&◌, ◌||◌, Option, none, some, List, [], ◌∷◌, ◌++◌, ltb, ◌==◌,
  any_of, find_first, order_by, if◌then◌else◌, Result, ok, err, ◌>>=◌, ◌>>◌, raise_if, traverse,
}
use adaptive_trading_ecosyst.Decimal.{Decimal, zero_d, leb_d, min_d, ◌+ᵈ◌, ◌*ᵈ◌, abs_d}
use adaptive_trading_ecosyst.Domain.Primitives.{EntityId, UtcTimestamp, finite_decimal}
use adaptive_trading_ecosyst.Observer.Contracts.{
  Source, source_rank, Confidence, confidence_rank, ObservationSession, Attribution, Deal, Frame,
  attribute,
}
use adaptive_trading_ecosyst.Observer.Episodes.{
  Direction, EpisodeAttribution, Episode, Kind, TradeValues, Values, LifecycleEvent, Replay,
  active_of, set_active,
}
use adaptive_trading_ecosyst.Observer.Booking.{
  deal_time, is_buy, is_entry, unit_of, Opening, volume_before, opening_of, lacks_evidence,
  new_episode, added, known_values, net_of, reverses, increases, kind_of, attributed_with, counted,
  reversed_by, closed_by,
}

abbrev pub Seen : Type 0
Seen = Deal × Frame

-- `ordered`: by the milliseconds, the seconds and the ticket.
abbrev pub milliseconds_of : Deal → ℕ
milliseconds_of d = elim d.time_msc [ none ↦ 0 | some n ↦ n ]

abbrev pub deal_before : Deal → Deal → Bool
deal_before a b =
    ltb (milliseconds_of a) (milliseconds_of b)
    || (milliseconds_of a == milliseconds_of b
        && (ltb a.time b.time || (a.time == b.time && ltb a.ticket b.ticket)))

unfoldable pub insert_deal : Seen → List Seen → List Seen
insert_deal x [] = x ∷ []
insert_deal x (y ∷ ys) =
    let rest = insert_deal x ys in if deal_before y.0 x.0 then y ∷ rest else x ∷ y ∷ ys

unfoldable pub sort_deals : List Seen → List Seen
sort_deals [] = []
sort_deals (x ∷ xs) = insert_deal x (sort_deals xs)

abbrev pub misnumbered : EntityId → ℕ → List Frame → Bool
misnumbered session n [] = false
misnumbered session n (f ∷ fs) =
    not (f.session_id == session) || (not (f.sequence == n) || misnumbered session (n + 1) fs)

abbrev pub nonmonotonic : List Frame → Bool
nonmonotonic [] = false
nonmonotonic (a ∷ []) = false
nonmonotonic (a ∷ b ∷ fs) = ltb b.observed_at a.observed_at || nonmonotonic (b ∷ fs)

unfoldable pub emit : ObservationSession → Kind → Deal → Frame → Values → Replay → Replay
emit session kind row frame values st = record st {
  events =
      st.events
      ++ record {
        kind = kind;
        observed_at = frame.observed_at;
        broker_at = deal_time row;
        recovered_state = frame.recovered;
        attribution = attribute row.magic row.symbol row.comment session.candidates;
        position_id = row.position_id;
        values = values;
      }
        ∷ [];
}

abbrev pub with_episode : ℕ → Option Episode → Episode → List Episode → List Episode
with_episode pid none e episodes = episodes ++ e ∷ []
with_episode pid (some old) e episodes = set_active pid e episodes

abbrev pub doubted : ℕ → Option Episode → List Episode → List Episode
doubted pid none episodes = episodes
doubted pid (some e) episodes = set_active pid (record e { complete = false }) episodes

abbrev pub is_trade : Deal → Bool
is_trade row = (is_entry 0 row.deal_type || is_entry 1 row.deal_type) && not (row.position_id == 0)

abbrev pub known_entry : Option ℕ → Bool
known_entry entry = is_entry 0 entry || (is_entry 1 entry || (is_entry 2 entry || is_entry 3 entry))

abbrev pub trade_values :
    Deal → Bool → Decimal → Decimal → Decimal → Decimal → Option Decimal → TradeValues
trade_values row increasing before after volume price net = record {
  deal_ticket = row.ticket;
  is_buy = is_buy row;
  volume = volume;
  price = price;
  old_volume = abs_d before;
  remaining_volume = abs_d after;
  opened_volume =
      if reverses before after then abs_d after else if increasing then volume else zero_d;
  closed_volume = if increasing then zero_d else min_d (abs_d before) volume;
  net_observed_pnl = net;
}

-- The amounts of the episode with those of the deal.
unfoldable pub with_amounts : Deal → Episode → Result Episode
with_amounts row e = do
  gross ← added e.gross_pnl row.profit
  commission ← added e.commission row.commission
  fee ← added e.fee row.fee
  swap ← added e.swap row.swap
  ok (record e { gross_pnl = gross; commission = commission; fee = fee; swap = swap })

abbrev pub seen_by : Deal → Frame → Episode → Episode
seen_by row frame e = record e {
  deal_tickets = e.deal_tickets ++ row.ticket ∷ [];
  last_seen_at = frame.observed_at;
}

-- What is returned of an episode.
pub record Reported : Type 0 where
  pub episode : Episode
  pub net_observed_pnl : Option Decimal
  pub ea_metrics_eligible : Bool

abbrev pub is_known_ea : EpisodeAttribution → Bool
is_known_ea EpisodeAttribution.conflicting = false
is_known_ea (EpisodeAttribution.attributed a) =
    source_rank a.source == source_rank Source.external_ea
    && confidence_rank a.confidence == confidence_rank Confidence.known

abbrev pub is_eligible : Episode → Bool
is_eligible e = e.complete && (is_known_ea e.attribution && not e.is_ambiguous)

unfoldable pub report : Episode → Result Reported
report e = do
  net ← net_of (known_values (e.gross_pnl ∷ e.commission ∷ e.fee ∷ e.swap ∷ []))
  ok (record { episode = e; net_observed_pnl = net; ea_metrics_eligible = is_eligible e })

module _ (same_row : Deal → Deal → Bool) where
  -- `seen_deals`
  unfoldable pub see_deal : Seen → List Seen → Result (List Seen)
  see_deal x [] = ok (x ∷ [])
  see_deal x (y ∷ ys) =
      let rest = see_deal x ys in
      if y.0.ticket == x.0.ticket
      then raise_if (not (same_row y.0 x.0)) "CONFLICTING_IMMUTABLE_DEAL" >> ok (y ∷ ys)
      else rest >>= λ zs. ok (y ∷ zs)

  unfoldable pub see_deals : Frame → List Deal → List Seen → Result (List Seen)
  see_deals frame [] seen = ok seen
  see_deals frame (d ∷ ds) seen = see_deal (d, frame) seen >>= λ more. see_deals frame ds more

  unfoldable pub see_frames : List Frame → List Seen → Result (List Seen)
  see_frames [] seen = ok seen
  see_frames (f ∷ fs) seen = see_deals f f.deals seen >>= λ more. see_frames fs more

module _ (episode_id_of : EntityId → ℕ → ℕ → EntityId) (session : ObservationSession)
    (frames : List Frame) where
  abbrev pub starting : Deal → Frame → Opening → Decimal → Option Episode → List Episode → Episode
  starting row frame o sign (some e) episodes = e
  starting row frame o sign none episodes =
      new_episode episode_id_of session frames episodes row frame o
        (attribute row.magic row.symbol row.comment session.candidates) sign

  -- The episode after a deal that is booked on it.
  unfoldable pub booked :
      Deal → Frame → Opening → Decimal → Decimal → Decimal → Decimal → Episode → Result Episode
  booked row frame o sign after volume price start = do
    let a = attributed_with (attribute row.magic row.symbol row.comment session.candidates) start
    e ← with_amounts row (seen_by row frame a)
    let traded = counted o.signed_before sign after volume price e
    let moved = record traded { signed_volume = after }
    ok (closed_by (deal_time row) after (reversed_by o.signed_before after moved))

  unfoldable pub book :
      Deal → Frame → Opening → Decimal → Decimal → Decimal → Option Episode → Replay → Result Replay
  book row frame o sign after volume before st = do
    price ← finite_decimal row.price
    e ← booked row frame o sign after volume price (starting row frame o sign before st.episodes)
    net ← net_of (known_values (row.profit ∷ row.commission ∷ row.fee ∷ row.swap ∷ []))
    let values =
        trade_values row (increases o.signed_before sign) o.signed_before after volume price net
    let told =
        emit session (kind_of o.signed_before sign after) row frame (Values.trade row values) st
    ok (record told { episodes = with_episode row.position_id before e st.episodes })

  unfoldable pub trade_deal : Deal → Frame → Option Episode → Replay → Result Replay
  trade_deal row frame before st = do
    volume ← finite_decimal row.volume
    raise_if (leb_d volume zero_d) "NONPOSITIVE_DEAL_VOLUME"
    signed ← volume_before before
    raise_if (not (known_entry row.entry)) "UNKNOWN_DEAL_ENTRY_SEMANTICS"
    o ← opening_of frames (deal_time row) row.position_id before row.entry signed
    let sign = unit_of (is_buy row)
    let after = o.signed_before +ᵈ sign *ᵈ volume
    let told = emit session Kind.recovered_state row frame (Values.insufficient row) st
    let refused = record told { episodes = doubted row.position_id before st.episodes }
    if lacks_evidence o row.entry sign after
        then ok refused
        else book row frame o sign after volume before st

  -- One deal of the loop.
  unfoldable pub deal_step : Seen → Replay → Result Replay
  deal_step x st = do
    raise_if (ltb x.1.observed_at (deal_time x.0)) "FUTURE_BROKER_DEAL"
    let told = emit session Kind.deal_observed x.0 x.1 (Values.observed x.0) st
    if is_trade x.0
        then trade_deal x.0 x.1 (active_of x.0.position_id st.episodes) told
        else ok told

  unfoldable pub deal_loop : List Seen → Replay → Result Replay
  deal_loop [] st = ok st
  deal_loop (x ∷ xs) st = deal_step x st >>= λ next. deal_loop xs next

unfoldable pub replay_deals :
    (Deal → Deal → Bool)
    → (EntityId → ℕ → ℕ → EntityId)
    → ObservationSession
    → List Frame
    → Result (List LifecycleEvent × List Reported)
replay_deals same_row episode_id_of session frames = do
  raise_if (misnumbered session.session_id 1 frames) "OBSERVER_FRAME_SEQUENCE_MISMATCH"
  raise_if (nonmonotonic frames) "NONMONOTONIC_OBSERVATION_TIME"
  seen ← see_frames same_row frames []
  st ←
      deal_loop episode_id_of session frames (sort_deals seen)
        (record { events = []; episodes = [] })
  reported ← traverse report st.episodes
  ok (st.events, order_by (λ (r : Reported). r.episode.episode_id) reported)
