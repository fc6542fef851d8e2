-- ===== src/Observer/Tests.antt =====
-- A position is opened and closed by two deals, which two frames both show.
use adaptive_trading_ecosyst.Prelude.{
  insert_by, order_from, ℕ, ◌+◌, ◌≡◌, refl, Bool, true, false, ◌&&◌, none, some, List, [], ◌∷◌,
  ◌==◌, length, All, map, Result, ok, err,
}
use adaptive_trading_ecosyst.Prelude.Int.{pos, negsuc}
use adaptive_trading_ecosyst.Decimal.{Decimal, of_int, decimal_arithmetic}
use adaptive_trading_ecosyst.Domain.Primitives.{EntityId, finite_decimal, days}
use adaptive_trading_ecosyst.Observer.Contracts.{
  Source, Candidate, ObservationSession, Deal, Frame, attribute,
}
use adaptive_trading_ecosyst.Observer.Episodes.{LifecycleEvent, set_active}
use adaptive_trading_ecosyst.Observer.Booking.{
  deal_time, volume_before, anchored, opening_of, new_episode, added, net_of, attributed_with,
  counted, reversed_by, closed_by,
}
use adaptive_trading_ecosyst.Observer.Deals.{
  insert_deal, sort_deals, emit, with_amounts, see_deal, see_deals, see_frames, booked, book,
  trade_deal, deal_step, deal_loop, Reported, report, replay_deals,
}
use adaptive_trading_ecosyst.Observer.Deals.Reports.{IsFaithful, replay_deals-IsFaithful}

unfoldable bundle : Unit {0}
unfolding finite_decimal attribute set_active deal_time volume_before anchored opening_of
    new_episode added net_of attributed_with counted reversed_by closed_by insert_deal sort_deals
    emit with_amounts see_deal see_deals see_frames booked book trade_deal deal_step deal_loop
    report replay_deals insert_by order_from decimal_arithmetic
bundle = tt

abbrev same_row : Deal → Deal → Bool
same_row a b = a.ticket == b.ticket && a.time == b.time

abbrev episode_id_of : EntityId → ℕ → ℕ → EntityId
episode_id_of session position epoch = position + epoch

abbrev amount : ℕ → Decimal
amount n = of_int (pos n)

abbrev expert : Candidate
expert = record {
  ea_id = "trend";
  magic_numbers = 77 ∷ [];
  symbols = "XAUUSD" ∷ [];
  comment = none;
  source = Source.external_ea;
  attribution_reference = some "registry/1";
  exclusive_binding = true;
  is_active = true;
}

abbrev session : ObservationSession
session = record { session_id = 5; started_at = days 719_162; candidates = expert ∷ [] }

abbrev opening_deal : Deal
opening_deal = record {
  ticket = 1;
  time = 100;
  time_msc = none;
  position_id = 9;
  deal_type = some 0;
  entry = some 0;
  volume = amount 2;
  price = amount 1900;
  profit = some (amount 0);
  commission = some (of_int (negsuc 0));
  fee = some (amount 0);
  swap = some (amount 0);
  symbol = "XAUUSD";
  magic = some 77;
  comment = none;
}

abbrev closing_deal : Deal
closing_deal = record opening_deal {
  ticket = 2;
  time = 160;
  deal_type = some 1;
  entry = some 1;
  price = amount 1910;
  profit = some (amount 20);
}

abbrev frame : ℕ → List Deal → Frame
frame n deals = record {
  session_id = 5;
  sequence = n;
  observed_at = days 719_163 + n;
  recovered = false;
  positions = [];
  deals = deals;
}

abbrev frames : List Frame
frames =
    frame 1 (opening_deal ∷ [])
    ∷ frame 2 (closing_deal ∷ opening_deal ∷ [])
    ∷ frame 3 (closing_deal ∷ [])
    ∷ []

abbrev run : List Frame → Result (List LifecycleEvent × List Reported)
run = replay_deals same_row episode_id_of session

abbrev found : Result (List LifecycleEvent × List Reported) → List LifecycleEvent × List Reported
found (ok r) = r
found (err code) = ([], [])

result : List LifecycleEvent × List Reported
unfolding bundle
result = found (run frames)

replayed : run frames ≡ ok (result.0, result.1)
unfolding bundle result
replayed = refl

abbrev is_eligible_report : Reported → Bool
is_eligible_report r = r.ea_metrics_eligible

-- One episode, which counts; four events.
one_episode : (map is_eligible_report result.1 ≡ true ∷ []) × (length result.0 ≡ 4)
unfolding bundle result
one_episode = (refl, refl)

changed_deal_fails :
    run (frame 1 (opening_deal ∷ []) ∷ frame 2 (record opening_deal { time = 101 } ∷ []) ∷ [])
    ≡ err "CONFLICTING_IMMUTABLE_DEAL"
unfolding bundle
changed_deal_fails = refl

replay_deals-IsFaithful_example : All (IsFaithful session frames) result.1
replay_deals-IsFaithful_example =
    replay_deals-IsFaithful session frames same_row episode_id_of result.0 result.1 replayed
