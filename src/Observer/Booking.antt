-- ===== src/Observer/Booking.antt =====
-- observer/replay.py: how a deal changes the episode of its position.
use adaptive_trading_ecosyst.Prelude.{
  ℕ, ◌+◌, ◌*◌, Bool, true, false, not, ◌&&◌, ◌||◌, Option, none, some, List, [], ◌∷◌, ◌++◌, ltb,
  ◌==◌, length, keep, any_of, last?, if◌then◌else◌, Result, ok, ◌>>=◌, traverse,
}
use adaptive_trading_ecosyst.Prelude.Int.{ℤ, pos, negsuc, sub_ℕ}
use adaptive_trading_ecosyst.Decimal.{
  Decimal, of_int, zero_d, leb_d, ltb_d, eq_d, ◌+ᵈ◌, ◌*ᵈ◌, abs_d, sum_d,
}
use adaptive_trading_ecosyst.Domain.Primitives.{EntityId, UtcTimestamp, finite_decimal, days}
use adaptive_trading_ecosyst.Observer.Contracts.{
  ObservationSession, Attribution, Deal, PositionRow, Frame,
}
use adaptive_trading_ecosyst.Observer.Episodes.{
  Direction, EpisodeAttribution, Episode, Kind, same_attribution, is_of,
}

-- `timestamp` of mt5/normalization.py, from the first of January 1970
unfoldable pub deal_time : Deal → UtcTimestamp
deal_time d = days 719_162 + after_epoch d.time_msc
  where
    after_epoch : Option ℕ → ℕ
    after_epoch none = d.time * 1_000_000
    after_epoch (some n) = if n == 0 then d.time * 1_000_000 else n * 1_000

abbrev pub position_key : PositionRow → ℕ
position_key p = if p.identifier == 0 then p.ticket else p.identifier

abbrev pub is_buy : Deal → Bool
is_buy d = elim d.deal_type [ none ↦ false | some n ↦ n == 0 ]

abbrev pub is_entry : ℕ → Option ℕ → Bool
is_entry n none = false
is_entry n (some m) = m == n

abbrev pub unit_of : Bool → Decimal
unit_of true = of_int (pos 1)
unit_of false = of_int (negsuc 0)

-- The signed volume before a deal, and what stands for an opening that was not seen.
pub record Opening : Type 0 where
  pub signed_before : Decimal
  pub anchor_at : Option UtcTimestamp
  pub missing_open : Bool

unfoldable pub volume_before : Option Episode → Result Decimal
volume_before none = ok zero_d
volume_before (some e) = finite_decimal e.signed_volume

-- `anchors`
abbrev pub anchors_in : UtcTimestamp → ℕ → List Frame → List (Frame × PositionRow)
anchors_in at pid [] = []
anchors_in at pid (f ∷ fs) =
    let rest = anchors_in at pid fs in
    if ltb f.observed_at at
    then paired f (keep (λ (p : PositionRow). position_key p == pid) f.positions) ++ rest
    else rest
  where
    paired : Frame → List PositionRow → List (Frame × PositionRow)
    paired f [] = []
    paired f (p ∷ ps) = (f, p) ∷ paired f ps

unfoldable pub anchored : Option (Frame × PositionRow) → Result Opening
anchored none = ok (record { signed_before = zero_d; anchor_at = none; missing_open = true })
anchored (some a) = do
  v ← finite_decimal a.1.volume
  ok (record {
    signed_before = v *ᵈ unit_of (a.1.position_type == 0);
    anchor_at = some a.0.observed_at;
    missing_open = false;
  })

unfoldable pub opening_of :
    List Frame → UtcTimestamp → ℕ → Option Episode → Option ℕ → Decimal → Result Opening
opening_of frames at pid (some e) entry signed =
    ok (record { signed_before = signed; anchor_at = none; missing_open = false })
opening_of frames at pid none entry signed =
    if is_entry 0 entry
    then ok (record { signed_before = signed; anchor_at = none; missing_open = false })
    else anchored (last? (anchors_in at pid frames))

-- An exit without enough of an opening.
abbrev pub lacks_evidence : Opening → Option ℕ → Decimal → Decimal → Bool
lacks_evidence o entry sign after =
    (is_entry 2 entry && o.missing_open)
    || ((is_entry 1 entry || is_entry 3 entry)
        && (o.missing_open
            || (leb_d zero_d (o.signed_before *ᵈ sign)
                || ltb_d (abs_d o.signed_before) (abs_d after))))

abbrev pub is_none : Option UtcTimestamp → Bool
is_none none = true
is_none (some t) = false

-- `initial_positions`
abbrev pub initial_keys : List Frame → List PositionRow
initial_keys [] = []
initial_keys (f ∷ fs) = f.positions

abbrev pub was_initial : List Frame → ℕ → Bool
was_initial frames pid = any_of (λ (p : PositionRow). position_key p == pid) (initial_keys frames)

unfoldable pub new_episode :
    (EntityId → ℕ → ℕ → EntityId)
    → ObservationSession
    → List Frame
    → List Episode
    → Deal
    → Frame
    → Opening
    → Attribution
    → Decimal
    → Episode
new_episode episode_id_of session frames episodes row frame o attribution sign =
    let at = deal_time row in
    let direction = if eq_d o.signed_before zero_d then sign else o.signed_before in
    record {
      episode_id =
          episode_id_of session.session_id row.position_id
            (length (keep (is_of row.position_id) episodes) + 1);
      position_id = row.position_id;
      symbol = row.symbol;
      direction = if ltb_d zero_d direction then Direction.buy else Direction.sell;
      attribution = EpisodeAttribution.attributed attribution;
      first_seen_at = frame.observed_at;
      last_seen_at = frame.observed_at;
      opened_at = if is_none o.anchor_at then some at else none;
      is_preexisting = not (is_none o.anchor_at);
      closed_at = none;
      signed_volume = zero_d;
      deal_tickets = [];
      entry_volumes = [];
      entry_prices = [];
      exit_prices = [];
      scale_in_count = 0;
      partial_close_count = 0;
      reversal_count = 0;
      gross_pnl = some zero_d;
      commission = some zero_d;
      fee = some zero_d;
      swap = some zero_d;
      complete =
          not (ltb at session.started_at)
          && (not o.missing_open
              && (is_none o.anchor_at && not (was_initial frames row.position_id)));
      is_ambiguous = false;
      holding = none;
    }

-- `before[field]` plus what the deal says, when both are known.
unfoldable pub added : Option Decimal → Option Decimal → Result (Option Decimal)
added none v = ok none
added (some a) none = ok none
added (some a) (some v) = do a' ← finite_decimal a; v' ← finite_decimal v; ok (some (a' +ᵈ v'))

abbrev pub known_values : List (Option Decimal) → Option (List Decimal)
known_values [] = some []
known_values (none ∷ vs) = none
known_values (some v ∷ vs) = elim (known_values vs) [ none ↦ none | some rest ↦ some (v ∷ rest) ]

-- The sum of the four amounts, when all are known.
unfoldable pub net_of : Option (List Decimal) → Result (Option Decimal)
net_of none = ok none
net_of (some vs) = traverse finite_decimal vs >>= λ ns. ok (some (sum_d ns))

abbrev pub reverses : Decimal → Decimal → Bool
reverses before after = not (eq_d before zero_d) && ltb_d (after *ᵈ before) zero_d

abbrev pub increases : Decimal → Decimal → Bool
increases before sign = eq_d before zero_d || ltb_d zero_d (before *ᵈ sign)

abbrev pub kind_of : Decimal → Decimal → Decimal → Kind
kind_of before sign after =
    if reverses before after
    then Kind.position_reversed
    else if eq_d before zero_d
    then Kind.position_opened
    else if increases before sign
    then Kind.position_increased
    else if eq_d after zero_d
    then Kind.position_closed
    else Kind.position_reduced

unfoldable pub attributed_with : Attribution → Episode → Episode
attributed_with a e =
    if same_attribution a e.attribution
    then e
    else record e { attribution = EpisodeAttribution.conflicting; is_ambiguous = true }

unfoldable pub counted : Decimal → Decimal → Decimal → Decimal → Decimal → Episode → Episode
counted before sign after volume price e =
    if increases before sign
    then record e {
      entry_volumes = e.entry_volumes ++ volume ∷ [];
      entry_prices = e.entry_prices ++ price ∷ [];
      scale_in_count = if eq_d before zero_d then e.scale_in_count else e.scale_in_count + 1;
    }
    else record e {
      exit_prices = e.exit_prices ++ price ∷ [];
      partial_close_count =
          if not (eq_d after zero_d) && not (reverses before after)
          then e.partial_close_count + 1
          else e.partial_close_count;
    }

unfoldable pub reversed_by : Decimal → Decimal → Episode → Episode
reversed_by before after e =
    if reverses before after
    then record e {
      reversal_count = e.reversal_count + 1;
      is_ambiguous = true;
      complete = false;
      direction = Direction.mixed_reversal;
    }
    else e

abbrev pub held_for : UtcTimestamp → Bool → Option UtcTimestamp → Option ℤ
held_for at complete none = none
held_for at complete (some t) = if complete then some (sub_ℕ at t) else none

unfoldable pub closed_by : UtcTimestamp → Decimal → Episode → Episode
closed_by at after e =
    if eq_d after zero_d
    then record e { closed_at = some at; holding = held_for at e.complete e.opened_at }
    else e
