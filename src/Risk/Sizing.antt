-- ===== src/Risk/Sizing.antt =====
-- risk/engine.py, `evaluate`: the costs of a volume, the limits on it and the lattice of volumes.
use adaptive_trading_ecosyst.Prelude.{
  ℕ, ◌+◌, ◌-◌, ◌*◌, ◌/◌, ◌%◌, Bool, true, false, not, List, [], ◌∷◌, ◌==◌, if◌then◌else◌, String,
  Result, ok, ◌>>=◌, or_raise,
}
use adaptive_trading_ecosyst.Prelude.Int.{pos, negsuc}
use adaptive_trading_ecosyst.Decimal.{Decimal, of_int, leb_d, ltb_d, ◌+ᵈ◌, ◌-ᵈ◌, ◌*ᵈ◌, denominator}
use adaptive_trading_ecosyst.Domain.Arithmetic.{top}
use adaptive_trading_ecosyst.Portfolio.Contracts.{is_long, Economics, Quote}
use adaptive_trading_ecosyst.Portfolio.Fills.{direction_sign}
use adaptive_trading_ecosyst.Portfolio.Projection.{Snapshot}
use adaptive_trading_ecosyst.Risk.Contracts.{is_v0, limits, TradeIntent, Request}
use adaptive_trading_ecosyst.Risk.Lots.{lot_search}
use adaptive_trading_ecosyst.Risk.State.{reasons_of}

abbrev pub two : Decimal
two = of_int (pos 2)

-- A fifth
abbrev pub margin_share : Decimal
margin_share = record { coef = pos 20; exp = negsuc 1 }

abbrev pub entry_price : TradeIntent → Quote → Decimal
entry_price i q = if is_long i.direction then q.ask else q.bid

unfoldable pub stop_distance : TradeIntent → Quote → Decimal
stop_distance i q = direction_sign i.direction *ᵈ (entry_price i q -ᵈ i.fixed_stop)

-- The values that `costs` and `failures` read.
pub record Sizing : Type 0 where
  pub entry : Decimal
  pub equity : Decimal
  pub budget : Decimal
  pub risk_per_lot : Decimal
  pub fixed_cost : Decimal
  pub open_risk : Decimal
  pub used_margin : Decimal
  pub gross_exposure : Decimal

-- The known values of an active state are there.
unfoldable pub sizing_of : Request → Snapshot → Economics → Quote → Result Sizing
sizing_of r s e q = do
  equity ← or_raise s.accounting.equity "AssertionError"
  open_risk ← or_raise s.open_risk "AssertionError"
  used_margin ← or_raise s.used_margin "AssertionError"
  gross_exposure ← or_raise s.gross_exposure "AssertionError"
  let bounds = limits r.policy
  ok (record {
    entry = entry_price r.intent q;
    equity = equity;
    budget = equity *ᵈ bounds.trade;
    risk_per_lot =
        (stop_distance r.intent q +ᵈ two *ᵈ e.tick_size) *ᵈ e.usd_per_price_unit_per_lot
        +ᵈ two *ᵈ e.commission_per_lot_per_side;
    fixed_cost = two *ᵈ e.commission_fixed_per_side;
    open_risk = open_risk;
    used_margin = used_margin;
    gross_exposure = gross_exposure;
  })

unfoldable pub risk_of : Sizing → Decimal → Decimal
risk_of z volume = volume *ᵈ z.risk_per_lot +ᵈ z.fixed_cost

unfoldable pub margin_of : Economics → Decimal → Decimal
margin_of e volume = volume *ᵈ e.margin_per_lot

unfoldable pub notional_of : Economics → Sizing → Decimal → Decimal
notional_of e z volume = volume *ᵈ z.entry *ᵈ e.contract_size

-- `failures`
unfoldable pub failure_tests :
    Request → Snapshot → Economics → Sizing → Decimal → List (Bool × String)
failure_tests r s e z volume =
    (ltb_d z.budget (risk_of z volume), "NEW_EPISODE_RISK_LIMIT")
    ∷ (
      ltb_d (z.equity *ᵈ (limits r.policy).aggregate)
          (z.open_risk +ᵈ s.reserved_risk +ᵈ risk_of z volume),
      "AGGREGATE_RISK_LIMIT",
    )
    ∷ (
      ltb_d (z.equity *ᵈ margin_share) (z.used_margin +ᵈ s.reserved_margin +ᵈ margin_of e volume),
      "MARGIN_LIMIT",
    )
    ∷ (
      ltb_d (z.equity *ᵈ two) (z.gross_exposure +ᵈ s.reserved_exposure +ᵈ notional_of e z volume),
      "GROSS_NOTIONAL_LIMIT",
    )
    ∷ []

abbrev pub failures : Request → Snapshot → Economics → Sizing → Decimal → List String
failures r s e z volume = reasons_of (failure_tests r s e z volume)

abbrev pub no_failure : List String → Bool
no_failure [] = true
no_failure _ = false

abbrev pub volume_at : Economics → ℕ → Decimal
volume_at e n = e.volume_min +ᵈ of_int (pos n) *ᵈ e.volume_step

abbrev pub distance_of : ℕ → ℕ → ℕ
distance_of a b = (a - b) + (b - a)

-- The number of whole steps from the least to the greatest volume.
unfoldable pub last_step : Economics → ℕ
last_step e =
    (top e.volume_max * denominator e.volume_min - top e.volume_min * denominator e.volume_max)
    * denominator e.volume_step
    / (denominator e.volume_max * denominator e.volume_min * top e.volume_step)

unfoldable pub is_feasible : Request → Snapshot → Economics → Sizing → ℕ → Bool
is_feasible r s e z n =
    if is_v0 r.policy
    then no_failure (failures r s e z (volume_at e n))
    else leb_d (risk_of z (volume_at e n)) z.budget

-- The number of steps that the search chooses.
unfoldable pub chosen_step : Request → Snapshot → Economics → Sizing → ℕ
chosen_step r s e z = lot_search (last_step e) (is_feasible r s e z) 0 (last_step e)

-- The volume is no whole number of steps above the least one.
unfoldable pub off_lattice : Economics → Decimal → Bool
off_lattice e volume = not (
    distance_of (top volume * denominator e.volume_min) (top e.volume_min * denominator volume)
      * denominator e.volume_step
      % (denominator volume * denominator e.volume_min * top e.volume_step)
    == 0)
