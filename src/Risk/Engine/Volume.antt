-- ===== src/Risk/Engine/Volume.antt =====
-- risk/engine.py, `evaluate`: the volume that the search chooses and the limits that it is within.
use mathlib.Core.Path.{subst}
use adaptive_trading_ecosyst.Prelude.{
  ℕ, ◌+◌, ◌≡◌, ◌⊎◌, inl, inr, refl, false, [], not-false, and_true, arith,
}
use adaptive_trading_ecosyst.Prelude.Int.{pos}
use adaptive_trading_ecosyst.Decimal.{Decimal, of_int, leb_d, ◌+ᵈ◌, ◌*ᵈ◌}
use adaptive_trading_ecosyst.Decimal.Order.{◌≤ᵈ◌}
use adaptive_trading_ecosyst.Portfolio.Contracts.{Economics}
use adaptive_trading_ecosyst.Portfolio.Projection.{Snapshot}
use adaptive_trading_ecosyst.Risk.Contracts.{Request}
use adaptive_trading_ecosyst.Risk.Lots.Search.{lot_search-IsPeak}
use adaptive_trading_ecosyst.Risk.Sizing.{
  Sizing, failures, volume_at, chosen_step, last_step, is_feasible, off_lattice,
}
use adaptive_trading_ecosyst.Risk.Engine.{out_of_range}
use adaptive_trading_ecosyst.Risk.Engine.Costs.{
  InLimits, failures-InLimits, Breaks, is_feasible-Breaks,
}
use adaptive_trading_ecosyst.Risk.Engine.Steps.{
  Fits, OnSteps, HasRange, Fits-of_le, not_Fits-last_step, off_lattice-OnSteps,
}

-- The volume is between the least and the greatest, on the lattice of the broker and within every
-- limit.
pub record WithinLimits (r : Request) (s : Snapshot) (e : Economics) (z : Sizing) (volume : Decimal)
    : Type 0 where
  pub limited : InLimits r s e z volume
  pub at_least : e.volume_min ≤ᵈ volume
  pub at_most : volume ≤ᵈ e.volume_max
  pub on_lattice : OnSteps e volume

pub within_limits :
    (r : Request) (s : Snapshot) (e : Economics) (z : Sizing) (volume : Decimal)
    → HasRange e
    → failures r s e z volume ≡ []
    → off_lattice e volume ≡ false
    → out_of_range e volume ≡ false
    → WithinLimits r s e z volume
unfolding out_of_range
within_limits r s e z volume ranged h lattice range =
    let (low, high) = and_true (leb_d e.volume_min volume) _ (not-false _ range) in
    record {
      limited = failures-InLimits r s e z volume h;
      at_least = low;
      at_most = high;
      on_lattice = off_lattice-OnSteps e ranged volume low lattice;
    }

-- The volume is a number of steps above the least one. They fit below the greatest, and one step more would
-- not, or would break a limit.
pub record IsLargest (r : Request) (s : Snapshot) (e : Economics) (z : Sizing) (volume : Decimal)
    : Type 0 where
  pub steps : ℕ
  pub chosen : volume ≡ e.volume_min +ᵈ of_int (pos steps) *ᵈ e.volume_step
  pub fits : Fits e steps
  pub maximal :
      (¬ Fits e (steps + 1))
      ⊎ Breaks r.policy r s e z (e.volume_min +ᵈ of_int (pos (steps + 1)) *ᵈ e.volume_step)

pub chosen_step-IsLargest :
    (r : Request) (s : Snapshot) (e : Economics) (z : Sizing)
    → HasRange e
    → IsLargest r s e z (volume_at e (chosen_step r s e z))
unfolding chosen_step
chosen_step-IsLargest r s e z ranged =
    let peak =
      lot_search-IsPeak (last_step e) (is_feasible r s e z) 0 (last_step e) (omega arith)
        (omega arith) in
    record {
      steps = chosen_step r s e z;
      chosen = refl;
      fits = Fits-of_le e ranged _ peak.below;
      maximal = elim peak.maximal [
        | inl last ↦
            inl (λ fits. not_Fits-last_step e ranged (subst (λ (n : ℕ). Fits e (n + 1)) last fits))
        | inr stop ↦ inr (is_feasible-Breaks r s e z _ r.policy refl stop)
      ];
    }
