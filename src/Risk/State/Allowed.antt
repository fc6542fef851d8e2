-- ===== src/Risk/State/Allowed.antt =====
-- risk/engine.py, `_state`: the accounts, the policies and the modes that may enter a position.
use adaptive_trading_ecosyst.Prelude.{
  ◌≡◌, ◌⊎◌, inl, inr, refl, true, false, not, List, [], ◌∷◌, All, any_of, or_false, arith,
}
use adaptive_trading_ecosyst.Domain.Primitives.{
  RuntimeMode, research, backtest, paper_forward, demo_qualification, demo_operational,
}
use adaptive_trading_ecosyst.Portfolio.Contracts.{Direction, long, short, is_long, Position}
use adaptive_trading_ecosyst.Portfolio.Projection.{Snapshot}
use adaptive_trading_ecosyst.Risk.Contracts.{
  v0_conservative, hr_demo_5pct, AccountKind, simulated, demo, real, unknown, Request,
}
use adaptive_trading_ecosyst.Risk.State.{
  reasons_of, account_tests, is_real_or_unknown, is_demo, is_experimental_mode,
}
use adaptive_trading_ecosyst.Risk.State.Reasons.{reasons_of-empty}

-- The account is no real or unknown one, and a demonstration in the two demonstration modes. The
-- conservative policy holds long positions only; the experimental one is for three modes.
pub record IsAllowed (r : Request) (s : Snapshot) : Type 0 where
  pub kind : (r.health.account_kind ≡ simulated) ⊎ (r.health.account_kind ≡ demo)
  pub qualified : r.mode ≡ demo_qualification → r.health.account_kind ≡ demo
  pub operational : r.mode ≡ demo_operational → r.health.account_kind ≡ demo
  pub long_only :
      r.policy ≡ v0_conservative
      → All (λ (p : Position). p.direction ≡ long) s.source.book.positions
  pub experimental :
      r.policy ≡ hr_demo_5pct
      → (r.mode ≡ backtest) ⊎ (r.mode ≡ paper_forward) ⊎ (r.mode ≡ demo_qualification)

known_kind : (k : AccountKind) → is_real_or_unknown k ≡ false → (k ≡ simulated) ⊎ (k ≡ demo)
known_kind simulated h = inl refl
known_kind demo h = inr refl
known_kind real h = cc
known_kind unknown h = cc

demo_kind : (k : AccountKind) → is_demo k ≡ true → k ≡ demo
demo_kind demo h = refl
demo_kind simulated h = cc
demo_kind real h = cc
demo_kind unknown h = cc

experimental_modes :
    (m : RuntimeMode)
    → is_experimental_mode m ≡ true
    → (m ≡ backtest) ⊎ (m ≡ paper_forward) ⊎ (m ≡ demo_qualification)
experimental_modes backtest h = inl refl
experimental_modes paper_forward h = inr (inl refl)
experimental_modes demo_qualification h = inr (inr refl)
experimental_modes research h = cc
experimental_modes demo_operational h = cc

long_direction : (d : Direction) → not (is_long d) ≡ false → d ≡ long
long_direction long h = refl
long_direction short h = cc h

all_long :
    (ps : List Position)
    → any_of (λ (p : Position). not (is_long p.direction)) ps ≡ false
    → All (λ (p : Position). p.direction ≡ long) ps
all_long [] h = tt
all_long (p ∷ ps) h =
    let (a, b) = or_false (not (is_long p.direction)) _ h in
    (long_direction p.direction a, all_long ps b)

pub reasons_of-IsAllowed :
    (r : Request) (s : Snapshot) → reasons_of (account_tests r s) ≡ [] → IsAllowed r s
reasons_of-IsAllowed r s e =
    let (unsold, e₁) = reasons_of-empty (account_tests r s) e in
    let (kind, e₂) = e₁ in
    let (demonstration, e₃) = e₂ in
    let (experiment, _) = e₃ in
    record {
      kind = known_kind r.health.account_kind kind;
      qualified =
          λ m. demo_kind r.health.account_kind (let d = rw m at demonstration in ground arith);
      operational =
          λ m. demo_kind r.health.account_kind (let d = rw m at demonstration in ground arith);
      long_only = λ v. all_long s.source.book.positions (rw v at unsold);
      experimental = λ v. experimental_modes r.mode (let x = rw v at experiment in ground arith);
    }
