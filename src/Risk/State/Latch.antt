-- ===== src/Risk/State/Latch.antt =====
-- A halt is not left.
use adaptive_trading_ecosyst.Prelude.{
  ◌≡◌, refl, sym, ap, ◌∙◌, some, List, [], ◌∷◌, ◌++◌, String, ok, bind-eq-ok, guard-eq-ok,
  ok-injective,
}
use adaptive_trading_ecosyst.Portfolio.Projection.{Snapshot}
use adaptive_trading_ecosyst.Risk.Contracts.{halt_and_flatten, RiskState, Request}
use adaptive_trading_ecosyst.Risk.State.{
  reason_if, history_reasons, latched, pause_reasons, status_of, distinct, state_of, other_state,
}

-- The list has a first element.
abbrev IsFilled : List String → Type 0
IsFilled [] = ⊥
IsFilled (x ∷ xs) = Unit

status_of-filled : (hs ps : List String) → IsFilled hs → status_of hs ps ≡ halt_and_flatten
status_of-filled [] ps h = elim h [ ]
status_of-filled (x ∷ hs) ps h = refl

status_of-halted : (hs ps : List String) → status_of hs ps ≡ halt_and_flatten → IsFilled hs
status_of-halted [] [] h = cc h
status_of-halted [] (p ∷ ps) h = cc h
status_of-halted (x ∷ hs) ps h = tt

append-IsFilled : (xs ys : List String) → IsFilled xs → IsFilled (xs ++ ys)
append-IsFilled [] ys h = elim h [ ]
append-IsFilled (x ∷ xs) ys h = tt

distinct-IsFilled : (xs : List String) → IsFilled xs → IsFilled (distinct [] xs)
unfolding distinct
distinct-IsFilled [] h = h
distinct-IsFilled (x ∷ xs) h = tt

-- The two lists of reasons of which a state is made.
record Stated (r : Request) (s : Snapshot) (t : RiskState) : Type 0 where
  others : List String
  status : t.status ≡ status_of (latched r.prior_state ++ others) (pause_reasons r s)
  reasons : t.reasons ≡ distinct [] ((latched r.prior_state ++ others) ++ pause_reasons r s)

state_of-Stated : (r : Request) (s : Snapshot) (t : RiskState) → state_of r s ≡ ok t → Stated r s t
unfolding state_of
state_of-Stated r s t h =
    let (_, h1) = guard-eq-ok (other_state r.prior_state s.source.book.cash r) _ _ h in
    let (losses, _, h2) = bind-eq-ok (history_reasons r s [] r.history) _ h1 in
    let made = ok-injective h2 in
    record {
      others = losses ++ reason_if r.health.severe_breach "SEVERE_RECONCILIATION_OR_RISK_BREACH";
      status = sym (ap (λ (x : RiskState). x.status) made);
      reasons = sym (ap (λ (x : RiskState). x.reasons) made);
    }

halted-IsFilled :
    (r : Request) (s : Snapshot) (t : RiskState)
    → state_of r s ≡ ok t
    → t.status ≡ halt_and_flatten
    → IsFilled t.reasons
halted-IsFilled r s t h halted =
    let w = state_of-Stated r s t h in
    rw w.reasons (
      distinct-IsFilled _ (
        append-IsFilled _ (pause_reasons r s)
          (status_of-halted _ (pause_reasons r s) (sym w.status ∙ halted))))

latched-halted : (t : RiskState) → t.status ≡ halt_and_flatten → latched (some t) ≡ t.reasons
latched-halted t h = rw h refl

-- When a state is halted, every state that a later request with it as the prior state reaches is
-- halted too.
pub state_of-latched :
    (r : Request) (s : Snapshot) (prior : RiskState) (later : Request) (now : Snapshot)
    (t : RiskState)
    → state_of r s ≡ ok prior
    → prior.status ≡ halt_and_flatten
    → later.prior_state ≡ some prior
    → state_of later now ≡ ok t
    → t.status ≡ halt_and_flatten
state_of-latched r s prior later now t before halted carried after =
    let w = state_of-Stated later now t after in
    let kept : latched later.prior_state ≡ prior.reasons =
      ap latched carried ∙ latched-halted prior halted in
    w.status
    ∙ status_of-filled _ (pause_reasons later now) (
        append-IsFilled (latched later.prior_state) w.others
          (rw kept (halted-IsFilled r s prior before halted)))
