-- ===== src/Risk/State/Reasons.antt =====
-- risk/engine.py, `_state`: what it says that there is no reason.
use adaptive_trading_ecosyst.Prelude.{
  ◌≡◌, refl, Bool, true, false, List, [], ◌∷◌, ◌++◌, All, String,
}
use adaptive_trading_ecosyst.Risk.Contracts.{active}
use adaptive_trading_ecosyst.Risk.State.{reason_if, reasons_of, status_of}

pub append_empty : {A : Type 0} (xs ys : List A) → xs ++ ys ≡ [] → (xs ≡ []) × (ys ≡ [])
append_empty [] ys h = (refl, h)
append_empty (x ∷ xs) ys h = cc h

pub reason_if-empty : (b : Bool) (s : String) → reason_if b s ≡ [] → b ≡ false
reason_if-empty true s h = cc h
reason_if-empty false s h = refl

pub status_of-active : (hs ps : List String) → status_of hs ps ≡ active → (hs ≡ []) × (ps ≡ [])
status_of-active [] [] h = (refl, refl)
status_of-active [] (p ∷ ps) h = cc h
status_of-active (x ∷ hs) ps h = cc h

-- No reason is given when every test fails.
pub reasons_of-empty :
    (ts : List (Bool × String)) → reasons_of ts ≡ [] → All (λ (t : Bool × String). t.0 ≡ false) ts
reasons_of-empty [] h = tt
reasons_of-empty ((b, s) ∷ ts) h =
    let (first, others) = append_empty (reason_if b s) (reasons_of ts) h in
    (reason_if-empty b s first, reasons_of-empty ts others)
