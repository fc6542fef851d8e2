-- ===== src/Workbench/Tests.antt =====
-- A candidate with an artifact is bound to a symbol of its broker.
use adaptive_trading_ecosyst.Prelude.{
  ◌≡◌, refl, Bool, true, not, ◌&&◌, ◌==◌, none, some, List, [], ◌∷◌, ok, err,
}
use adaptive_trading_ecosyst.Domain.Primitives.{EntityId}
use adaptive_trading_ecosyst.Workbench.Contracts.{
  Status, CanonicalAsset, LicenseStatus, TesterAccess, Timeframe, Binding, CandidateInput,
  binding_ready, transition, readiness, is_authorized, is_available,
}
use adaptive_trading_ecosyst.Workbench.Projects.{
  extend_history, history_of, detail, verification_of, is_verification, is_failure,
}
use adaptive_trading_ecosyst.Workbench.Readiness.{Course, history_of-Course, detail-ready_iff}

unfoldable bundle : Unit {0}
unfolding binding_ready transition readiness extend_history history_of detail
bundle = tt

abbrev bound : Binding
bound = record {
  broker_name = "Broker";
  canonical_asset = CanonicalAsset.us100;
  broker_symbol = "USTECm";
  timeframe = Timeframe.m15;
  symbol_confirmed = true;
}

abbrev candidate : CandidateInput
candidate = record {
  artifact_id = some 3;
  manual_id = none;
  license_status = LicenseStatus.user_attested;
  tester_access_status = TesterAccess.unknown_access;
}

abbrev is_verified : EntityId → Bool
is_verified i = i == 3

candidate_history :
    history_of candidate bound
    ≡ ok (Status.draft ∷ Status.candidate_registered ∷ Status.baseline_ready ∷ [])
unfolding bundle
candidate_history = refl

skipping_registration_fails :
    transition Status.draft Status.baseline_ready ≡ err "TRANSITION_NOT_AVAILABLE_IN_PHASE5A"
unfolding bundle
skipping_registration_fails = refl

history_of-Course_example :
    (h : List Status) × (history_of candidate bound ≡ ok h)
    × Course Status.draft (readiness candidate bound) h
history_of-Course_example = history_of-Course candidate bound

detail-ready_iff_example : (detail is_verified candidate bound).is_ready ≡ (
    is_verification (verification_of is_verified (some 3))
    && (not (is_failure (verification_of is_verified none))
        && (is_authorized LicenseStatus.user_attested
            && (binding_ready bound && is_available TesterAccess.unknown_access))))
detail-ready_iff_example = detail-ready_iff is_verified candidate bound
