-- ===== src/Workbench/Projects.antt =====
-- workbench/store.py: the history of a new project, and the current status that is shown of a project.
-- Whether an artifact is verified is what the storage of artifacts says, and a parameter.
use adaptive_trading_ecosyst.Prelude.{
  Bool, true, false, not, ◌&&◌, ◌||◌, Option, none, some, List, [], ◌∷◌, if◌then◌else◌, Result, ok,
  ◌>>=◌,
}
use adaptive_trading_ecosyst.Domain.Primitives.{EntityId}
use adaptive_trading_ecosyst.Workbench.Contracts.{
  Status, Binding, CandidateInput, is_draft, is_baseline_ready, transition, readiness,
}

pub data Verification : Type 0 where
  verified failed not_provided : Verification

-- `history` of `create_project`
unfoldable pub extend_history : Status → Result (List Status)
extend_history status = do
  registered ← transition Status.draft Status.candidate_registered
  final ← transition registered status
  ok (Status.draft ∷ registered ∷ final ∷ [])

unfoldable pub history_of : CandidateInput → Binding → Result (List Status)
history_of c b =
    let status = readiness c b in
    let rest = extend_history status in if is_draft status then ok (Status.draft ∷ []) else rest

abbrev pub verification_of : (EntityId → Bool) → Option EntityId → Verification
verification_of is_verified none = not_provided
verification_of is_verified (some i) = if is_verified i then verified else failed

abbrev pub is_verification : Verification → Bool
is_verification verified = true
is_verification v = false

abbrev pub is_failure : Verification → Bool
is_failure failed = true
is_failure v = false

-- What `detail` shows: the current status, and whether the baseline is ready.
pub record Shown : Type 0 where
  pub status : Status
  pub is_ready : Bool

unfoldable pub detail : (EntityId → Bool) → CandidateInput → Binding → Shown
detail is_verified c b =
    let ea = verification_of is_verified c.artifact_id in
    let manual = verification_of is_verified c.manual_id in
    let current = readiness c b in
    let status =
      if is_baseline_ready current && (not (is_verification ea) || is_failure manual)
      then Status.draft
      else current in
    record {
      status = status;
      is_ready = is_baseline_ready status && (is_verification ea && not (is_failure manual));
    }
