-- ===== src/Workbench/Readiness.antt =====
-- workbench/contracts.py and store.py: the history of a project is a path of allowed transitions to its
-- readiness, and what a ready baseline stands on.
use adaptive_trading_ecosyst.Prelude.{
  arith, ◌||◌, ◌≡◌, refl, Bool, true, false, not, ◌&&◌, Option, none, some, List, [], ◌∷◌, inl, inr,
  Bool-cases, if◌then◌else◌, ok,
}
use adaptive_trading_ecosyst.Domain.Primitives.{EntityId}
use adaptive_trading_ecosyst.Workbench.Contracts.{
  Status, Binding, CandidateInput, binding_ready, transition, is_authorized, is_available, is_given,
  is_baseline_ready, readiness,
}
use adaptive_trading_ecosyst.Workbench.Projects.{
  extend_history, history_of, verification_of, is_verification, is_failure, detail,
}

-- One status after another, by transitions that are allowed.
pub data Course : Status → Status → List Status → Type 0 where
  start : (s : Status) → Course s s (s ∷ [])
  step :
      (s t u : Status) (rest : List Status)
      → transition s t ≡ ok t
      → Course t u rest
      → Course s u (s ∷ rest)

registered_to :
    (s : Status)
    → transition Status.candidate_registered s ≡ ok s
    → (h : List Status) × (extend_history s ≡ ok h) × Course Status.draft s h
unfolding extend_history transition
registered_to s allowed = (
  Status.draft ∷ Status.candidate_registered ∷ s ∷ [],
  rw allowed refl,
  Course.step Status.draft Status.candidate_registered s _ refl
      (Course.step Status.candidate_registered s s _ allowed (Course.start s)),
)

-- The history of a new project is there for every candidate and binding, and leads from a draft to
-- the readiness of the candidate by allowed transitions.
pub history_of-Course :
    (c : CandidateInput) (b : Binding)
    → (h : List Status) × (history_of c b ≡ ok h) × Course Status.draft (readiness c b) h
unfolding history_of readiness transition
history_of-Course c b = elim (Bool-cases (is_given c.artifact_id)) [
  | inr absent ↦ rw absent (Status.draft ∷ [], refl, Course.start Status.draft)
  | inl given ↦ rw given (elim (Bool-cases (is_authorized c.license_status)) [
    | inr refused ↦ rw refused (registered_to Status.blocked_license refl)
    | inl licensed ↦ rw licensed (elim (Bool-cases (binding_ready b)) [
      | inr unbound ↦ rw unbound (registered_to Status.blocked_symbol refl)
      | inl bound ↦ rw bound (elim (Bool-cases (is_available c.tester_access_status)) [
        | inr closed ↦ rw closed (registered_to Status.blocked_tester_access refl)
        | inl usable ↦ rw usable (registered_to Status.baseline_ready refl)
      ])
    ])
  ])
]

is_verification-none :
    (is_verified : EntityId → Bool) (o : Option EntityId)
    → is_given o ≡ false
    → is_verification (verification_of is_verified o) ≡ false
is_verification-none is_verified none h = refl
is_verification-none is_verified (some i) h = cc

shown_ready :
    (v f : Bool)
    → (is_baseline_ready (if true && (not v || f) then Status.draft else Status.baseline_ready)
        && (v && not f))
      ≡ (v && (not f && (true && (true && true))))
shown_ready true true = refl
shown_ready true false = refl
shown_ready false true = refl
shown_ready false false = refl

-- The baseline of a project is shown as ready exactly when the candidate has an artifact that is
-- verified, its manual is not one that fails, its license is not refused, its binding is ready and
-- the tester is not unavailable.
pub detail-ready_iff :
    (is_verified : EntityId → Bool) (c : CandidateInput) (b : Binding)
    → (detail is_verified c b).is_ready ≡ (
        is_verification (verification_of is_verified c.artifact_id)
        && (not (is_failure (verification_of is_verified c.manual_id))
            && (is_authorized c.license_status
                && (binding_ready b && is_available c.tester_access_status))))
unfolding detail readiness
detail-ready_iff is_verified c b =
    let missing = is_verification-none is_verified c.artifact_id in
    elim (Bool-cases (is_given c.artifact_id)) [
      | inr absent ↦ let unseen = missing absent in rw (absent, unseen) (ground arith)
      | inl given ↦ rw given (elim (Bool-cases (is_authorized c.license_status)) [
        | inr refused ↦ rw refused (ground arith)
        | inl licensed ↦ rw licensed (elim (Bool-cases (binding_ready b)) [
          | inr unbound ↦ rw unbound (ground arith)
          | inl bound ↦ rw bound (elim (Bool-cases (is_available c.tester_access_status)) [
            | inr closed ↦ rw closed (ground arith)
            | inl usable ↦ rw usable (
                shown_ready (is_verification (verification_of is_verified c.artifact_id))
                  (is_failure (verification_of is_verified c.manual_id)))
          ])
        ])
      ])
    ]
