-- ===== src/Workbench/Contracts.antt =====
-- workbench/contracts.py: the status of a project, its transitions, and what makes a candidate ready.
-- The fields are those that the readiness reads.
use adaptive_trading_ecosyst.Prelude.{
  Bool, true, false, not, ◌&&◌, ◌||◌, Option, none, some, if◌then◌else◌, String, str_eq, Result, ok,
  ◌>>◌, raise_if,
}
use adaptive_trading_ecosyst.Domain.Primitives.{EntityId}

pub data Status : Type 0 where
  draft candidate_registered baseline_ready baseline_running baseline_complete : Status
  tuning_ready behavior_ready forward_ready : Status
  blocked_license blocked_symbol blocked_tester blocked_tester_access blocked_attribution : Status
  failed_baseline : Status

pub data CanonicalAsset : Type 0 where
  btcusd xauusd ustec100 us100 unknown_asset : CanonicalAsset

pub data LicenseStatus : Type 0 where
  unknown_license user_attested not_authorized : LicenseStatus

pub data TesterAccess : Type 0 where
  unknown_access user_confirmed unavailable : TesterAccess

pub data Timeframe : Type 0 where
  m1 m5 m15 m30 h1 h4 d1 unknown_timeframe : Timeframe

-- `MAPPINGS`
abbrev pub mapping : CanonicalAsset → Option String
mapping btcusd = some "BTCUSDm"
mapping xauusd = some "XAUUSDm"
mapping ustec100 = some "USTECm"
mapping us100 = some "USTECm"
mapping unknown_asset = none

pub record Binding : Type 0 where
  pub broker_name : String
  pub canonical_asset : CanonicalAsset
  pub broker_symbol : String
  pub timeframe : Timeframe
  pub symbol_confirmed : Bool

pub record CandidateInput : Type 0 where
  pub artifact_id : Option EntityId
  pub manual_id : Option EntityId
  pub license_status : LicenseStatus
  pub tester_access_status : TesterAccess

abbrev pub is_mapped : Option String → String → Bool
is_mapped none symbol = false
is_mapped (some s) symbol = str_eq s symbol

abbrev pub is_known_timeframe : Timeframe → Bool
is_known_timeframe unknown_timeframe = false
is_known_timeframe t = true

-- `Binding.ready`
unfoldable pub binding_ready : Binding → Bool
binding_ready b =
    b.symbol_confirmed
    && (not (str_eq b.broker_name "UNKNOWN")
        && (is_known_timeframe b.timeframe
            && is_mapped (mapping b.canonical_asset) b.broker_symbol))

abbrev pub is_blocked : Status → Bool
is_blocked blocked_license = true
is_blocked blocked_symbol = true
is_blocked blocked_tester = true
is_blocked blocked_tester_access = true
is_blocked blocked_attribution = true
is_blocked s = false

abbrev pub is_baseline_ready : Status → Bool
is_baseline_ready baseline_ready = true
is_baseline_ready s = false

abbrev pub is_registered : Status → Bool
is_registered candidate_registered = true
is_registered s = false

abbrev pub is_draft : Status → Bool
is_draft draft = true
is_draft s = false

-- `target in allowed.get(current, set())`
abbrev pub is_allowed : Status → Status → Bool
is_allowed current target =
    (is_draft current && is_registered target)
    || ((is_registered current && (is_baseline_ready target || is_blocked target))
        || (is_blocked current && is_registered target))

unfoldable pub transition : Status → Status → Result Status
transition current target = do
  raise_if (not (is_allowed current target)) "TRANSITION_NOT_AVAILABLE_IN_PHASE5A"
  ok target

abbrev pub is_authorized : LicenseStatus → Bool
is_authorized not_authorized = false
is_authorized s = true

abbrev pub is_available : TesterAccess → Bool
is_available unavailable = false
is_available s = true

abbrev pub is_given : Option EntityId → Bool
is_given none = false
is_given (some i) = true

unfoldable pub readiness : CandidateInput → Binding → Status
readiness c b =
    if not (is_given c.artifact_id)
    then draft
    else if not (is_authorized c.license_status)
    then blocked_license
    else if not (binding_ready b)
    then blocked_symbol
    else if not (is_available c.tester_access_status)
    then blocked_tester_access
    else baseline_ready
