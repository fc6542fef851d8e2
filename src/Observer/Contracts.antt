-- ===== src/Observer/Contracts.antt =====
-- observer/contracts.py: the registry of candidates, the frames of a session, and the attribution of a
-- row to a candidate. The fields of a row are those that the replay of deals reads.
use adaptive_trading_ecosyst.Prelude.{
  ℕ, Bool, true, false, not, ◌&&◌, Option, none, some, List, [], ◌∷◌, ◌==◌, keep, any_of,
  if◌then◌else◌, String, str_eq,
}
use adaptive_trading_ecosyst.Decimal.{Decimal}
use adaptive_trading_ecosyst.Domain.Primitives.{EntityId, UtcTimestamp}
use adaptive_trading_ecosyst.Observer.Texts.{text_before}

pub data Source : Type 0 where
  internal_strategy external_ea manual unknown_source : Source

abbrev pub source_rank : Source → ℕ
source_rank internal_strategy = 0
source_rank external_ea = 1
source_rank manual = 2
source_rank unknown_source = 3

pub data Confidence : Type 0 where
  known probable ambiguous unknown_confidence : Confidence

abbrev pub confidence_rank : Confidence → ℕ
confidence_rank known = 0
confidence_rank probable = 1
confidence_rank ambiguous = 2
confidence_rank unknown_confidence = 3

pub record Candidate : Type 0 where
  pub ea_id : String
  pub magic_numbers : List ℕ
  pub symbols : List String
  pub comment : Option String
  pub source : Source
  pub attribution_reference : Option String
  pub exclusive_binding : Bool
  pub is_active : Bool

pub record ObservationSession : Type 0 where
  pub session_id : EntityId
  pub started_at : UtcTimestamp
  pub candidates : List Candidate

pub record Attribution : Type 0 where
  pub source : Source
  pub confidence : Confidence
  pub candidate_id : Option String
  pub matching_candidates : List String
  pub evidence_reference : Option String

pub record Deal : Type 0 where
  pub ticket : ℕ
  pub time : ℕ
  pub time_msc : Option ℕ
  pub position_id : ℕ
  pub deal_type : Option ℕ
  pub entry : Option ℕ
  pub volume : Decimal
  pub price : Decimal
  pub profit : Option Decimal
  pub commission : Option Decimal
  pub fee : Option Decimal
  pub swap : Option Decimal
  pub symbol : String
  pub magic : Option ℕ
  pub comment : Option String

pub record PositionRow : Type 0 where
  pub identifier : ℕ
  pub ticket : ℕ
  pub position_type : ℕ
  pub volume : Decimal

pub record Frame : Type 0 where
  pub session_id : EntityId
  pub sequence : ℕ
  pub observed_at : UtcTimestamp
  pub recovered : Bool
  pub positions : List PositionRow
  pub deals : List Deal

abbrev pub insert_text : String → List String → List String
insert_text s [] = s ∷ []
insert_text s (x ∷ xs) =
    let rest = insert_text s xs in if text_before s x then s ∷ x ∷ xs else x ∷ rest

-- `sorted`
abbrev pub sort_texts : List String → List String
sort_texts [] = []
sort_texts (x ∷ xs) = insert_text x (sort_texts xs)

abbrev pub holds_magic : Option ℕ → List ℕ → Bool
holds_magic none ns = false
holds_magic (some m) ns = any_of (λ (n : ℕ). m == n) ns

abbrev pub comment_agrees : Option String → Option String → Bool
comment_agrees none found = true
comment_agrees (some s) none = false
comment_agrees (some s) (some t) = str_eq s t

abbrev pub is_text : Option String → Bool
is_text none = false
is_text (some s) = not (str_eq s "")

abbrev pub is_match : Option ℕ → String → Option String → Candidate → Bool
is_match magic symbol comment c =
    c.is_active
    && (holds_magic magic c.magic_numbers
        && (any_of (str_eq symbol) c.symbols && comment_agrees c.comment comment))

abbrev pub ea_ids : List Candidate → List String
ea_ids [] = []
ea_ids (c ∷ cs) = c.ea_id ∷ ea_ids cs

abbrev pub is_bound : Candidate → Bool
is_bound c = c.exclusive_binding && is_text c.attribution_reference

abbrev pub attribute_to : List Candidate → Attribution
attribute_to [] = record {
  source = Source.unknown_source;
  confidence = Confidence.unknown_confidence;
  candidate_id = none;
  matching_candidates = [];
  evidence_reference = none;
}
attribute_to (c ∷ []) = record {
  source = if is_bound c then c.source else Source.unknown_source;
  confidence = if is_bound c then Confidence.known else Confidence.probable;
  candidate_id = some c.ea_id;
  matching_candidates = c.ea_id ∷ [];
  evidence_reference = c.attribution_reference;
}
attribute_to (c ∷ b ∷ cs) = record {
  source = Source.unknown_source;
  confidence = Confidence.ambiguous;
  candidate_id = none;
  matching_candidates = sort_texts (ea_ids (c ∷ b ∷ cs));
  evidence_reference = none;
}

unfoldable pub attribute : Option ℕ → String → Option String → List Candidate → Attribution
attribute magic symbol comment candidates =
    attribute_to (keep (is_match magic symbol comment) candidates)
