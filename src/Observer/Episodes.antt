-- ===== src/Observer/Episodes.antt =====
-- observer/replay.py: the position episodes and the events that a replay collects. The text of a
-- decimal is its value. The events that come from the polled state of a frame are left out.
use adaptive_trading_ecosyst.Prelude.{
  same_text, ℕ, Bool, true, false, ◌&&◌, Option, none, some, List, [], ◌∷◌, ◌==◌, find_first,
  if◌then◌else◌, String, str_eq,
}
use adaptive_trading_ecosyst.Prelude.Int.{ℤ}
use adaptive_trading_ecosyst.Decimal.{Decimal}
use adaptive_trading_ecosyst.Domain.Primitives.{EntityId, UtcTimestamp}
use adaptive_trading_ecosyst.Observer.Contracts.{source_rank, confidence_rank, Attribution, Deal}

pub data Direction : Type 0 where
  buy sell mixed_reversal : Direction

-- What an episode says of its source: an attribution, or that the deals disagree.
pub data EpisodeAttribution : Type 0 where
  attributed : Attribution → EpisodeAttribution
  conflicting : EpisodeAttribution

-- An episode is `active` as long as it has no time of closing.
pub record Episode : Type 0 where
  pub episode_id : EntityId
  pub position_id : ℕ
  pub symbol : String
  pub direction : Direction
  pub attribution : EpisodeAttribution
  pub first_seen_at : UtcTimestamp
  pub last_seen_at : UtcTimestamp
  pub opened_at : Option UtcTimestamp
  pub is_preexisting : Bool
  pub closed_at : Option UtcTimestamp
  pub signed_volume : Decimal
  pub deal_tickets : List ℕ
  pub entry_volumes : List Decimal
  pub entry_prices : List Decimal
  pub exit_prices : List Decimal
  pub scale_in_count : ℕ
  pub partial_close_count : ℕ
  pub reversal_count : ℕ
  pub gross_pnl : Option Decimal
  pub commission : Option Decimal
  pub fee : Option Decimal
  pub swap : Option Decimal
  pub complete : Bool
  pub is_ambiguous : Bool
  pub holding : Option ℤ

pub data Kind : Type 0 where
  deal_observed recovered_state position_opened position_increased position_reduced : Kind
  position_closed position_reversed : Kind

pub record TradeValues : Type 0 where
  pub deal_ticket : ℕ
  pub is_buy : Bool
  pub volume : Decimal
  pub price : Decimal
  pub old_volume : Decimal
  pub remaining_volume : Decimal
  pub opened_volume : Decimal
  pub closed_volume : Decimal
  pub net_observed_pnl : Option Decimal

pub data Values : Type 0 where
  observed insufficient : Deal → Values
  trade : Deal → TradeValues → Values

pub record LifecycleEvent : Type 0 where
  pub kind : Kind
  pub observed_at : UtcTimestamp
  pub broker_at : UtcTimestamp
  pub recovered_state : Bool
  pub attribution : Attribution
  pub position_id : ℕ
  pub values : Values

pub record Replay : Type 0 where
  pub events : List LifecycleEvent
  pub episodes : List Episode

abbrev pub same_texts : List String → List String → Bool
same_texts [] [] = true
same_texts [] (t ∷ ts) = false
same_texts (s ∷ ss) [] = false
same_texts (s ∷ ss) (t ∷ ts) = str_eq s t && same_texts ss ts

abbrev pub same_attribution : Attribution → EpisodeAttribution → Bool
same_attribution a conflicting = false
same_attribution a (attributed b) =
    source_rank a.source == source_rank b.source
    && (confidence_rank a.confidence == confidence_rank b.confidence
        && (same_text a.candidate_id b.candidate_id
            && (same_texts a.matching_candidates b.matching_candidates
                && same_text a.evidence_reference b.evidence_reference)))

abbrev pub is_open : Option UtcTimestamp → Bool
is_open none = true
is_open (some t) = false

abbrev pub is_of : ℕ → Episode → Bool
is_of pid e = e.position_id == pid

abbrev pub is_active : ℕ → Episode → Bool
is_active pid e = is_of pid e && is_open e.closed_at

-- `active.get(pid)`
abbrev pub active_of : ℕ → List Episode → Option Episode
active_of pid episodes = find_first (is_active pid) episodes

-- The object of `active[pid]` is changed where it stands among the episodes.
unfoldable pub set_active : ℕ → Episode → List Episode → List Episode
set_active pid e [] = []
set_active pid e (x ∷ xs) =
    let rest = set_active pid e xs in if is_active pid x then e ∷ xs else x ∷ rest
