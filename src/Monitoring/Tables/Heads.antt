-- ===== src/Monitoring/Tables/Heads.antt =====
-- monitoring/journal.py: the head of a stream after the head of a stream is written.
use adaptive_trading_ecosyst.Prelude.{
  ℕ, ◌≡◌, refl, false, some, List, [], ◌∷◌, ◌==◌, find_first, String, arith,
}
use adaptive_trading_ecosyst.Monitoring.Tables.{HeadRow, update_head}

pub find_first-update_head :
    (stream n : ℕ) (hash : String) (hs : List HeadRow) (h : HeadRow)
    → find_first (λ (x : HeadRow). x.stream_id == stream) hs ≡ some h
    → find_first (λ (x : HeadRow). x.stream_id == stream) (update_head stream n hash hs)
      ≡ some (record h { sequence = n; event_hash = hash })
unfolding update_head
find_first-update_head stream n hash [] h e = cc
find_first-update_head stream n hash (x ∷ hs) h e =
    ground (arith, find_first-update_head stream n hash hs h)

pub find_first-update_head_other :
    (stream t n : ℕ) (hash : String) (hs : List HeadRow)
    → (stream == t) ≡ false
    → find_first (λ (x : HeadRow). x.stream_id == t) (update_head stream n hash hs)
      ≡ find_first (λ (x : HeadRow). x.stream_id == t) hs
unfolding update_head
find_first-update_head_other stream t n hash [] o = refl
find_first-update_head_other stream t n hash (x ∷ hs) o =
    ground (arith, find_first-update_head_other stream t n hash hs o)
