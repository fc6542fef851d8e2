-- ===== src/Monitoring/Tables/Sources.antt =====
-- monitoring/journal.py: the mapping of sources that the replay builds, and the table of source heads
-- that has to agree with it.
use mathlib.Core.List.{append-nil}
use adaptive_trading_ecosyst.Prelude.{
  ℕ, ◌≡◌, refl, true, false, not, Option, none, some, List, [], ◌∷◌, ◌==◌, inl, inr, Bool-cases,
  and_true, sym, or_else-none, if◌then◌else◌, keep, find_first, all_of, keep-append, keep-keep,
  find_first-append, find_first-keep, find_first-holds, all_of-append, all_of-keep, arith,
}
use adaptive_trading_ecosyst.Domain.Primitives.{EntityId}
use adaptive_trading_ecosyst.Monitoring.Tables.{
  SourceRow, is_source, source_of, put_source, same_source_row, holds, same_sources, has_source,
  merged_source, upsert_source,
}

gone :
    (r : SourceRow) (rows : List SourceRow)
    → find_first
        (is_source r.source_instance_id)
        (keep (λ (x : SourceRow). not (is_source r.source_instance_id x)) rows)
      ≡ none
gone r [] = refl
gone r (x ∷ rows) = ground (arith, gone r rows)

-- The mapping after an assignment.
pub source_of-put_source :
    (i : EntityId) (r : SourceRow) (rows : List SourceRow)
    → source_of i (put_source r rows)
      ≡ (if r.source_instance_id == i then some r else source_of i rows)
unfolding put_source
source_of-put_source i r rows =
    let kept = λ (x : SourceRow). not (is_source r.source_instance_id x) in
    elim (Bool-cases (r.source_instance_id == i)) [
      | inl e ↦
          rw (find_first-append (is_source i) (keep kept rows) (r ∷ []), e)
            (let same : i ≡ r.source_instance_id = ground arith in rw same (rw (gone r rows) refl))
      | inr e ↦
          rw (find_first-append (is_source i) (keep kept rows) (r ∷ []), e)
            (rw
              (find_first-keep (is_source i) kept rows
                (λ (x : SourceRow) (h : is_source i x ≡ true). ground (arith, e)))
              (or_else-none (find_first (is_source i) rows)))
    ]

-- A mapping holds what it held, of another source.
holds-put_source :
    (r : SourceRow) (rows : List SourceRow) (x : SourceRow)
    → holds rows x ≡ true
    → not (is_source r.source_instance_id x) ≡ true
    → holds (put_source r rows) x ≡ true
holds-put_source r rows x h o =
    let other : (r.source_instance_id == x.source_instance_id) ≡ false = ground arith in
    rw (source_of-put_source x.source_instance_id r rows, other) h

holds_new :
    (r m : SourceRow) (rows : List SourceRow)
    → r.source_instance_id ≡ m.source_instance_id
    → same_source_row r m ≡ true
    → holds (put_source r rows) m ≡ true
holds_new r m rows e h =
    let own : (r.source_instance_id == m.source_instance_id) ≡ true = ground arith in
    rw (source_of-put_source m.source_instance_id r rows, own) h

-- One inclusion between two mappings, after an assignment of the same value in both.
includes-put_source :
    (r m : SourceRow) (b a : List SourceRow)
    → r.source_instance_id ≡ m.source_instance_id
    → same_source_row r m ≡ true
    → all_of (holds b) a ≡ true
    → all_of (holds (put_source r b)) (put_source m a) ≡ true
unfolding put_source
includes-put_source r m b a e h inside =
    let kept = λ (x : SourceRow). not (is_source m.source_instance_id x) in
    let old : all_of (holds (put_source r b)) (keep kept a) ≡ true =
      all_of-keep (holds b) (holds (put_source r b)) kept a inside
        (λ (x : SourceRow) (p : holds b x ≡ true) (q : kept x ≡ true).
          holds-put_source r b x p (rw e q)) in
    rw (all_of-append (holds (put_source r b)) (keep kept a) (m ∷ []))
      (rw (old, holds_new r m b e h) refl)

same_source_row_sym : (r m : SourceRow) → same_source_row r m ≡ true → same_source_row m r ≡ true
same_source_row_sym r m h = ground arith

pub same_sources-put_source :
    (r m : SourceRow) (a b : List SourceRow)
    → r.source_instance_id ≡ m.source_instance_id
    → same_source_row r m ≡ true
    → same_sources a b ≡ true
    → same_sources (put_source m a) (put_source r b) ≡ true
unfolding same_sources
same_sources-put_source r m a b e h s =
    let (forward, backward) = and_true (all_of (holds b) a) (all_of (holds a) b) s in
    rw (includes-put_source r m b a e h forward)
      (includes-put_source m r a b (sym e) (same_source_row_sym r m h) backward)

keep-has_source :
    (r : SourceRow) (rows : List SourceRow)
    → keep
        (λ (x : SourceRow). x.stream_id == r.stream_id)
        (keep (λ (x : SourceRow). not (has_source r x)) rows)
      ≡ keep
          (λ (x : SourceRow). not (is_source r.source_instance_id x))
          (keep (λ (x : SourceRow). x.stream_id == r.stream_id) rows)
keep-has_source r [] = refl
keep-has_source r (x ∷ rows) = ground (arith, keep-has_source r rows)

find_first-has_source :
    (r : SourceRow) (rows : List SourceRow)
    → find_first (has_source r) rows
      ≡ source_of r.source_instance_id (keep (λ (x : SourceRow). x.stream_id == r.stream_id) rows)
find_first-has_source r [] = refl
find_first-has_source r (x ∷ rows) = ground (arith, find_first-has_source r rows)

-- The merged row stands for the same source.
merged_source_key :
    (r : SourceRow) (o : Option SourceRow)
    → ((x : SourceRow) → o ≡ some x → has_source r x ≡ true)
    → ((merged_source r o).source_instance_id ≡ r.source_instance_id)
      × ((merged_source r o).stream_id ≡ r.stream_id)
unfolding merged_source
merged_source_key r none h = (refl, refl)
merged_source_key r (some x) h = ground (arith, h x refl)

-- The table of source heads of a stream is assigned like a mapping, and so is no other stream.
pub upsert_source-put_source :
    (r : SourceRow) (rows : List SourceRow)
    → keep (λ (x : SourceRow). x.stream_id == r.stream_id) (upsert_source r rows)
      ≡ put_source
          (merged_source r (
            source_of r.source_instance_id
              (keep (λ (x : SourceRow). x.stream_id == r.stream_id) rows)))
          (keep (λ (x : SourceRow). x.stream_id == r.stream_id) rows)
unfolding upsert_source put_source
upsert_source-put_source r rows =
    let mine = λ (x : SourceRow). x.stream_id == r.stream_id in
    let found = find_first (has_source r) rows in
    let key =
      merged_source_key r found
        (λ (x : SourceRow) (e : found ≡ some x). find_first-holds (has_source r) rows e) in
    let own : ((merged_source r found).stream_id == r.stream_id) ≡ true = ground arith in
    rw
      (
        keep-append mine (keep (λ (x : SourceRow). not (has_source r x)) rows)
            (merged_source r found ∷ []),
        ← find_first-has_source r rows,
      )
      (rw (own, key.0) (rw (keep-has_source r rows) refl))

pub upsert_source-other :
    (r : SourceRow) (rows : List SourceRow) (stream : ℕ)
    → (r.stream_id == stream) ≡ false
    → keep (λ (x : SourceRow). x.stream_id == stream) (upsert_source r rows)
      ≡ keep (λ (x : SourceRow). x.stream_id == stream) rows
unfolding upsert_source
upsert_source-other r rows stream other =
    let theirs = λ (x : SourceRow). x.stream_id == stream in
    let found = find_first (has_source r) rows in
    let key =
      merged_source_key r found
        (λ (x : SourceRow) (e : found ≡ some x). find_first-holds (has_source r) rows e) in
    let foreign : ((merged_source r found).stream_id == stream) ≡ false = rw key.1 other in
    rw
      (
        keep-append theirs (keep (λ (x : SourceRow). not (has_source r x)) rows)
            (merged_source r found ∷ []),
        foreign,
        append-nil,
      )
      (keep-keep theirs (λ (x : SourceRow). not (has_source r x)) rows
        (λ (x : SourceRow) (h : (x.stream_id == stream) ≡ true). ground arith))
