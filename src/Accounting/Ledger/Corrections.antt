-- ===== src/Accounting/Ledger/Corrections.antt =====
-- The corrections in an account's ledger.
use adaptive_trading_ecosyst.Prelude.{
  ℕ, ◌+◌, ◌≡◌, refl, sym, ap, ◌∙◌, Bool, true, false, not, ◌&&◌, ◌||◌, Option, none, some, is_none,
  List, [], ◌∷◌, All, ltb, leb, ◌==◌, map, any_of, Bool-cases, inl, inr, if◌then◌else◌, not-false,
  or_false, Result, ok, bind-eq-ok, guard-eq-ok, ok-injective, or_raise, raise_if, ◌>>◌, arith,
}
use adaptive_trading_ecosyst.Decimal.{copy_negate, eq_d}
use adaptive_trading_ecosyst.Domain.Primitives.{EntityId}
use adaptive_trading_ecosyst.Accounting.Contracts.{same_category, LedgerEntry, AccountInput}
use adaptive_trading_ecosyst.Accounting.Ledger.{
  Reading, find_entry, among_ids, target_id, correct, corrected, read_entry, read_ledger,
  first_reading, repeated, ordered,
}

-- The entries that are reversed, the newest reversal first.
abbrev pub reversed_of : List LedgerEntry → List EntityId
reversed_of [] = []
reversed_of (e ∷ es) = elim e.reverses [ some i ↦ i ∷ reversed_of es | none ↦ reversed_of es ]

-- The entries that are replaced, by an entry that reverses none.
abbrev pub replaced_of : List LedgerEntry → List EntityId
replaced_of [] = []
replaced_of (e ∷ es) = elim e.reverses [
  | some i ↦ replaced_of es
  | none ↦ elim e.replaces [ some i ↦ i ∷ replaced_of es | none ↦ replaced_of es ]
]

abbrev pub entry_ids : List LedgerEntry → List EntityId
entry_ids es = map (λ (e : LedgerEntry). e.entry_id) es

-- A ledger, the newest entry first, whose entries are distinct and are reversed and replaced at most
-- once each, and replaced only when they are reversed.
pub record IsCorrected (es : List LedgerEntry) : Type 0 where
  pub distinct : repeated (entry_ids es) ≡ false
  pub reversed_once : repeated (reversed_of es) ≡ false
  pub replaced_once : repeated (replaced_of es) ≡ false
  pub replaced_after : All (λ (i : EntityId). among_ids i (reversed_of es) ≡ true) (replaced_of es)

-- What the loop keeps.
record IsKept (r : Reading) : Type 0 where
  corrections : IsCorrected r.entries
  reversals : r.reversed_ids ≡ reversed_of r.entries
  replacements : r.replaced_ids ≡ replaced_of r.entries

absent :
    (i : EntityId) (es : List LedgerEntry)
    → find_entry i es ≡ none
    → any_of (λ (j : ℕ). j == i) (entry_ids es) ≡ false
absent i [] h = refl
absent i (e ∷ es) h = elim (Bool-cases (e.entry_id == i)) [
  | inl same ↦ cc (same, h)
  | inr other ↦ rw other (absent i es (rw other at h))
]

or_true : (a b : Bool) → b ≡ true → (a || b) ≡ true
or_true a b h = ground arith

All-wider :
    (i : EntityId) (is js : List EntityId)
    → All (λ (k : EntityId). among_ids k js ≡ true) is
    → All (λ (k : EntityId). among_ids k (i ∷ js) ≡ true) is
All-wider i [] js h = tt
All-wider i (k ∷ is) js h = (or_true (i == k) (among_ids k js) h.0, All-wider i is js h.1)

-- What an entry adds to a reading, by what it reverses and replaces.
plain-IsCorrected :
    (e : LedgerEntry) (es : List LedgerEntry)
    → IsCorrected es
    → find_entry e.entry_id es ≡ none
    → e.reverses ≡ none
    → e.replaces ≡ none
    → IsCorrected (e ∷ es)
unfolding repeated
plain-IsCorrected e es c fresh rv rp = record {
  distinct = rw (absent e.entry_id es fresh) c.distinct;
  reversed_once = rw rv c.reversed_once;
  replaced_once = rw (rv, rp) c.replaced_once;
  replaced_after = rw (rv, rp) c.replaced_after;
}

reversal-IsCorrected :
    (e : LedgerEntry) (es : List LedgerEntry) (i : EntityId)
    → IsCorrected es
    → find_entry e.entry_id es ≡ none
    → e.reverses ≡ some i
    → among_ids i (reversed_of es) ≡ false
    → IsCorrected (e ∷ es)
unfolding repeated
reversal-IsCorrected e es i c fresh rv once = record {
  distinct = rw (absent e.entry_id es fresh) c.distinct;
  reversed_once = rw (rv, once) c.reversed_once;
  replaced_once = rw rv c.replaced_once;
  replaced_after = rw rv (All-wider i (replaced_of es) (reversed_of es) c.replaced_after);
}

replacement-IsCorrected :
    (e : LedgerEntry) (es : List LedgerEntry) (i : EntityId)
    → IsCorrected es
    → find_entry e.entry_id es ≡ none
    → e.reverses ≡ none
    → e.replaces ≡ some i
    → among_ids i (reversed_of es) ≡ true
    → among_ids i (replaced_of es) ≡ false
    → IsCorrected (e ∷ es)
unfolding repeated
replacement-IsCorrected e es i c fresh rv rp reversed once = record {
  distinct = rw (absent e.entry_id es fresh) c.distinct;
  reversed_once = rw rv c.reversed_once;
  replaced_once = rw (rv, rp, once) c.replaced_once;
  replaced_after = rw (rv, rp) (reversed, c.replaced_after);
}

-- The guards that both kinds of correction pass.
abbrev branches : Reading → LedgerEntry → EntityId → LedgerEntry → Result Reading
branches r e i target =
    if not (is_none e.reverses)
    then (do
      raise_if (among_ids i r.reversed_ids || not (eq_d e.amount (copy_negate target.amount)))
          "INVALID_REVERSAL"
      ok (record r { reversed_ids = i ∷ r.reversed_ids }))
    else (do
      raise_if (not (among_ids i r.reversed_ids) || among_ids i r.replaced_ids)
          "REPLACEMENT_REQUIRES_SINGLE_PRIOR_REVERSAL"
      ok (record r { replaced_ids = i ∷ r.replaced_ids }))

correct-branches :
    (r : Reading) (e : LedgerEntry) (i : EntityId) (s : Reading)
    → correct r e i ≡ ok s
    → (target : LedgerEntry) × (branches r e i target ≡ ok s)
unfolding correct
correct-branches r e i s h =
    let (t, _, h1) = bind-eq-ok (or_raise (find_entry i r.entries) _) _ h in
    let (_, h2) = guard-eq-ok (not (is_none t.reverses) || not (is_none t.replaces)) _ _ h1 in
    let (_, h3) =
      guard-eq-ok
        (not (same_category e.category t.category) || not (e.reference_id == t.reference_id)) _ _
        h2 in
    (t, h3)

correct-reversal :
    (r : Reading) (e : LedgerEntry) (i j : EntityId) (s : Reading)
    → e.reverses ≡ some j
    → correct r e i ≡ ok s
    → (among_ids i r.reversed_ids ≡ false) × (s ≡ record r { reversed_ids = i ∷ r.reversed_ids })
correct-reversal r e i j s rv h =
    let (t, h1) = correct-branches r e i s h in
    let (once, done) =
      guard-eq-ok (among_ids i r.reversed_ids || not (eq_d e.amount (copy_negate t.amount))) _ _
        (rw rv at h1) in
    ((or_false (among_ids i r.reversed_ids) _ once).0, sym (ok-injective done))

correct-replacement :
    (r : Reading) (e : LedgerEntry) (i : EntityId) (s : Reading)
    → e.reverses ≡ none
    → correct r e i ≡ ok s
    → (among_ids i r.reversed_ids ≡ true)
      × (among_ids i r.replaced_ids ≡ false)
      × (s ≡ record r { replaced_ids = i ∷ r.replaced_ids })
correct-replacement r e i s rv h =
    let (t, h1) = correct-branches r e i s h in
    let (guarded, done) =
      guard-eq-ok (not (among_ids i r.reversed_ids) || among_ids i r.replaced_ids) _ _
        (rw rv at h1) in
    let (after, once) = or_false (not (among_ids i r.reversed_ids)) _ guarded in
    (not-false _ after, once, sym (ok-injective done))

-- The reading after an entry, from what its correction left.
abbrev noted : LedgerEntry → Reading → Reading
noted e s = record s {
  entries = e ∷ s.entries;
  previous_time = e.effective_at;
  previous_recorded = e.recorded_at;
}

corrected-IsKept :
    (r : Reading) (e : LedgerEntry) (rv rp : Option EntityId) (s : Reading)
    → IsKept r
    → find_entry e.entry_id r.entries ≡ none
    → e.reverses ≡ rv
    → e.replaces ≡ rp
    → corrected r e (elim rv [ some i ↦ some i | none ↦ rp ]) ≡ ok s
    → IsKept (noted e s) × (s.entries ≡ r.entries)
corrected-IsKept r e none none s k fresh v p h = rw (← ok-injective h) (
  record {
    corrections = plain-IsCorrected e r.entries k.corrections fresh v p;
    reversals = rw v k.reversals;
    replacements = rw (v, p) k.replacements;
  },
  refl,
)
corrected-IsKept r e (some i) rp s k fresh v p h =
    let (once, same) = correct-reversal r e i i s v h in
    rw same (
      record {
        corrections =
            reversal-IsCorrected e r.entries i k.corrections fresh v (rw k.reversals at once);
        reversals = rw v (ap (λ (xs : List EntityId). i ∷ xs) k.reversals);
        replacements = rw v k.replacements;
      },
      refl,
    )
corrected-IsKept r e none (some i) s k fresh v p h =
    let (after, once, same) = correct-replacement r e i s v h in
    rw same (
      record {
        corrections =
            replacement-IsCorrected e r.entries i k.corrections fresh v p (rw k.reversals at after)
              (rw k.replacements at once);
        reversals = rw v k.reversals;
        replacements = rw (v, p) (ap (λ (xs : List EntityId). i ∷ xs) k.replacements);
      },
      refl,
    )

absent_none : (o : Option LedgerEntry) → not (is_none o) ≡ false → o ≡ none
absent_none none h = refl
absent_none (some e) h = cc h

read_entry-IsKept :
    (a : AccountInput) (n : ℕ) (r : Reading) (e : LedgerEntry) (s : Reading)
    → IsKept r
    → read_entry a n r e ≡ ok s
    → IsKept s × (s.entries ≡ e ∷ r.entries)
unfolding read_entry
read_entry-IsKept a n r e s k h =
    let (fresh, h1) = guard-eq-ok (not (is_none (find_entry e.entry_id r.entries))) _ _ h in
    let (_, h2) =
      guard-eq-ok (not (e.sequence == n) || not (e.account_id == a.account_id)) _ _ h1 in
    let (_, h3) =
      guard-eq-ok
        (not (
          leb r.previous_time e.effective_at
          && leb e.effective_at e.recorded_at
          && leb e.recorded_at a.reconciled_at))
        _ _ h2 in
    let (_, h4) = guard-eq-ok (ltb e.recorded_at r.previous_recorded) _ _ h3 in
    let (c, made, done) = bind-eq-ok (corrected r e (target_id e)) _ h4 in
    let (kept, same) =
      corrected-IsKept r e e.reverses e.replaces c k (absent_none _ fresh) refl refl made in
    rw (← ok-injective done) (kept, ap (λ (xs : List LedgerEntry). e ∷ xs) same)

-- The entries in the order of their reading, before `read`.
abbrev pub newest_first : List LedgerEntry → List LedgerEntry → List LedgerEntry
newest_first read [] = read
newest_first read (e ∷ es) = newest_first (e ∷ read) es

read_ledger-IsKept :
    (a : AccountInput) (n : ℕ) (r : Reading) (es : List LedgerEntry) (t : Reading)
    → IsKept r
    → read_ledger a n r es ≡ ok t
    → IsKept t × (t.entries ≡ newest_first r.entries es)
unfolding read_ledger
read_ledger-IsKept a n r [] t k h = rw (← ok-injective h) (k, refl)
read_ledger-IsKept a n r (e ∷ es) t k h =
    let (s, done, h1) = bind-eq-ok (read_entry a n r e) _ h in
    let (kept, same) = read_entry-IsKept a n r e s k done in
    let (final, entries) = read_ledger-IsKept a (n + 1) s es t kept h1 in
    (final, entries ∙ ap (λ (xs : List LedgerEntry). newest_first xs es) same)

first_reading-IsKept : (a : AccountInput) → IsKept (first_reading a)
unfolding repeated
first_reading-IsKept a = record {
  corrections = record {
    distinct = refl;
    reversed_once = refl;
    replaced_once = refl;
    replaced_after = tt;
  };
  reversals = refl;
  replacements = refl;
}

-- In the ledger of a valid account the entries have distinct identities, an entry is reversed at
-- most once and replaced at most once, and it is replaced only when it is reversed.
pub ordered-IsCorrected :
    (a v : AccountInput) → ordered a ≡ ok v → IsCorrected (newest_first [] a.ledger)
unfolding ordered
ordered-IsCorrected a v h =
    let (_, h1) =
      guard-eq-ok (not (leb a.opening_at a.reconciled_at && leb a.reconciled_at a.valuation_at)) _ _
        h in
    let (t, done, _) = bind-eq-ok (read_ledger a 1 (first_reading a) a.ledger) _ h1 in
    let (kept, entries) =
      read_ledger-IsKept a 1 (first_reading a) a.ledger t (first_reading-IsKept a) done in
    rw entries at kept.corrections
