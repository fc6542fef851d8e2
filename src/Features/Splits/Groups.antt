-- ===== src/Features/Splits/Groups.antt =====
-- features/splits.py: a group is the selection of the rows of its key, in their order.
use mathlib.Core.List.{append-nil}
use adaptive_trading_ecosyst.Prelude.{
  ◌≡◌, refl, sym, ap, ◌∙◌, Bool, true, false, List, [], ◌∷◌, ◌++◌, ◌==◌, All, keep, keep-append,
  keep-append_other, inl, inr, Bool-cases, arith,
}
use adaptive_trading_ecosyst.Domain.Primitives.{EntityId}
use adaptive_trading_ecosyst.Features.Splits.{
  FeatureRow, GroupBy, Group, group_key, add_row, add_rows,
}

abbrev pub is_in : GroupBy → EntityId → FeatureRow → Bool
is_in by key r = group_key by r == key

-- No group has the key.
abbrev pub Absent : EntityId → List Group → Type 0
Absent key groups = All (λ (g : Group). (g.0 == key) ≡ false) groups

abbrev pub IsDistinct : List Group → Type 0
IsDistinct [] = Unit
IsDistinct (g ∷ gs) = Absent g.0 gs × IsDistinct gs

module _ (by : GroupBy) where
  abbrev pub Selects : List FeatureRow → Group → Type 0
  Selects seen g = g.1 ≡ keep (is_in by g.0) seen

  pub record IsGrouped (seen : List FeatureRow) (groups : List Group) : Type 0 where
    pub selects : All (Selects seen) groups
    pub distinct : IsDistinct groups
    pub complete : (key : EntityId) → Absent key groups → keep (is_in by key) seen ≡ []

  Absent-add_row :
      (key other : EntityId) (r : FeatureRow) (groups : List Group)
      → (key == other) ≡ false
      → Absent other groups
      → Absent other (add_row key r groups)
  unfolding add_row
  Absent-add_row key other r [] q a = (q, tt)
  Absent-add_row key other r (g ∷ gs) q a = elim (Bool-cases (g.0 == key)) [
    | inl e ↦ rw e (a.0, a.1)
    | inr e ↦ rw e (a.0, Absent-add_row key other r gs q a.1)
  ]

  add_row-IsDistinct :
      (key : EntityId) (r : FeatureRow) (groups : List Group)
      → IsDistinct groups
      → IsDistinct (add_row key r groups)
  unfolding add_row
  add_row-IsDistinct key r [] d = (tt, tt)
  add_row-IsDistinct key r (g ∷ gs) d = elim (Bool-cases (g.0 == key)) [
    | inl e ↦ rw e (d.0, d.1)
    | inr e ↦ rw e (Absent-add_row key g.0 r gs (ground arith) d.0, add_row-IsDistinct key r gs d.1)
  ]

  -- A row of another key leaves a selection as it is.
  Selects-append_other :
      (seen : List FeatureRow) (r : FeatureRow) (groups : List Group)
      → Absent (group_key by r) groups
      → All (Selects seen) groups
      → All (Selects (seen ++ r ∷ [])) groups
  Selects-append_other seen r [] a s = tt
  Selects-append_other seen r (g ∷ gs) a s = (
    s.0 ∙ sym (keep-append_other (is_in by g.0) seen r (ground (arith, a.0))),
    Selects-append_other seen r gs a.1 s.1,
  )

  add_row-Selects :
      (seen : List FeatureRow) (r : FeatureRow) (groups : List Group)
      → (Absent (group_key by r) groups → keep (is_in by (group_key by r)) seen ≡ [])
      → IsDistinct groups
      → All (Selects seen) groups
      → All (Selects (seen ++ r ∷ [])) (add_row (group_key by r) r groups)
  unfolding add_row
  add_row-Selects seen r [] new d s =
      let own : (group_key by r == group_key by r) ≡ true = ground arith in
      (sym (keep-append (is_in by (group_key by r)) seen (r ∷ []) ∙ rw (new tt, own) refl), tt)
  add_row-Selects seen r (g ∷ gs) new d s = elim (Bool-cases (g.0 == group_key by r)) [
    | inl e ↦
        let same : g.0 ≡ group_key by r = ground arith in
        let own : (group_key by r == g.0) ≡ true = ground arith in
        rw e (
          ap (λ (rows : List FeatureRow). rows ++ r ∷ []) s.0
              ∙ sym (keep-append (is_in by g.0) seen (r ∷ []) ∙ rw own refl),
          Selects-append_other seen r gs (rw same at d.0) s.1,
        )
    | inr e ↦ rw e (
      s.0 ∙ sym (keep-append_other (is_in by g.0) seen r (ground arith)),
      add_row-Selects seen r gs (λ a. new (e, a)) d.1 s.1,
    )
  ]

  -- A key that is absent after a row was added was absent before, and is not that of the row.
  Absent-of_add_row :
      (key other : EntityId) (r : FeatureRow) (groups : List Group)
      → Absent other (add_row key r groups)
      → Absent other groups × ((key == other) ≡ false)
  unfolding add_row
  Absent-of_add_row key other r [] a = (tt, a.0)
  Absent-of_add_row key other r (g ∷ gs) a = elim (Bool-cases (g.0 == key)) [
    | inl e ↦ let b = rw e at a in let apart = b.0 in ((b.0, b.1), ground arith)
    | inr e ↦
        let b = rw e at a in let (c, d) = Absent-of_add_row key other r gs b.1 in ((b.0, c), d)
  ]

  add_row-IsGrouped :
      (seen : List FeatureRow) (r : FeatureRow) (groups : List Group)
      → IsGrouped seen groups
      → IsGrouped (seen ++ r ∷ []) (add_row (group_key by r) r groups)
  add_row-IsGrouped seen r groups k = record {
    selects = add_row-Selects seen r groups (k.complete (group_key by r)) k.distinct k.selects;
    distinct = add_row-IsDistinct (group_key by r) r groups k.distinct;
    complete = λ key a.
        let (before, apart) = Absent-of_add_row (group_key by r) key r groups a in
        keep-append_other (is_in by key) seen r apart ∙ k.complete key before;
  }

  append_one :
      (seen : List FeatureRow) (r : FeatureRow) (rs : List FeatureRow)
      → (seen ++ r ∷ []) ++ rs ≡ seen ++ r ∷ rs
  append_one [] r rs = refl
  append_one (x ∷ seen) r rs = rw (append_one seen r rs)

  pub add_rows-IsGrouped :
      (seen rows : List FeatureRow) (groups : List Group)
      → IsGrouped seen groups
      → IsGrouped (seen ++ rows) (add_rows by groups rows)
  unfolding add_rows
  add_rows-IsGrouped seen [] groups k = rw (append-nil seen) k
  add_rows-IsGrouped seen (r ∷ rows) groups k = rw (← append_one seen r rows) (
      add_rows-IsGrouped (seen ++ r ∷ []) rows (add_row (group_key by r) r groups)
        (add_row-IsGrouped seen r groups k))
