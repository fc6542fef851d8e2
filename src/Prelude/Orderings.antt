-- ===== src/Prelude/Orderings.antt =====
-- Rows in the order of a number, as `order_by` returns them: rows of one number keep their order.
use Prim.Native.Nat.{ℕ, ◌<◌}
use mathlib.Core.Path.{◌≡◌, refl, ◌∙◌}
use mathlib.Core.Bool.{Bool, true, ◌||◌}
use mathlib.Core.List.{List, [], ◌∷◌, ◌++◌}
use native.Mathlib.Omega.{arith}
use mathlib.Core.Logic.{inl, inr}
use adaptive_trading_ecosyst.Prelude.Tests.{ltb, if◌then◌else◌, Bool-cases}
use adaptive_trading_ecosyst.Prelude.Lists.{All, keep, any_of}
use adaptive_trading_ecosyst.Prelude.Selections.{keep-append}

module _ {ℓ} {A : Type ℓ} where
  unfoldable pub insert_by : (A → ℕ) → A → List A → List A
  insert_by key r [] = r ∷ []
  insert_by key r (x ∷ xs) = if ltb (key r) (key x) then r ∷ x ∷ xs else x ∷ insert_by key r xs

  unfoldable pub order_from : (A → ℕ) → List A → List A → List A
  order_from key acc [] = acc
  order_from key acc (r ∷ rs) = order_from key (insert_by key r acc) rs

  abbrev pub order_by : (A → ℕ) → List A → List A
  order_by key rs = order_from key [] rs

  order_from-append :
      (key : A → ℕ) (acc rs : List A) (r : A)
      → order_from key acc (rs ++ r ∷ []) ≡ insert_by key r (order_from key acc rs)
  unfolding order_from
  order_from-append key acc [] r = refl
  order_from-append key acc (x ∷ rs) r = order_from-append key (insert_by key x acc) rs r

  insert_by_last :
      (key : A → ℕ) (r : A) (rs : List A)
      → All (λ (x : A). key x < key r) rs
      → insert_by key r rs ≡ rs ++ r ∷ []
  unfolding insert_by
  insert_by_last key r [] h = refl
  insert_by_last key r (x ∷ rs) h = ground (arith, insert_by_last key r rs h.1)

  -- A row that comes after all others goes to the end.
  pub order_by-append :
      (key : A → ℕ) (rs : List A) (r : A)
      → All (λ (x : A). key x < key r) (order_by key rs)
      → order_by key (rs ++ r ∷ []) ≡ order_by key rs ++ r ∷ []
  order_by-append key rs r h =
      order_from-append key [] rs r ∙ insert_by_last key r (order_by key rs) h

  -- So does a row that is selected, in the order of the selection.
  pub order_by-keep :
      (key : A → ℕ) (p : A → Bool) (rs : List A) (r : A)
      → p r ≡ true
      → All (λ (x : A). key x < key r) (order_by key (keep p rs))
      → order_by key (keep p (rs ++ r ∷ [])) ≡ order_by key (keep p rs) ++ r ∷ []
  order_by-keep key p rs r own h =
      rw (keep-append p rs (r ∷ []), own) (order_by-append key (keep p rs) r h)

  All-insert_by :
      (P : A → Type 0) (key : A → ℕ) (r : A) (rs : List A)
      → P r
      → All P rs
      → All P (insert_by key r rs)
  unfolding insert_by
  All-insert_by P key r [] p h = (p, tt)
  All-insert_by P key r (x ∷ xs) p h = elim (Bool-cases (ltb (key r) (key x))) [
    | inl before ↦ rw before (p, h)
    | inr after ↦ rw after (h.0, All-insert_by P key r xs p h.1)
  ]

  pub All-order_from :
      (P : A → Type 0) (key : A → ℕ) (acc rs : List A)
      → All P acc
      → All P rs
      → All P (order_from key acc rs)
  unfolding order_from
  All-order_from P key acc [] a h = a
  All-order_from P key acc (r ∷ rs) a h =
      All-order_from P key (insert_by key r acc) rs (All-insert_by P key r acc h.0 a) h.1

  any_of-insert_by :
      (p : A → Bool) (key : A → ℕ) (r : A) (rs : List A)
      → any_of p (insert_by key r rs) ≡ (p r || any_of p rs)
  unfolding insert_by
  any_of-insert_by p key r [] = refl
  any_of-insert_by p key r (x ∷ xs) = ground (arith, any_of-insert_by p key r xs)

  pub any_of-order_from :
      (p : A → Bool) (key : A → ℕ) (acc rs : List A)
      → any_of p (order_from key acc rs) ≡ (any_of p acc || any_of p rs)
  unfolding order_from
  any_of-order_from p key acc [] = ground arith
  any_of-order_from p key acc (r ∷ rs) =
      ground (arith, any_of-order_from p key (insert_by key r acc) rs, any_of-insert_by p key r acc)
