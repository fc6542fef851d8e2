-- ===== src/Prelude/Selections.antt =====
-- Selections from a list: the laws of `keep`, `find_first` and `all_of`.
use mathlib.Core.Path.{◌≡◌, refl}
use mathlib.Core.Bool.{Bool, true, false, ◌&&◌, ◌||◌}
use mathlib.Core.Logic.{inl, inr}
use mathlib.Core.List.{List, [], ◌∷◌, ◌++◌, append-nil}
use mathlib.Core.Option.{Option, none, some, some-injective}
use native.Mathlib.Omega.{arith}
use adaptive_trading_ecosyst.Prelude.Tests.{Bool-cases, and_true}
use adaptive_trading_ecosyst.Prelude.Lists.{All, keep, find_first, any_of, all_of}

module _ {ℓ} {A : Type ℓ} where
  abbrev pub or_else : Option A → Option A → Option A
  or_else (some a) o = some a
  or_else none o = o

  pub or_else-none : (o : Option A) → or_else o none ≡ o
  or_else-none none = refl
  or_else-none (some a) = refl

  pub keep-append : (p : A → Bool) (xs ys : List A) → keep p (xs ++ ys) ≡ keep p xs ++ keep p ys
  keep-append p [] ys = refl
  keep-append p (x ∷ xs) ys = elim (Bool-cases (p x)) [
    | inl e ↦ rw (e, keep-append p xs ys)
    | inr e ↦ rw (e, keep-append p xs ys)
  ]

  -- A selection inside a wider one.
  pub keep-keep :
      (p q : A → Bool) (xs : List A)
      → ((x : A) → p x ≡ true → q x ≡ true)
      → keep p (keep q xs) ≡ keep p xs
  keep-keep p q [] h = refl
  keep-keep p q (x ∷ xs) h = elim (Bool-cases (q x)) [
    | inl e ↦ rw e (elim (Bool-cases (p x)) [
      | inl f ↦ rw (f, keep-keep p q xs h)
      | inr f ↦ rw (f, keep-keep p q xs h)
    ])
    | inr e ↦ elim (Bool-cases (p x)) [
      | inl f ↦ cc (h x f, e)
      | inr f ↦ rw (e, f, keep-keep p q xs h)
    ]
  ]

  pub keep-same : (p q : A → Bool) (xs : List A) → ((x : A) → p x ≡ q x) → keep p xs ≡ keep q xs
  keep-same p q [] h = refl
  keep-same p q (x ∷ xs) h = rw (h x, keep-same p q xs h)

  pub keep_comm : (p q : A → Bool) (xs : List A) → keep p (keep q xs) ≡ keep q (keep p xs)
  keep_comm p q [] = refl
  keep_comm p q (x ∷ xs) = ground (arith, keep_comm p q xs)

  pub find_first-append :
      (p : A → Bool) (xs ys : List A)
      → find_first p (xs ++ ys) ≡ or_else (find_first p xs) (find_first p ys)
  find_first-append p [] ys = refl
  find_first-append p (x ∷ xs) ys = elim (Bool-cases (p x)) [
    | inl e ↦ rw e
    | inr e ↦ rw (e, find_first-append p xs ys)
  ]

  pub find_first-keep :
      (p q : A → Bool) (xs : List A)
      → ((x : A) → p x ≡ true → q x ≡ true)
      → find_first p (keep q xs) ≡ find_first p xs
  find_first-keep p q [] h = refl
  find_first-keep p q (x ∷ xs) h = elim (Bool-cases (q x)) [
    | inl e ↦ rw (e, find_first-keep p q xs h)
    | inr e ↦ elim (Bool-cases (p x)) [
      | inl f ↦ cc (h x f, e)
      | inr f ↦ rw (e, f, find_first-keep p q xs h)
    ]
  ]

  pub find_first-same :
      (p q : A → Bool) (xs : List A) → ((x : A) → p x ≡ q x) → find_first p xs ≡ find_first q xs
  find_first-same p q [] h = refl
  find_first-same p q (x ∷ xs) h = rw (h x, find_first-same p q xs h)

  pub find_first-holds :
      (p : A → Bool) (xs : List A) {a : A} → find_first p xs ≡ some a → p a ≡ true
  find_first-holds p [] h = cc
  find_first-holds p (x ∷ xs) h = elim (Bool-cases (p x)) [
    | inl e ↦ cc (rw e at h)
    | inr e ↦ find_first-holds p xs (rw e at h)
  ]

  pub all_of-append :
      (p : A → Bool) (xs ys : List A) → all_of p (xs ++ ys) ≡ (all_of p xs && all_of p ys)
  all_of-append p [] ys = refl
  all_of-append p (x ∷ xs) ys = ground (arith, all_of-append p xs ys)

  -- What holds of all elements holds of the one that is found.
  pub all_of-find_first :
      (p q : A → Bool) (xs : List A) {a : A}
      → all_of p xs ≡ true
      → find_first q xs ≡ some a
      → p a ≡ true
  all_of-find_first p q [] h f = cc
  all_of-find_first p q (x ∷ xs) h f = elim (Bool-cases (q x)) [
    | inl e ↦ cc (rw e at f, (and_true (p x) (all_of p xs) h).0)
    | inr e ↦ all_of-find_first p q xs (and_true (p x) (all_of p xs) h).1 (rw e at f)
  ]

  -- The elements that are kept pass a test that the others may fail.
  pub all_of-keep :
      (p q t : A → Bool) (xs : List A)
      → all_of p xs ≡ true
      → ((x : A) → p x ≡ true → t x ≡ true → q x ≡ true)
      → all_of q (keep t xs) ≡ true
  all_of-keep p q t [] h f = refl
  all_of-keep p q t (x ∷ xs) h f = elim (Bool-cases (t x)) [
    | inl e ↦ rw e (
        rw (f x (and_true (p x) (all_of p xs) h).0 e)
          (all_of-keep p q t xs (and_true (p x) (all_of p xs) h).1 f))
    | inr e ↦ rw e (all_of-keep p q t xs (and_true (p x) (all_of p xs) h).1 f)
  ]

  pub any_of-find_first :
      (p : A → Bool) (xs : List A) {a : A} → find_first p xs ≡ some a → any_of p xs ≡ true
  any_of-find_first p [] h = cc
  any_of-find_first p (x ∷ xs) h = elim (Bool-cases (p x)) [
    | inl e ↦ rw e
    | inr e ↦ rw e (any_of-find_first p xs (rw e at h))
  ]

  pub any_of-find_first-none :
      (p : A → Bool) (xs : List A) → find_first p xs ≡ none → any_of p xs ≡ false
  any_of-find_first-none p [] h = refl
  any_of-find_first-none p (x ∷ xs) h = elim (Bool-cases (p x)) [
    | inl e ↦ cc (rw e at h)
    | inr e ↦ rw e (any_of-find_first-none p xs (rw e at h))
  ]

  pub keep-append_other :
      (p : A → Bool) (xs : List A) (x : A) → p x ≡ false → keep p (xs ++ x ∷ []) ≡ keep p xs
  keep-append_other p xs x other = rw (keep-append p xs (x ∷ []), other, append-nil) refl

  pub any_of-append :
      (p : A → Bool) (xs ys : List A) → any_of p (xs ++ ys) ≡ (any_of p xs || any_of p ys)
  any_of-append p [] ys = refl
  any_of-append p (x ∷ xs) ys = ground (arith, any_of-append p xs ys)

  pub All-find_first :
      (P : A → Type 0) (p : A → Bool) (xs : List A) {a : A}
      → All P xs
      → find_first p xs ≡ some a
      → P a
  All-find_first P p [] h f = cc
  All-find_first P p (x ∷ xs) {a} h f = elim (Bool-cases (p x)) [
    | inl e ↦ let same : x ≡ a = some-injective _ _ (rw e at f) in rw same at h.0
    | inr e ↦ All-find_first P p xs h.1 (rw e at f)
  ]
