-- ===== src/Chain.antt =====
-- Chains of hashes, which the operational journal (domain/events.py, journal/contracts.py) and the
-- journal of telemetry (monitoring/journal.py) both verify: a link seals its number, its content and
-- the hash of the link before it.
use adaptive_trading_ecosyst.Prelude.{
  ℕ, ◌+◌, ◌≡◌, refl, sym, ◌∙◌, List, [], ◌∷◌, ◌++◌, All, length, String, arith,
}

-- What a link says, the digest of it that `sealed` computes, and when two links seal the same.
pub record Link (A : Type 0) : Type 1 where
  pub number : A → ℕ
  pub previous : A → String
  pub hash : A → String
  pub sealed : A → String
  pub Same : A → A → Type 0
  pub same_previous : (a b : A) → Same a b → previous a ≡ previous b
  pub same_link : (a b : A) → Same a b → hash a ≡ hash b → a ≡ b

module _ {A : Type 0} (k : Link A) where
  open k use {number, previous, hash, sealed, Same, same_previous, same_link}

  -- The links continue the hash `p` from the number `n` on, up to the hash `q`.
  abbrev pub Linked : String → ℕ → List A → String → Type 0
  Linked p n [] q = p ≡ q
  Linked p n (a ∷ rest) q =
      (previous a ≡ p) × (number a ≡ n) × (hash a ≡ sealed a) × Linked (hash a) (n + 1) rest q

  -- The digests of two links are equal only when they seal the same.
  abbrev pub Separate : A → A → Type 0
  Separate a b = sealed a ≡ sealed b → Same a b

  abbrev pub NoCollision : List A → List A → Type 0
  NoCollision xs ys = All (λ (a : A). All (λ (b : A). Separate a b) ys) xs

  pub Linked-append :
      (p : String) (n : ℕ) (rest : List A) (q : String) (a : A)
      → Linked p n rest q
      → previous a ≡ q
      → number a ≡ n + length rest
      → hash a ≡ sealed a
      → Linked p n (rest ++ a ∷ []) (hash a)
  Linked-append p n [] q a l e m h = (e ∙ sym l, omega (arith, m), h, refl)
  Linked-append p n (x ∷ rest) q a l e m h =
      (l.0, l.1, l.2, Linked-append (hash x) (n + 1) rest q a l.3 e (omega (arith, m)) h)

  narrower : (xs : List A) (y : A) (ys : List A) → NoCollision xs (y ∷ ys) → NoCollision xs ys
  narrower [] y ys c = tt
  narrower (x ∷ xs) y ys c = (c.0.1, narrower xs y ys c.1)

  -- Two chains of one length that end in one hash are one chain.
  pub Linked-unique :
      (p p' : String) (n : ℕ) (xs ys : List A) (q : String)
      → length xs ≡ length ys
      → NoCollision xs ys
      → Linked p n xs q
      → Linked p' n ys q
      → (p ≡ p') × (xs ≡ ys)
  Linked-unique p p' n [] [] q l c lx ly = (lx ∙ sym ly, refl)
  Linked-unique p p' n [] (y ∷ ys) q l c lx ly = absurd (omega arith)
  Linked-unique p p' n (x ∷ xs) [] q l c lx ly = absurd (omega arith)
  Linked-unique p p' n (x ∷ xs) (y ∷ ys) q l c lx ly =
      let (after, tails) =
        Linked-unique (hash x) (hash y) (n + 1) xs ys q (omega (arith, l)) (narrower xs y ys c.1)
          lx.3 ly.3 in
      let same = c.0.0 (sym lx.2 ∙ after ∙ ly.2) in
      let first : x ≡ y = same_link x y same after in
      (sym lx.0 ∙ same_previous x y same ∙ ly.0, rw (first, tails) refl)
