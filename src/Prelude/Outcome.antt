-- ===== src/Prelude/Outcome.antt =====
-- A call that returns or raises. The exception is carried by its message.
use Prim.Native.String.{String}
use mathlib.Core.Path.{◌≡◌, refl}
use mathlib.Core.Bool.{Bool, true, false}
use mathlib.Core.List.{List, [], ◌∷◌, ◌++◌}
use mathlib.Core.Option.{Option, none, some}
use adaptive_trading_ecosyst.Prelude.Lists.{All}

pub data Result {ℓ} (A : Type ℓ) : Type ℓ where
  ok : A → Result A
  err : String → Result A

-- `if bad: raise ValueError(code)`
abbrev pub raise_if : Bool → String → Result (Unit {0})
raise_if true code = err code
raise_if false code = ok tt

abbrev pub or_raise {ℓ} : {A : Type ℓ} → Option A → String → Result A
or_raise none code = err code
or_raise (some a) code = ok a

-- An exception ends the calls after it.
infixl 5 ◌>>=◌
abbrev pub ◌>>=◌ {ℓ κ} : {A : Type ℓ} {B : Type κ} → Result A → (A → Result B) → Result B
err code >>= next = err code
ok value >>= next = next value

infixl 5 ◌>>◌
abbrev pub ◌>>◌ {ℓ κ} : {A : Type ℓ} {B : Type κ} → Result A → Result B → Result B
first >> second = first >>= λ _. second

-- `[f(x) for x in xs]`, where `f` may raise
abbrev pub traverse {ℓ κ} : {A : Type ℓ} {B : Type κ} → (A → Result B) → List A → Result (List B)
traverse f [] = ok []
traverse f (x ∷ xs) = f x >>= λ y. traverse f xs >>= λ ys. ok (y ∷ ys)

pub ok-injective {ℓ} : {A : Type ℓ} {a b : A} → ok a ≡ ok b → a ≡ b
ok-injective h = cc

-- Inversion of a successful bind and of a guard that was passed.
pub bind-eq-ok {ℓ κ} :
    {A : Type ℓ} {B : Type κ} (call : Result A) (next : A → Result B) {result : B}
    → (call >>= next) ≡ ok result
    → (value : A) × (call ≡ ok value) × (next value ≡ ok result)
bind-eq-ok (err code) next h = cc
bind-eq-ok (ok value) next h = (value, refl, h)

pub guard-eq-ok {ℓ} :
    {B : Type ℓ} (bad : Bool) (code : String) (k : Result B) {b : B}
    → (raise_if bad code >> k) ≡ ok b
    → (bad ≡ false) × (k ≡ ok b)
guard-eq-ok true code k h = cc
guard-eq-ok false code k h = (refl, h)

pub or_raise-eq-ok {ℓ} :
    {A : Type ℓ} (o : Option A) (code : String) {a : A} → or_raise o code ≡ ok a → o ≡ some a
or_raise-eq-ok none code h = cc
or_raise-eq-ok (some a) code h = cc

pub bind-ok {ℓ} : {A : Type ℓ} (r : Result A) → (r >>= λ a. ok a) ≡ r
bind-ok (ok a) = refl
bind-ok (err code) = refl

-- Two calls after a first one, as one.
pub bind_append {ℓ} :
    {A : Type ℓ} (r : Result A) (whole first second : A → Result A)
    → ((a : A) → whole a ≡ (first a >>= second))
    → (r >>= whole) ≡ ((r >>= first) >>= second)
bind_append (ok a) whole first second h = h a
bind_append (err code) whole first second h = refl

-- The last of many calls.
pub traverse-append {ℓ κ} :
    {A : Type ℓ} {B : Type κ} (f : A → Result B) (xs : List A) (x : A) (ys : List B) (y : B)
    → traverse f xs ≡ ok ys
    → f x ≡ ok y
    → traverse f (xs ++ x ∷ []) ≡ ok (ys ++ y ∷ [])
traverse-append f [] x ys y h e = let none = ok-injective h in rw (e, ← none) refl
traverse-append f (z ∷ xs) x ys y h e =
    let (w, first, h₁) = bind-eq-ok (f z) _ h in
    let (ws, rest, h₂) = bind-eq-ok (traverse f xs) _ h₁ in
    let all = ok-injective h₂ in rw (first, traverse-append f xs x ws y rest e, ← all) refl

pub traverse-All {ℓ κ} :
    {A : Type ℓ} {B : Type κ} (f : A → Result B) (P : A → Type 0) (Q : B → Type 0)
    → ((x : A) (y : B) → f x ≡ ok y → P x → Q y)
    → (xs : List A) {ys : List B} → traverse f xs ≡ ok ys
    → All P xs
    → All Q ys
traverse-All f P Q each [] h a = rw (← ok-injective h) tt
traverse-All f P Q each (x ∷ xs) h a =
    let (y, first, h₁) = bind-eq-ok (f x) _ h in
    let (ys, rest, h₂) = bind-eq-ok (traverse f xs) _ h₁ in
    rw (← ok-injective h₂) (each x y first a.0, traverse-All f P Q each xs rest a.1)
