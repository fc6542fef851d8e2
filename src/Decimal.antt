-- ===== src/Decimal.antt =====
-- Python's `decimal.Decimal`, as the modules under domain/ and its clients use it: a finite number
-- `coef * 10 ^ exp`, and the operations under `arithmetic_context()` of domain/arithmetic.py, a
-- context of 34 digits that rounds half to even. Signed zeros, infinities and NaN are refused by
-- `finite_decimal` and stand outside the type; the exponent has no bound here.
mod Digits
mod Tests
pub mod Order
pub mod Rounding
pub use Digits.{num_digits_bound, pow_ten_pos, pow_ten_add, pow_ten_suc, pow_ten_mono}
unfoldable pub use Digits.{num_digits}
use adaptive_trading_ecosyst.Prelude.{
  ℕ, zero, suc, ◌+◌, ◌-◌, ◌*◌, ◌/◌, ◌%◌, ◌^◌, Bool, true, false, not, Option, none, some, ltb, leb,
  ◌==◌, List, [], ◌∷◌, if◌then◌else◌,
}
use adaptive_trading_ecosyst.Prelude.Int.{
  ℤ, pos, negsuc, pos_part, neg_part, neg_ℤ, nat_abs, with_sign, sub_ℕ, ◌+ℤ◌, ◌-ℤ◌, ◌*ℤ◌, leb_ℤ,
  ltb_ℤ,
}

pub record Decimal : Type 0 where
  pub coef : ℤ
  pub exp : ℤ

-- `Decimal(n)` of an integer
abbrev pub of_int : ℤ → Decimal
of_int n = record { coef = n; exp = pos 0 }

abbrev pub zero_d : Decimal
zero_d = of_int (pos 0)

abbrev pub one_d : Decimal
one_d = of_int (pos 1)

-- A numerator and a denominator of the value, as `as_integer_ratio()` gives them in lowest terms.
-- The program only compares cross products of such pairs and takes quotients and remainders of
-- them, which a common factor leaves alone.
abbrev pub numerator : Decimal → ℤ
numerator d = d.coef *ℤ pos (10 ^ pos_part d.exp)

abbrev pub denominator : Decimal → ℕ
denominator d = 10 ^ neg_part d.exp

-- Comparisons are by value, without rounding.
unfoldable pub leb_d : Decimal → Decimal → Bool
leb_d a b = leb_ℤ (numerator a *ℤ pos (denominator b)) (numerator b *ℤ pos (denominator a))

abbrev pub ltb_d : Decimal → Decimal → Bool
ltb_d a b = not (leb_d b a)

abbrev pub eq_d : Decimal → Decimal → Bool
eq_d a b = if leb_d a b then leb_d b a else false

abbrev pub max_d : Decimal → Decimal → Decimal
max_d a b = if ltb_d a b then b else a

abbrev pub min_d : Decimal → Decimal → Decimal
min_d a b = if ltb_d b a then b else a

abbrev pub precision : ℕ
precision = 34

-- The magnitude `n` without its last `k` digits, rounded half to even.
unfoldable pub half_even : ℕ → ℕ → ℕ
half_even n k =
    let unit = 10 ^ k in
    let q = n / unit in
    let r = n % unit in
    if ltb unit (2 * r)
    then q + 1
    else if 2 * r == unit
    then (if q % 2 == 1 then q + 1 else q)
    else q

-- A magnitude that rounding carried to one digit more loses its last digit, a zero.
unfoldable pub carried : ℕ → ℤ → ℤ → Decimal
unfolding num_digits ◌+ℤ◌
carried n sign exp =
    if ltb precision (num_digits n)
    then record { coef = with_sign sign (n / 10); exp = exp +ℤ pos 1 }
    else record { coef = with_sign sign n; exp = exp }

-- The result of an operation: rounded only when it has more digits than the context.
unfoldable pub fix : Decimal → Decimal
unfolding num_digits half_even carried ◌+ℤ◌
fix d =
    let n = nat_abs d.coef in
    if leb (num_digits n) precision
    then d
    else let k = num_digits n - precision in carried (half_even n k) d.coef (d.exp +ℤ pos k)

abbrev pub min_ℤ : ℤ → ℤ → ℤ
min_ℤ a b = if leb_ℤ a b then a else b

abbrev aligned : Decimal → ℤ → ℤ
aligned d e = d.coef *ℤ pos (10 ^ pos_part (d.exp -ℤ e))

infixl 65 ◌+ᵈ◌ ◌-ᵈ◌
infixl 70 ◌*ᵈ◌
unfoldable pub ◌+ᵈ◌ : Decimal → Decimal → Decimal
unfolding fix ◌+ℤ◌ ◌-ℤ◌ ◌*ℤ◌
a +ᵈ b = let e = min_ℤ a.exp b.exp in fix (record { coef = aligned a e +ℤ aligned b e; exp = e })

-- `copy_negate`, which does not round
abbrev pub copy_negate : Decimal → Decimal
copy_negate d = record d { coef = neg_ℤ d.coef }

unfoldable pub ◌-ᵈ◌ : Decimal → Decimal → Decimal
unfolding ◌+ᵈ◌
a -ᵈ b = a +ᵈ copy_negate b

unfoldable pub ◌*ᵈ◌ : Decimal → Decimal → Decimal
unfolding fix ◌+ℤ◌ ◌*ℤ◌
a *ᵈ b = fix (record { coef = a.coef *ℤ b.coef; exp = a.exp +ℤ b.exp })

unfoldable pub abs_d : Decimal → Decimal
unfolding fix
abs_d d = fix (record d { coef = pos (nat_abs d.coef) })

-- Trailing zeros of an exact quotient go, down to the exponent of the operands' difference.
unfoldable pub stripped : ℕ → ℕ → ℕ × ℕ
stripped zero n = (n, 0)
stripped (suc room) n =
    let rest = stripped room (n / 10) in if n % 10 == 0 then (rest.0, rest.1 + 1) else (n, 0)

-- The magnitude of a quotient, to 35 digits or more, and the exponent it stands at. An inexact
-- one that ends in 0 or 5 is moved off the tie.
unfoldable pub quotient : ℕ → ℤ → ℕ → ℤ → ℕ × ℤ
unfolding num_digits stripped ◌-ℤ◌ ◌+ℤ◌
quotient n ne m me =
    let shift = pos (num_digits m + precision + 1) -ℤ pos (num_digits n) in
    let exp = ne -ℤ me -ℤ shift in
    let up = n * 10 ^ pos_part shift in
    let down = m * 10 ^ neg_part shift in
    let q = up / down in
    let (kept, gone) = stripped (pos_part shift) q in
    if up % down == 0 then (kept, exp +ℤ pos gone) else (if q % 5 == 0 then q + 1 else q, exp)

abbrev pub sign_product : ℤ → ℤ → ℤ
sign_product a (pos _) = a
sign_product (pos _) (negsuc n) = negsuc n
sign_product (negsuc _) (negsuc n) = pos n

-- `a / b`; `none` is a `DivisionByZero` or an `InvalidOperation`, which the context traps.
unfoldable pub div_d : Decimal → Decimal → Option Decimal
unfolding quotient fix ◌-ℤ◌
div_d a b =
    if nat_abs b.coef == 0
    then none
    else if nat_abs a.coef == 0
    then some (record { coef = pos 0; exp = a.exp -ℤ b.exp })
    else let (q, e) = quotient (nat_abs a.coef) a.exp (nat_abs b.coef) b.exp in
      some (fix (record { coef = with_sign (sign_product a.coef b.coef) q; exp = e }))

-- `sum(values, Decimal(0))`
abbrev pub sum_from : Decimal → List Decimal → Decimal
sum_from acc [] = acc
sum_from acc (x ∷ xs) = sum_from (acc +ᵈ x) xs

abbrev pub sum_d : List Decimal → Decimal
sum_d = sum_from zero_d

-- All that an evaluation of the arithmetic opens.
unfoldable pub decimal_arithmetic : Unit {0}
unfolding leb_d ◌+ᵈ◌ ◌-ᵈ◌ ◌*ᵈ◌ abs_d div_d num_digits ◌*ℤ◌ ◌+ℤ◌ ◌-ℤ◌
decimal_arithmetic = tt
