-- ===== src/Domain/Primitives/Positive.antt =====
-- What the validators of domain/primitives.py give about a number that passed them.
use native.Mathlib.Nat.{lt_of_mul-lt-mul_right}
use adaptive_trading_ecosyst.Prelude.{◌*◌, ◌^◌, ◌<◌, ◌≡◌, refl, false, ok, arith}
use adaptive_trading_ecosyst.Prelude.Int.{
  ℤ, pos, negsuc, pos_part, neg_part, pos_part-mul_pos, neg_part-mul_pos,
}
use adaptive_trading_ecosyst.Decimal.{Decimal, zero_d, leb_d}
use adaptive_trading_ecosyst.Decimal.Order.{gain, loss, leb_d-parts}
use adaptive_trading_ecosyst.Domain.Primitives.{positive_decimal}

pub record IsPositive (d : Decimal) : Type 0 where
  pub magnitude : 0 < pos_part d.coef
  pub sign : neg_part d.coef ≡ 0

pub gain-eq : (d : Decimal) → gain d ≡ pos_part d.coef * 10 ^ pos_part d.exp
gain-eq d = pos_part-mul_pos d.coef (10 ^ pos_part d.exp)

pub loss-eq : (d : Decimal) → loss d ≡ neg_part d.coef * 10 ^ pos_part d.exp
loss-eq d = neg_part-mul_pos d.coef (10 ^ pos_part d.exp)

sign_of : (c : ℤ) → neg_part c < pos_part c → neg_part c ≡ 0
sign_of (pos n) h = refl
sign_of (negsuc n) h = absurd (omega arith)

loss-lt-gain : (d : Decimal) → leb_d d zero_d ≡ false → loss d < gain d
loss-lt-gain d h = ground (arith, leb_d-parts d zero_d, gain-eq zero_d, loss-eq zero_d)

pub IsPositive-of_not_le_zero : (d : Decimal) → leb_d d zero_d ≡ false → IsPositive d
IsPositive-of_not_le_zero d h =
    let lt : neg_part d.coef < pos_part d.coef =
      lt_of_mul-lt-mul_right (10 ^ pos_part d.exp)
        (omega (arith, loss-lt-gain d h, gain-eq d, loss-eq d)) in
    record { magnitude = omega arith; sign = sign_of d.coef lt }

pub positive_decimal-ok :
    (d : Decimal) {r : Decimal} → positive_decimal d ≡ ok r → (r ≡ d) × IsPositive d
unfolding positive_decimal
positive_decimal-ok d h = ground (arith, IsPositive-of_not_le_zero d)
