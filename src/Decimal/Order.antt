-- ===== src/Decimal/Order.antt =====
-- The comparison of decimals is a total preorder, and it is the order of the values.
use native.Mathlib.Nat.{mul-le-mul_right, le_of_mul-le-mul_right}
use adaptive_trading_ecosyst.Prelude.{
  ℕ, ◌+◌, ◌*◌, ◌≤◌, ◌≡◌, sym, ◌∙◌, true, false, leb, leb→le, le→leb, arith,
}
use adaptive_trading_ecosyst.Prelude.Int.{
  ℤ, pos, pos_part, neg_part, leb_ℤ, ◌*ℤ◌, pos_part-mul_pos, neg_part-mul_pos,
}
use adaptive_trading_ecosyst.Decimal.{Decimal, leb_d, numerator, denominator, pow_ten_pos}

-- Numerator parts, so that an order of decimals is an order of naturals.
abbrev pub gain : Decimal → ℕ
gain d = pos_part (numerator d)

abbrev pub loss : Decimal → ℕ
loss d = neg_part (numerator d)

infix 50 ◌≤ᵈ◌
abbrev pub ◌≤ᵈ◌ : Decimal → Decimal → Type 0
a ≤ᵈ b = leb_d a b ≡ true

abbrev pub Crosses : Decimal → Decimal → Type 0
Crosses a b =
    gain a * denominator b + loss b * denominator a
    ≤ gain b * denominator a + loss a * denominator b

leb_scaled :
    (x y : ℤ) (m n : ℕ)
    → leb_ℤ (x *ℤ pos m) (y *ℤ pos n)
      ≡ leb (pos_part x * m + neg_part y * n) (pos_part y * n + neg_part x * m)
leb_scaled x y m n = simp (pos_part-mul_pos, neg_part-mul_pos)

pub leb_d-parts :
    (a b : Decimal)
    → leb_d a b
      ≡ leb
          (gain a * denominator b + loss b * denominator a)
          (gain b * denominator a + loss a * denominator b)
unfolding leb_d
leb_d-parts a b = leb_scaled (numerator a) (numerator b) (denominator b) (denominator a)

pub Crosses-of_le : (a b : Decimal) → a ≤ᵈ b → Crosses a b
Crosses-of_le a b h = leb→le _ _ (sym (leb_d-parts a b) ∙ h)

pub le_of_crosses : (a b : Decimal) → Crosses a b → a ≤ᵈ b
le_of_crosses a b h = leb_d-parts a b ∙ le→leb _ _ h

pub le_d_refl : (a : Decimal) → a ≤ᵈ a
le_d_refl a = le_of_crosses a a (omega arith)

pub le_d_total : (a b : Decimal) → leb_d a b ≡ false → b ≤ᵈ a
le_d_total a b h = le_of_crosses b a (ground (arith, leb_d-parts a b))

pub le_d_trans : (a b c : Decimal) → a ≤ᵈ b → b ≤ᵈ c → a ≤ᵈ c
le_d_trans a b c h k = le_of_crosses a c (
    le_of_mul-le-mul_right {k = denominator b}
      (omega (
        arith,
        mul-le-mul_right (denominator c) (Crosses-of_le a b h),
        mul-le-mul_right (denominator a) (Crosses-of_le b c k),
      ))
      (pow_ten_pos _))
