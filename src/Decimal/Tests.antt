-- ===== src/Decimal/Tests.antt =====
-- Runs of the decimal operations that can be followed by hand.
use adaptive_trading_ecosyst.Prelude.{◌≡◌, refl, some, true}
use adaptive_trading_ecosyst.Prelude.Int.{pos, negsuc}
use adaptive_trading_ecosyst.Decimal.{Decimal, ◌+ᵈ◌, ◌-ᵈ◌, div_d, leb_d, of_int, decimal_arithmetic}

abbrev tenth : Decimal
tenth = record { coef = pos 1; exp = negsuc 0 }

sum_runs : tenth +ᵈ of_int (pos 2) ≡ record { coef = pos 21; exp = negsuc 0 }
unfolding ◌+ᵈ◌
sum_runs = refl

difference_runs : tenth -ᵈ of_int (pos 2) ≡ record { coef = negsuc 18; exp = negsuc 0 }
unfolding ◌-ᵈ◌
difference_runs = refl

-- 1 / 3 to 34 digits
third_runs :
    div_d (of_int (pos 1)) (of_int (pos 3))
    ≡ some (record { coef = pos 3333333333333333333333333333333333; exp = negsuc 33 })
unfolding div_d
third_runs = refl

-- 6 / 4
exact_runs :
    div_d (of_int (pos 6)) (of_int (pos 4)) ≡ some (record { coef = pos 15; exp = negsuc 0 })
unfolding div_d
exact_runs = refl

-- a tie on the 35th digit goes to the even neighbour
tie_runs :
    of_int (pos 10000000000000000000000000000000005) +ᵈ of_int (pos 0)
    ≡ record { coef = pos 1000000000000000000000000000000000; exp = pos 1 }
unfolding ◌+ᵈ◌
tie_runs = refl

order_runs : leb_d (record { coef = pos 10; exp = negsuc 0 }) (of_int (pos 1)) ≡ true
unfolding decimal_arithmetic
order_runs = refl
