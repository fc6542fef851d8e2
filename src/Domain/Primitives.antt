-- ===== src/Domain/Primitives.antt =====
-- domain/primitives.py: the identifiers, instants and validated numbers that every contract holds.
-- An identifier is the 128-bit number of a UUID, whose text order is the order of the numbers. An
-- instant is a count of microseconds in UTC, from the first day that `datetime` can hold.
pub mod Positive
use adaptive_trading_ecosyst.Prelude.{
  ℕ, ◌*◌, Bool, true, false, not, ◌||◌, ltb, leb, Result, ok, err, ◌>>=◌, ◌>>◌, raise_if,
}
use adaptive_trading_ecosyst.Prelude.Int.{nat_abs}
use adaptive_trading_ecosyst.Decimal.{Decimal, num_digits, precision, leb_d, zero_d}

abbrev pub EntityId : Type 0
EntityId = ℕ

abbrev pub UtcTimestamp : Type 0
UtcTimestamp = ℕ

abbrev pub seconds : ℕ → ℕ
seconds n = n * 1_000_000

abbrev pub minutes : ℕ → ℕ
minutes n = n * 60_000_000

abbrev pub hours : ℕ → ℕ
hours n = n * 3_600_000_000

abbrev pub days : ℕ → ℕ
days n = n * 86_400_000_000

pub data Asset : Type 0 where
  btcusd xauusd ustec100 : Asset

-- The place of an asset in the order of the texts `BTCUSD`, `USTEC100` and `XAUUSD`.
abbrev pub asset_rank : Asset → ℕ
asset_rank Asset.btcusd = 0
asset_rank Asset.ustec100 = 1
asset_rank Asset.xauusd = 2

pub data RuntimeMode : Type 0 where
  research backtest paper_forward demo_qualification demo_operational : RuntimeMode

-- The representation bound of every number that enters a contract.
unfoldable pub finite_decimal : Decimal → Result Decimal
finite_decimal d = do
  raise_if (ltb precision (num_digits (nat_abs d.coef)) || ltb 100 (nat_abs d.exp))
      "decimal exceeds the 34-digit / exponent-100 boundary"
  ok d

unfoldable pub positive_decimal : Decimal → Result Decimal
unfolding finite_decimal
positive_decimal d = do
  result ← finite_decimal d
  raise_if (leb_d result zero_d) "positive decimal required"
  ok result

-- `Annotated[Money, Field(ge=0)]`
unfoldable pub nonnegative_decimal : Decimal → Result Decimal
unfolding finite_decimal
nonnegative_decimal d = do
  result ← finite_decimal d
  raise_if (not (leb_d zero_d result)) "greater_than_equal"
  ok result
