-- ===== src/Benchmarks/States.antt =====
-- research/indicators/states.py: classifications of supplied values.
use adaptive_trading_ecosyst.Prelude.{
  Bool, false, Option, none, some, if◌then◌else◌, Result, ok, ◌>>=◌, ◌>>◌, raise_if,
}
use adaptive_trading_ecosyst.Decimal.{Decimal, ltb_d, zero_d}
use adaptive_trading_ecosyst.Domain.Primitives.{finite_decimal}

pub data MovingAverageState : Type 0 where
  bullish bearish neutral unavailable : MovingAverageState

pub data ChannelState : Type 0 where
  upside_breakout downside_breakout inside unavailable : ChannelState

pub data MomentumState : Type 0 where
  positive negative flat unavailable : MomentumState

-- `_optional`
unfoldable pub optional : Option Decimal → Result (Option Decimal)
optional none = ok none
optional (some d) = do v ← finite_decimal d; ok (some v)

abbrev pub compare_averages : Option Decimal → Option Decimal → MovingAverageState
compare_averages (some fast) (some slow) =
    if ltb_d slow fast
    then MovingAverageState.bullish
    else if ltb_d fast slow
    then MovingAverageState.bearish
    else MovingAverageState.neutral
compare_averages _ _ = MovingAverageState.unavailable

unfoldable pub moving_average_state : Option Decimal → Option Decimal → Result MovingAverageState
unfolding optional
moving_average_state fast_ma slow_ma = do
  fast ← optional fast_ma
  slow ← optional slow_ma
  ok (compare_averages fast slow)

unfoldable pub crossed : Option Decimal → Option Decimal → Bool
crossed (some high) (some low) = ltb_d high low
crossed _ _ = false

abbrev pub place_in_channel : Option Decimal → Option Decimal → Option Decimal → ChannelState
place_in_channel (some value) (some high) (some low) =
    if ltb_d high value
    then ChannelState.upside_breakout
    else if ltb_d value low
    then ChannelState.downside_breakout
    else ChannelState.inside
place_in_channel _ _ _ = ChannelState.unavailable

unfoldable pub channel_breakout_state :
    Option Decimal → Option Decimal → Option Decimal → Result ChannelState
unfolding optional
channel_breakout_state close previous_high previous_low = do
  value ← optional close
  high ← optional previous_high
  low ← optional previous_low
  raise_if (crossed high low) "INVALID_CHANNEL_BOUNDS"
  ok (place_in_channel value high low)

abbrev momentum_of : Option Decimal → MomentumState
momentum_of none = MomentumState.unavailable
momentum_of (some value) =
    if ltb_d zero_d value
    then MomentumState.positive
    else if ltb_d value zero_d
    then MomentumState.negative
    else MomentumState.flat

unfoldable pub momentum_state : Option Decimal → Result MomentumState
unfolding optional
momentum_state trailing_return = do value ← optional trailing_return; ok (momentum_of value)
