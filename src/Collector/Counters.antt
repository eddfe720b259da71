-- ===== src/Collector/Counters.antt =====
-- Counter arithmetic of internal/collector/accumulator.go.
pub mod Shares
pub mod Deltas
use tsastat.Prelude.{
  ℕ, zero, suc, ◌+◌, ◌-◌, ◌*◌, ◌/◌, ◌%◌, ◌≤◌, ◌<◌, ◌≡◌, refl, Bool, true, false, not, ◌||◌, Option,
  none, some, arith, ltb, leb, nat_beq, if◌then◌else◌, ◌>>=◌, add64, word, max_int64,
}
use tsastat.Clock.{Duration}
use tsastat.Model.Sample.{DelayCounter}

-- bits.Div64 panics unless the high word is below the divisor.
unfoldable pub div64 : ℕ → ℕ → ℕ → Option ℕ
div64 high low divisor = if ltb high divisor then some ((high * word + low) / divisor) else none

-- multiplyDivide: value * numerator / denominator over a 128-bit product.
unfoldable pub multiply_divide : ℕ → ℕ → ℕ → Option ℕ
unfolding div64
multiply_divide value numerator denominator =
    if nat_beq value 0 || nat_beq numerator 0 || nat_beq denominator 0
    then some 0
    else div64 (value * numerator / word) (value * numerator % word) denominator

-- nanosecondsDuration: a uint64 as a time.Duration, cut at the largest.
unfoldable pub nanoseconds_duration : ℕ → Duration
nanoseconds_duration value = if ltb max_int64 value then max_int64 else value

-- `a - b` on uint64.
abbrev pub sub64 : ℕ → ℕ → ℕ
sub64 a b = (a + word - b) % word

-- The part of a counter's delta between two offsets into a gap of `total` nanoseconds.
unfoldable pub share : ℕ → ℕ → ℕ → ℕ → Option ℕ
share value from to total = do
  at_start ← multiply_divide value from total
  at_end ← multiply_divide value to total
  some (sub64 at_end at_start)

pub record DelayCounterDelta : Type 0 where
  pub available : Bool
  pub count : ℕ
  pub total_nanoseconds : ℕ

abbrev pub no_delta : DelayCounterDelta
no_delta = record { available = false; count = 0; total_nanoseconds = 0 }

-- calculateDelayCounterDelta: the delta, and the running number of resets.
unfoldable pub calculate_delay_counter_delta :
    DelayCounter → DelayCounter → ℕ → DelayCounterDelta × ℕ
calculate_delay_counter_delta previous current resets =
    if not previous.available || not current.available
    then (no_delta, resets)
    else if ltb current.count previous.count
        || ltb current.total_nanoseconds previous.total_nanoseconds
    then (no_delta, resets + 1)
    else (
      record {
        available = true;
        count = current.count - previous.count;
        total_nanoseconds = current.total_nanoseconds - previous.total_nanoseconds;
      },
      resets,
    )
