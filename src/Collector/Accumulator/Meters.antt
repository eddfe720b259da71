-- ===== src/Collector/Accumulator/Meters.antt =====
-- The quantities whose totals are followed, and what each write of the snapshot accumulator adds.
use tsastat.Prelude.{refl, arith, if◌then◌else◌}
use tsastat.Clock.{Duration}
use tsastat.Model.State.{ThreadState, state_beq}
use tsastat.Model.Stats.{add_duration}
use tsastat.Collector.Accumulator.Windows.{new_stats, rename_thread}
use tsastat.Collector.Accumulator.Schedstat.{SchedstatDelta, add_schedstat, count_schedstat_reset}
use tsastat.Collector.Accumulator.Delays.{
  DelayDelta, CounterDeltas, add_delays, describe_delays, count_delay_pair,
}
use tsastat.Collector.Accumulator.Gaps.{add_state_time, note_gap, note_transition}
use tsastat.Collector.EventAccumulator.Windows.{new_track_stats}
use tsastat.Collector.Totals.{Meter, IsMeter, Adds}

-- The time that a thread was observed, and the part of it in one state.
abbrev pub observed : Meter
observed stat = stat.total_observed

abbrev pub time_in : ThreadState → Meter
time_in state stat = stat.durations state

pub observed-IsMeter : IsMeter observed
unfolding new_stats new_track_stats rename_thread
observed-IsMeter = record {
  blank = λ g index sample. refl;
  blank_track = λ g index track. refl;
  renamed = λ comm stat. ground arith;
}

pub time_in-IsMeter : (state : ThreadState) → IsMeter (time_in state)
unfolding new_stats new_track_stats rename_thread
time_in-IsMeter state = record {
  blank = λ g index sample. refl;
  blank_track = λ g index track. refl;
  renamed = λ comm stat. ground arith;
}

-- The part of `delta` that is spent in `wanted`, when all of it is spent in `state`.
abbrev pub spent : ThreadState → ThreadState → Duration → Duration
spent state wanted delta = if state_beq state wanted then delta else 0

pub add_state_time-observed :
    (state : ThreadState) (delta : Duration) → Adds observed delta (add_state_time state delta)
unfolding add_state_time
add_state_time-observed state delta stat = omega arith

pub add_state_time-time_in :
    (wanted state : ThreadState) (delta : Duration)
    → Adds (time_in wanted) (spent state wanted delta) (add_state_time state delta)
unfolding add_state_time add_duration
add_state_time-time_in wanted state delta stat = ground arith

-- A quantity that the writes beside the state times leave alone.
pub record IsStateMeter (f : Meter) : Type 0 where
  pub schedstat :
      (gap seen : Duration) (part : SchedstatDelta) → Adds f 0 (add_schedstat gap seen part)
  pub reset : Adds f 0 count_schedstat_reset
  pub delay :
      (gap seen : Duration) (delta : DelayDelta) (parts : CounterDeltas)
      → Adds f 0 (add_delays gap seen delta parts)
  pub gap : (gap : Duration) → Adds f 0 (note_gap gap)
  pub transition : (uncertainty : Duration) → Adds f 0 (note_transition uncertainty)

pub observed-IsStateMeter : IsStateMeter observed
unfolding add_schedstat count_schedstat_reset add_delays describe_delays count_delay_pair note_gap
    note_transition
observed-IsStateMeter = record {
  schedstat = λ gap seen part stat. omega arith;
  reset = λ stat. omega arith;
  delay = λ gap seen delta parts stat. ground arith;
  gap = λ gap stat. omega arith;
  transition = λ uncertainty stat. omega arith;
}

pub time_in-IsStateMeter : (state : ThreadState) → IsStateMeter (time_in state)
unfolding add_schedstat count_schedstat_reset add_delays describe_delays count_delay_pair note_gap
    note_transition
time_in-IsStateMeter state = record {
  schedstat = λ gap seen part stat. omega arith;
  reset = λ stat. omega arith;
  delay = λ gap seen delta parts stat. ground arith;
  gap = λ gap stat. omega arith;
  transition = λ uncertainty stat. omega arith;
}
