-- ===== src/Collector/Accumulator/Tests.antt =====
-- The snapshot accumulator on concrete snapshots, and its theorems at concrete inputs.
use tsastat.Prelude.{
  ℕ, ◌+◌, ◌-◌, ◌*◌, ◌/◌, ◌≡◌, refl, true, Option, some, List, [], ◌∷◌, map, arith, ◌>>=◌, max_int64,
  SameWord, Returns, for_each, insert, upsert, lookup, sort_slice, delete, insert_sorted,
}
use tsastat.Collector.Accumulator.Scan.{
  add_samples, scan_window_indices, normalized_finish, record_observation, normalized_start,
  record_scan, samples_by_identity, normalize_snapshot, first_from, last_from, note_scan,
  record_observation_at, spanned_windows, count_sample, first_sample_time, earlier,
  last_sample_time, scan_duration, note_scans,
}
use tsastat.Collector.Accumulator.Delays.{
  observe_delays, add_counters, add_delays, counter_share, delay_visitor, counter_shares,
  add_counter, describe_delays, add_delay_delta, has_comparable_counter, count_delay_pair,
  delay_delta,
}
use tsastat.Clock.{Time, time_sub, time_add, half}
use tsastat.Model.State.{ThreadState}
use tsastat.Model.Sample.{
  ThreadSample, ThreadSnapshot, DelayCounter, identity, no_delays, identity_beq,
}
use tsastat.Model.Stats.{
  IntervalReport, ThreadIntervalStats, add_duration, delay_counters_available, schedstat_available,
}
use tsastat.Collector.Grid.{
  Grid, window_index, walk, for_each_window, overlap_end, window_end, visit, window_loop,
  window_bounds, window_start,
}
use tsastat.Collector.Counters.{
  multiply_divide, calculate_delay_counter_delta, share, nanoseconds_duration, div64,
}
use tsastat.Collector.Counters.Shares.{multiply_divide-eq}
use tsastat.Collector.Counters.Deltas.{Compared, calculate_delay_counter_delta-Compared}
use tsastat.Collector.Totals.{total_of, credit}
use tsastat.Collector.Accumulator.Windows.{
  Windows, rename_thread, with_thread_stats, with_window, new_stats, new_window,
}
use tsastat.Collector.Accumulator.Meters.{time_in, observed, spent}
use tsastat.Collector.Accumulator.Schedstat.{
  SchedstatDelta, add_schedstat_delta, observe_schedstat, schedstat_went_down, schedstat_delta,
  schedstat_visitor, schedstat_share, count_schedstat_reset, record_schedstat_reset, add_schedstat,
}
use tsastat.Collector.Accumulator.Schedstat.Conservation.{
  cpu_time, runqueue_time, slices, add_schedstat_delta-conserves,
}
use tsastat.Collector.Accumulator.Gaps.{
  observe_gap, observe_disappearance, record_gap, segment_visitor, midpoint_time, add_segment,
  overlap_duration, note_transition, record_transition, add_state_time, note_window_gap, note_gap,
}
use tsastat.Collector.Accumulator.Gaps.Conservation.{
  IsGap, gap_amount, observe_gap-time_in, observe_gap-observed, observe_disappearance-time_in,
}
use tsastat.Collector.Accumulator.Finalize.{
  finalize_through, count_taskstats, note_accounting, identity_less, add_qualities, stats_of,
  window_quality, base_quality, report_next, add_quality, window_report, count_schedstat,
  sorted_stats, count_resets, finalize_loop,
}
use tsastat.Collector.Accumulator.Finalize.Tiling.{Completed, finalize_through-Completed}
use tsastat.Collector.Accumulator.Observe.{
  Accumulator, new_accumulator, observe, observe_next, observe_first, observe_thread, thread_end,
  count_first, watermark_previous, watermark_new, watermark_of,
}

abbrev worker : ThreadState → Time → ℕ → ThreadSample
worker state time busy = record {
  pid = 1;
  tid = 7;
  start_time_ticks = 5;
  start_time_nanoseconds = 0;
  comm = "worker";
  state = state;
  timestamp = time;
  schedstat = record {
    available = true;
    on_cpu_nanoseconds = busy;
    runqueue_nanoseconds = 0;
    timeslices = 1;
  };
  delays = no_delays;
}

abbrev scan : Time → List ThreadSample → ThreadSnapshot
scan time samples = record {
  samples = samples;
  started_at = time;
  finished_at = time;
  sampling_method = "";
}

-- A thread that runs, then sleeps, over two and a half windows.
abbrev two_scans : Option (Accumulator × List IntervalReport)
two_scans = do
  (a, _) ← observe 0 (new_accumulator 1000) (scan 5000 (worker ThreadState.running 5000 100 ∷ []))
  observe 0 a (scan 7500 (worker ThreadState.sleeping 7500 1101 ∷ []))

abbrev summary : Option (Accumulator × List IntervalReport) → Option (List (List (ℕ × ℕ × ℕ × ℕ)))
summary r = do
  (_, reports) ← r
  some (
      map
        (λ (x : IntervalReport).
          map
            (λ (s : ThreadIntervalStats). (
              s.on_cpu,
              s.durations ThreadState.running,
              s.durations ThreadState.sleeping,
              s.sample_count,
            ))
            x.threads)
        reports)

two_scans-summary :
    summary two_scans ≡ some (((400, 1000, 0, 1) ∷ []) ∷ ((400, 250, 750, 0) ∷ []) ∷ [])
unfolding add_counter add_counters add_delay_delta add_delays add_duration add_qualities add_quality
    add_samples add_schedstat add_schedstat_delta add_segment add_state_time base_quality
    calculate_delay_counter_delta count_delay_pair count_first count_resets count_sample
    count_schedstat count_schedstat_reset count_taskstats counter_share counter_shares
    delay_counters_available delay_delta delay_visitor delete describe_delays div64 earlier
    finalize_loop finalize_through first_from first_sample_time for_each for_each_window half
    has_comparable_counter identity identity_beq identity_less insert insert_sorted last_from
    last_sample_time lookup midpoint_time multiply_divide nanoseconds_duration new_accumulator
    new_stats new_window normalize_snapshot normalized_finish normalized_start note_accounting
    note_gap note_scan note_scans note_transition note_window_gap observe observe_delays
    observe_disappearance observe_first observe_gap observe_next observe_schedstat observe_thread
    overlap_duration overlap_end record_gap record_observation record_observation_at record_scan
    record_schedstat_reset record_transition rename_thread report_next samples_by_identity
    scan_duration scan_window_indices schedstat_available schedstat_delta schedstat_share
    schedstat_visitor schedstat_went_down segment_visitor share sort_slice sorted_stats
    spanned_windows stats_of thread_end time_add time_sub upsert visit walk watermark_new
    watermark_of watermark_previous window_bounds window_end window_index window_loop window_quality
    window_report window_start with_thread_stats with_window
two_scans-summary = refl

-- The windows from 1000 on, each 100 long, of which the first has been reported.
abbrev hundreds : Grid
hundreds = record { origin = 1000; interval = 100; next_window = 1 }

abbrev first_reading : ThreadSample
first_reading = worker ThreadState.running 1130 40

abbrev second_reading : ThreadSample
second_reading = worker ThreadState.sleeping 1361 90

readings-IsGap : IsGap hundreds first_reading second_reading 1361
readings-IsGap = record {
  horizon = record { positive = omega arith; room = omega arith };
  after_origin = omega arith;
  nonempty = omega arith;
  still_open = omega arith;
  schedstat = omega arith;
  delays = omega arith;
}

abbrev fifty_busy : SchedstatDelta
fifty_busy = record { on_cpu_nanoseconds = 50; runqueue_nanoseconds = 7; timeslices = 3 }

abbrev time_of_worker : ThreadState → Windows → ℕ
time_of_worker state ws = total_of (time_in state) (identity first_reading) ws

observe_gap-time_in_example :
    Returns (observe_gap hundreds first_reading second_reading 1361 []) (λ ws'.
      SameWord (time_of_worker ThreadState.running ws') (
        time_of_worker ThreadState.running []
        + gap_amount
            (λ state. spent state ThreadState.running)
            (identity first_reading)
            first_reading
            second_reading
            (1361 - 1130)))
observe_gap-time_in_example =
    observe_gap-time_in hundreds (identity first_reading) first_reading second_reading 1361
      readings-IsGap [] ThreadState.running

observe_gap-observed_example :
    Returns (observe_gap hundreds first_reading second_reading 1361 []) (λ ws'.
      SameWord (total_of observed (identity first_reading) ws') (
        total_of observed (identity first_reading) []
        + credit (identity first_reading) (identity first_reading) (1361 - 1130)))
unfolding identity
observe_gap-observed_example =
    observe_gap-observed hundreds (identity first_reading) first_reading second_reading 1361
      readings-IsGap [] refl

observe_disappearance-time_in_example :
    Returns (observe_disappearance hundreds first_reading 1361 []) (λ ws'.
      SameWord (time_of_worker ThreadState.unknown ws') (
        time_of_worker ThreadState.unknown []
        + credit
            (identity first_reading)
            (identity first_reading)
            (spent ThreadState.running ThreadState.unknown ((1361 - 1130) / 2))
        + credit
            (identity first_reading)
            (identity first_reading)
            (spent ThreadState.unknown ThreadState.unknown ((1361 - 1130) - (1361 - 1130) / 2))))
observe_disappearance-time_in_example =
    observe_disappearance-time_in hundreds (identity first_reading) first_reading second_reading
      1361 readings-IsGap [] ThreadState.unknown

add_schedstat_delta-conserves_example :
    (ws' : Windows) × (add_schedstat_delta hundreds second_reading 1130 1361 fifty_busy []
      ≡ some ws')
    × SameWord (total_of cpu_time (identity second_reading) ws') (
        total_of cpu_time (identity second_reading) []
        + credit (identity second_reading) (identity second_reading) 50)
    × SameWord (total_of runqueue_time (identity second_reading) ws') (
        total_of runqueue_time (identity second_reading) []
        + credit (identity second_reading) (identity second_reading) 7)
    × SameWord (total_of slices (identity second_reading) ws') (
        total_of slices (identity second_reading) []
        + credit (identity second_reading) (identity second_reading) 3)
add_schedstat_delta-conserves_example =
    add_schedstat_delta-conserves hundreds 1130 1361 (identity second_reading) second_reading
      fifty_busy []
      (record {
        horizon = record { positive = omega arith; room = omega arith };
        after_origin = omega arith;
        nonempty = omega arith;
        still_open = omega arith;
      })
      (omega arith) (omega arith) (omega arith)

finalize_through-Completed_example :
    Returns (finalize_through true 1361 hundreds []) (Completed hundreds 1361 [])
finalize_through-Completed_example =
    finalize_through-Completed 1361 hundreds []
      (record { positive = omega arith; room = omega arith }) (omega arith) (omega arith)

multiply_divide-eq_example : multiply_divide max_int64 3 4 ≡ some (max_int64 * 3 / 4)
multiply_divide-eq_example =
    multiply_divide-eq max_int64 3 4 (omega arith) (omega arith) (omega arith)

abbrev first_delay : DelayCounter
first_delay = record { available = true; count = 3; total_nanoseconds = 700 }

abbrev second_delay : DelayCounter
second_delay = record { available = true; count = 5; total_nanoseconds = 900 }

calculate_delay_counter_delta-Compared_example :
    Compared first_delay second_delay 4 (calculate_delay_counter_delta first_delay second_delay 4)
calculate_delay_counter_delta-Compared_example =
    calculate_delay_counter_delta-Compared first_delay second_delay 4
