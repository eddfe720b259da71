-- ===== src/Collector/EventAccumulator/Tests.antt =====
-- The event accumulator on concrete events, and its theorems at concrete inputs.
use mathlib.Core.List.{Perm}
use tsastat.Prelude.{
  ℕ, ◌+◌, ◌-◌, ◌≡◌, refl, Option, some, List, [], ◌∷◌, map, arith, ◌>>=◌, SameWord, Returns,
  IsInOrder, for_each, lookup, sort_slice, insert, upsert, delete, insert_sorted,
}
use tsastat.Clock.{Time, time_add, time_sub}
use tsastat.Model.State.{ThreadState}
use tsastat.Model.Sample.{ThreadSample, ThreadSnapshot, no_delays, no_schedstat, identity_beq}
use tsastat.Model.Scheduler.{SchedulerState, SchedulerEventKind, SchedulerEvent}
use tsastat.Model.Stats.{IntervalReport, ThreadIntervalStats, empty_stats, add_duration}
use tsastat.Collector.Grid.{Grid, window_start, window_index, walk, visit, window_loop, overlap_end}
use tsastat.Collector.Totals.{total_of, credit}
use tsastat.Collector.Accumulator.Windows.{Stats, rename_thread}
use tsastat.Collector.Accumulator.Scan.{
  normalize_snapshot, normalized_finish, normalized_start, first_sample_time, first_from,
  last_sample_time, last_from,
}
use tsastat.Collector.Accumulator.Meters.{time_in, spent}
use tsastat.Collector.EventAccumulator.Track.{
  SchedulerTrack, track_identity, seeded_track, wake, apply_transition, refreshed_track,
  scheduler_identity_changed, scheduler_state_from_initial_sample, discovered_track,
}
use tsastat.Collector.EventAccumulator.Windows.{
  add_track_segment, reported_state, count_event, add_cpu_time, new_event_window, count_timeslice,
  add_track_time, record_late_event, record_initialization_race, count_race, with_event_window,
  note_event, note_event_quality, with_track_stats, for_each_event_window, track_visitor,
  new_track_stats, race_window, count_latency, count_late_event, count_incomplete_wakeup,
  record_event,
}
use tsastat.Collector.EventAccumulator.Observe.{
  EventAccumulator, new_event_accumulator, observe_event, observe_known, observe_accepted,
  observe_before_origin, observe_in_order, seed_tracks, observe_track,
}
use tsastat.Collector.EventAccumulator.Advance.{
  advance, stats_less, sorted_event_stats, report_loop, event_quality, book_track, event_report,
  advance_to, bring_forward, next_boundary,
}
use tsastat.Collector.EventAccumulator.Advance.Order.{Precedes, sorted_event_stats-IsInOrder}
use tsastat.Collector.EventAccumulator.Conservation.{add_track_segment-time_in}
use tsastat.Collector.EventAccumulator.Invariant.Observe.{Keeps, observe_event-Keeps}
use tsastat.Collector.EventAccumulator.Invariant.Advance.{Advances, advance-Advances}
use tsastat.Collector.EventAccumulator.Runs.{
  Call, event, boundary, run, Runs, run_from_start-Runs, new_event_accumulator-EventInv, step,
}

abbrev worker : ThreadSample
worker = record {
  pid = 1;
  tid = 7;
  start_time_ticks = 5;
  start_time_nanoseconds = 0;
  comm = "worker";
  state = ThreadState.sleeping;
  timestamp = 1000;
  schedstat = no_schedstat;
  delays = no_delays;
}

abbrev first_scan : ThreadSnapshot
first_scan = record {
  samples = worker ∷ [];
  started_at = 990;
  finished_at = 1000;
  sampling_method = "";
}

abbrev at_instant : Time → SchedulerEventKind → SchedulerState → SchedulerEvent
at_instant time kind state = record {
  timestamp = time;
  pid = 1;
  tid = 7;
  start_time_ticks = 5;
  start_time_nanoseconds = 0;
  comm = "worker";
  cpu = 0;
  kind = kind;
  state = state;
}

-- A thread wakes, waits, runs and sleeps; the second of its windows is reported at 1200.
abbrev calls : List Call
calls =
    event (at_instant 1040 SchedulerEventKind.wakeup SchedulerState.runnable)
    ∷ event (at_instant 1050 SchedulerEventKind.switch_in SchedulerState.on_cpu)
    ∷ boundary 1100 0
    ∷ event (at_instant 1130 SchedulerEventKind.switch_out SchedulerState.sleeping)
    ∷ event (at_instant 1090 SchedulerEventKind.wakeup SchedulerState.runnable)
    ∷ boundary 1200 0
    ∷ []

abbrev started : EventAccumulator
started = new_event_accumulator 0 100 first_scan

abbrev summary :
    Option (EventAccumulator × List IntervalReport) → Option (List (ℕ × ℕ × List (ℕ × ℕ × ℕ × ℕ)))
summary r = do
  (_, reports) ← r
  some (
      map
        (λ (x : IntervalReport). (
          x.interval_start,
          x.quality.scheduler_late_events,
          map
              (λ (s : ThreadIntervalStats). (
                s.on_cpu,
                s.runqueue_wait,
                s.durations ThreadState.sleeping,
                s.wakeup_latency_total,
              ))
              x.threads,
        ))
        reports)

-- Sleep, wait and running time of each window, and the event that came late.
calls-summary :
    summary (run calls started)
    ≡ some ((1000, 0, (50, 10, 40, 10) ∷ []) ∷ (1100, 1, (30, 0, 70, 0) ∷ []) ∷ [])
unfolding add_cpu_time add_duration add_track_segment add_track_time advance advance_to
    apply_transition book_track bring_forward count_event count_incomplete_wakeup count_late_event
    count_latency count_race count_timeslice delete discovered_track event_quality event_report
    first_from first_sample_time for_each for_each_event_window identity_beq insert insert_sorted
    last_from last_sample_time lookup new_event_accumulator new_event_window new_track_stats
    next_boundary normalize_snapshot normalized_finish normalized_start note_event
    note_event_quality observe_accepted observe_before_origin observe_event observe_in_order
    observe_known observe_track overlap_end race_window record_event record_initialization_race
    record_late_event refreshed_track rename_thread report_loop reported_state run
    scheduler_identity_changed scheduler_state_from_initial_sample seed_tracks seeded_track
    sort_slice sorted_event_stats stats_less step time_add time_sub track_identity track_visitor
    upsert visit wake walk window_index window_loop window_start with_event_window with_track_stats
calls-summary = refl

-- The windows from 1000 on, each 100 long, of which the first has been reported.
abbrev hundreds : Grid
hundreds = record { origin = 1000; interval = 100; next_window = 1 }

abbrev track : SchedulerTrack
track = seeded_track 1000 worker

run_from_start-Runs_example : Returns (run calls started) (Runs started)
unfolding new_event_accumulator normalize_snapshot normalized_finish
run_from_start-Runs_example =
    run_from_start-Runs 0 100 first_scan calls (omega arith) (omega arith) (ground arith)

advance-Advances_example : Returns (advance 1250 0 started) (Advances 1250 started)
unfolding new_event_accumulator normalize_snapshot normalized_finish
advance-Advances_example =
    advance-Advances 1250 0 started
      (new_event_accumulator-EventInv 0 100 first_scan (omega arith) (omega arith))
      (record { positive = omega arith; room = omega arith })

observe_event-Keeps_example :
    Returns
      (observe_event (at_instant 1040 SchedulerEventKind.wakeup SchedulerState.runnable) started)
      (Keeps started)
unfolding new_event_accumulator normalize_snapshot normalized_finish
observe_event-Keeps_example =
    observe_event-Keeps started (at_instant 1040 SchedulerEventKind.wakeup SchedulerState.runnable)
      (new_event_accumulator-EventInv 0 100 first_scan (omega arith) (omega arith))
      (record { positive = omega arith; room = omega arith })

add_track_segment-time_in_example : Returns (add_track_segment hundreds track 1130 1361 []) (λ ws'.
    SameWord (total_of (time_in ThreadState.sleeping) (track_identity track) ws') (
      total_of (time_in ThreadState.sleeping) (track_identity track) []
      + credit
          (track_identity track)
          (track_identity track)
          (spent (reported_state track.state) ThreadState.sleeping (1361 - 1130))))
add_track_segment-time_in_example =
    add_track_segment-time_in hundreds track 1130 1361 (track_identity track) ThreadState.sleeping
      [] (record { positive = omega arith; room = omega arith }) (omega arith) (omega arith)
      (omega arith)

abbrev two_threads : Stats
two_threads =
    (
      record { tid = 9; start_time_ticks = 0; start_time_nanoseconds = 0 },
      record empty_stats { tid = 9 },
    )
    ∷ (
      record { tid = 7; start_time_ticks = 0; start_time_nanoseconds = 0 },
      record empty_stats { tid = 7 },
    )
    ∷ []

sorted_event_stats-IsInOrder_example :
    IsInOrder Precedes (sorted_event_stats two_threads)
    × Perm (map (λ entry. entry.1) two_threads) (sorted_event_stats two_threads)
sorted_event_stats-IsInOrder_example = sorted_event_stats-IsInOrder two_threads
