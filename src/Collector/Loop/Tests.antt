-- ===== src/Collector/Loop/Tests.antt =====
-- The collector's loops on concrete messages, and their theorems at concrete inputs.
use tsastat.Prelude.{◌+◌, ◌<◌, ◌≤◌, ◌≡◌, refl, none, List, [], ◌∷◌, arith, Returns}
use tsastat.Clock.{Time}
use tsastat.Model.State.{ThreadState}
use tsastat.Model.Sample.{ThreadSnapshot, no_delays, no_schedstat}
use tsastat.Model.Scheduler.{SchedulerState, SchedulerEventKind, SchedulerEvent}
use tsastat.Model.Sources.{canceled, taken, failed}
use tsastat.Collector.Grid.{Grid}
use tsastat.Collector.Accumulator.Finalize.Tiling.{Tiles, length_of}
use tsastat.Collector.Accumulator.Scan.{normalize_snapshot, normalized_start, normalized_finish}
use tsastat.Collector.Accumulator.Observe.{new_accumulator}
use tsastat.Collector.Accumulator.Observe.Scans.{IsTimely}
use tsastat.Collector.Accumulator.Observe.Runs.{
  Reading, scan_grid, observe_all, observe_from_new-Observed,
}
use tsastat.Collector.EventAccumulator.Observe.{new_event_accumulator}
use tsastat.Collector.EventAccumulator.Advance.{advance, next_boundary}
use tsastat.Collector.EventAccumulator.Invariant.Advance.{IsSound, Advanced}
use tsastat.Collector.EventAccumulator.Runs.{new_event_accumulator-EventInv}
use tsastat.Collector.Loop.{Sink}
use tsastat.Collector.Loop.Emitted.{Emits}
use tsastat.Collector.Loop.Snapshots.{SnapshotMessage, tick, run_snapshots}
use tsastat.Collector.Loop.Events.{
  value, opened, event, timer, flushed, StreamMessage, stream_accumulator, run_scheduler_events,
}
use tsastat.Collector.Loop.Hybrid.{HybridMessage, run_hybrid_scheduler_events}
use tsastat.Collector.Loop.Boundary.{advance-next_boundary}
use tsastat.Collector.Loop.SnapshotReports.{run_snapshots-Emits}
use tsastat.Collector.Loop.EventReports.{run_scheduler_events-Emits}
use tsastat.Collector.Loop.Liveness.{Finishes}
use tsastat.Collector.Loop.EventLiveness.{run_scheduler_events-Finishes}
use tsastat.Collector.Loop.HybridReports.{run_hybrid_scheduler_events-Emits}

abbrev scan_at : Time → ThreadState → ThreadSnapshot
scan_at time state = record {
  samples =
      record {
        pid = 1;
        tid = 7;
        start_time_ticks = 5;
        start_time_nanoseconds = 0;
        comm = "worker";
        state = state;
        timestamp = time;
        schedstat = no_schedstat;
        delays = no_delays;
      }
      ∷ [];
  started_at = time;
  finished_at = time;
  sampling_method = "";
}

abbrev two_reports : Sink
two_reports = record { count = 2; emit = λ _ _. none; source_status = λ _. none }

abbrev first_scan : ThreadSnapshot
first_scan = scan_at 1000 ThreadState.running

abbrev grid : Grid
grid = record { origin = 1000; interval = 100; next_window = 0 }

scan_at-IsTimely :
    (now time : Time) (state : ThreadState)
    → 1000 ≤ time
    → time < 10000
    → IsTimely grid (normalize_snapshot now (scan_at time state))
unfolding normalize_snapshot normalized_start normalized_finish
scan_at-IsTimely now time state lo hi = ground arith

abbrev ticks : List SnapshotMessage
ticks =
    tick 1080 (taken (scan_at 1080 ThreadState.running))
    ∷ tick 1160 (taken (scan_at 1160 ThreadState.sleeping))
    ∷ tick 1240 (taken (scan_at 1240 ThreadState.sleeping))
    ∷ []

abbrev wakeup : SchedulerEvent
wakeup = record {
  timestamp = 1040;
  pid = 1;
  tid = 7;
  start_time_ticks = 5;
  start_time_nanoseconds = 0;
  comm = "worker";
  cpu = 0;
  kind = SchedulerEventKind.wakeup;
  state = SchedulerState.runnable;
}

run_snapshots-Emits_example :
    Returns
      (run_snapshots two_reports 1000 (taken first_scan) ticks (new_accumulator 100))
      (λ (outcome, out).
        Emits two_reports
          (scan_grid 100 (record { now = 1000; snapshot = first_scan }))
          (λ _. Unit)
          0
          0
          outcome
          out)
unfolding normalize_snapshot normalized_start normalized_finish
run_snapshots-Emits_example =
    run_snapshots-Emits two_reports 1000 100 first_scan ticks (omega arith)
      (scan_at-IsTimely 1000 1000 ThreadState.running (omega arith) (omega arith))
      (
        scan_at-IsTimely 1080 1080 ThreadState.running (omega arith) (omega arith),
        (
          scan_at-IsTimely 1160 1160 ThreadState.sleeping (omega arith) (omega arith),
          (scan_at-IsTimely 1240 1240 ThreadState.sleeping (omega arith) (omega arith), tt),
        ),
      )

abbrev reading : Time → Reading
reading time = record { now = time; snapshot = scan_at time ThreadState.running }

observe_from_new-Observed_example :
    Returns
      (observe_all (reading 1000 ∷ reading 1080 ∷ reading 1160 ∷ []) (new_accumulator 100))
      (λ (b, reports).
        (b.origin ≡ (scan_grid 100 (reading 1000)).origin)
        × Tiles (scan_grid 100 (reading 1000)) 0 reports
        × (b.next_window ≡ length_of reports))
unfolding normalize_snapshot normalized_start normalized_finish
observe_from_new-Observed_example =
    observe_from_new-Observed 100 (reading 1000) (reading 1080 ∷ reading 1160 ∷ []) (omega arith) (
      scan_at-IsTimely 1000 1000 ThreadState.running (omega arith) (omega arith),
      (
        scan_at-IsTimely 1080 1080 ThreadState.running (omega arith) (omega arith),
        (scan_at-IsTimely 1160 1160 ThreadState.running (omega arith) (omega arith), tt),
      ),
    )

-- An event, and two windows; the flush of the first brings an event too.
abbrev stream : List StreamMessage
stream =
    event (value wakeup)
    ∷ timer none (flushed (value (wakeup ∷ [])) ∷ []) 0
    ∷ timer none (flushed (value []) ∷ []) 3
    ∷ []

run_scheduler_events-Emits_example :
    Returns
      (run_scheduler_events two_reports 1000 100 (opened first_scan 5) stream)
      (λ (outcome, out).
        Emits two_reports (new_event_accumulator 1000 100 first_scan).grid IsSound 0 0 outcome out)
unfolding new_event_accumulator normalize_snapshot normalized_finish
run_scheduler_events-Emits_example =
    run_scheduler_events-Emits two_reports 1000 100 first_scan 5 stream (omega arith) (omega arith)
      (ground arith)

-- The sample tick fails, and ends the loop.
abbrev messages : List HybridMessage
messages =
    HybridMessage.event (value wakeup)
    ∷ HybridMessage.timer none (flushed (value []) ∷ []) 0 1100
        (taken (scan_at 1100 ThreadState.running))
    ∷ HybridMessage.sample_tick 1150 (failed canceled)
    ∷ []

run_hybrid_scheduler_events-Emits_example :
    Returns
      (run_hybrid_scheduler_events two_reports 100 1000
        (taken first_scan)
        messages
        (stream_accumulator 1000 100 first_scan 5))
      (λ (outcome, out).
        Emits two_reports (new_event_accumulator 1000 100 first_scan).grid IsSound 0 0 outcome out)
unfolding new_event_accumulator normalize_snapshot normalized_start normalized_finish
run_hybrid_scheduler_events-Emits_example =
    run_hybrid_scheduler_events-Emits two_reports 1000 1000 100 first_scan first_scan 5 messages
      (omega arith) (omega arith)
      (scan_at-IsTimely 1000 1000 ThreadState.running (omega arith) (omega arith))
      (
        record { positive = omega arith; room = omega arith },
        (
          ((tt, tt), scan_at-IsTimely 1100 1100 ThreadState.running (omega arith) (omega arith)),
          (tt, tt),
        ),
      )

advance-next_boundary_example :
    Returns
      (advance
        (next_boundary (new_event_accumulator 1000 100 first_scan).grid)
        0
        (new_event_accumulator 1000 100 first_scan))
      (λ (b, reports).
        Advanced
          (next_boundary (new_event_accumulator 1000 100 first_scan).grid)
          (new_event_accumulator 1000 100 first_scan)
          b
          reports
        × (b.next_window ≡ (new_event_accumulator 1000 100 first_scan).next_window + 1)
        × (length_of reports ≡ 1))
unfolding new_event_accumulator
advance-next_boundary_example =
    advance-next_boundary 0 (new_event_accumulator 1000 100 first_scan)
      (new_event_accumulator-EventInv 1000 100 first_scan (omega arith) (omega arith)) (omega arith)

run_scheduler_events-Finishes_example :
    Returns
      (run_scheduler_events two_reports 1000 100 (opened first_scan 5) stream)
      (Finishes two_reports 0)
unfolding new_event_accumulator normalize_snapshot normalized_finish
run_scheduler_events-Finishes_example =
    run_scheduler_events-Finishes two_reports 1000 100 first_scan 5 stream
      (record { accepts = λ n report. refl; limited = omega arith }) (omega arith) (omega arith)
      (ground arith) (refl, (refl, (refl, tt))) (omega arith)
