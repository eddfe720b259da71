-- ===== src/Collector/Loop/Hybrid.antt =====
-- runHybrid, runHybridSchedulerEvents, observeAuxSnapshot and Run.
use tsastat.Prelude.{
  ℕ, Option, none, some, List, [], ◌∷◌, if◌then◌else◌, ◌>>=◌, Assoc, lookup, delete, nat_eq,
}
use tsastat.Clock.{Time, Duration}
use tsastat.Model.Sample.{ThreadSnapshot}
use tsastat.Model.Scheduler.{SchedulerEvent}
use tsastat.Model.Stats.{IntervalReport}
use tsastat.Model.Sources.{
  Failure, process_not_found, canceled, other, is_canceled, Reply, taken, failed,
}
use tsastat.Collector.Accumulator.Observe.{
  Accumulator, new_accumulator, new_accumulator_at, observe,
}
use tsastat.Collector.EventAccumulator.Observe.{EventAccumulator, observe_event}
use tsastat.Collector.EventAccumulator.Advance.{advance, next_boundary}
use tsastat.Collector.Hybrid.{snapshot_has_delays, store_aux_reports, merge_hybrid_report}
use tsastat.Collector.Loop.{
  Sink, Outcome, finished, stopped, waiting, Next, end_with, go_on, select_loop,
}
use tsastat.Collector.Loop.Snapshots.{SnapshotMessage, run_snapshots}
use tsastat.Collector.Loop.Events.{
  Received, value, closed, FlushMessage, Flushed, flushed_to, flush_failed, flush_waiting,
  flush_scheduler_events, StreamMessage, Opening, opened, refused, stream_accumulator,
  run_scheduler_events,
}

-- The auxiliary reports, by the time at which they start.
abbrev pub AuxReports : Type 0
AuxReports = Assoc Time IntervalReport

-- What the loop keeps. There is no auxiliary accumulator when the first auxiliary snapshot has no
-- delay counters.
pub record HybridState : Type 0 where
  pub events : EventAccumulator
  pub auxiliary : Option Accumulator
  pub reports : AuxReports

-- What the select receives. A sample tick and the timer ask for an auxiliary snapshot, at a time of
-- the clock; the timer flushes the stream before.
pub data HybridMessage : Type 0 where
  context_done : HybridMessage
  exited : HybridMessage
  event : Received SchedulerEvent → HybridMessage
  error : Received (Option Failure) → HybridMessage
  sample_tick : Time → Reply → HybridMessage
  timer : Option Failure → List FlushMessage → ℕ → Time → Reply → HybridMessage

pub data AuxOutcome : Type 0 where
  aux_failed : Failure → AuxOutcome
  aux_observed : Accumulator → AuxReports → AuxOutcome

unfoldable pub observe_aux_snapshot : Time → Reply → Accumulator → AuxReports → Option AuxOutcome
observe_aux_snapshot now (failed e) acc reports =
    some (aux_failed (if is_canceled e then canceled else e))
observe_aux_snapshot now (taken snapshot) acc reports = do
  (acc', done) ← observe now acc snapshot
  some (aux_observed acc' (store_aux_reports done reports))

-- The auxiliary snapshot of a round: the loop ends with its error.
unfoldable pub take_sample : Time → Reply → HybridState → Option (Next HybridState)
take_sample now reply s = elim s.auxiliary [
  | none ↦ some (go_on s [])
  | some acc ↦ do
    done ← observe_aux_snapshot now reply acc s.reports
    some (elim done [
      | aux_failed e ↦ end_with (stopped e)
      | aux_observed acc' reports ↦ go_on (record s { auxiliary = some acc'; reports = reports }) []
    ])
]

-- A report takes over the auxiliary report of the same start, which is then dropped.
unfoldable pub merge_stored : IntervalReport → AuxReports → IntervalReport × AuxReports
merge_stored report stored = elim (lookup report.interval_start stored) [
  | none ↦ (report, stored)
  | some auxiliary ↦ (merge_hybrid_report report auxiliary, delete report.interval_start stored)
]

-- Each report is merged before it is emitted; the loop over them may end before the last, and then
-- the state is no longer used.
unfoldable pub merge_all : List IntervalReport → AuxReports → List IntervalReport × AuxReports
merge_all [] stored = ([], stored)
merge_all (report ∷ reports) stored =
    let merged = merge_stored report stored in
    let rest = merge_all reports merged.1 in (merged.0 ∷ rest.0, rest.1)

unfoldable pub report_merged : Time → ℕ → HybridState → Option (Next HybridState)
report_merged boundary lost s = do
  (events, reports) ← advance boundary lost s.events
  let merged = merge_all reports s.reports
  some (go_on (record s { events = events; reports = merged.1 }) merged.0)

-- The window up to `boundary` is completed after the flush and the auxiliary snapshot.
unfoldable pub complete_hybrid_window :
    Time → ℕ → Time → Reply → HybridState → Flushed → Option (Next HybridState)
complete_hybrid_window boundary lost now reply s (flush_failed e) =
    some (end_with (if is_canceled e then finished else stopped e))
complete_hybrid_window boundary lost now reply s flush_waiting = some (end_with waiting)
complete_hybrid_window boundary lost now reply s (flushed_to events) = do
  next ← take_sample now reply (record s { events = events })
  elim next [
    | end_with outcome ↦ some (end_with outcome)
    | go_on sampled reports ↦ report_merged boundary lost sampled
  ]

unfoldable pub hybrid_round : HybridMessage → HybridState → Option (Next HybridState)
hybrid_round context_done s = some (end_with finished)
hybrid_round exited s = some (end_with (stopped process_not_found))
hybrid_round (event closed) s = some (end_with (stopped other))
hybrid_round (event (value e)) s = do
  events ← observe_event e s.events
  some (go_on (record s { events = events }) [])
hybrid_round (error closed) s = some (end_with (stopped other))
hybrid_round (error (value none)) s = some (go_on s [])
hybrid_round (error (value (some e))) s = some (end_with (stopped e))
hybrid_round (sample_tick now reply) s = take_sample now reply s
hybrid_round (timer refusal messages lost now reply) s = do
  done ← flush_scheduler_events refusal messages s.events
  complete_hybrid_window (next_boundary s.events.grid) lost now reply s done

-- The first auxiliary snapshot decides whether there is an auxiliary accumulator, on the windows of
-- the scheduler events.
unfoldable pub hybrid_state :
    Duration → Time → ThreadSnapshot → EventAccumulator → Option HybridState
hybrid_state interval now snapshot events =
    if snapshot_has_delays snapshot
    then (do
      (acc, reports) ← observe now (new_accumulator_at interval events.origin) snapshot
      some (record {
        events = events;
        auxiliary = some acc;
        reports = store_aux_reports reports [];
      }))
    else some (record { events = events; auxiliary = none; reports = [] })

unfoldable pub run_hybrid_scheduler_events :
    Sink
    → Duration
    → Time
    → Reply
    → List HybridMessage
    → EventAccumulator
    → Option (Outcome × List IntervalReport)
run_hybrid_scheduler_events sink interval now (failed e) messages events =
    some ((if is_canceled e then finished else stopped e), [])
run_hybrid_scheduler_events sink interval now (taken snapshot) messages events = do
  s ← hybrid_state interval now snapshot events
  select_loop sink hybrid_round messages 0 s

-- What the backend and the clock answer to a run: the opening of the stream and when its accumulator
-- is made, the first snapshot and when it is observed, and what each loop then receives.
pub record Answers : Type 0 where
  pub opened_at : Time
  pub opening : Opening
  pub scanned_at : Time
  pub first : Reply
  pub ticks : List SnapshotMessage
  pub stream : List StreamMessage
  pub hybrid : List HybridMessage

-- A stream that cannot be opened for another reason is done without.
unfoldable pub run_hybrid : Sink → Duration → Answers → Option (Outcome × List IntervalReport)
run_hybrid sink interval answers = elim answers.opening [
  | refused e ↦ elim e [
    | canceled ↦ some (finished, [])
    | process_not_found ↦ some (stopped process_not_found, [])
    | _ ↦
        run_snapshots sink answers.scanned_at answers.first answers.ticks (new_accumulator interval)
  ]
  | opened initial uncertainty ↦
      run_hybrid_scheduler_events sink interval answers.scanned_at answers.first answers.hybrid
        (stream_accumulator answers.opened_at interval initial uncertainty)
]

-- Which interfaces the backend implements, in the order in which they are tried.
pub data Provides : Type 0 where
  hybrid_source scheduler_event_source snapshot_source no_source : Provides

-- (*Collector).Run
unfoldable pub run : Provides → Sink → Duration → Answers → Option (Outcome × List IntervalReport)
run hybrid_source sink interval answers = run_hybrid sink interval answers
run scheduler_event_source sink interval answers =
    run_scheduler_events sink answers.opened_at interval answers.opening answers.stream
run snapshot_source sink interval answers =
    run_snapshots sink answers.scanned_at answers.first answers.ticks (new_accumulator interval)
run no_source sink interval answers = some (stopped other, [])
