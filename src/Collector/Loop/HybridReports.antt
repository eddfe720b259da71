-- ===== src/Collector/Loop/HybridReports.antt =====
-- What the hybrid loop emits.
use tsastat.Prelude.{
  ◌+◌, ◌*◌, ◌<◌, ◌≡◌, refl, ◌∙◌, List, arith, Returns, Returns-some, Returns-bind, Returns-if,
  Returns-weaken, sign_bit, All,
}
use tsastat.Clock.{Time, Duration}
use tsastat.Model.Sample.{ThreadSnapshot}
use tsastat.Model.Sources.{taken}
use tsastat.Collector.Grid.{Grid}
use tsastat.Collector.Accumulator.Scan.{normalize_snapshot}
use tsastat.Collector.Accumulator.Observe.Scans.{IsTimely}
use tsastat.Collector.Accumulator.Observe.{new_accumulator, new_accumulator_at, observe}
use tsastat.Collector.Accumulator.Observe.Runs.{IsTimely-same, observe_first-Baseline}
use tsastat.Collector.Hybrid.{snapshot_has_delays}
use tsastat.Collector.EventAccumulator.Observe.{EventAccumulator, new_event_accumulator}
use tsastat.Collector.EventAccumulator.Invariant.Advance.{IsSound}
use tsastat.Collector.Loop.{Sink, select_loop}
use tsastat.Collector.Loop.Events.{stream_accumulator}
use tsastat.Collector.Loop.Emitted.{Emits, select_loop-Done}
use tsastat.Collector.Loop.Boundary.{Stands, Stands-here}
use tsastat.Collector.Loop.EventReports.{with_source_status-IsSound, stream_accumulator-Stands}
use tsastat.Collector.Loop.Hybrid.{
  HybridMessage, hybrid_round, hybrid_state, run_hybrid_scheduler_events,
}
use tsastat.Collector.Loop.HybridRounds.{
  HybridInHorizon, hybrid_timers, AuxStands, IsPaired, hybrid_round-Steps,
}

hybrid_state-AuxStands :
    (g : Grid) (now : Time) (snapshot : ThreadSnapshot) (events : EventAccumulator)
    → Stands g 0 events
    → g.interval < sign_bit
    → IsTimely g (normalize_snapshot now snapshot)
    → Returns
        (hybrid_state g.interval now snapshot events)
        (λ s. (s.events ≡ events) × AuxStands g s.auxiliary)
unfolding hybrid_state observe new_accumulator_at new_accumulator
hybrid_state-AuxStands g now snapshot events stands fits timely =
    let scan = normalize_snapshot now snapshot in
    let acc = new_accumulator_at g.interval events.origin in
    Returns-if (snapshot_has_delays snapshot) _ _
      (λ _.
        Returns-bind _ _
          (observe_first-Baseline acc scan refl
            (IsTimely-same g acc.grid scan stands.origin refl timely) fits)
          λ s k. Returns-some _ (
            refl,
            record {
              started = k.started;
              origin = k.origin ∙ stands.origin;
              interval = k.interval;
            },
          ))
      (λ _. Returns-some _ (refl, tt))

-- On a stream that has been opened, with a positive interval, and after a first auxiliary snapshot,
-- the hybrid loop returns or waits, whatever the stream, the snapshot source and `emit` answer, as
-- long as the events, the snapshots and the windows that the timer completes are in the horizon. The
-- reports that it has emitted by then tile the time from the origin of the event accumulator on, in
-- order, one for each window; merging leaves the figures of every thread in agreement; they are not
-- more than `count`, unless that is 0, and it only waits when fewer have been emitted.
pub run_hybrid_scheduler_events-Emits :
    (sink : Sink) (started now : Time) (interval : Duration) (initial snapshot : ThreadSnapshot)
    (uncertainty : Duration) (messages : List HybridMessage)
    → 0 < interval
    → (hybrid_timers messages + 2) * interval < sign_bit
    → IsTimely
        (new_event_accumulator started interval initial).grid
        (normalize_snapshot now snapshot)
    → All (HybridInHorizon (new_event_accumulator started interval initial).grid) messages
    → Returns
        (run_hybrid_scheduler_events sink interval now
          (taken snapshot)
          messages
          (stream_accumulator started interval initial uncertainty))
        (λ (outcome, out).
          Emits sink (new_event_accumulator started interval initial).grid IsSound 0 0 outcome out)
unfolding run_hybrid_scheduler_events
run_hybrid_scheduler_events-Emits sink started now interval initial snapshot uncertainty messages
      positive fits timely all =
    let g = (new_event_accumulator started interval initial).grid in
    let a = stream_accumulator started interval initial uncertainty in
    let s =
      stream_accumulator-Stands started interval initial uncertainty positive
        (omega (arith, fits)) in
    let timed : g.interval ≡ interval = unfold new_event_accumulator in refl in
    Returns-bind (hybrid_state interval now snapshot a) _
      (rw timed at
        (hybrid_state-AuxStands g now snapshot a s (rw timed (omega (arith, fits))) timely))
      λ t k.
        let here : t.events.next_window ≡ 0 = cc (k.0, s.next_window) in
        Returns-weaken (select_loop sink hybrid_round messages 0 t) (λ r d. rw here at d)
          (select_loop-Done sink g IsSound with_source_status-IsSound hybrid_round
            (λ t'. t'.events.next_window) (IsPaired g) (hybrid_round-Steps sink g) messages 0 t
            (record {
              stands = rw k.0 (Stands-here g _ _ s);
              auxiliary = k.1;
              timely = all;
              room = rw (here, timed) (omega (arith, fits));
            })
            (ground arith))
