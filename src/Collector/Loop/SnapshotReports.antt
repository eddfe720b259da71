-- ===== src/Collector/Loop/SnapshotReports.antt =====
-- What runSnapshots emits.
use tsastat.Prelude.{
  ◌<◌, ◌≡◌, refl, ◌∙◌, false, not, List, [], ◌∷◌, arith, Returns, Returns-some, Returns-bind,
  Returns-weaken, sign_bit, All,
}
use tsastat.Clock.{Time, Duration}
use tsastat.Model.Sample.{ThreadSnapshot}
use tsastat.Model.Stats.{IntervalReport}
use tsastat.Model.Sources.{taken, failed}
use tsastat.Collector.Grid.{Grid}
use tsastat.Collector.Accumulator.Finalize.Tiling.{Tiles-same}
use tsastat.Collector.Accumulator.Scan.{normalize_snapshot}
use tsastat.Collector.Accumulator.Observe.Scans.{IsTimely}
use tsastat.Collector.Accumulator.Observe.{Accumulator, new_accumulator, observe, observe_next}
use tsastat.Collector.Accumulator.Observe.Runs.{
  IsStarted, scan_grid, IsTimely-same, observe_next-Observed, observe_first-Baseline,
}
use tsastat.Collector.Loop.{Sink, select_loop}
use tsastat.Collector.Loop.Snapshots.{SnapshotMessage, done, tick, snapshot_round, run_snapshots}
use tsastat.Collector.Loop.Emitted.{Emits, Steps, select_loop-Done}

-- The snapshot that a tick brings is timely.
abbrev pub TickIsTimely : Grid → SnapshotMessage → Type 0
TickIsTimely g done = Unit
TickIsTimely g (tick now (failed e)) = Unit
TickIsTimely g (tick now (taken snapshot)) = IsTimely g (normalize_snapshot now snapshot)

TickIsTimely-same :
    (g g' : Grid) (message : SnapshotMessage)
    → g'.origin ≡ g.origin
    → g'.interval ≡ g.interval
    → TickIsTimely g message
    → TickIsTimely g' message
TickIsTimely-same g g' done eo ei h = tt
TickIsTimely-same g g' (tick now (failed e)) eo ei h = tt
TickIsTimely-same g g' (tick now (taken snapshot)) eo ei h =
    IsTimely-same g g' (normalize_snapshot now snapshot) eo ei h

ticks_same :
    (g g' : Grid) (messages : List SnapshotMessage)
    → g'.origin ≡ g.origin
    → g'.interval ≡ g.interval
    → All (TickIsTimely g) messages
    → All (TickIsTimely g') messages
ticks_same g g' [] eo ei h = tt
ticks_same g g' (message ∷ messages) eo ei h =
    (TickIsTimely-same g g' message eo ei h.0, ticks_same g g' messages eo ei h.1)

-- The accumulator has its baseline on the grid, and the messages to come are timely for it.
record IsReady (g : Grid) (messages : List SnapshotMessage) (a : Accumulator) : Type 0 where
  started : IsStarted a
  origin : a.origin ≡ g.origin
  interval : a.interval ≡ g.interval
  ticks : All (TickIsTimely g) messages

abbrev Anything : IntervalReport → Type 0
Anything report = Unit

everything : (reports : List IntervalReport) → All Anything reports
everything [] = tt
everything (report ∷ reports) = (tt, everything reports)

module _ (sink : Sink) (g : Grid) where
  snapshot_round-Steps :
      (message : SnapshotMessage) (messages : List SnapshotMessage) (a : Accumulator)
      → IsReady g (message ∷ messages) a
      → Returns (snapshot_round message a) (
          Steps sink g Anything
            (λ _ _ _. tt)
            snapshot_round
            (λ a'. a'.next_window)
            (IsReady g)
            messages
            a)
  unfolding snapshot_round observe
  snapshot_round-Steps done messages a r = Returns-some _ tt
  snapshot_round-Steps (tick now (failed e)) messages a r = Returns-some _ tt
  snapshot_round-Steps (tick now (taken snapshot)) messages a r =
      let going : not a.initialized ≡ false = rw r.started.initialized refl in
      rw going (
        Returns-bind (observe_next a (normalize_snapshot now snapshot)) _
          (observe_next-Observed a (normalize_snapshot now snapshot) r.started (
            IsTimely-same g a.grid (normalize_snapshot now snapshot) r.origin r.interval r.ticks.0))
          λ s k. Returns-some _ (
            record {
              started = k.started;
              origin = k.origin ∙ r.origin;
              interval = k.interval ∙ r.interval;
              ticks = r.ticks.1;
            },
            Tiles-same g a.grid a.next_window s.1 r.origin r.interval k.tiles,
            k.count,
            everything s.1,
          ))

-- From a new accumulator, with an interval below 2 ^ 63 nanoseconds, runSnapshots returns or waits,
-- whatever the clock, the source and `emit` answer, as long as the snapshots that are taken are
-- timely. The reports that it has emitted by then tile the time from the end of the first snapshot
-- on, in order, and are not more than `count`, unless that is 0; it only waits when fewer have been
-- emitted.
pub run_snapshots-Emits :
    (sink : Sink) (now : Time) (interval : Duration) (snapshot : ThreadSnapshot)
    (messages : List SnapshotMessage)
    → interval < sign_bit
    → IsTimely
        (scan_grid interval (record { now = now; snapshot = snapshot }))
        (normalize_snapshot now snapshot)
    → All (TickIsTimely (scan_grid interval (record { now = now; snapshot = snapshot }))) messages
    → Returns
        (run_snapshots sink now (taken snapshot) messages (new_accumulator interval))
        (λ (outcome, out).
          Emits sink
            (scan_grid interval (record { now = now; snapshot = snapshot }))
            (λ _. Unit)
            0
            0
            outcome
            out)
unfolding run_snapshots observe new_accumulator
run_snapshots-Emits sink now interval snapshot messages fits timely ticks =
    let g = scan_grid interval (record { now = now; snapshot = snapshot }) in
    Returns-bind _ _
      (observe_first-Baseline (new_accumulator interval) (normalize_snapshot now snapshot) refl
        timely fits)
      λ s k.
        Returns-weaken (select_loop sink snapshot_round messages 0 s.0)
          (λ r d. rw k.next_window at d)
          (select_loop-Done sink g Anything (λ _ _ _. tt) snapshot_round (λ a. a.next_window)
            (IsReady g) (snapshot_round-Steps sink g) messages 0 s.0
            (record {
              started = k.started;
              origin = k.origin;
              interval = k.interval;
              ticks = ticks;
            })
            (ground arith))
