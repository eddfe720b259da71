-- ===== src/Collector/Loop/Snapshots.antt =====
-- runSnapshots
use tsastat.Prelude.{Option, some, List, [], if◌then◌else◌, ◌>>=◌}
use tsastat.Clock.{Time}
use tsastat.Model.Stats.{IntervalReport}
use tsastat.Model.Sources.{is_canceled, Reply, taken, failed}
use tsastat.Collector.Accumulator.Observe.{Accumulator, observe}
use tsastat.Collector.Loop.{Sink, Outcome, finished, stopped, Next, end_with, go_on, select_loop}

-- The context is done, or the ticker fires: then a snapshot is asked for, at a time of the clock.
pub data SnapshotMessage : Type 0 where
  done : SnapshotMessage
  tick : Time → Reply → SnapshotMessage

unfoldable pub snapshot_round : SnapshotMessage → Accumulator → Option (Next Accumulator)
snapshot_round done a = some (end_with finished)
snapshot_round (tick now (failed e)) a =
    some (end_with (if is_canceled e then finished else stopped e))
snapshot_round (tick now (taken snapshot)) a = do
  (b, reports) ← observe now a snapshot
  some (go_on b reports)

unfoldable pub run_snapshots :
    Sink
    → Time
    → Reply
    → List SnapshotMessage
    → Accumulator
    → Option (Outcome × List IntervalReport)
run_snapshots sink now (failed e) messages a = some (stopped e, [])
run_snapshots sink now (taken snapshot) messages a = do
  (b, _) ← observe now a snapshot
  select_loop sink snapshot_round messages 0 b
