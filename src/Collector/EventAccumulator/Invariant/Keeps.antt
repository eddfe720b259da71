-- ===== src/Collector/EventAccumulator/Invariant/Keeps.antt =====
-- The operations on windows return, and keep the open windows good.
use tsastat.Prelude.{
  ◌+◌, ◌≤◌, ◌<◌, not, arith, Returns, Returns-some, Returns-bind, Returns-if, nat_eq,
}
use tsastat.Clock.{Time, before, after, time_sub}
use tsastat.Model.Scheduler.{SchedulerEvent}
use tsastat.Collector.Grid.{Grid, InHorizon}
use tsastat.Collector.Grid.Bounds.{
  window_start-EndsWindows, window_index-eq, index_of, index_of_bounds,
}
use tsastat.Collector.Grid.Walk.{walk_keeps}
use tsastat.Collector.Totals.Spans.{IsOpen}
use tsastat.Collector.Accumulator.Windows.{Windows}
use tsastat.Collector.EventAccumulator.Track.{SchedulerTrack}
use tsastat.Collector.EventAccumulator.Windows.{
  track_visitor, for_each_event_window, add_track_segment, note_event, record_event,
  record_late_event, count_late_event, record_initialization_race, race_window, count_race,
}
use tsastat.Collector.EventAccumulator.Invariant.{
  IsGood, with_track_stats-IsGood, with_event_window-IsGood, add_track_time-IsConsistent,
  note_event-IsConsistent,
}
use native.Mathlib.Nat.{mul-le-mul_right}

pub add_track_segment-IsGood :
    (g : Grid) (track : SchedulerTrack) (start end : Time) (ws : Windows)
    → InHorizon g end
    → g.origin ≤ end
    → IsGood g ws
    → Returns (add_track_segment g track start end ws) (IsGood g)
unfolding add_track_segment for_each_event_window track_visitor
add_track_segment-IsGood g track start end ws h lo good =
    Returns-if (not (after end start)) _ _ (λ _. Returns-some ws good)
      λ later.
        walk_keeps g _ (window_start-EndsWindows g) (track_visitor g track) end h (IsGood g)
          (λ index from to s shown piece good'. Returns-some _ (
            with_track_stats-IsGood g index track _ s shown
              (add_track_time-IsConsistent track.state (time_sub to from)) good'))
          start ws (ground arith) good

pub record_late_event-IsGood :
    (g : Grid) (ws : Windows) → IsGood g ws → IsGood g (record_late_event g ws)
unfolding record_late_event count_late_event
record_late_event-IsGood g ws good =
    with_event_window-IsGood g g.next_window _ ws (omega arith) (λ w h. h) good

race_window-open :
    (g : Grid) (at : Time)
    → InHorizon g at
    → Returns (race_window g at) (λ index. g.next_window ≤ index)
unfolding race_window
race_window-open g at h =
    Returns-if (before at g.origin) _ _ (λ _. Returns-some g.next_window (omega arith))
      λ lo.
        rw (window_index-eq g at at h (ground arith) (omega arith)) (Returns-some _ (ground arith))

pub record_initialization_race-IsGood :
    (g : Grid) (at : Time) (ws : Windows)
    → InHorizon g at
    → IsGood g ws
    → Returns (record_initialization_race g at ws) (IsGood g)
unfolding record_initialization_race count_race
record_initialization_race-IsGood g at ws h good =
    Returns-bind (race_window g at) _ (race_window-open g at h)
      λ index shown. Returns-some _ (with_event_window-IsGood g index _ ws shown (λ w h'. h') good)

-- The window of an instant that has not been reported is open.
pub index_of-open :
    (g : Grid) (at : Time)
    → 0 < g.interval
    → g.origin ≤ at
    → IsOpen g at
    → g.next_window ≤ index_of g at
index_of-open g at pos lo o = grind (
  arith,
  index_of_bounds g at pos lo,
  mul-le-mul_right {m = index_of g at + 1} {n = g.next_window} g.interval,
)

pub record_event-IsGood :
    (g : Grid) (track : SchedulerTrack) (event : SchedulerEvent) (ws : Windows)
    → InHorizon g event.timestamp
    → g.origin ≤ event.timestamp
    → IsOpen g event.timestamp
    → IsGood g ws
    → Returns (record_event g track event ws) (IsGood g)
unfolding record_event
record_event-IsGood g track event ws h lo o good =
    rw (window_index-eq g event.timestamp event.timestamp h lo (omega arith)) (
      Returns-some _ (
        with_event_window-IsGood g (index_of g event.timestamp) _ _
          (index_of-open g event.timestamp h.positive lo o) (λ w h'. h')
          (with_track_stats-IsGood g (index_of g event.timestamp) track
            (note_event track event event.kind) ws (index_of-open g event.timestamp h.positive lo o)
            (note_event-IsConsistent track event event.kind) good)))
