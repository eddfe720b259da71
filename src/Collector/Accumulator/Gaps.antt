-- ===== src/Collector/Accumulator/Gaps.antt =====
-- A gap between two readings of one thread: its state times, its longest gap, its transition.
pub mod Quiet
pub mod Segments
pub mod Conservation
use tsastat.Prelude.{
  ℕ, suc, ◌+◌, ◌-◌, Bool, true, false, ◌||◌, ◌&&◌, not, Option, none, some, ltb, if◌then◌else◌,
  ◌>>=◌, add64,
}
use tsastat.Clock.{Time, Duration, time_sub, time_add, half, after, before}
use tsastat.Model.State
use tsastat.Model.State.{ThreadState, state_beq}
use tsastat.Model.Sample.{ThreadSample}
use tsastat.Model.Stats.{ThreadIntervalStats, add_duration}
use tsastat.Collector.Grid.{Grid, Visitor, for_each_window}
use tsastat.Collector.Accumulator.Windows.{Windows, IntervalWindow, with_window, with_thread_stats}
use tsastat.Collector.Accumulator.Schedstat.{longest, observe_schedstat}
use tsastat.Collector.Accumulator.Delays.{observe_delays}

unfoldable pub midpoint_time : Time → Time → Time
midpoint_time start end = time_add start (half (time_sub end start))

unfoldable pub overlap_duration : Time → Time → Time → Time → Duration
overlap_duration left_start left_end right_start right_end =
    let start = if after right_start left_start then right_start else left_start in
    let end = if before right_end left_end then right_end else left_end in
    if not (after end start) then 0 else time_sub end start

unfoldable pub add_state_time : ThreadState → Duration → ThreadIntervalStats → ThreadIntervalStats
add_state_time state delta stat = record stat {
  durations = add_duration state delta stat.durations;
  total_observed = add64 stat.total_observed delta;
}

unfoldable pub segment_visitor : Grid → ThreadSample → ThreadState → Visitor Windows
segment_visitor g sample state index overlap_start overlap_end ws = some (
    with_thread_stats g index sample (add_state_time state (time_sub overlap_end overlap_start)) ws)

unfoldable pub add_segment :
    Grid → ThreadSample → ThreadState → Time → Time → Windows → Option Windows
add_segment g sample state start end = for_each_window g start end (segment_visitor g sample state)

unfoldable pub note_gap : Duration → ThreadIntervalStats → ThreadIntervalStats
note_gap gap stat = record stat { max_sample_gap = longest gap stat.max_sample_gap }

unfoldable pub note_window_gap : Duration → IntervalWindow → IntervalWindow
note_window_gap gap w = record w {
  quality = record w.quality { max_sample_gap = longest gap w.quality.max_sample_gap };
}

unfoldable pub record_gap : Grid → ThreadSample → Time → Time → Windows → Option Windows
record_gap g sample start end =
    let gap = time_sub end start in
    for_each_window g start end λ index _ _ ws.
      some (
        with_window index (note_window_gap gap)
          (with_thread_stats g index sample (note_gap gap) ws))

unfoldable pub note_transition : Duration → ThreadIntervalStats → ThreadIntervalStats
note_transition uncertainty stat = record stat {
  detected_transitions = stat.detected_transitions + 1;
  detected_transition_uncertainty = add64 stat.detected_transition_uncertainty uncertainty;
}

unfoldable pub record_transition :
    Grid → ThreadSample → Time → Time → Time → Windows → Option Windows
record_transition g sample start midpoint end =
    for_each_window g start end λ index overlap_start overlap_end ws. some (
      with_thread_stats g index sample
        (note_transition (
          longest (overlap_duration overlap_start overlap_end midpoint end)
            (overlap_duration overlap_start overlap_end start midpoint)))
        ws)

-- Both ends of the gap were seen: one state fills it, or the change is put at its middle.
unfoldable pub observe_gap : Grid → ThreadSample → ThreadSample → Time → Windows → Option Windows
observe_gap g previous current end ws =
    let start = previous.timestamp in
    let middle = midpoint_time start end in
    if not (after end start) then some ws else do
      ws₁ ← observe_schedstat g previous current start end ws
      ws₂ ← observe_delays g previous current start end ws₁
      ws₃ ← record_gap g previous start end ws₂
      if state_beq previous.state current.state
          then add_segment g previous previous.state start end ws₃
          else do
            ws₄ ← add_segment g previous previous.state start middle ws₃
            ws₅ ← add_segment g current current.state middle end ws₄
            record_transition g current start middle end ws₅

-- The thread is gone: what it did in the second half is not known.
unfoldable pub observe_disappearance : Grid → ThreadSample → Time → Windows → Option Windows
observe_disappearance g previous end ws =
    let start = previous.timestamp in
    let middle = midpoint_time start end in
    if not (after end start) then some ws else do
      ws₁ ← record_gap g previous start end ws
      ws₂ ← add_segment g previous previous.state start middle ws₁
      ws₃ ← add_segment g previous ThreadState.unknown middle end ws₂
      record_transition g previous start middle end ws₃
