-- ===== src/Collector/EventAccumulator/Advance.antt =====
-- Advance: the running segments are closed at a watermark, and the windows that it completes are
-- reported.
pub mod Order
use tsastat.Prelude.{
  ℕ, zero, suc, ◌+◌, ◌-◌, Bool, true, false, ◌||◌, ◌&&◌, not, Option, none, some, List, [], ◌∷◌,
  map, ltb, nat_beq, if◌then◌else◌, nat_eq, lookup, delete, ◌>>=◌, for_each, sort_slice,
}
use tsastat.Clock.{Time, Duration, after, before, time_add}
use tsastat.Model.Sample.{ThreadIdentity}
use tsastat.Model.Stats.{ThreadIntervalStats, IntervalQuality, IntervalReport, empty_quality}
use tsastat.Collector.Grid.{Grid, window_start}
use tsastat.Collector.Accumulator.Windows.{Windows, Stats, IntervalWindow}
use tsastat.Collector.Accumulator.Finalize.{Finalized, advance_window, prepend}
use tsastat.Collector.EventAccumulator.Track.{SchedulerTrack}
use tsastat.Collector.EventAccumulator.Windows.{add_track_segment, ebpf_sampling_method}
use tsastat.Collector.EventAccumulator.Observe.{EventAccumulator, Tracks}

-- NextBoundary
unfoldable pub next_boundary : Grid → Time
next_boundary g = window_start g (g.next_window + 1)

-- `!track.alive || !watermark.After(track.since)` is skipped.
abbrev pub is_running : Time → SchedulerTrack → Bool
is_running watermark track = track.alive && after watermark track.since

unfoldable pub book_track : Grid → Time → ℕ × SchedulerTrack → Windows → Option Windows
book_track g watermark (key, track) ws =
    if is_running watermark track
    then add_track_segment g track track.since watermark ws
    else some ws

unfoldable pub bring_forward : Time → Tracks → Tracks
bring_forward watermark [] = []
bring_forward watermark ((key, track) ∷ tracks) =
    (key, (if is_running watermark track then record track { since = watermark } else track))
    ∷ bring_forward watermark tracks

unfoldable pub stats_less : ThreadIntervalStats → ThreadIntervalStats → Bool
stats_less a b =
    if not (nat_beq a.tid b.tid)
    then ltb a.tid b.tid
    else if not (nat_beq a.start_time_nanoseconds b.start_time_nanoseconds)
    then ltb a.start_time_nanoseconds b.start_time_nanoseconds
    else ltb a.start_time_ticks b.start_time_ticks

unfoldable pub sorted_event_stats : Stats → List ThreadIntervalStats
sorted_event_stats m = sort_slice stats_less (map (λ entry. entry.1) m)

-- The quality of a completed window, from what was noted while it was open.
unfoldable pub event_quality : Duration → ℕ → IntervalQuality → IntervalQuality
event_quality uncertainty lost_events_total q = record q {
  sampling_method = ebpf_sampling_method;
  scheduler_event_timeline = true;
  scheduler_lost_events_total = lost_events_total;
  missed_transitions_possible =
      ltb 0 lost_events_total
      || ltb 0 q.scheduler_late_events
      || ltb 0 q.scheduler_incomplete_wakeups
      || ltb 0 q.initialization_races;
  clock_calibration_uncertainty = uncertainty;
}

unfoldable pub event_report : Grid → Duration → ℕ → Option IntervalWindow → IntervalReport
event_report g uncertainty lost none = record {
  interval_start = window_start g g.next_window;
  interval_end = time_add (window_start g g.next_window) g.interval;
  threads = [];
  quality = event_quality uncertainty lost empty_quality;
}
event_report g uncertainty lost (some w) = record {
  interval_start = window_start g g.next_window;
  interval_end = time_add (window_start g g.next_window) g.interval;
  threads = sorted_event_stats w.stats;
  quality = event_quality uncertainty lost w.quality;
}

-- `for !a.NextBoundary().After(watermark)`, on fuel.
unfoldable pub report_loop : Duration → ℕ → ℕ → Time → Grid → Windows → Option Finalized
report_loop uncertainty lost zero watermark g ws = none
report_loop uncertainty lost (suc fuel) watermark g ws = elim (after (next_boundary g) watermark) [
  | true ↦ some (record { grid = g; windows = ws; reports = [] })
  | false ↦ do
    rest ← report_loop uncertainty lost fuel watermark (advance_window g) (delete g.next_window ws)
    some (prepend (event_report g uncertainty lost (lookup g.next_window ws)) rest)
]

unfoldable pub advance_to :
    Time → ℕ → EventAccumulator → Option (EventAccumulator × List IntervalReport)
advance_to watermark lost a = do
  ws ← for_each a.tracks (book_track a.grid watermark) a.windows
  done ←
      report_loop a.clock_calibration_uncertainty lost (suc (watermark - a.origin)) watermark a.grid
        ws
  some (
    record a {
      grid = done.grid;
      tracks = bring_forward watermark a.tracks;
      windows = done.windows;
      watermark = if after watermark a.watermark then watermark else a.watermark;
      advanced = true;
    },
    done.reports,
  )

-- (*EventAccumulator).Advance
unfoldable pub advance :
    Time → ℕ → EventAccumulator → Option (EventAccumulator × List IntervalReport)
advance watermark lost a =
    if before watermark a.origin then some (a, []) else advance_to watermark lost a
