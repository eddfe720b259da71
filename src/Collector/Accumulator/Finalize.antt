-- ===== src/Collector/Accumulator/Finalize.antt =====
-- Which windows a watermark completes, and the report of each.
pub mod Tiling
use tsastat.Prelude.{
  ℕ, zero, suc, ◌+◌, ◌-◌, String, Bool, true, false, ◌||◌, ◌&&◌, not, Option, none, some, List, [],
  ◌∷◌, map, ltb, nat_beq, if◌then◌else◌, ◌>>=◌, ◌==◌, string_eq, nat_eq, lookup, delete, sort_slice,
}
use tsastat.Clock.{Time, after, before}
use tsastat.Model.Sample.{ThreadIdentity, identity_beq, identity_eq}
use tsastat.Model.Stats.{
  ThreadIntervalStats, IntervalQuality, IntervalReport, empty_quality, schedstat_available,
  delay_counters_available,
}
use tsastat.Collector.Grid.{Grid, window_bounds}
use tsastat.Collector.Accumulator.Windows.{Windows, Stats, IntervalWindow, proc_sampling_method}

unfoldable pub identity_less : ThreadIdentity → ThreadIdentity → Bool
identity_less a b =
    if nat_beq a.tid b.tid
    then if nat_beq a.start_time_ticks b.start_time_ticks
      then ltb a.start_time_nanoseconds b.start_time_nanoseconds
      else ltb a.start_time_ticks b.start_time_ticks
    else ltb a.tid b.tid

-- The statistics of the listed threads.
unfoldable pub stats_of : List ThreadIdentity → Stats → List ThreadIntervalStats
stats_of [] m = []
stats_of (k ∷ ks) m = elim (lookup k m) [ none ↦ stats_of ks m | some stat ↦ stat ∷ stats_of ks m ]

unfoldable pub sorted_stats : Stats → List ThreadIntervalStats
sorted_stats m = stats_of (sort_slice identity_less (map (λ entry. entry.0) m)) m

unfoldable pub count_schedstat : ThreadIntervalStats → IntervalQuality → IntervalQuality
count_schedstat stat q =
    if schedstat_available stat
    then record q {
      schedstat_available = true;
      schedstat_thread_count = q.schedstat_thread_count + 1;
    }
    else q

unfoldable pub count_resets : ThreadIntervalStats → IntervalQuality → IntervalQuality
count_resets stat q = record q {
  schedstat_counter_resets = q.schedstat_counter_resets + stat.schedstat_counter_resets;
  taskstats_counter_resets = q.taskstats_counter_resets + stat.delay_counter_resets;
}

unfoldable pub count_taskstats : ThreadIntervalStats → IntervalQuality → IntervalQuality
count_taskstats stat q =
    if delay_counters_available stat
    then record q {
      taskstats_available = true;
      taskstats_thread_count = q.taskstats_thread_count + 1;
      taskstats_version_min =
          if nat_beq q.taskstats_version_min 0 || ltb stat.delay_version q.taskstats_version_min
          then stat.delay_version
          else q.taskstats_version_min;
      taskstats_version_max =
          if ltb q.taskstats_version_max stat.delay_version
          then stat.delay_version
          else q.taskstats_version_max;
    }
    else q

unfoldable pub note_accounting : ThreadIntervalStats → IntervalQuality → IntervalQuality
note_accounting stat q =
    if stat.delay_accounting_enabled_known
    then record q {
      delay_accounting_enabled =
          if not q.delay_accounting_enabled_known
          then stat.delay_accounting_enabled
          else q.delay_accounting_enabled && stat.delay_accounting_enabled;
      delay_accounting_enabled_known = true;
    }
    else q

-- One round of `for _, stat := range stats`.
unfoldable pub add_quality : ThreadIntervalStats → IntervalQuality → IntervalQuality
add_quality stat q =
    note_accounting stat (count_taskstats stat (count_resets stat (count_schedstat stat q)))

unfoldable pub add_qualities : List ThreadIntervalStats → IntervalQuality → IntervalQuality
add_qualities [] q = q
add_qualities (stat ∷ stats) q = add_qualities stats (add_quality stat q)

unfoldable pub base_quality : IntervalQuality
base_quality = record empty_quality {
  sampling_method = proc_sampling_method;
  missed_transitions_possible = true;
}

unfoldable pub window_quality : IntervalWindow → IntervalQuality
window_quality w = add_qualities (sorted_stats w.stats) (record w.quality {
  sampling_method =
      if w.quality.sampling_method == "" then proc_sampling_method else w.quality.sampling_method;
  missed_transitions_possible = true;
})

unfoldable pub window_report : Time → Time → Option IntervalWindow → IntervalReport
window_report start end none = record {
  interval_start = start;
  interval_end = end;
  threads = [];
  quality = base_quality;
}
window_report start end (some w) = record {
  interval_start = start;
  interval_end = end;
  threads = sorted_stats w.stats;
  quality = window_quality w;
}

-- The body of `finalizeThrough`'s loop: the next window is reported and forgotten.
unfoldable pub report_next : Grid → Windows → IntervalReport
report_next g ws =
    let bounds = window_bounds g g.next_window in
    window_report bounds.0 bounds.1 (lookup g.next_window ws)

abbrev pub advance_window : Grid → Grid
advance_window g = record g { next_window = g.next_window + 1 }

pub record Finalized : Type 0 where
  pub grid : Grid
  pub windows : Windows
  pub reports : List IntervalReport

abbrev pub prepend : IntervalReport → Finalized → Finalized
prepend r f = record f { reports = r ∷ f.reports }

-- `for { … break … }`, on fuel.
unfoldable pub finalize_loop : ℕ → Time → Grid → Windows → Option Finalized
finalize_loop zero watermark g ws = none
finalize_loop (suc fuel) watermark g ws = elim (after (window_bounds g g.next_window).1 watermark) [
  | true ↦ some (record { grid = g; windows = ws; reports = [] })
  | false ↦ do
    rest ← finalize_loop fuel watermark (advance_window g) (delete g.next_window ws)
    some (prepend (report_next g ws) rest)
]

-- (*Accumulator).finalizeThrough; each report moves on by an interval.
unfoldable pub finalize_through : Bool → Time → Grid → Windows → Option Finalized
finalize_through initialized watermark g ws =
    if not initialized || before watermark g.origin
    then some (record { grid = g; windows = ws; reports = [] })
    else finalize_loop (suc (watermark - g.origin)) watermark g ws
