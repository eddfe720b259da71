-- ===== src/Collector/Accumulator/Windows.antt =====
-- The windows of the snapshot accumulator, and its get-or-create accessors `window` and
-- `threadStats`. The code returns a pointer that its caller writes through; here the write is an
-- argument.
use tsastat.Prelude.{
  ℕ, String, true, Option, none, some, [], if◌then◌else◌, not, ◌==◌, string_eq, nat_eq, Assoc,
  upsert,
}
use tsastat.Model.Sample.{ThreadSample, ThreadIdentity, identity, identity_eq}
use tsastat.Model.Stats.{ThreadIntervalStats, IntervalQuality, empty_stats, empty_quality}
use tsastat.Collector.Grid.{Grid, window_bounds}

abbrev pub proc_sampling_method : String
proc_sampling_method = "procfs_midpoint"

abbrev pub Stats : Type 0
Stats = Assoc ThreadIdentity ThreadIntervalStats

pub record IntervalWindow : Type 0 where
  pub stats : Stats
  pub quality : IntervalQuality

abbrev pub Windows : Type 0
Windows = Assoc ℕ IntervalWindow

unfoldable pub new_window : IntervalWindow
new_window = record {
  stats = [];
  quality = record empty_quality {
    sampling_method = proc_sampling_method;
    missed_transitions_possible = true;
  };
}

abbrev pub or_new_window : Option IntervalWindow → IntervalWindow
or_new_window none = new_window
or_new_window (some w) = w

-- (*Accumulator).window
unfoldable pub with_window : ℕ → (IntervalWindow → IntervalWindow) → Windows → Windows
with_window index write = upsert index (λ found. write (or_new_window found))

unfoldable pub new_stats : Grid → ℕ → ThreadSample → ThreadIntervalStats
new_stats g index sample =
    let bounds = window_bounds g index in
    record empty_stats {
      pid = sample.pid;
      tid = sample.tid;
      start_time_ticks = sample.start_time_ticks;
      start_time_nanoseconds = sample.start_time_nanoseconds;
      comm = sample.comm;
      interval_start = bounds.0;
      interval_end = bounds.1;
    }

abbrev pub or_new_stats : Grid → ℕ → ThreadSample → Option ThreadIntervalStats → ThreadIntervalStats
or_new_stats g index sample none = new_stats g index sample
or_new_stats g index sample (some stat) = stat

-- A thread that has changed its name is reported under the last one.
unfoldable pub rename_thread : String → ThreadIntervalStats → ThreadIntervalStats
rename_thread comm stat = if not (comm == "") then record stat { comm = comm } else stat

abbrev pub Write : Type 0
Write = ThreadIntervalStats → ThreadIntervalStats

-- (*Accumulator).threadStats
unfoldable pub with_thread_stats : Grid → ℕ → ThreadSample → Write → Windows → Windows
with_thread_stats g index sample write = with_window index λ w. record w {
  stats =
      upsert (identity sample)
        (λ found. write (rename_thread sample.comm (or_new_stats g index sample found))) w.stats;
}
