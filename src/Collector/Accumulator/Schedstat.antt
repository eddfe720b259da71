-- ===== src/Collector/Accumulator/Schedstat.antt =====
-- Deltas of the cumulative /proc/<pid>/schedstat counters, and their allocation to windows in
-- proportion to time.
pub mod Parts
pub mod Conservation
use tsastat.Prelude.{
  ℕ, suc, ◌+◌, ◌-◌, ◌%◌, Bool, true, false, ◌||◌, ◌&&◌, not, Option, none, some, ltb, if◌then◌else◌,
  ◌>>=◌, add64, word, sign_bit,
}
use tsastat.Clock.{Time, Duration, time_sub}
use tsastat.Model.Sample.{ThreadSample, SchedstatCounters}
use tsastat.Model.Stats.{ThreadIntervalStats}
use tsastat.Collector.Grid.{Grid, Visitor, for_each_window}
use tsastat.Collector.Counters.{share, nanoseconds_duration}
use tsastat.Collector.Accumulator.Windows.{Windows, with_thread_stats}

pub record SchedstatDelta : Type 0 where
  pub on_cpu_nanoseconds : ℕ
  pub runqueue_nanoseconds : ℕ
  pub timeslices : ℕ

abbrev pub is_positive : Duration → Bool
is_positive d = ltb 0 d && ltb d sign_bit

-- if gap > longest { longest = gap }
abbrev pub longest : Duration → Duration → Duration
longest gap so_far = if ltb so_far gap then gap else so_far

unfoldable pub add_schedstat :
    Duration → Duration → SchedstatDelta → ThreadIntervalStats → ThreadIntervalStats
add_schedstat gap observed part stat = record stat {
  on_cpu = add64 stat.on_cpu (nanoseconds_duration part.on_cpu_nanoseconds);
  runqueue_wait = add64 stat.runqueue_wait (nanoseconds_duration part.runqueue_nanoseconds);
  timeslices = add64 stat.timeslices part.timeslices;
  schedstat_observed = add64 stat.schedstat_observed observed;
  scheduler_observed = add64 stat.scheduler_observed observed;
  scheduler_source = "proc_schedstat";
  schedstat_sample_pairs = stat.schedstat_sample_pairs + 1;
  schedstat_max_sample_gap = longest gap stat.schedstat_max_sample_gap;
}

-- The part of a delta that falls to the span from `from` to `to` of a gap of `total`.
unfoldable pub schedstat_share : SchedstatDelta → ℕ → ℕ → ℕ → Option SchedstatDelta
schedstat_share delta from to total = do
  on_cpu ← share delta.on_cpu_nanoseconds from to total
  runqueue ← share delta.runqueue_nanoseconds from to total
  timeslices ← share delta.timeslices from to total
  some (record {
    on_cpu_nanoseconds = on_cpu;
    runqueue_nanoseconds = runqueue;
    timeslices = timeslices;
  })

unfoldable pub schedstat_visitor :
    Grid → ThreadSample → SchedstatDelta → Time → Duration → Visitor Windows
schedstat_visitor g sample delta start total index overlap_start overlap_end ws = do
  part ← schedstat_share delta (time_sub overlap_start start) (time_sub overlap_end start) total
  some (
      with_thread_stats g index sample
        (add_schedstat total (time_sub overlap_end overlap_start) part) ws)

unfoldable pub add_schedstat_delta :
    Grid → ThreadSample → Time → Time → SchedstatDelta → Windows → Option Windows
add_schedstat_delta g sample start end delta ws =
    let total = time_sub end start in
    if not (is_positive total)
    then some ws
    else for_each_window g start end (schedstat_visitor g sample delta start total) ws

unfoldable pub count_schedstat_reset : ThreadIntervalStats → ThreadIntervalStats
count_schedstat_reset stat = record stat {
  schedstat_counter_resets = stat.schedstat_counter_resets + 1;
}

unfoldable pub record_schedstat_reset : Grid → ThreadSample → Time → Time → Windows → Option Windows
record_schedstat_reset g sample start end =
    for_each_window g start end
      λ index _ _ ws. some (with_thread_stats g index sample count_schedstat_reset ws)

-- A counter that went down was reset.
unfoldable pub schedstat_went_down : SchedstatCounters → SchedstatCounters → Bool
schedstat_went_down previous current =
    ltb current.on_cpu_nanoseconds previous.on_cpu_nanoseconds
    || ltb current.runqueue_nanoseconds previous.runqueue_nanoseconds
    || ltb current.timeslices previous.timeslices

unfoldable pub schedstat_delta : SchedstatCounters → SchedstatCounters → SchedstatDelta
schedstat_delta previous current = record {
  on_cpu_nanoseconds = current.on_cpu_nanoseconds - previous.on_cpu_nanoseconds;
  runqueue_nanoseconds = current.runqueue_nanoseconds - previous.runqueue_nanoseconds;
  timeslices = current.timeslices - previous.timeslices;
}

unfoldable pub observe_schedstat :
    Grid → ThreadSample → ThreadSample → Time → Time → Windows → Option Windows
observe_schedstat g previous current start end ws =
    if not previous.schedstat.available || not current.schedstat.available
    then some ws
    else if schedstat_went_down previous.schedstat current.schedstat
    then record_schedstat_reset g current start end ws
    else add_schedstat_delta g current start end
        (schedstat_delta previous.schedstat current.schedstat) ws
