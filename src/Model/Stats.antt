-- ===== src/Model/Stats.antt =====
-- internal/model/stats.go: what a report says of one thread in one interval, and of the interval.
-- `durations` reads the zero duration where Go's map has no entry.
use tsastat.Prelude.{
  ℕ, String, Bool, false, not, List, [], ltb, if◌then◌else◌, ◌==◌, string_eq, add64,
}
use tsastat.Clock.{Time, Duration}
use tsastat.Model.State.{ThreadState, stopped, tracing_stop, unknown, state_beq}

pub record DelayIntervalCounter : Type 0 where
  pub available : Bool
  pub count : ℕ
  pub total : Duration

pub record DelayIntervalCounters : Type 0 where
  pub cpu : DelayIntervalCounter
  pub block_io : DelayIntervalCounter
  pub swap_in : DelayIntervalCounter
  pub reclaim : DelayIntervalCounter
  pub thrashing : DelayIntervalCounter
  pub compaction : DelayIntervalCounter
  pub write_protect_copy : DelayIntervalCounter
  pub irq : DelayIntervalCounter

abbrev pub Durations : Type 0
Durations = ThreadState → Duration

pub record ThreadIntervalStats : Type 0 where
  pub pid : ℕ
  pub tid : ℕ
  pub start_time_ticks : ℕ
  pub start_time_nanoseconds : ℕ
  pub comm : String
  pub interval_start : Time
  pub interval_end : Time
  pub durations : Durations
  pub total_observed : Duration
  pub sample_count : ℕ
  pub max_sample_gap : Duration
  pub detected_transitions : ℕ
  pub detected_transition_uncertainty : Duration
  pub on_cpu : Duration
  pub runqueue_wait : Duration
  pub timeslices : ℕ
  pub schedstat_observed : Duration
  pub schedstat_sample_pairs : ℕ
  pub schedstat_max_sample_gap : Duration
  pub schedstat_counter_resets : ℕ
  pub scheduler_source : String
  pub scheduler_observed : Duration
  pub scheduler_event_count : ℕ
  pub wakeup_count : ℕ
  pub wakeup_latency_total : Duration
  pub wakeup_latency_max : Duration
  pub incomplete_wakeup_count : ℕ
  pub delay_version : ℕ
  pub delay_accounting_enabled : Bool
  pub delay_accounting_enabled_known : Bool
  pub delay_observed : Duration
  pub delay_sample_pairs : ℕ
  pub delay_max_sample_gap : Duration
  pub delay_counter_resets : ℕ
  pub delays : DelayIntervalCounters

pub record IntervalQuality : Type 0 where
  pub active_sources : List String
  pub unavailable_sources : List String
  pub hybrid_identity_mismatches : ℕ
  pub sampling_method : String
  pub snapshot_count : ℕ
  pub max_scan_duration : Duration
  pub max_sample_gap : Duration
  pub missed_transitions_possible : Bool
  pub schedstat_available : Bool
  pub schedstat_thread_count : ℕ
  pub schedstat_counter_resets : ℕ
  pub scheduler_event_timeline : Bool
  pub scheduler_event_count : ℕ
  pub scheduler_lost_events_total : ℕ
  pub scheduler_late_events : ℕ
  pub scheduler_incomplete_wakeups : ℕ
  pub initialization_races : ℕ
  pub clock_calibration_uncertainty : Duration
  pub taskstats_available : Bool
  pub taskstats_thread_count : ℕ
  pub taskstats_version_min : ℕ
  pub taskstats_version_max : ℕ
  pub taskstats_counter_resets : ℕ
  pub delay_accounting_enabled : Bool
  pub delay_accounting_enabled_known : Bool

pub record IntervalReport : Type 0 where
  pub interval_start : Time
  pub interval_end : Time
  pub threads : List ThreadIntervalStats
  pub quality : IntervalQuality

-- The zero values of the Go structs.
abbrev pub no_delay : DelayIntervalCounter
no_delay = record { available = false; count = 0; total = 0 }

abbrev pub no_interval_delays : DelayIntervalCounters
no_interval_delays = record {
  cpu = no_delay;
  block_io = no_delay;
  swap_in = no_delay;
  reclaim = no_delay;
  thrashing = no_delay;
  compaction = no_delay;
  write_protect_copy = no_delay;
  irq = no_delay;
}

abbrev pub no_durations : Durations
no_durations s = 0

abbrev pub empty_stats : ThreadIntervalStats
empty_stats = record {
  pid = 0;
  tid = 0;
  start_time_ticks = 0;
  start_time_nanoseconds = 0;
  comm = "";
  interval_start = 0;
  interval_end = 0;
  durations = no_durations;
  total_observed = 0;
  sample_count = 0;
  max_sample_gap = 0;
  detected_transitions = 0;
  detected_transition_uncertainty = 0;
  on_cpu = 0;
  runqueue_wait = 0;
  timeslices = 0;
  schedstat_observed = 0;
  schedstat_sample_pairs = 0;
  schedstat_max_sample_gap = 0;
  schedstat_counter_resets = 0;
  scheduler_source = "";
  scheduler_observed = 0;
  scheduler_event_count = 0;
  wakeup_count = 0;
  wakeup_latency_total = 0;
  wakeup_latency_max = 0;
  incomplete_wakeup_count = 0;
  delay_version = 0;
  delay_accounting_enabled = false;
  delay_accounting_enabled_known = false;
  delay_observed = 0;
  delay_sample_pairs = 0;
  delay_max_sample_gap = 0;
  delay_counter_resets = 0;
  delays = no_interval_delays;
}

abbrev pub empty_quality : IntervalQuality
empty_quality = record {
  active_sources = [];
  unavailable_sources = [];
  hybrid_identity_mismatches = 0;
  sampling_method = "";
  snapshot_count = 0;
  max_scan_duration = 0;
  max_sample_gap = 0;
  missed_transitions_possible = false;
  schedstat_available = false;
  schedstat_thread_count = 0;
  schedstat_counter_resets = 0;
  scheduler_event_timeline = false;
  scheduler_event_count = 0;
  scheduler_lost_events_total = 0;
  scheduler_late_events = 0;
  scheduler_incomplete_wakeups = 0;
  initialization_races = 0;
  clock_calibration_uncertainty = 0;
  taskstats_available = false;
  taskstats_thread_count = 0;
  taskstats_version_min = 0;
  taskstats_version_max = 0;
  taskstats_counter_resets = 0;
  delay_accounting_enabled = false;
  delay_accounting_enabled_known = false;
}

-- stat.Durations[state] += delta
unfoldable pub add_duration : ThreadState → Duration → Durations → Durations
add_duration state delta d s = if state_beq s state then add64 (d s) delta else d s

unfoldable pub duration : ThreadIntervalStats → ThreadState → Duration
duration s state = s.durations state

unfoldable pub stop_duration : ThreadIntervalStats → Duration
stop_duration s = add64 (duration s stopped) (duration s tracing_stop)

unfoldable pub unknown_duration : ThreadIntervalStats → Duration
unknown_duration s = duration s unknown

-- The counts are int values that only go up from 0, and are read as such.
unfoldable pub schedstat_available : ThreadIntervalStats → Bool
schedstat_available s = ltb 0 s.schedstat_sample_pairs

unfoldable pub scheduler_available : ThreadIntervalStats → Bool
scheduler_available s = not (s.scheduler_source == "")

unfoldable pub delay_counters_available : ThreadIntervalStats → Bool
delay_counters_available s = ltb 0 s.delay_sample_pairs
