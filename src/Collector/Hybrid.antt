-- ===== src/Collector/Hybrid.antt =====
-- internal/collector/collector.go: how the report of the scheduler events takes over the delay
-- counters of an auxiliary report. The code marks the auxiliary threads that are used up in a list of
-- flags; here each of them carries its flag.
pub mod Matching
pub mod Tests
use tsastat.Prelude.{
  ℕ, ◌+◌, Bool, true, false, not, ◌&&◌, ◌||◌, Option, none, some, List, [], ◌∷◌, map, nat_beq,
  nat_eq, if◌then◌else◌, Assoc, insert,
}
use tsastat.Clock.{Time}
use tsastat.Model.Sample.{ThreadSample, ThreadSnapshot}
use tsastat.Model.Stats.{
  ThreadIntervalStats, IntervalQuality, IntervalReport, delay_counters_available,
}

unfoldable pub any_delays : List ThreadSample → Bool
any_delays [] = false
any_delays (sample ∷ samples) = if sample.delays.available then true else any_delays samples

unfoldable pub snapshot_has_delays : ThreadSnapshot → Bool
snapshot_has_delays snapshot = any_delays snapshot.samples

-- storeAuxReports: the reports by the time at which they start.
unfoldable pub store_aux_reports :
    List IntervalReport → Assoc Time IntervalReport → Assoc Time IntervalReport
store_aux_reports [] target = target
store_aux_reports (report ∷ reports) target =
    store_aux_reports reports (insert report.interval_start report target)

-- One kind of start time, if both have it, decides.
unfoldable pub same_proven_thread : ThreadIntervalStats → ThreadIntervalStats → Bool
same_proven_thread left right =
    if not (nat_beq left.tid right.tid)
    then false
    else if not (nat_beq left.start_time_ticks 0) && not (nat_beq right.start_time_ticks 0)
    then nat_beq left.start_time_ticks right.start_time_ticks
    else if not (nat_beq left.start_time_nanoseconds 0)
        && not (nat_beq right.start_time_nanoseconds 0)
    then nat_beq left.start_time_nanoseconds right.start_time_nanoseconds
    else false

unfoldable pub copy_delay_stats : ThreadIntervalStats → ThreadIntervalStats → ThreadIntervalStats
copy_delay_stats target source = record target {
  delay_version = source.delay_version;
  delay_accounting_enabled = source.delay_accounting_enabled;
  delay_accounting_enabled_known = source.delay_accounting_enabled_known;
  delay_observed = source.delay_observed;
  delay_sample_pairs = source.delay_sample_pairs;
  delay_max_sample_gap = source.delay_max_sample_gap;
  delay_counter_resets = source.delay_counter_resets;
  delays = source.delays;
}

unfoldable pub merge_auxiliary_quality : IntervalQuality → IntervalQuality → IntervalQuality
merge_auxiliary_quality target source = record target {
  snapshot_count = source.snapshot_count;
  max_scan_duration = source.max_scan_duration;
  taskstats_available = source.taskstats_available;
  taskstats_thread_count = source.taskstats_thread_count;
  taskstats_version_min = source.taskstats_version_min;
  taskstats_version_max = source.taskstats_version_max;
  taskstats_counter_resets = source.taskstats_counter_resets;
  delay_accounting_enabled = source.delay_accounting_enabled;
  delay_accounting_enabled_known = source.delay_accounting_enabled_known;
}

-- An auxiliary thread, and whether it is used up.
pub record Auxiliary : Type 0 where
  pub used : Bool
  pub stat : ThreadIntervalStats

abbrev pub is_candidate : ThreadIntervalStats → Auxiliary → Bool
is_candidate stat a = not a.used && same_proven_thread stat a.stat

unfoldable pub count_candidates : ThreadIntervalStats → List Auxiliary → ℕ
count_candidates stat [] = 0
count_candidates stat (a ∷ auxiliary) =
    if is_candidate stat a
    then count_candidates stat auxiliary + 1
    else count_candidates stat auxiliary

-- The inner loop's outcome: the first candidate, where no other one follows.
unfoldable pub find_match : ThreadIntervalStats → List Auxiliary → Option ThreadIntervalStats
find_match stat [] = none
find_match stat (a ∷ auxiliary) =
    if is_candidate stat a
    then (if nat_beq (count_candidates stat auxiliary) 0 then some a.stat else none)
    else find_match stat auxiliary

unfoldable pub mark_used : ThreadIntervalStats → List Auxiliary → List Auxiliary
mark_used stat [] = []
mark_used stat (a ∷ auxiliary) =
    if is_candidate stat a
    then record a { used = true } ∷ auxiliary
    else a ∷ mark_used stat auxiliary

unfoldable pub merge_thread :
    ThreadIntervalStats → List Auxiliary → ThreadIntervalStats × List Auxiliary
merge_thread stat auxiliary = elim (find_match stat auxiliary) [
  | none ↦ (stat, auxiliary)
  | some source ↦ (copy_delay_stats stat source, mark_used stat auxiliary)
]

-- The loop over the event report's threads.
unfoldable pub merge_threads :
    List ThreadIntervalStats → List Auxiliary → List ThreadIntervalStats × List Auxiliary
merge_threads [] auxiliary = ([], auxiliary)
merge_threads (stat ∷ stats) auxiliary =
    let merged = merge_thread stat auxiliary in
    let rest = merge_threads stats merged.1 in (merged.0 ∷ rest.0, rest.1)

unfoldable pub count_mismatches : List Auxiliary → ℕ
count_mismatches [] = 0
count_mismatches (a ∷ auxiliary) =
    let rest = count_mismatches auxiliary in
    if not a.used && delay_counters_available a.stat then rest + 1 else rest

unfoldable pub merged_quality : ℕ → IntervalQuality → IntervalQuality → IntervalQuality
merged_quality mismatches event auxiliary =
    let merged =
      merge_auxiliary_quality
        (record event {
          hybrid_identity_mismatches = event.hybrid_identity_mismatches + mismatches;
        })
        auxiliary in
    if auxiliary.taskstats_available
    then record merged { sampling_method = "ebpf_sched_events+taskstats_counters" }
    else merged

abbrev pub unused : ThreadIntervalStats → Auxiliary
unused stat = record { used = false; stat = stat }

unfoldable pub merge_hybrid_report : IntervalReport → IntervalReport → IntervalReport
merge_hybrid_report event auxiliary =
    if not (nat_beq event.interval_start auxiliary.interval_start)
      || not (nat_beq event.interval_end auxiliary.interval_end)
    then event
    else let merged = merge_threads event.threads (map unused auxiliary.threads) in
      record event {
        threads = merged.0;
        quality = merged_quality (count_mismatches merged.1) event.quality auxiliary.quality;
      }
