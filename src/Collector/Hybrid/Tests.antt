-- ===== src/Collector/Hybrid/Tests.antt =====
-- The merge of two concrete reports.
use tsastat.Prelude.{ℕ, ◌≡◌, refl, List, [], ◌∷◌, map}
use tsastat.Model.Stats.{ThreadIntervalStats, IntervalReport, empty_stats, empty_quality}
use tsastat.Collector.Hybrid.{
  merge_hybrid_report, merge_threads, merge_thread, find_match, count_candidates, mark_used,
  same_proven_thread, copy_delay_stats,
}
use tsastat.Collector.Hybrid.Matching.{Merged, merge_hybrid_report-Merged}

abbrev thread : ℕ → ℕ → ℕ → ThreadIntervalStats
thread tid ticks pairs = record empty_stats {
  tid = tid;
  start_time_ticks = ticks;
  delay_sample_pairs = pairs;
}

abbrev report_of : List ThreadIntervalStats → IntervalReport
report_of threads = record {
  interval_start = 1000;
  interval_end = 1100;
  threads = threads;
  quality = empty_quality;
}

-- Thread 7 started at tick 5 in both; thread 8 was replaced by another one.
abbrev events : IntervalReport
events = report_of (thread 7 5 0 ∷ thread 8 6 0 ∷ [])

abbrev counters : IntervalReport
counters = report_of (thread 7 5 2 ∷ thread 8 9 3 ∷ [])

merged-pairs :
    map
      (λ (s : ThreadIntervalStats). s.delay_sample_pairs)
      (merge_hybrid_report events counters).threads
    ≡ 2 ∷ 0 ∷ []
unfolding merge_hybrid_report merge_threads merge_thread find_match count_candidates mark_used
    same_proven_thread copy_delay_stats
merged-pairs = refl

merge_hybrid_report-Merged_example : Merged events counters (merge_hybrid_report events counters)
merge_hybrid_report-Merged_example = merge_hybrid_report-Merged events counters refl refl
