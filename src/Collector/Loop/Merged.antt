-- ===== src/Collector/Loop/Merged.antt =====
-- What merging the auxiliary reports leaves alone: the windows, and that the figures agree.
use tsastat.Prelude.{
  ℕ, ◌+◌, ◌≡◌, refl, inl, inr, not, ◌||◌, Bool-cases, Option-cases, List, [], ◌∷◌, map, arith, All,
  nat_beq, nat_eq, lookup,
}
use tsastat.Model.Stats.{ThreadIntervalStats, IntervalReport}
use tsastat.Collector.Grid.{Grid}
use tsastat.Collector.Accumulator.Finalize.Tiling.{Tiles, length_of}
use tsastat.Collector.Hybrid.{
  Auxiliary, unused, find_match, mark_used, copy_delay_stats, merge_thread, merge_threads,
  merge_hybrid_report,
}
use tsastat.Collector.EventAccumulator.Invariant.{IsConsistent}
use tsastat.Collector.EventAccumulator.Invariant.Advance.{IsSound}
use tsastat.Collector.Loop.Hybrid.{AuxReports, merge_stored, merge_all}

-- Only delay counters are taken over.
copy_delay_stats-IsConsistent :
    (target source : ThreadIntervalStats)
    → IsConsistent target
    → IsConsistent (copy_delay_stats target source)
unfolding copy_delay_stats
copy_delay_stats-IsConsistent target source c = record {
  scheduler = c.scheduler;
  states = c.states;
  running = c.running;
  wakeups = c.wakeups;
}

merge_threads-IsConsistent :
    (stats : List ThreadIntervalStats) (auxiliary : List Auxiliary)
    → All IsConsistent stats
    → All IsConsistent (merge_threads stats auxiliary).0
unfolding merge_threads merge_thread
merge_threads-IsConsistent [] auxiliary h = tt
merge_threads-IsConsistent (stat ∷ stats) auxiliary h =
    elim (Option-cases (find_match stat auxiliary)) [
      | inl missing ↦
          rw (missing, merge_thread) (h.0, merge_threads-IsConsistent stats auxiliary h.1)
      | inr (source, found) ↦
          rw (found, merge_thread)
            (
              copy_delay_stats-IsConsistent stat source h.0,
              merge_threads-IsConsistent stats (mark_used stat auxiliary) h.1,
            )
    ]

-- A merged report spans the same window, and is sound if the report was.
record Merged (report merged : IntervalReport) : Type 0 where
  start : merged.interval_start ≡ report.interval_start
  end : merged.interval_end ≡ report.interval_end
  sound : IsSound report → IsSound merged

merge_hybrid_report-Merged :
    (report auxiliary : IntervalReport) → Merged report (merge_hybrid_report report auxiliary)
unfolding merge_hybrid_report
merge_hybrid_report-Merged report auxiliary =
    elim (Bool-cases (
      not (nat_beq report.interval_start auxiliary.interval_start)
      || not (nat_beq report.interval_end auxiliary.interval_end))) [
        | inl other ↦ rw other (record { start = refl; end = refl; sound = λ h. h })
        | inr same ↦ rw same (record {
          start = refl;
          end = refl;
          sound = merge_threads-IsConsistent report.threads (map unused auxiliary.threads);
        })
      ]

merge_stored-Merged :
    (report : IntervalReport) (stored : AuxReports) → Merged report (merge_stored report stored).0
unfolding merge_stored
merge_stored-Merged report stored = elim (Option-cases (lookup report.interval_start stored)) [
  | inl missing ↦ rw (missing, merge_stored) (record { start = refl; end = refl; sound = λ h. h })
  | inr (auxiliary, found) ↦ rw (found, merge_stored) (merge_hybrid_report-Merged report auxiliary)
]

-- Merging keeps the windows that the reports tile, and their soundness.
pub merge_all-Tiles :
    (g : Grid) (index : ℕ) (reports : List IntervalReport) (stored : AuxReports)
    → Tiles g index reports
    → All IsSound reports
    → Tiles g index (merge_all reports stored).0
      × (length_of (merge_all reports stored).0 ≡ length_of reports)
      × All IsSound (merge_all reports stored).0
unfolding merge_all
merge_all-Tiles g index [] stored t h = (tt, refl, tt)
merge_all-Tiles g index (report ∷ reports) stored t h =
    let m = merge_stored-Merged report stored in
    let rest = merge_all-Tiles g (index + 1) reports (merge_stored report stored).1 t.2 h.1 in
    ((rw m.start t.0, rw m.end t.1, rest.0), omega (arith, rest.1), (m.sound h.0, rest.2))
