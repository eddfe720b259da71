-- ===== src/Collector/EventAccumulator/Advance/Order.antt =====
-- The threads of a report stand in order, and are those of the window.
use mathlib.Core.List.{Perm}
use tsastat.Prelude.{
  ◌≤◌, ◌<◌, ◌≡◌, ◌⊎◌, map, arith, false, IsOrder, IsInOrder, IsSorted-IsInOrder,
  sort_slice-IsSorted, sort_slice-perm,
}
use tsastat.Model.Stats.{ThreadIntervalStats}
use tsastat.Collector.Accumulator.Windows.{Stats}
use tsastat.Collector.EventAccumulator.Advance.{stats_less, sorted_event_stats}

stats_less-IsOrder : IsOrder stats_less
unfolding stats_less
stats_less-IsOrder = record { asymm = λ x y h. ground arith; trans = λ x y z h k. ground arith }

-- Of two threads the first has the smaller task id, or the same one and an earlier start time in
-- nanoseconds, or these the same and a start time in ticks that is not later.
abbrev pub Precedes : ThreadIntervalStats → ThreadIntervalStats → Type 0
Precedes a b =
    (a.tid < b.tid)
    ⊎ ((a.tid ≡ b.tid)
        × ((a.start_time_nanoseconds < b.start_time_nanoseconds)
            ⊎ ((a.start_time_nanoseconds ≡ b.start_time_nanoseconds)
                × (a.start_time_ticks ≤ b.start_time_ticks))))

not_less-Precedes : (a b : ThreadIntervalStats) → stats_less b a ≡ false → Precedes a b
unfolding stats_less
not_less-Precedes a b h = ground (arith, h)

-- sortedEventStats lists the statistics of all threads of the window, each once, in the order of
-- their task ids, then of their start times in nanoseconds, then of those in ticks.
pub sorted_event_stats-IsInOrder :
    (m : Stats)
    → IsInOrder Precedes (sorted_event_stats m)
      × Perm (map (λ entry. entry.1) m) (sorted_event_stats m)
unfolding sorted_event_stats
sorted_event_stats-IsInOrder m =
    let all = map (λ entry. entry.1) m in
    (
      IsSorted-IsInOrder stats_less Precedes not_less-Precedes _
          (sort_slice-IsSorted stats_less stats_less-IsOrder all),
      sort_slice-perm stats_less all,
    )
