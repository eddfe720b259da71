-- ===== src/Output/Filter/Tests.antt =====
-- FilterAndSort on concrete statistics.
use tsastat.Prelude.{String, Bool, true, false, List, [], ◌∷◌, IsInOrder, Returns}
use tsastat.Model.Stats.{ThreadIntervalStats, empty_stats}
use tsastat.Output.Filter.{FilterSortOptions, filter_and_sort}
use tsastat.Output.Filter.Sorted.{on_cpu, Precedes, Chosen, filter_and_sort-Chosen}

abbrev by_cpu : FilterSortOptions
by_cpu = record { tid = 0; comm = ""; show_idle = true; sort = "on_cpu" }

abbrev threads : List ThreadIntervalStats
threads =
    record empty_stats { tid = 4; on_cpu = 10 }
    ∷ record empty_stats { tid = 5; on_cpu = 30 }
    ∷ record empty_stats { tid = 3; on_cpu = 10 }
    ∷ []

abbrev never : String → String → Bool
never a b = false

filter_and_sort-Chosen_example :
    Returns
      (filter_and_sort never never threads by_cpu)
      (λ sorted. IsInOrder (Precedes (λ s. s.on_cpu)) sorted × Chosen never by_cpu threads sorted)
filter_and_sort-Chosen_example =
    filter_and_sort-Chosen never never threads by_cpu (λ s. s.on_cpu) on_cpu
