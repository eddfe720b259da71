-- ===== src/Output/Filter.antt =====
-- internal/output/filter.go: FilterAndSort. How a pattern matches a name (matchComm, on Go's strings
-- and path packages) and Go's order of strings are parameters; the switch over the sort fields that
-- stand for a figure is a table.
pub mod Sorted
pub mod Tests
use tsastat.Prelude.{
  ℕ, ◌+◌, ◌%◌, String, Bool, true, false, not, ◌&&◌, Option, none, some, List, [], ◌∷◌, ltb,
  nat_beq, if◌then◌else◌, ◌==◌, string_eq, Assoc, lookup, sort_slice, word, sign_bit,
}
use tsastat.Clock.{Duration}
use tsastat.Model.State.{ThreadState}
use tsastat.Model.Stats.{ThreadIntervalStats, duration}

pub record FilterSortOptions : Type 0 where
  pub tid : ℕ
  pub comm : String
  pub show_idle : Bool
  pub sort : String

abbrev pub Less : Type 0
Less = ThreadIntervalStats → ThreadIntervalStats → Bool

abbrev pub Metric : Type 0
Metric = ThreadIntervalStats → Duration

-- The place of a bit pattern in the order of int64.
abbrev pub signed : Duration → ℕ
signed d = (d + sign_bit) % word

-- A duration is positive.
abbrev pub is_positive : Duration → Bool
is_positive d = ltb sign_bit (signed d)

unfoldable pub is_all_idle : ThreadIntervalStats → Bool
is_all_idle stat =
    is_positive stat.total_observed && nat_beq (duration stat ThreadState.idle) stat.total_observed

module _ (match_comm : String → String → Bool) where
  unfoldable pub is_shown : FilterSortOptions → ThreadIntervalStats → Bool
  is_shown options stat =
      if ltb 0 options.tid && not (nat_beq stat.tid options.tid)
      then false
      else if not (options.comm == "") && not (match_comm stat.comm options.comm)
      then false
      else not (not options.show_idle && is_all_idle stat)

  unfoldable pub filtered : FilterSortOptions → List ThreadIntervalStats → List ThreadIntervalStats
  filtered options [] = []
  filtered options (stat ∷ stats) =
      if is_shown options stat then stat ∷ filtered options stats else filtered options stats

-- The larger figure first, then the smaller task id.
unfoldable pub metric_less : Metric → Less
metric_less value a b =
    if nat_beq (signed (value a)) (signed (value b))
    then ltb a.tid b.tid
    else ltb (signed (value b)) (signed (value a))

unfoldable pub metrics : Assoc String Metric
metrics =
    ("running", λ s. duration s ThreadState.running)
    ∷ ("sleeping", λ s. duration s ThreadState.sleeping)
    ∷ ("uninterruptible", λ s. duration s ThreadState.uninterruptible)
    ∷ ("on_cpu", λ s. s.on_cpu)
    ∷ ("runnable", λ s. s.runqueue_wait)
    ∷ ("wakeup_latency", λ s. s.wakeup_latency_max)
    ∷ ("cpu_delay", λ s. s.delays.cpu.total)
    ∷ ("block_io_delay", λ s. s.delays.block_io.total)
    ∷ ("swap_delay", λ s. s.delays.swap_in.total)
    ∷ ("reclaim_delay", λ s. s.delays.reclaim.total)
    ∷ ("thrashing_delay", λ s. s.delays.thrashing.total)
    ∷ ("compaction_delay", λ s. s.delays.compaction.total)
    ∷ ("wpcopy_delay", λ s. s.delays.write_protect_copy.total)
    ∷ ("irq_delay", λ s. s.delays.irq.total)
    ∷ ("total", λ s. s.total_observed)
    ∷ []

unfoldable pub tid_less : Less
tid_less a b = ltb a.tid b.tid

unfoldable pub comm_less : (String → String → Bool) → Less
comm_less string_less a b = if a.comm == b.comm then ltb a.tid b.tid else string_less a.comm b.comm

unfoldable pub sort_field : FilterSortOptions → String
sort_field options = if options.sort == "" then "tid" else options.sort

-- The order of a sort field; none for a field that is not supported.
unfoldable pub order_of : (String → String → Bool) → String → Option Less
order_of string_less field = elim (lookup field metrics) [
  | some value ↦ some (metric_less value)
  | none ↦
      if field == "tid"
      then some tid_less
      else if field == "comm"
      then some (comm_less string_less)
      else none
]

-- FilterAndSort; none is its error.
unfoldable pub filter_and_sort :
    (String → String → Bool)
    → (String → String → Bool)
    → List ThreadIntervalStats
    → FilterSortOptions
    → Option (List ThreadIntervalStats)
filter_and_sort match_comm string_less stats options =
    elim (order_of string_less (sort_field options)) [
      | none ↦ none
      | some less ↦ some (sort_slice less (filtered match_comm options stats))
    ]
