-- ===== src/Output/Filter/Sorted.antt =====
-- What FilterAndSort returns: which threads, and in which order.
use mathlib.Core.List.{Perm, perm_middle}
use mathlib.Core.List.Perm
use tsastat.Prelude.{
  ◌≤◌, ◌<◌, ◌≡◌, refl, ◌⊎◌, inl, inr, String, Bool, Bool-cases, true, false, some, List, [], ◌∷◌,
  ◌++◌, arith, lookup, ◌==◌, string_eq, All, IsOrder, IsInOrder, IsSorted-IsInOrder,
  sort_slice-IsSorted, sort_slice-perm, Returns, Returns-some,
}
use tsastat.Model.State.{ThreadState}
use tsastat.Model.Stats.{ThreadIntervalStats, duration}
use tsastat.Output.Filter.{
  FilterSortOptions, Metric, signed, metric_less, metrics, sort_field, order_of, is_all_idle,
  is_shown, filtered, filter_and_sort,
}

-- The figures that can be sorted by, and their names.
pub data Figure : String → Metric → Type 0 where
  running : Figure "running" (λ s. duration s ThreadState.running)
  sleeping : Figure "sleeping" (λ s. duration s ThreadState.sleeping)
  uninterruptible : Figure "uninterruptible" (λ s. duration s ThreadState.uninterruptible)
  on_cpu : Figure "on_cpu" (λ s. s.on_cpu)
  runnable : Figure "runnable" (λ s. s.runqueue_wait)
  wakeup_latency : Figure "wakeup_latency" (λ s. s.wakeup_latency_max)
  cpu_delay : Figure "cpu_delay" (λ s. s.delays.cpu.total)
  block_io_delay : Figure "block_io_delay" (λ s. s.delays.block_io.total)
  swap_delay : Figure "swap_delay" (λ s. s.delays.swap_in.total)
  reclaim_delay : Figure "reclaim_delay" (λ s. s.delays.reclaim.total)
  thrashing_delay : Figure "thrashing_delay" (λ s. s.delays.thrashing.total)
  compaction_delay : Figure "compaction_delay" (λ s. s.delays.compaction.total)
  wpcopy_delay : Figure "wpcopy_delay" (λ s. s.delays.write_protect_copy.total)
  irq_delay : Figure "irq_delay" (λ s. s.delays.irq.total)
  total : Figure "total" (λ s. s.total_observed)

-- A name of a figure is in the table, and is not empty.
metrics-Figure :
    (name : String) (value : Metric)
    → Figure name value
    → (lookup name metrics ≡ some value) × ((name == "") ≡ false)
unfolding metrics lookup
metrics-Figure _ _ running = (refl, refl)
metrics-Figure _ _ sleeping = (refl, refl)
metrics-Figure _ _ uninterruptible = (refl, refl)
metrics-Figure _ _ on_cpu = (refl, refl)
metrics-Figure _ _ runnable = (refl, refl)
metrics-Figure _ _ wakeup_latency = (refl, refl)
metrics-Figure _ _ cpu_delay = (refl, refl)
metrics-Figure _ _ block_io_delay = (refl, refl)
metrics-Figure _ _ swap_delay = (refl, refl)
metrics-Figure _ _ reclaim_delay = (refl, refl)
metrics-Figure _ _ thrashing_delay = (refl, refl)
metrics-Figure _ _ compaction_delay = (refl, refl)
metrics-Figure _ _ wpcopy_delay = (refl, refl)
metrics-Figure _ _ irq_delay = (refl, refl)
metrics-Figure _ _ total = (refl, refl)

-- Of two threads the first has the larger figure, as a signed number, or the same one and a task id
-- that is not larger.
abbrev pub Precedes : Metric → ThreadIntervalStats → ThreadIntervalStats → Type 0
Precedes value a b =
    (signed (value b) < signed (value a))
    ⊎ ((signed (value a) ≡ signed (value b)) × (a.tid ≤ b.tid))

-- The thread has been idle for all of a positive time.
abbrev pub IsIdle : ThreadIntervalStats → Type 0
IsIdle stat =
    (signed 0 < signed stat.total_observed) × (duration stat ThreadState.idle ≡ stat.total_observed)

-- The task id, the name and the idleness of a thread are such as the options ask for.
pub record IsWanted (match_comm : String → String → Bool) (options : FilterSortOptions)
    (stat : ThreadIntervalStats) : Type 0 where
  pub tid : (options.tid ≡ 0) ⊎ (stat.tid ≡ options.tid)
  pub comm : ((options.comm == "") ≡ true) ⊎ (match_comm stat.comm options.comm ≡ true)
  pub idle : (options.show_idle ≡ true) ⊎ (¬ IsIdle stat)

is_all_idle-IsIdle : (stat : ThreadIntervalStats) → is_all_idle stat ≡ true → IsIdle stat
unfolding is_all_idle
is_all_idle-IsIdle stat h = (ground (arith, h), ground (arith, h))

is_all_idle_complete : (stat : ThreadIntervalStats) → IsIdle stat → is_all_idle stat ≡ true
unfolding is_all_idle
is_all_idle_complete stat h = ground (arith, h.0, h.1)

module _ (match_comm : String → String → Bool) (options : FilterSortOptions) where
  is_shown-IsWanted :
      (stat : ThreadIntervalStats)
      → is_shown match_comm options stat ≡ true
      → IsWanted match_comm options stat
  unfolding is_shown
  is_shown-IsWanted stat h = record {
    tid = ground (arith, h);
    comm = ground (arith, h);
    idle = elim (Bool-cases options.show_idle) [
      | inl all ↦ inl all
      | inr busy ↦ inr (λ idle. absurd (ground (arith, h, busy, is_all_idle_complete stat idle)))
    ];
  }

  is_shown-not-IsWanted :
      (stat : ThreadIntervalStats)
      → is_shown match_comm options stat ≡ false
      → ¬ IsWanted match_comm options stat
  unfolding is_shown
  is_shown-not-IsWanted stat h w = elim (Bool-cases (is_all_idle stat)) [
    | inl idle ↦ ground (arith, h, idle, w.tid, w.comm, w.idle, is_all_idle-IsIdle stat idle)
    | inr busy ↦ ground (arith, h, busy, w.tid, w.comm)
  ]

  -- The threads that are wanted, and the others.
  pub record Chosen (stats sorted : List ThreadIntervalStats) : Type 0 where
    pub wanted : List ThreadIntervalStats
    pub others : List ThreadIntervalStats
    pub all : Perm stats (wanted ++ others)
    pub wanted_IsWanted : All (IsWanted match_comm options) wanted
    pub others_not : All (λ stat. ¬ IsWanted match_comm options stat) others
    pub same : Perm wanted sorted

  filtered-Chosen :
      (stats : List ThreadIntervalStats) → Chosen stats (filtered match_comm options stats)
  unfolding filtered
  filtered-Chosen [] = record {
    wanted = [];
    others = [];
    all = Perm.refl [];
    wanted_IsWanted = tt;
    others_not = tt;
    same = Perm.refl [];
  }
  filtered-Chosen (stat ∷ stats) =
      let rest = filtered-Chosen stats in
      elim (Bool-cases (is_shown match_comm options stat)) [
        | inl shown ↦
            rw (shown, filtered)
              (record {
                wanted = stat ∷ rest.wanted;
                others = rest.others;
                all = Perm.cons stat rest.all;
                wanted_IsWanted = (is_shown-IsWanted stat shown, rest.wanted_IsWanted);
                others_not = rest.others_not;
                same = Perm.cons stat rest.same;
              })
        | inr hidden ↦
            rw (hidden, filtered)
              (record {
                wanted = rest.wanted;
                others = stat ∷ rest.others;
                all =
                    Perm.trans (Perm.cons stat rest.all)
                      (Perm.symm (perm_middle rest.wanted rest.others));
                wanted_IsWanted = rest.wanted_IsWanted;
                others_not = (is_shown-not-IsWanted stat hidden, rest.others_not);
                same = rest.same;
              })
      ]

  Chosen-Perm :
      (stats : List ThreadIntervalStats) {xs ys : List ThreadIntervalStats}
      → Chosen stats xs
      → Perm xs ys
      → Chosen stats ys
  Chosen-Perm stats c p = record {
    wanted = c.wanted;
    others = c.others;
    all = c.all;
    wanted_IsWanted = c.wanted_IsWanted;
    others_not = c.others_not;
    same = Perm.trans c.same p;
  }

metric_less-IsOrder : (value : Metric) → IsOrder (metric_less value)
unfolding metric_less
metric_less-IsOrder value = record {
  asymm = λ x y h. ground arith;
  trans = λ x y z h k. ground arith;
}

not_less-Precedes :
    (value : Metric) (a b : ThreadIntervalStats)
    → metric_less value b a ≡ false
    → Precedes value a b
unfolding metric_less
not_less-Precedes value a b h = ground (arith, h)

-- FilterAndSort by a figure returns the threads of the task id and the name that the options ask for,
-- and idle ones only if these are to be shown, each once; of any two the first has the larger figure,
-- as a signed number, or the same one and a task id that is not larger.
pub filter_and_sort-Chosen :
    (match_comm string_less : String → String → Bool) (stats : List ThreadIntervalStats)
    (options : FilterSortOptions) (value : Metric)
    → Figure options.sort value
    → Returns
        (filter_and_sort match_comm string_less stats options)
        (λ sorted. IsInOrder (Precedes value) sorted × Chosen match_comm options stats sorted)
unfolding filter_and_sort order_of sort_field
filter_and_sort-Chosen match_comm string_less stats options value figure =
    let known = metrics-Figure options.sort value figure in
    let less = metric_less value in
    let kept = filtered match_comm options stats in
    let chosen = filtered-Chosen match_comm options stats in
    rw (known.1, filter_and_sort, sort_field)
      (rw (known.0, order_of)
        (Returns-some _ (
          IsSorted-IsInOrder less (Precedes value) (not_less-Precedes value) _
              (sort_slice-IsSorted less (metric_less-IsOrder value) kept),
          Chosen-Perm match_comm options stats chosen (sort_slice-perm less kept),
        )))
