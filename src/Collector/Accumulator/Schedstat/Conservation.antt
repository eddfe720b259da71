-- ===== src/Collector/Accumulator/Schedstat/Conservation.antt =====
-- A schedstat delta is allotted to the windows of its gap whole: the rounded shares add up to it.
use tsastat.Prelude.{
  ℕ, ◌+◌, ◌-◌, ◌≤◌, ◌<◌, ◌≡◌, refl, some, false, not, arith, word, max_int64, SameWord, Returns,
  Returns-some, Returns-weaken, Returns-at,
}
use tsastat.Clock.{Time, Duration, time_sub, time_sub-eq}
use tsastat.Model.Sample.{ThreadSample, ThreadIdentity, identity, identity_eq}
use tsastat.Collector.Grid.{Grid, InHorizon, Piece, clip}
use tsastat.Collector.Counters.{nanoseconds_duration}
use tsastat.Collector.Counters.Shares.{
  portion, portion_mono, portion-le, portion_whole, portion_none,
}
use tsastat.Collector.Totals.{Meter, IsMeter, Adds, credit, total_of, with_thread_stats-total}
use tsastat.Collector.Totals.Spans.{IsOpen, for_each_window-total}
use tsastat.Collector.Accumulator.Windows.{Windows, new_stats, rename_thread}
use tsastat.Collector.EventAccumulator.Windows.{new_track_stats}
use tsastat.Collector.Accumulator.Schedstat.{
  SchedstatDelta, is_positive, add_schedstat, schedstat_visitor, add_schedstat_delta,
}
use tsastat.Collector.Accumulator.Schedstat.Parts.{DeltaInRange, part_between, schedstat_share-eq}

-- The quantity `f` counts one of the three counters, as long as a part of it stays within `limit`.
record IsCounter (f : Meter) (counted : SchedstatDelta → ℕ) (limit : ℕ) : Type 0 where
  meter : IsMeter f
  part :
      (delta : SchedstatDelta) (from to total : ℕ)
      → counted (part_between delta from to total)
        ≡ portion (counted delta) total to - portion (counted delta) total from
  adds :
      (gap seen : Duration) (part : SchedstatDelta)
      → counted part ≤ limit
      → Adds f (counted part) (add_schedstat gap seen part)

-- The quantities: time on the CPU, time on the runqueue, timeslices.
abbrev pub cpu_time : Meter
cpu_time stat = stat.on_cpu

abbrev pub runqueue_time : Meter
runqueue_time stat = stat.runqueue_wait

abbrev pub slices : Meter
slices stat = stat.timeslices

cpu_time-IsCounter : IsCounter cpu_time (λ d. d.on_cpu_nanoseconds) max_int64
unfolding new_stats new_track_stats rename_thread add_schedstat nanoseconds_duration
cpu_time-IsCounter = record {
  meter = record {
    blank = λ g index sample. refl;
    blank_track = λ g index track. refl;
    renamed = λ comm stat. ground arith;
  };
  part = λ delta from to total. refl;
  adds = λ gap seen part fits stat. ground arith;
}

runqueue_time-IsCounter : IsCounter runqueue_time (λ d. d.runqueue_nanoseconds) max_int64
unfolding new_stats new_track_stats rename_thread add_schedstat nanoseconds_duration
runqueue_time-IsCounter = record {
  meter = record {
    blank = λ g index sample. refl;
    blank_track = λ g index track. refl;
    renamed = λ comm stat. ground arith;
  };
  part = λ delta from to total. refl;
  adds = λ gap seen part fits stat. ground arith;
}

slices-IsCounter : IsCounter slices (λ d. d.timeslices) word
unfolding new_stats new_track_stats rename_thread add_schedstat
slices-IsCounter = record {
  meter = record {
    blank = λ g index sample. refl;
    blank_track = λ g index track. refl;
    renamed = λ comm stat. ground arith;
  };
  part = λ delta from to total. refl;
  adds = λ gap seen part fits stat. omega arith;
}

-- A gap whose counters are allotted to windows that are all open.
pub record IsOpenGap (g : Grid) (start end : Time) : Type 0 where
  pub horizon : InHorizon g end
  pub after_origin : g.origin ≤ start
  pub nonempty : start < end
  pub still_open : IsOpen g start

module _ (f : Meter) (counted : SchedstatDelta → ℕ) (limit : ℕ) (c : IsCounter f counted limit)
    (g : Grid) (start end : Time) (gap : IsOpenGap g start end) (key : ThreadIdentity)
    (sample : ThreadSample) (delta : SchedstatDelta) (range : DeltaInRange delta)
    (fits : counted delta ≤ limit) where
  abbrev total : Duration
  total = end - start

  positive : 0 < total
  positive = omega (arith, gap)

  exact : (t : Time) → start ≤ t → t ≤ end → time_sub t start ≡ t - start
  exact t lo hi = time_sub-eq t start lo (omega (arith, gap.horizon, gap.after_origin))

  self : (t : Time) → t - t ≡ 0
  self t = omega arith

  -- What has been allotted up to an instant.
  abbrev allotted : Time → ℕ
  allotted t = credit (identity sample) key (portion (counted delta) total (t - start))

  allotted_mono : (x y : Time) → x ≤ y → allotted x ≤ allotted y
  allotted_mono x y le =
      let more =
        portion_mono (counted delta) total (x - start) (y - start) positive (omega arith) in
      ground (arith, more)

  visit-allots :
      (index : ℕ) (from to : Time) (ws : Windows)
      → Piece g end index from to
      → start ≤ from
      → Returns
          (schedstat_visitor g sample delta start total index from to ws)
          (λ ws'. SameWord (total_of f key ws') (total_of f key ws + (allotted to - allotted from)))
  unfolding schedstat_visitor
  visit-allots index from to ws piece low =
      let stop : portion (counted delta) total (to - start) ≤ counted delta =
        portion-le (counted delta) total (to - start) positive (omega (arith, piece)) in
      let amount = c.part delta (from - start) (to - start) total in
      rw
        (
          exact from low (omega (arith, piece)),
          exact to (omega (arith, piece)) (omega (arith, piece)),
          schedstat_share-eq delta (from - start) (to - start) total range positive
              (omega (arith, piece)) (omega (arith, piece)),
        )
        (Returns-some _ (
          ground (
            arith,
            amount,
            with_thread_stats-total f c.meter key g index
                (counted (part_between delta (from - start) (to - start) total)) sample _ ws
                (c.adds total (time_sub to from) _ (omega (arith, amount, stop))),
          )))

  add_schedstat_delta-allots :
      (ws : Windows)
      → Returns (add_schedstat_delta g sample start end delta ws) (λ ws'.
        SameWord
          (total_of f key ws')
          (total_of f key ws + credit (identity sample) key (counted delta)))
  unfolding add_schedstat_delta
  add_schedstat_delta-allots ws =
      let clipped : clip g start ≡ start = ground (arith, gap.after_origin) in
      let whole : allotted end ≡ credit (identity sample) key (counted delta) =
        rw (portion_whole (counted delta) total positive) refl in
      let nothing : allotted (clip g start) ≡ 0 =
        rw (clipped, self start, portion_none (counted delta) total) (ground arith) in
      let counts : not (is_positive total) ≡ false =
        ground (arith, positive, gap.horizon.room, gap.after_origin) in
      rw (exact end (omega (arith, gap)) (omega arith), counts)
        (Returns-weaken _ (λ ws' p. omega (arith, p, whole, nothing))
          (for_each_window-total g (schedstat_visitor g sample delta start total) start end
            gap.horizon f key allotted allotted_mono
            (λ index from to s piece low. visit-allots index from to s piece (ground arith))
            (rw clipped gap.still_open) ws gap.nonempty (omega (arith, gap))))

-- addSchedstatDelta returns, and over all windows together the thread's on-CPU time, its runqueue
-- wait and its timeslices grow by exactly the delta, whatever the number of windows and the
-- rounding of their shares; those of other threads do not grow. The gap is not empty, begins at
-- or after the origin and the end of the reported windows, and ends in the horizon; the delta is
-- of 64-bit words, and its two times are at most the largest duration. Sums are 64-bit words.
pub add_schedstat_delta-conserves :
    (g : Grid) (start end : Time) (key : ThreadIdentity) (sample : ThreadSample)
    (delta : SchedstatDelta) (ws : Windows)
    → IsOpenGap g start end
    → DeltaInRange delta
    → delta.on_cpu_nanoseconds ≤ max_int64
    → delta.runqueue_nanoseconds ≤ max_int64
    → (ws' : Windows) × (add_schedstat_delta g sample start end delta ws ≡ some ws')
      × SameWord
          (total_of cpu_time key ws')
          (total_of cpu_time key ws + credit (identity sample) key delta.on_cpu_nanoseconds)
      × SameWord
          (total_of runqueue_time key ws')
          (total_of runqueue_time key ws + credit (identity sample) key delta.runqueue_nanoseconds)
      × SameWord
          (total_of slices key ws')
          (total_of slices key ws + credit (identity sample) key delta.timeslices)
add_schedstat_delta-conserves g start end key sample delta ws gap range on_cpu runqueue =
    let (ws₁, e₁, p₁) =
      add_schedstat_delta-allots cpu_time (λ d. d.on_cpu_nanoseconds) max_int64 cpu_time-IsCounter g
        start end gap key sample delta range on_cpu ws in
    let runqueues =
      add_schedstat_delta-allots runqueue_time (λ d. d.runqueue_nanoseconds) max_int64
        runqueue_time-IsCounter g start end gap key sample delta range runqueue ws in
    let timeslices =
      add_schedstat_delta-allots slices (λ d. d.timeslices) word slices-IsCounter g start end gap
        key sample delta range (omega (arith, range)) ws in
    (ws₁, e₁, p₁, Returns-at ws₁ _ e₁ runqueues, Returns-at ws₁ _ e₁ timeslices)
