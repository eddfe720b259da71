-- ===== src/Collector/Accumulator/Schedstat/Parts.antt =====
-- The parts of a schedstat delta that a visit computes: no division panics, and each part is the
-- difference of the portions at its two ends.
use tsastat.Prelude.{ℕ, ◌-◌, ◌≤◌, ◌<◌, ◌≡◌, refl, some, arith, word}
use tsastat.Model.Sample.{SchedstatCounters}
use tsastat.Collector.Counters.Shares.{portion, share-eq}
use tsastat.Collector.Accumulator.Schedstat.{SchedstatDelta, schedstat_share, schedstat_delta}

-- The counters are 64-bit words.
pub record SchedstatInRange (c : SchedstatCounters) : Type 0 where
  pub on_cpu : c.on_cpu_nanoseconds < word
  pub runqueue : c.runqueue_nanoseconds < word
  pub timeslices : c.timeslices < word

pub record DeltaInRange (d : SchedstatDelta) : Type 0 where
  pub on_cpu : d.on_cpu_nanoseconds < word
  pub runqueue : d.runqueue_nanoseconds < word
  pub timeslices : d.timeslices < word

pub schedstat_delta-InRange :
    (previous current : SchedstatCounters)
    → SchedstatInRange current
    → DeltaInRange (schedstat_delta previous current)
unfolding schedstat_delta
schedstat_delta-InRange previous current h = omega arith

abbrev pub part_between : SchedstatDelta → ℕ → ℕ → ℕ → SchedstatDelta
part_between d from to total = record {
  on_cpu_nanoseconds =
      portion d.on_cpu_nanoseconds total to - portion d.on_cpu_nanoseconds total from;
  runqueue_nanoseconds =
      portion d.runqueue_nanoseconds total to - portion d.runqueue_nanoseconds total from;
  timeslices = portion d.timeslices total to - portion d.timeslices total from;
}

pub schedstat_share-eq :
    (d : SchedstatDelta) (from to total : ℕ)
    → DeltaInRange d
    → 0 < total
    → from ≤ to
    → to ≤ total
    → schedstat_share d from to total ≡ some (part_between d from to total)
unfolding schedstat_share
schedstat_share-eq d from to total h pos lo hi =
    rw
      (
        share-eq d.on_cpu_nanoseconds from to total h.on_cpu pos lo hi,
        share-eq d.runqueue_nanoseconds from to total h.runqueue pos lo hi,
        share-eq d.timeslices from to total h.timeslices pos lo hi,
      )
      refl
