-- ===== src/Collector/Accumulator/Observe.antt =====
-- NewAccumulator, NewAccumulatorAt and Observe.
pub mod Returning
pub mod Scans
pub mod Runs
use tsastat.Prelude.{
  Bool, true, false, not, Option, none, some, List, [], ◌∷◌, if◌then◌else◌, ◌>>=◌, lookup, for_each,
}
use tsastat.Clock.{Time, Duration, is_zero, zero_time}
use tsastat.Model.Sample.{ThreadSample, ThreadSnapshot, ThreadIdentity, identity_eq}
use tsastat.Model.Stats.{IntervalReport}
use tsastat.Collector.Grid.{Grid}
use tsastat.Collector.Accumulator.Windows.{Windows}
use tsastat.Collector.Accumulator.Gaps.{observe_gap, observe_disappearance}
use tsastat.Collector.Accumulator.Scan.{
  Samples, samples_by_identity, normalize_snapshot, earlier, record_observation,
  record_observation_at, record_scan,
}
use tsastat.Collector.Accumulator.Finalize.{finalize_through}

pub record Accumulator : Type 0 where
  pub grid : Grid
  pub open grid use *
  pub fixed_origin : Bool
  pub initialized : Bool
  pub previous : Samples
  pub windows : Windows

unfoldable pub new_accumulator : Duration → Accumulator
new_accumulator interval = record {
  grid = record { origin = zero_time; interval = interval; next_window = 0 };
  fixed_origin = false;
  initialized = false;
  previous = [];
  windows = [];
}

unfoldable pub new_accumulator_at : Duration → Time → Accumulator
new_accumulator_at interval origin =
    let acc = new_accumulator interval in
    record acc { grid = record acc.grid { origin = origin }; fixed_origin = true }

-- A sample without a time of its own was taken when the scan ended.
abbrev pub sample_end : ThreadSnapshot → ThreadSample → Time
sample_end snapshot sample =
    if is_zero sample.timestamp then snapshot.finished_at else sample.timestamp

-- A thread that is missing was gone when the scan began.
abbrev pub missing_end : ThreadSnapshot → Time
missing_end snapshot =
    if is_zero snapshot.started_at then snapshot.finished_at else snapshot.started_at

-- What Observe's loop does with one entry of `previous`, and the time that it is then known to.
unfoldable pub thread_end : ThreadSnapshot → Samples → ThreadIdentity → Time
thread_end snapshot current key = elim (lookup key current) [
  | some sample ↦ sample_end snapshot sample
  | none ↦ missing_end snapshot
]

unfoldable pub observe_thread :
    Grid → ThreadSnapshot → Samples → ThreadIdentity × ThreadSample → Windows → Option Windows
observe_thread g snapshot current (key, previous) ws = elim (lookup key current) [
  | some sample ↦ observe_gap g previous sample (sample_end snapshot sample) ws
  | none ↦ observe_disappearance g previous (missing_end snapshot) ws
]

-- The watermark after the loop over `previous`, and after the loop over the new threads.
unfoldable pub watermark_previous : ThreadSnapshot → Samples → Samples → Time → Time
watermark_previous snapshot current [] watermark = watermark
watermark_previous snapshot current ((key, sample) ∷ rest) watermark =
    watermark_previous snapshot current rest (earlier watermark (thread_end snapshot current key))

unfoldable pub watermark_new : ThreadSnapshot → Samples → Samples → Time → Time
watermark_new snapshot previous [] watermark = watermark
watermark_new snapshot previous ((key, sample) ∷ rest) watermark =
    watermark_new snapshot previous rest (elim (lookup key previous) [
      | some existed ↦ watermark
      | none ↦ earlier watermark (sample_end snapshot sample)
    ])

unfoldable pub watermark_of : ThreadSnapshot → Samples → Samples → Time
watermark_of snapshot previous current =
    watermark_new snapshot previous current
      (watermark_previous snapshot current previous snapshot.finished_at)

unfoldable pub count_first : Grid → List ThreadSample → Windows → Windows
count_first g [] ws = ws
count_first g (sample ∷ samples) ws = count_first g samples (record_observation_at g sample 0 ws)

-- The first snapshot sets the baseline, and the origin unless that is fixed.
unfoldable pub observe_first :
    Accumulator → ThreadSnapshot → Option (Accumulator × List IntervalReport)
observe_first a snapshot =
    let g = record a.grid { origin = if a.fixed_origin then a.origin else snapshot.finished_at } in
    do
      ws ← record_scan g snapshot a.windows
      some (
        record a {
          grid = g;
          initialized = true;
          previous = samples_by_identity snapshot.samples;
          windows = count_first g snapshot.samples ws;
        },
        [],
      )

unfoldable pub observe_next :
    Accumulator → ThreadSnapshot → Option (Accumulator × List IntervalReport)
observe_next a snapshot =
    let current = samples_by_identity snapshot.samples in
    do
      ws₁ ← record_scan a.grid snapshot a.windows
      ws₂ ← for_each snapshot.samples (record_observation a.grid) ws₁
      ws₃ ← for_each a.previous (observe_thread a.grid snapshot current) ws₂
      done ← finalize_through a.initialized (watermark_of snapshot a.previous current) a.grid ws₃
      some (record a { grid = done.grid; previous = current; windows = done.windows }, done.reports)

-- (*Accumulator).Observe
unfoldable pub observe :
    Time → Accumulator → ThreadSnapshot → Option (Accumulator × List IntervalReport)
observe now a snapshot =
    let normal = normalize_snapshot now snapshot in
    if not a.initialized then observe_first a normal else observe_next a normal
