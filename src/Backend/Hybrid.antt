-- ===== src/Backend/Hybrid.antt =====
-- internal/backend/hybrid/hybrid.go: the backend that combines taskstats and procfs snapshots, falls
-- back to procfs, and tells which sources are in use. What a source answers is an argument of the
-- call. The mutex is left out, as is the Close of a source that is given up.
pub mod Sources
pub mod Tests
use tsastat.Prelude.{
  ℕ, ◌+◌, ◌-◌, String, Bool, true, false, not, ◌&&◌, ◌||◌, Option, none, some, List, [], ◌∷◌, ◌++◌,
  map, ltb, nat_beq, if◌then◌else◌, string_eq, Assoc, lookup, insert, delete, sort_slice,
}
use tsastat.Clock.{Time, is_zero, before, after, time_sub, time_add, half}
use tsastat.Model.Sample.{ThreadSample, ThreadSnapshot, identity, identity_eq}
use tsastat.Model.Sources.{
  Failure, process_not_found, canceled, deadline_exceeded, other, Reply, taken, failed,
}
use tsastat.Collector.Accumulator.Scan.{Samples, samples_by_identity}

-- A set of source names.
abbrev pub SourceSet : Type 0
SourceSet = Assoc String Bool

pub record Backend : Type 0 where
  pub has_taskstats : Bool
  pub taskstats_disabled : Bool
  pub active : SourceSet
  pub unavailable : SourceSet

unfoldable pub is_target_error : Failure → Bool
is_target_error process_not_found = true
is_target_error canceled = true
is_target_error deadline_exceeded = true
is_target_error other = false

unfoldable pub mark_active : String → Backend → Backend
mark_active source b = record b {
  active = insert source true b.active;
  unavailable = delete source b.unavailable;
}

unfoldable pub mark_unavailable : String → Backend → Backend
mark_unavailable source b = record b {
  active = delete source b.active;
  unavailable = insert source true b.unavailable;
}

unfoldable pub disable_taskstats : Backend → Backend
disable_taskstats b = record b {
  taskstats_disabled = true;
  active = delete "taskstats" b.active;
  unavailable = insert "taskstats" true b.unavailable;
}

-- newWithSources, and New, whose taskstats source may fail to open.
unfoldable pub new_with_sources : Bool → Backend
new_with_sources has_taskstats = record {
  has_taskstats = has_taskstats;
  taskstats_disabled = false;
  active = [];
  unavailable = [];
}

unfoldable pub new_backend : Bool → Backend
new_backend opened =
    if opened
    then new_with_sources true
    else mark_unavailable "taskstats"
        (record (new_with_sources false) { taskstats_disabled = true })

-- OpenSchedulerEvents: the stream opened, or not.
unfoldable pub open_scheduler_events : Bool → Backend → Backend
open_scheduler_events opened b =
    if opened then mark_active "proc" (mark_active "ebpf" b) else mark_unavailable "ebpf" b

unfoldable pub midpoint_timestamp : Time → Time → Time
midpoint_timestamp left right =
    if is_zero left
    then right
    else if is_zero right
    then left
    else if before right left
    then time_add right (half (time_sub left right))
    else time_add left (half (time_sub right left))

unfoldable pub earlier_timestamp : Time → Time → Time
earlier_timestamp left right =
    if is_zero left || (not (is_zero right) && before right left) then right else left

unfoldable pub later_timestamp : Time → Time → Time
later_timestamp left right = if after right left then right else left

-- The loop over the procfs samples; a taskstats sample is merged once.
unfoldable pub merge_samples : List ThreadSample → Samples → List ThreadSample × Samples
merge_samples [] stats = ([], stats)
merge_samples (sample ∷ samples) stats = elim (lookup (identity sample) stats) [
  | none ↦ let rest = merge_samples samples stats in (sample ∷ rest.0, rest.1)
  | some found ↦
      let rest = merge_samples samples (delete (identity sample) stats) in
      (
        record sample {
          delays = found.delays;
          timestamp = midpoint_timestamp found.timestamp sample.timestamp;
        }
            ∷ rest.0,
        rest.1,
      )
]

unfoldable pub sample_less : ThreadSample → ThreadSample → Bool
sample_less a b =
    if not (nat_beq a.tid b.tid) then ltb a.tid b.tid else ltb a.start_time_ticks b.start_time_ticks

unfoldable pub merge_snapshots : ThreadSnapshot → ThreadSnapshot → ThreadSnapshot
merge_snapshots stats proc =
    let merged = merge_samples proc.samples (samples_by_identity stats.samples) in
    record {
      samples = sort_slice sample_less (merged.0 ++ map (λ entry. entry.1) merged.1);
      started_at = earlier_timestamp stats.started_at proc.started_at;
      finished_at = later_timestamp stats.finished_at proc.finished_at;
      sampling_method = "hybrid_taskstats_procfs_midpoint";
    }

-- The procfs snapshot alone.
unfoldable pub proc_snapshot : Reply → Backend → Backend × Reply
proc_snapshot (failed e) b = (b, failed e)
proc_snapshot (taken proc) b =
    (mark_active "proc" b, taken (record proc { sampling_method = "procfs_midpoint" }))

unfoldable pub merged_snapshot : ThreadSnapshot → Reply → Backend → Backend × Reply
merged_snapshot stats (failed e) b = (b, failed e)
merged_snapshot stats (taken proc) b =
    (mark_active "proc" (mark_active "taskstats" b), taken (merge_snapshots stats proc))

unfoldable pub taskstats_snapshot : Reply → Reply → Backend → Backend × Reply
taskstats_snapshot (taken stats) proc b = merged_snapshot stats proc b
taskstats_snapshot (failed e) proc b =
    if is_target_error e then (b, failed e) else proc_snapshot proc (disable_taskstats b)

-- (*Backend).Snapshot
unfoldable pub snapshot : Reply → Reply → Backend → Backend × Reply
snapshot taskstats proc b =
    if not b.taskstats_disabled && b.has_taskstats
    then taskstats_snapshot taskstats proc b
    else proc_snapshot proc b
