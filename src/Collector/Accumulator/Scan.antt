-- ===== src/Collector/Accumulator/Scan.antt =====
-- The bookkeeping of one snapshot: its times, its scan of the windows, its observations.
use tsastat.Prelude.{
  ℕ, ◌+◌, String, ◌||◌, ◌&&◌, not, Option, some, List, [], ◌∷◌, ◌++◌, ltb, leb, if◌then◌else◌,
  ◌>>=◌, ◌==◌, string_eq, Assoc, insert,
}
use tsastat.Clock.{Time, Duration, zero_time, is_zero, is_negative, after, before, time_sub}
use tsastat.Model.Sample.{ThreadSample, ThreadSnapshot, ThreadIdentity, identity, identity_eq}
use tsastat.Model.Stats.{ThreadIntervalStats}
use tsastat.Collector.Grid.{Grid, window_index, for_each_window}
use tsastat.Collector.Accumulator.Windows.{Windows, IntervalWindow, with_window, with_thread_stats}
use tsastat.Collector.Accumulator.Schedstat.{longest}

abbrev pub Samples : Type 0
Samples = Assoc ThreadIdentity ThreadSample

-- `for … { current[sample.Identity()] = sample }`: the last reading of a thread counts.
unfoldable pub add_samples : List ThreadSample → Samples → Samples
add_samples [] current = current
add_samples (sample ∷ samples) current =
    add_samples samples (insert (identity sample) sample current)

unfoldable pub samples_by_identity : List ThreadSample → Samples
samples_by_identity samples = add_samples samples []

unfoldable pub first_from : Time → List ThreadSample → Time
first_from first [] = first
first_from first (sample ∷ samples) =
    first_from
      (if is_zero sample.timestamp
        then first
        else if is_zero first || before sample.timestamp first
        then sample.timestamp
        else first)
      samples

unfoldable pub first_sample_time : List ThreadSample → Time
first_sample_time = first_from zero_time

unfoldable pub last_from : Time → List ThreadSample → Time
last_from last [] = last
last_from last (sample ∷ samples) =
    last_from (if after sample.timestamp last then sample.timestamp else last) samples

unfoldable pub last_sample_time : List ThreadSample → Time
last_sample_time = last_from zero_time

-- The times of normalizeSnapshot, in the order of its assignments; `now` is time.Now().
unfoldable pub normalized_finish : Time → ThreadSnapshot → Time
normalized_finish now s =
    let finished = if is_zero s.finished_at then last_sample_time s.samples else s.finished_at in
    if is_zero finished then now else finished

unfoldable pub normalized_start : Time → ThreadSnapshot → Time
normalized_start now s =
    let started = if is_zero s.started_at then first_sample_time s.samples else s.started_at in
    let finished = normalized_finish now s in
    if is_zero started || before finished started then finished else started

unfoldable pub normalize_snapshot : Time → ThreadSnapshot → ThreadSnapshot
normalize_snapshot now s = record s {
  started_at = normalized_start now s;
  finished_at = normalized_finish now s;
}

unfoldable pub earlier : Time → Time → Time
earlier left right =
    if is_zero left || (not (is_zero right) && before right left) then right else left

unfoldable pub count_sample : ThreadIntervalStats → ThreadIntervalStats
count_sample stat = record stat { sample_count = stat.sample_count + 1 }

unfoldable pub record_observation_at : Grid → ThreadSample → ℕ → Windows → Windows
record_observation_at g sample index ws =
    if ltb index g.next_window then ws else with_thread_stats g index sample count_sample ws

unfoldable pub record_observation : Grid → ThreadSample → Windows → Option Windows
record_observation g sample ws =
    if leb g.origin sample.timestamp
    then (do
      index ← window_index g sample.timestamp
      some (record_observation_at g sample index ws))
    else some (record_observation_at g sample 0 ws)

unfoldable pub spanned_windows : Grid → Time → Time → Option (List ℕ)
spanned_windows g start end =
    for_each_window g start end (λ index _ _ indices. some (indices ++ index ∷ [])) []

unfoldable pub scan_window_indices : Grid → Time → Time → Option (List ℕ)
scan_window_indices g start end =
    if not (after end g.origin)
    then some (0 ∷ [])
    else if not (after end start)
    then (do index ← window_index g end; some (index ∷ []))
    else do
      indices ← spanned_windows g start end
      elim indices [
        | [] ↦ do index ← window_index g end; some (index ∷ [])
        | index ∷ rest ↦ some (index ∷ rest)
      ]

unfoldable pub note_scan : String → Duration → IntervalWindow → IntervalWindow
note_scan method duration w = record w {
  quality = record w.quality {
    sampling_method = if method == "" then w.quality.sampling_method else method;
    snapshot_count = w.quality.snapshot_count + 1;
    max_scan_duration = longest duration w.quality.max_scan_duration;
  };
}

unfoldable pub note_scans : Grid → String → Duration → List ℕ → Windows → Windows
note_scans g method duration [] ws = ws
note_scans g method duration (index ∷ indices) ws =
    note_scans g method duration indices
      (if ltb index g.next_window then ws else with_window index (note_scan method duration) ws)

unfoldable pub scan_duration : ThreadSnapshot → Duration
scan_duration snapshot =
    let duration = time_sub snapshot.finished_at snapshot.started_at in
    if is_negative duration then 0 else duration

unfoldable pub record_scan : Grid → ThreadSnapshot → Windows → Option Windows
record_scan g snapshot ws = do
  indices ← scan_window_indices g snapshot.started_at snapshot.finished_at
  some (note_scans g snapshot.sampling_method (scan_duration snapshot) indices ws)
