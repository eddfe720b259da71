-- ===== src/Collector/Accumulator/Observe/Scans.antt =====
-- The parts of Observe that look at a whole snapshot: they return, and the watermark is one of the
-- snapshot's times.
use tsastat.Prelude.{
  ℕ, ◌≤◌, inl, inr, not, Bool-cases, Option-cases, some, List, [], ◌∷◌, arith, leb, Returns-some,
  Returns-bind, Returns-if, ◌>>=◌, All, AllEntries, AllEntries-upsert, AllEntries-lookup, lookup,
  insert, for_each,
}
use tsastat.Clock.{Time, after}
use tsastat.Model.Sample.{ThreadSample, ThreadSnapshot, ThreadIdentity, identity, identity_eq}
use tsastat.Collector.Grid.{Grid, InHorizon, window_index}
use tsastat.Collector.Grid.Bounds.{window_index-eq}
use tsastat.Collector.Accumulator.Windows.{Windows}
use tsastat.Collector.Accumulator.Schedstat.Parts.{SchedstatInRange}
use tsastat.Collector.Accumulator.Delays.Parts.{DelaysInRange}
use tsastat.Collector.Accumulator.Scan.{
  Samples, add_samples, samples_by_identity, normalize_snapshot, normalized_start, earlier,
  record_observation, record_scan, scan_window_indices, spanned_windows,
}
use tsastat.Collector.Accumulator.Observe.{
  sample_end, missing_end, thread_end, observe_thread, watermark_previous, watermark_new,
  watermark_of,
}
use tsastat.Collector.Accumulator.Observe.Returning.{
  Ends, InHorizon-mono, for_each_window-Ends, observe_gap-Ends, observe_disappearance-Ends,
}

-- A reading whose time lies in the horizon and whose counters are 64-bit words.
pub record IsReading (g : Grid) (snapshot : ThreadSnapshot) (s : ThreadSample) : Type 0 where
  pub horizon : InHorizon g (sample_end snapshot s)
  pub schedstat : SchedstatInRange s.schedstat
  pub delays : DelaysInRange s.delays

-- A normal snapshot in the horizon, with readings in range.
pub record IsTimely (g : Grid) (snapshot : ThreadSnapshot) : Type 0 where
  pub horizon : InHorizon g snapshot.finished_at
  pub ordered : snapshot.started_at ≤ snapshot.finished_at
  pub readings : All (IsReading g snapshot) snapshot.samples

-- normalizeSnapshot puts the start before the end.
pub normalize_snapshot_ordered :
    (now : Time) (s : ThreadSnapshot)
    → (normalize_snapshot now s).started_at ≤ (normalize_snapshot now s).finished_at
unfolding normalize_snapshot normalized_start
normalize_snapshot_ordered now s = ground arith

window_index-Ends : (g : Grid) (t : Time) → InHorizon g t → Ends (window_index g t)
window_index-Ends g t h = elim (Bool-cases (after t g.origin)) [
  | inl later ↦
      rw (window_index-eq g t t h (ground (arith, later)) (omega arith)) (Returns-some _ tt)
  | inr early ↦ unfold window_index in rw early (Returns-some _ tt)
]

module _ (g : Grid) (snapshot : ThreadSnapshot) where
  reading_time-InHorizon :
      (s : ThreadSample)
      → InHorizon g snapshot.finished_at
      → IsReading g snapshot s
      → InHorizon g s.timestamp
  reading_time-InHorizon s h r = record {
    positive = h.positive;
    room = ground (arith, h.room, r.horizon.room);
  }

  record_observation-Ends :
      (s : ThreadSample) (ws : Windows)
      → InHorizon g snapshot.finished_at
      → IsReading g snapshot s
      → Ends (record_observation g s ws)
  unfolding record_observation
  record_observation-Ends s ws h r =
      Returns-if (leb g.origin s.timestamp) _ _
        (λ _.
          Returns-bind (window_index g s.timestamp) _
            (window_index-Ends g s.timestamp (reading_time-InHorizon s h r))
            λ index _. Returns-some _ tt)
        (λ _. Returns-some _ tt)

  pub record_observations-Ends :
      (samples : List ThreadSample) (ws : Windows)
      → InHorizon g snapshot.finished_at
      → All (IsReading g snapshot) samples
      → Ends (for_each samples (record_observation g) ws)
  unfolding for_each
  record_observations-Ends [] ws h r = Returns-some ws tt
  record_observations-Ends (s ∷ samples) ws h r =
      Returns-bind (record_observation g s ws) _ (record_observation-Ends s ws h r.0)
        λ ws' _. record_observations-Ends samples ws' h r.1

  pub record_scan-Ends :
      (ws : Windows) → InHorizon g snapshot.finished_at → Ends (record_scan g snapshot ws)
  unfolding record_scan scan_window_indices spanned_windows
  record_scan-Ends ws h = Returns-bind _ _ indices λ found _. Returns-some _ tt
    where
      last : Ends (do index ← window_index g snapshot.finished_at; some (index ∷ []))
      last =
          Returns-bind (window_index g snapshot.finished_at) _
            (window_index-Ends g snapshot.finished_at h) λ index _. Returns-some _ tt

      pick :
          (found : List ℕ)
          → Ends (elim found [
            | [] ↦ do index ← window_index g snapshot.finished_at; some (index ∷ [])
            | index ∷ rest ↦ some (index ∷ rest)
          ])
      pick [] = last
      pick (index ∷ rest) = Returns-some _ tt

      indices : Ends (scan_window_indices g snapshot.started_at snapshot.finished_at)
      indices =
          Returns-if (not (after snapshot.finished_at g.origin)) _ _ (λ _. Returns-some _ tt)
            λ _.
              Returns-if (not (after snapshot.finished_at snapshot.started_at)) _ _ (λ _. last)
                λ _.
                  Returns-bind _ _
                    (for_each_window-Ends g snapshot.started_at snapshot.finished_at _ [] h
                      λ index from to s piece low. Returns-some _ tt)
                    λ found _. pick found

add_samples-AllEntries :
    (P : ThreadSample → Type 0) (samples : List ThreadSample) (m : Samples)
    → All P samples
    → AllEntries (λ _ s. P s) m
    → AllEntries (λ _ s. P s) (add_samples samples m)
unfolding add_samples insert
add_samples-AllEntries P [] m h k = k
add_samples-AllEntries P (s ∷ samples) m h k =
    add_samples-AllEntries P samples (insert (identity s) s m) h.1
      (AllEntries-upsert (λ _ s'. P s') (identity s) (λ _. s) m h.0 (λ _ _. h.0) k)

pub samples_by_identity-AllEntries :
    (P : ThreadSample → Type 0) (samples : List ThreadSample)
    → All P samples
    → AllEntries (λ _ s. P s) (samples_by_identity samples)
unfolding samples_by_identity
samples_by_identity-AllEntries P samples h = add_samples-AllEntries P samples [] h tt

module _ (g : Grid) (snapshot : ThreadSnapshot) (timely : IsTimely g snapshot) (current : Samples)
    (readings : AllEntries (λ _ s. IsReading g snapshot s) current) where
  missing_end-InHorizon : InHorizon g (missing_end snapshot)
  missing_end-InHorizon =
      InHorizon-mono g (missing_end snapshot) snapshot.finished_at (ground (arith, timely.ordered))
        timely.horizon

  pub observe_thread-Ends :
      (entry : ThreadIdentity × ThreadSample) (ws : Windows)
      → Ends (observe_thread g snapshot current entry ws)
  unfolding observe_thread
  observe_thread-Ends (key, previous) ws = elim (Option-cases (lookup key current)) [
    | inl gone ↦
        rw (gone, observe_thread)
          (observe_disappearance-Ends g previous (missing_end snapshot) missing_end-InHorizon ws)
    | inr (s, found) ↦
        let r = AllEntries-lookup (λ _ s'. IsReading g snapshot s') key current s readings found in
        rw (found, observe_thread)
          (observe_gap-Ends g previous (sample_end snapshot s) r.horizon s ws r.schedstat r.delays)
  ]

  earlier-InHorizon : (s t : Time) → InHorizon g s → InHorizon g t → InHorizon g (earlier s t)
  unfolding earlier
  earlier-InHorizon s t hs ht = record {
    positive = hs.positive;
    room = ground (arith, hs.room, ht.room);
  }

  thread_end-InHorizon : (key : ThreadIdentity) → InHorizon g (thread_end snapshot current key)
  unfolding thread_end
  thread_end-InHorizon key = elim (Option-cases (lookup key current)) [
    | inl gone ↦ rw (gone, thread_end) missing_end-InHorizon
    | inr (s, found) ↦
        rw (found, thread_end)
          (AllEntries-lookup (λ _ s'. IsReading g snapshot s') key current s readings found).horizon
  ]

  watermark_previous-InHorizon :
      (previous : Samples) (t : Time)
      → InHorizon g t
      → InHorizon g (watermark_previous snapshot current previous t)
  unfolding watermark_previous
  watermark_previous-InHorizon [] t h = h
  watermark_previous-InHorizon ((key, s) ∷ previous) t h =
      watermark_previous-InHorizon previous _ (earlier-InHorizon t _ h (thread_end-InHorizon key))

watermark_new-InHorizon :
    (g : Grid) (snapshot : ThreadSnapshot) (timely : IsTimely g snapshot) (previous : Samples)
    (current : Samples) (t : Time)
    → AllEntries (λ _ s. IsReading g snapshot s) current
    → InHorizon g t
    → InHorizon g (watermark_new snapshot previous current t)
unfolding watermark_new
watermark_new-InHorizon g snapshot timely previous [] t readings h = h
watermark_new-InHorizon g snapshot timely previous ((key, s) ∷ current) t readings h =
    watermark_new-InHorizon g snapshot timely previous current _ readings.1
      (elim (Option-cases (lookup key previous)) [
        | inl new ↦ rw new (
            earlier-InHorizon g snapshot timely current readings.1 t (sample_end snapshot s) h
              readings.0.horizon)
        | inr (old, known) ↦ rw known h
      ])

-- The watermark of a snapshot lies in the horizon.
pub watermark_of-InHorizon :
    (g : Grid) (snapshot : ThreadSnapshot) (previous current : Samples)
    → IsTimely g snapshot
    → AllEntries (λ _ s. IsReading g snapshot s) current
    → InHorizon g (watermark_of snapshot previous current)
unfolding watermark_of
watermark_of-InHorizon g snapshot previous current timely readings =
    watermark_new-InHorizon g snapshot timely previous current _ readings (
      watermark_previous-InHorizon g snapshot timely current readings previous snapshot.finished_at
        timely.horizon)
