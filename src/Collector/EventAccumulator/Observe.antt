-- ===== src/Collector/EventAccumulator/Observe.antt =====
-- NewEventAccumulator, SetClockCalibrationUncertainty and Observe. The code changes a track through
-- its pointer; here the changed track is put back under its task id.
use tsastat.Prelude.{
  ℕ, Bool, true, false, ◌||◌, ◌&&◌, not, Option, none, some, List, [], ◌∷◌, ltb, nat_beq,
  if◌then◌else◌, nat_eq, Assoc, lookup, insert, ◌>>=◌,
}
use tsastat.Clock.{Time, Duration, before, is_zero, is_negative}
use tsastat.Model.Scheduler.{SchedulerEvent}
use tsastat.Model.Sample.{ThreadSample, ThreadSnapshot}
use tsastat.Collector.Grid.{Grid}
use tsastat.Collector.Accumulator.Windows.{Windows}
use tsastat.Collector.Accumulator.Scan.{normalize_snapshot}
use tsastat.Collector.EventAccumulator.Track.{
  SchedulerTrack, seeded_track, discovered_track, refreshed_track, scheduler_identity_changed,
  apply_transition,
}
use tsastat.Collector.EventAccumulator.Windows.{
  add_track_segment, record_event, record_late_event, record_initialization_race,
}

abbrev pub Tracks : Type 0
Tracks = Assoc ℕ SchedulerTrack

pub record EventAccumulator : Type 0 where
  pub grid : Grid
  pub open grid use *
  pub tracks : Tracks
  pub windows : Windows
  pub clock_calibration_uncertainty : Duration
  pub watermark : Time
  pub advanced : Bool

unfoldable pub seed_tracks : Time → List ThreadSample → Tracks → Tracks
seed_tracks origin [] tracks = tracks
seed_tracks origin (sample ∷ samples) tracks =
    seed_tracks origin samples (insert sample.tid (seeded_track origin sample) tracks)

unfoldable pub new_event_accumulator : Time → Duration → ThreadSnapshot → EventAccumulator
new_event_accumulator now interval initial =
    let origin = (normalize_snapshot now initial).finished_at in
    record {
      grid = record { origin = origin; interval = interval; next_window = 0 };
      tracks = seed_tracks origin initial.samples [];
      windows = [];
      clock_calibration_uncertainty = 0;
      watermark = origin;
      advanced = false;
    }

unfoldable pub set_clock_calibration_uncertainty : Duration → EventAccumulator → EventAccumulator
set_clock_calibration_uncertainty uncertainty a =
    if ltb 0 uncertainty && not (is_negative uncertainty)
    then record a { clock_calibration_uncertainty = uncertainty }
    else a

abbrev pub put_track : SchedulerTrack → EventAccumulator → EventAccumulator
put_track track a = record a { tracks = insert track.tid track a.tracks }

-- An event at or after the origin, in order: the time since the last one is booked, then the event.
unfoldable pub observe_in_order :
    SchedulerTrack → SchedulerEvent → EventAccumulator → Option EventAccumulator
observe_in_order track event a = do
  ws₁ ← add_track_segment a.grid track track.since event.timestamp a.windows
  ws₂ ← record_event a.grid track event ws₁
  some (
      put_track
        (record (apply_transition a.origin true event event.kind track) {
          since = event.timestamp;
          last_event = event.timestamp;
        })
        (record a { windows = ws₂ }))

-- An event from before the origin sets the state in which the first window begins.
unfoldable pub observe_before_origin :
    SchedulerTrack → SchedulerEvent → EventAccumulator → Option EventAccumulator
observe_before_origin track event a =
    if before event.timestamp track.last_event
    then (do
      ws ← record_initialization_race a.grid a.origin a.windows
      some (put_track track (record a { windows = ws })))
    else some (
        put_track
          (record (apply_transition a.origin false event event.kind track) {
            since = a.origin;
            last_event = event.timestamp;
          })
          a)

-- What Observe does once the event's track is known.
unfoldable pub observe_track :
    SchedulerTrack → SchedulerEvent → EventAccumulator → Option EventAccumulator
observe_track track event a =
    if before event.timestamp track.seed_at
    then some (put_track track a)
    else if before event.timestamp a.origin
    then observe_before_origin track event a
    else if before event.timestamp track.since || before event.timestamp track.last_event
    then some (put_track track (record a { windows = record_late_event a.grid a.windows }))
    else observe_in_order track event a

-- A task id that another thread has taken over starts a new track.
unfoldable pub observe_known :
    SchedulerTrack → SchedulerEvent → EventAccumulator → Option EventAccumulator
observe_known track event a =
    if scheduler_identity_changed track event
    then (do
      ws ← record_initialization_race a.grid event.timestamp a.windows
      observe_track (discovered_track a.origin event) event (record a { windows = ws }))
    else observe_track (refreshed_track track event) event a

unfoldable pub observe_accepted : SchedulerEvent → EventAccumulator → Option EventAccumulator
observe_accepted event a = elim (lookup event.tid a.tracks) [
  | none ↦ observe_track (discovered_track a.origin event) event a
  | some track ↦ observe_known track event a
]

-- (*EventAccumulator).Observe; task ids are not negative here.
unfoldable pub observe_event : SchedulerEvent → EventAccumulator → Option EventAccumulator
observe_event event a =
    if is_zero event.timestamp || nat_beq event.tid 0
    then some a
    else if a.advanced && before event.timestamp a.watermark
    then some (record a { windows = record_late_event a.grid a.windows })
    else observe_accepted event a
