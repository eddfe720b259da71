-- ===== src/Collector/EventAccumulator/Invariant.antt =====
-- What holds of the event accumulator's open windows after every call: no reported window comes
-- back, and the figures of each thread agree with one another.
pub mod Keeps
pub mod Observe
pub mod Advance
use tsastat.Prelude.{
  ℕ, ◌+◌, ◌-◌, ◌*◌, ◌%◌, ◌≤◌, ◌<◌, ◌≡◌, refl, ap, sym, Bool, true, false, not, ◌&&◌, ◌||◌, inl, inr,
  Bool-cases, Option, none, some, List, [], ◌∷◌, arith, ltb, leb, word, add64, SameWord, Returns,
  Returns-some, Returns-bind, Returns-if, Returns-weaken, ◌>>=◌, if◌then◌else◌, AllEntries,
  AllEntries-upsert, nat_eq, upsert,
}
use tsastat.Clock.{Time, Duration, is_zero, before, after, time_sub}
use tsastat.Model.State.{ThreadState}
use tsastat.Model.Scheduler.{SchedulerState, SchedulerEventKind, SchedulerEvent}
use tsastat.Model.Sample.{identity_eq}
use tsastat.Model.Stats.{ThreadIntervalStats, add_duration}
use tsastat.Collector.Grid.{Grid, InHorizon, Piece, clip, walk, window_index}
use tsastat.Collector.Grid.Bounds.{
  window_start-EndsWindows, window_index-eq, index_of, index_of_bounds,
}
use tsastat.Collector.Grid.Walk.{walk_keeps}
use tsastat.Collector.Accumulator.Windows.{Windows, IntervalWindow, Stats, Write, rename_thread}
use tsastat.Collector.EventAccumulator.Track.{SchedulerTrack, track_identity}
use tsastat.Collector.EventAccumulator.Windows.{
  new_event_window, with_event_window, or_new_event_window, new_track_stats, or_new_track_stats,
  with_track_stats, reported_state, add_cpu_time, add_track_time, track_visitor,
  for_each_event_window, add_track_segment, note_event, count_event, count_incomplete_wakeup,
  count_timeslice, count_latency, record_event, record_late_event, count_late_event,
  record_initialization_race, race_window, count_race,
}

-- The sum of the nine state times.
abbrev pub time_in_states : (ThreadState → Duration) → ℕ
time_in_states d =
    d ThreadState.running
    + d ThreadState.sleeping
    + d ThreadState.uninterruptible
    + d ThreadState.stopped
    + d ThreadState.tracing_stop
    + d ThreadState.zombie
    + d ThreadState.dead
    + d ThreadState.idle
    + d ThreadState.unknown

-- The figures of one thread in one window agree: the observed time is the scheduler's and is the sum
-- of the state times; the running time is on-CPU time and runqueue wait; a wakeup, completed or not,
-- is an event.
pub record IsConsistent (s : ThreadIntervalStats) : Type 0 where
  pub scheduler : SameWord s.scheduler_observed s.total_observed
  pub states : SameWord s.total_observed (time_in_states s.durations)
  pub running : SameWord (s.durations ThreadState.running) (s.on_cpu + s.runqueue_wait)
  pub wakeups : s.wakeup_count + s.incomplete_wakeup_count ≤ s.scheduler_event_count

new_track_stats-IsConsistent :
    (g : Grid) (index : ℕ) (track : SchedulerTrack) → IsConsistent (new_track_stats g index track)
unfolding new_track_stats
new_track_stats-IsConsistent g index track = omega arith

rename_thread-IsConsistent :
    (comm : _) (s : ThreadIntervalStats) → IsConsistent s → IsConsistent (rename_thread comm s)
unfolding rename_thread
rename_thread-IsConsistent comm s c = ground arith

add_track_time-IsConsistent :
    (state : SchedulerState) (delta : Duration) (s : ThreadIntervalStats)
    → IsConsistent s
    → IsConsistent (add_track_time state delta s)
unfolding add_track_time add_cpu_time reported_state add_duration
add_track_time-IsConsistent SchedulerState.on_cpu delta s c = omega (arith, c)
add_track_time-IsConsistent _ delta s c = omega (arith, c)

note_event-IsConsistent :
    (track : SchedulerTrack) (event : SchedulerEvent) (kind : SchedulerEventKind)
    (s : ThreadIntervalStats)
    → IsConsistent s
    → IsConsistent (note_event track event kind s)
unfolding note_event count_event count_incomplete_wakeup count_timeslice count_latency
note_event-IsConsistent track event SchedulerEventKind.wakeup s c = ground arith
note_event-IsConsistent track event _ s c = ground arith

-- No window is one that has been reported, and each thread's figures agree.
abbrev pub IsGoodWindow : Grid → ℕ → IntervalWindow → Type 0
IsGoodWindow g index w = (g.next_window ≤ index) × AllEntries (λ _ s. IsConsistent s) w.stats

abbrev pub IsGood : Grid → Windows → Type 0
IsGood g ws = AllEntries (IsGoodWindow g) ws

pub with_event_window-IsGood :
    (g : Grid) (index : ℕ) (write : IntervalWindow → IntervalWindow) (ws : Windows)
    → g.next_window ≤ index
    → ((w : IntervalWindow)
        → AllEntries (λ _ s. IsConsistent s) w.stats
        → AllEntries (λ _ s. IsConsistent s) (write w).stats)
    → IsGood g ws
    → IsGood g (with_event_window index write ws)
unfolding with_event_window new_event_window
with_event_window-IsGood g index write ws open_window keep good =
    AllEntries-upsert (IsGoodWindow g) index (λ found. write (or_new_event_window found)) ws
      (open_window, keep new_event_window tt) (λ w h. (h.0, keep w h.1)) good

pub with_track_stats-IsGood :
    (g : Grid) (index : ℕ) (track : SchedulerTrack) (write : Write) (ws : Windows)
    → g.next_window ≤ index
    → ((s : ThreadIntervalStats) → IsConsistent s → IsConsistent (write s))
    → IsGood g ws
    → IsGood g (with_track_stats g index track write ws)
unfolding with_track_stats
with_track_stats-IsGood g index track write ws open_window keep =
    with_event_window-IsGood g index _ ws open_window λ w.
      AllEntries-upsert (λ _ s. IsConsistent s) (track_identity track)
        (λ found. write (rename_thread track.comm (or_new_track_stats g index track found))) w.stats
        (keep _
          (rename_thread-IsConsistent track.comm _ (new_track_stats-IsConsistent g index track)))
        (λ s h. keep _ (rename_thread-IsConsistent track.comm s h))
