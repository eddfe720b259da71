-- ===== src/Collector/EventAccumulator/Windows.antt =====
-- The windows of the event accumulator: its accessors `window` and `threadStats`, the time that a
-- track spends in a state, and the counts that an event makes.
use tsastat.Prelude.{
  ℕ, ◌+◌, String, true, ◌||◌, not, Option, none, some, [], ltb, if◌then◌else◌, nat_eq, upsert,
  ◌>>=◌, add64,
}
use tsastat.Clock.{Time, Duration, after, before, is_zero, time_sub, time_add}
use tsastat.Model.State.{ThreadState}
use tsastat.Model.Scheduler.{SchedulerState, SchedulerEventKind, SchedulerEvent}
use tsastat.Model.Sample.{identity_eq}
use tsastat.Model.Stats.{
  ThreadIntervalStats, IntervalQuality, empty_stats, empty_quality, add_duration,
}
use tsastat.Collector.Grid.{Grid, Visitor, walk, window_index, window_start}
use tsastat.Collector.Accumulator.Windows.{IntervalWindow, Windows, Write, rename_thread}
use tsastat.Collector.Accumulator.Schedstat.{longest}
use tsastat.Collector.EventAccumulator.Track.{SchedulerTrack, track_identity}

abbrev pub ebpf_sampling_method : String
ebpf_sampling_method = "ebpf_sched_events"

unfoldable pub new_event_window : IntervalWindow
new_event_window = record {
  stats = [];
  quality = record empty_quality {
    sampling_method = ebpf_sampling_method;
    scheduler_event_timeline = true;
  };
}

abbrev pub or_new_event_window : Option IntervalWindow → IntervalWindow
or_new_event_window none = new_event_window
or_new_event_window (some w) = w

-- (*EventAccumulator).window
unfoldable pub with_event_window : ℕ → (IntervalWindow → IntervalWindow) → Windows → Windows
with_event_window index write = upsert index (λ found. write (or_new_event_window found))

unfoldable pub new_track_stats : Grid → ℕ → SchedulerTrack → ThreadIntervalStats
new_track_stats g index track =
    let start = window_start g index in
    record empty_stats {
      pid = track.pid;
      tid = track.tid;
      start_time_ticks = track.start_time_ticks;
      start_time_nanoseconds = track.start_time_nanoseconds;
      comm = track.comm;
      interval_start = start;
      interval_end = time_add start g.interval;
      scheduler_source = ebpf_sampling_method;
    }

abbrev pub or_new_track_stats :
    Grid → ℕ → SchedulerTrack → Option ThreadIntervalStats → ThreadIntervalStats
or_new_track_stats g index track none = new_track_stats g index track
or_new_track_stats g index track (some stat) = stat

-- (*EventAccumulator).threadStats
unfoldable pub with_track_stats : Grid → ℕ → SchedulerTrack → Write → Windows → Windows
with_track_stats g index track write = with_event_window index λ w. record w {
  stats =
      upsert (track_identity track)
        (λ found. write (rename_thread track.comm (or_new_track_stats g index track found)))
        w.stats;
}

-- The thread state under which a scheduler state is reported.
unfoldable pub reported_state : SchedulerState → ThreadState
reported_state SchedulerState.on_cpu = ThreadState.running
reported_state SchedulerState.runnable = ThreadState.running
reported_state SchedulerState.sleeping = ThreadState.sleeping
reported_state SchedulerState.uninterruptible = ThreadState.uninterruptible
reported_state SchedulerState.stopped = ThreadState.stopped
reported_state SchedulerState.tracing_stop = ThreadState.tracing_stop
reported_state SchedulerState.idle = ThreadState.idle
reported_state SchedulerState.dead = ThreadState.dead
reported_state SchedulerState.unknown = ThreadState.unknown

-- The counters beside the state times that the `switch` adds to.
unfoldable pub add_cpu_time : SchedulerState → Duration → ThreadIntervalStats → ThreadIntervalStats
add_cpu_time SchedulerState.on_cpu delta stat = record stat { on_cpu = add64 stat.on_cpu delta }
add_cpu_time SchedulerState.runnable delta stat = record stat {
  runqueue_wait = add64 stat.runqueue_wait delta;
}
add_cpu_time _ delta stat = stat

unfoldable pub add_track_time :
    SchedulerState → Duration → ThreadIntervalStats → ThreadIntervalStats
add_track_time state delta stat =
    let observed = record stat {
      total_observed = add64 stat.total_observed delta;
      scheduler_observed = add64 stat.scheduler_observed delta;
      durations = add_duration (reported_state state) delta stat.durations;
    } in
    add_cpu_time state delta observed

unfoldable pub track_visitor : Grid → SchedulerTrack → Visitor Windows
track_visitor g track index overlap_start overlap_end ws = some (
    with_track_stats g index track (add_track_time track.state (time_sub overlap_end overlap_start))
      ws)

-- (*EventAccumulator).forEachWindow
unfoldable pub for_each_event_window {ℓ} :
    {S : Type ℓ} → Grid → Time → Time → Visitor S → S → Option S
for_each_event_window g start end fn s = walk g (λ index. window_start g (index + 1)) fn start end s

unfoldable pub add_track_segment : Grid → SchedulerTrack → Time → Time → Windows → Option Windows
add_track_segment g track start end ws =
    if not (after end start)
    then some ws
    else for_each_event_window g start end (track_visitor g track) ws

unfoldable pub count_event : ThreadIntervalStats → ThreadIntervalStats
count_event stat = record stat { scheduler_event_count = stat.scheduler_event_count + 1 }

unfoldable pub count_incomplete_wakeup : ThreadIntervalStats → ThreadIntervalStats
count_incomplete_wakeup stat = record stat {
  incomplete_wakeup_count = stat.incomplete_wakeup_count + 1;
}

unfoldable pub count_timeslice : ThreadIntervalStats → ThreadIntervalStats
count_timeslice stat = record stat { timeslices = add64 stat.timeslices 1 }

unfoldable pub count_latency : Duration → ThreadIntervalStats → ThreadIntervalStats
count_latency latency stat = record stat {
  wakeup_count = stat.wakeup_count + 1;
  wakeup_latency_total = add64 stat.wakeup_latency_total latency;
  wakeup_latency_max = longest latency stat.wakeup_latency_max;
}

-- What recordEvent writes to the thread's statistics.
unfoldable pub note_event : SchedulerTrack → SchedulerEvent → SchedulerEventKind → Write
note_event track event SchedulerEventKind.wakeup stat = count_event stat
note_event track event SchedulerEventKind.switch_out stat =
    if not (is_zero track.wakeup_at)
    then count_incomplete_wakeup (count_event stat)
    else count_event stat
note_event track event SchedulerEventKind.switch_in stat =
    let counted = count_timeslice (count_event stat) in
    if is_zero track.wakeup_at || before event.timestamp track.wakeup_at
    then counted
    else count_latency (time_sub event.timestamp track.wakeup_at) counted

-- What recordEvent writes to the window's quality.
unfoldable pub note_event_quality :
    SchedulerTrack → SchedulerEventKind → IntervalQuality → IntervalQuality
note_event_quality track SchedulerEventKind.switch_out q = record q {
  scheduler_event_count = q.scheduler_event_count + 1;
  scheduler_incomplete_wakeups =
      if not (is_zero track.wakeup_at)
      then q.scheduler_incomplete_wakeups + 1
      else q.scheduler_incomplete_wakeups;
}
note_event_quality track kind q = record q { scheduler_event_count = q.scheduler_event_count + 1 }

unfoldable pub record_event : Grid → SchedulerTrack → SchedulerEvent → Windows → Option Windows
record_event g track event ws = do
  index ← window_index g event.timestamp
  some (
      with_event_window index
        (λ w. record w { quality = note_event_quality track event.kind w.quality })
        (with_track_stats g index track (note_event track event event.kind) ws))

unfoldable pub count_late_event : IntervalWindow → IntervalWindow
count_late_event w = record w {
  quality = record w.quality { scheduler_late_events = w.quality.scheduler_late_events + 1 };
}

-- recordLateEvent: in the window that is open now.
unfoldable pub record_late_event : Grid → Windows → Windows
record_late_event g = with_event_window g.next_window count_late_event

unfoldable pub count_race : IntervalWindow → IntervalWindow
count_race w = record w {
  quality = record w.quality { initialization_races = w.quality.initialization_races + 1 };
}

-- recordInitializationRace: in the window of `at`, or the first one that is still open.
unfoldable pub race_window : Grid → Time → Option ℕ
race_window g at = if before at g.origin then some g.next_window else (do
  index ← window_index g at
  some (if ltb index g.next_window then g.next_window else index))

unfoldable pub record_initialization_race : Grid → Time → Windows → Option Windows
record_initialization_race g at ws = do
  index ← race_window g at
  some (with_event_window index count_race ws)
