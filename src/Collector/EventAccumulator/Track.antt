-- ===== src/Collector/EventAccumulator/Track.antt =====
-- schedulerTrack: what is known of one thread, and how an event changes its state.
use tsastat.Prelude.{
  ℕ, String, Bool, true, false, ◌||◌, ◌&&◌, not, ltb, nat_beq, if◌then◌else◌, ◌==◌, string_eq,
}
use tsastat.Clock.{Time, zero_time, after, before, is_zero}
use tsastat.Model.State.{ThreadState}
use tsastat.Model.Scheduler.{
  SchedulerState, SchedulerEventKind, SchedulerEvent, scheduler_state_beq,
}
use tsastat.Model.Sample.{ThreadSample, ThreadIdentity}

pub record SchedulerTrack : Type 0 where
  pub pid : ℕ
  pub tid : ℕ
  pub start_time_ticks : ℕ
  pub start_time_nanoseconds : ℕ
  pub comm : String
  pub state : SchedulerState
  pub since : Time
  pub seed_at : Time
  pub last_event : Time
  pub wakeup_at : Time
  pub alive : Bool

unfoldable pub track_identity : SchedulerTrack → ThreadIdentity
track_identity t = record {
  tid = t.tid;
  start_time_ticks = t.start_time_ticks;
  start_time_nanoseconds = t.start_time_nanoseconds;
}

-- procfs does not tell a task on a CPU from one that waits for it.
unfoldable pub scheduler_state_from_initial_sample : ThreadState → SchedulerState
scheduler_state_from_initial_sample ThreadState.sleeping = SchedulerState.sleeping
scheduler_state_from_initial_sample ThreadState.uninterruptible = SchedulerState.uninterruptible
scheduler_state_from_initial_sample ThreadState.stopped = SchedulerState.stopped
scheduler_state_from_initial_sample ThreadState.tracing_stop = SchedulerState.tracing_stop
scheduler_state_from_initial_sample ThreadState.idle = SchedulerState.idle
scheduler_state_from_initial_sample ThreadState.dead = SchedulerState.dead
scheduler_state_from_initial_sample ThreadState.zombie = SchedulerState.dead
scheduler_state_from_initial_sample _ = SchedulerState.unknown

-- The track of a thread that the first scan found.
unfoldable pub seeded_track : Time → ThreadSample → SchedulerTrack
seeded_track origin sample =
    let seed_at = if is_zero sample.timestamp then origin else sample.timestamp in
    record {
      pid = sample.pid;
      tid = sample.tid;
      start_time_ticks = sample.start_time_ticks;
      start_time_nanoseconds = sample.start_time_nanoseconds;
      comm = sample.comm;
      state = scheduler_state_from_initial_sample sample.state;
      since = origin;
      seed_at = seed_at;
      last_event = seed_at;
      wakeup_at = zero_time;
      alive = true;
    }

abbrev pub later : Time → Time → Time
later left right = if after right left then right else left

-- The track of a thread that an event is the first to name.
unfoldable pub discovered_track : Time → SchedulerEvent → SchedulerTrack
discovered_track origin event = record {
  pid = event.pid;
  tid = event.tid;
  start_time_ticks = event.start_time_ticks;
  start_time_nanoseconds = event.start_time_nanoseconds;
  comm = event.comm;
  state = SchedulerState.unknown;
  since = later origin event.timestamp;
  seed_at = event.timestamp;
  last_event = event.timestamp;
  wakeup_at = zero_time;
  alive = true;
}

-- The fields that an event tells anew.
unfoldable pub refreshed_track : SchedulerTrack → SchedulerEvent → SchedulerTrack
refreshed_track track event = record track {
  start_time_ticks =
      if nat_beq event.start_time_ticks 0 then track.start_time_ticks else event.start_time_ticks;
  start_time_nanoseconds =
      if nat_beq event.start_time_nanoseconds 0
      then track.start_time_nanoseconds
      else event.start_time_nanoseconds;
  pid = if ltb 0 event.pid then event.pid else track.pid;
  comm = if not (event.comm == "") then event.comm else track.comm;
}

-- The task id is used again by another thread.
unfoldable pub scheduler_identity_changed : SchedulerTrack → SchedulerEvent → Bool
scheduler_identity_changed track event =
    (not (nat_beq event.start_time_ticks 0)
      && not (nat_beq track.start_time_ticks 0)
      && not (nat_beq event.start_time_ticks track.start_time_ticks))
    || (not (nat_beq event.start_time_nanoseconds 0)
        && not (nat_beq track.start_time_nanoseconds 0)
        && not (nat_beq event.start_time_nanoseconds track.start_time_nanoseconds))

-- applyTransition
unfoldable pub wake : Time → Bool → SchedulerEvent → SchedulerTrack → SchedulerTrack
wake origin measure_wakeup event track =
    if scheduler_state_beq track.state SchedulerState.on_cpu then track else record track {
      state = SchedulerState.runnable;
      wakeup_at =
          if measure_wakeup && not (before event.timestamp origin)
          then event.timestamp
          else track.wakeup_at;
    }

unfoldable pub apply_transition :
    Time → Bool → SchedulerEvent → SchedulerEventKind → SchedulerTrack → SchedulerTrack
apply_transition origin measure_wakeup event SchedulerEventKind.wakeup track =
    wake origin measure_wakeup event track
apply_transition origin measure_wakeup event SchedulerEventKind.switch_in track = record track {
  state = SchedulerState.on_cpu;
  alive = true;
  wakeup_at = zero_time;
}
apply_transition origin measure_wakeup event SchedulerEventKind.switch_out track = record track {
  state = event.state;
  wakeup_at = zero_time;
  alive = if scheduler_state_beq event.state SchedulerState.dead then false else track.alive;
}
