-- ===== src/Backend/Proc.antt =====
-- internal/backend/proc/proc.go: a snapshot of a process's threads. A Go string is its bytes; `text`
-- gives the model's string of them.
pub mod Stable
pub mod Tests
use tsastat.Prelude.{
  ℕ, String, Bool, true, false, ◌&&◌, ◌||◌, not, Option, none, some, List, [], ◌∷◌, nat_beq,
  if◌then◌else◌,
}
use tsastat.Clock.{Time, time_add, time_sub, half, is_negative}
use tsastat.Text.{Bytes, parse_int}
use tsastat.Model.State.{state_from_proc}
use tsastat.Model.Sample.{ThreadSample, ThreadSnapshot, SchedstatCounters, no_schedstat, no_delays}
use tsastat.Model.Sources.{
  Failure, process_not_found, other, Reply, taken, failed, Fallible, ok, err, ◌>>=◌,
}
use tsastat.Procfs.{TaskStat, Schedstat, parsed, malformed, parse_schedstat_line}
use tsastat.Backend.Files.{
  FileRead, contents, not_exist, permission, io_error, read_task_stat, same_task, Directory,
  read_directory, snapshot_reply, is_task, add_found,
}

-- readSchedstat: counters that may not be read are not available.
unfoldable pub read_schedstat : FileRead → Fallible SchedstatCounters
read_schedstat not_exist = ok no_schedstat
read_schedstat permission = ok no_schedstat
read_schedstat io_error = err other
read_schedstat (contents bytes) = elim (parse_schedstat_line bytes) [
  | parsed stat ↦ ok (record {
    available = true;
    on_cpu_nanoseconds = stat.on_cpu_nanoseconds;
    runqueue_nanoseconds = stat.runqueue_nanoseconds;
    timeslices = stat.timeslices;
  })
  | malformed m ↦ err other
]

unfoldable pub midpoint : Time → Time → Time
midpoint start end = time_add start (half (time_sub end start))

-- What the files and the clock answer to one attempt.
pub record Attempt : Type 0 where
  pub started_at : Time
  pub before : FileRead
  pub schedstat : FileRead
  pub after : FileRead
  pub finished_at : Time

unfoldable pub or_else :
    Option ThreadSample → Fallible (Option ThreadSample) → Fallible (Option ThreadSample)
or_else none next = next
or_else (some sample) next = ok (some sample)

module _ (text : Bytes → String) where
  abbrev pub task_sample : ℕ → Attempt → TaskStat → SchedstatCounters → ThreadSample
  task_sample pid attempt stat schedstat = record {
    pid = pid;
    tid = stat.tid;
    start_time_ticks = stat.start_time_ticks;
    start_time_nanoseconds = 0;
    comm = text stat.comm;
    state = state_from_proc stat.state;
    timestamp = midpoint attempt.started_at attempt.finished_at;
    schedstat = schedstat;
    delays = no_delays;
  }

  -- The second reading of the task has to be of the same one.
  unfoldable pub same_task_sample :
      ℕ → Attempt → TaskStat → SchedstatCounters → Option TaskStat → Fallible (Option ThreadSample)
  same_task_sample pid attempt before schedstat none = ok none
  same_task_sample pid attempt before schedstat (some after) =
      if not (same_task before after)
      then ok none
      else ok (some (task_sample pid attempt after schedstat))

  -- What follows the first reading of the task.
  unfoldable pub read_counters : ℕ → Attempt → Option TaskStat → Fallible (Option ThreadSample)
  read_counters pid attempt none = ok none
  read_counters pid attempt (some before) = do
    schedstat ← read_schedstat attempt.schedstat
    after ← read_task_stat attempt.after
    same_task_sample pid attempt before schedstat after

  -- One attempt: no sample when the task is not there, or is another one at the end.
  unfoldable pub try_task : ℕ → Attempt → Fallible (Option ThreadSample)
  try_task pid attempt = do before ← read_task_stat attempt.before; read_counters pid attempt before

  unfoldable pub attempt_all : ℕ → List Attempt → Fallible (Option ThreadSample)
  attempt_all pid [] = ok none
  attempt_all pid (attempt ∷ attempts) = do
    found ← try_task pid attempt
    or_else found (attempt_all pid attempts)

  -- There are two attempts.
  unfoldable pub read_stable_task : ℕ → Attempt → Attempt → Fallible (Option ThreadSample)
  read_stable_task pid first second = attempt_all pid (first ∷ second ∷ [])

-- An entry of the task directory: the error of the context when it is looked at, and what the
-- attempts on it read.
pub record Entry : Type 0 where
  pub interrupted : Option Failure
  pub is_dir : Bool
  pub name : Bytes
  pub first : Attempt
  pub second : Attempt

module _ (text : Bytes → String) where
  unfoldable pub read_entry : ℕ → Entry → Fallible (Option ThreadSample)
  read_entry pid entry =
      if is_task entry.is_dir entry.name
      then read_stable_task text pid entry.first entry.second
      else ok none

  unfoldable pub read_tasks : ℕ → List Entry → Fallible (List ThreadSample)
  read_tasks pid [] = ok []
  read_tasks pid (entry ∷ rest) = elim entry.interrupted [
    | some e ↦ err e
    | none ↦ do
      found ← read_entry pid entry
      samples ← read_tasks pid rest
      ok (add_found found samples)
  ]

  -- (*Backend).Snapshot; the pid is an int, as a bit pattern.
  unfoldable pub snapshot_tasks : Time → Time → ℕ → Directory Entry → Reply
  snapshot_tasks started finished pid directory =
      if nat_beq pid 0 || is_negative pid
      then failed other
      else snapshot_reply "" started finished (read_directory (read_tasks pid) directory)
