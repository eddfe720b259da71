-- ===== src/Backend/Taskstats.antt =====
-- internal/backend/taskstats: the snapshot of taskstats.go, and its client. A Go string is its bytes;
-- `text` gives the model's string of them.
pub mod Decode
pub mod Availability
pub mod Layout
pub mod RoundTrip
pub mod Stable
pub mod Tests
use tsastat.Prelude.{
  ℕ, String, Bool, true, false, ◌||◌, not, Option, none, some, List, [], ◌∷◌, nat_beq,
  if◌then◌else◌,
}
use tsastat.Clock.{Time, time_add, time_sub, half, is_negative}
use tsastat.Text.{Bytes}
use tsastat.Model.State.{state_from_proc}
use tsastat.Model.Sample.{ThreadSample, DelayCounters, no_schedstat}
use tsastat.Model.Sources.{Failure, other, Reply, failed, Fallible, ok, err, ◌>>=◌}
use tsastat.Procfs.{TaskStat}
use tsastat.Backend.Files.{
  FileRead, read_task_stat, same_task, Directory, read_directory, snapshot_reply, is_task,
  add_found,
}

-- What the client's Stats answers for one thread; `gone` is os.ErrNotExist.
pub data StatsAnswer : Type 0 where
  counted : DelayCounters → StatsAnswer
  gone : StatsAnswer
  refused : Failure → StatsAnswer

pub record Attempt : Type 0 where
  pub started_at : Time
  pub before : FileRead
  pub stats : StatsAnswer
  pub after : FileRead
  pub finished_at : Time

-- How an attempt ends.
pub data Tried : Type 0 where
  without : Tried
  again : Tried
  found : ThreadSample → Tried

unfoldable pub or_again : Tried → Fallible (Option ThreadSample) → Fallible (Option ThreadSample)
or_again without rest = ok none
or_again again rest = rest
or_again (found sample) rest = ok (some sample)

module _ (text : Bytes → String) where
  abbrev pub thread_sample : ℕ → Attempt → TaskStat → DelayCounters → ThreadSample
  thread_sample pid attempt stat delays = record {
    pid = pid;
    tid = stat.tid;
    start_time_ticks = stat.start_time_ticks;
    start_time_nanoseconds = 0;
    comm = text stat.comm;
    state = state_from_proc stat.state;
    timestamp =
        time_add attempt.started_at (half (time_sub attempt.finished_at attempt.started_at));
    schedstat = no_schedstat;
    delays = delays;
  }

  unfoldable pub same_thread_sample :
      ℕ → Attempt → TaskStat → DelayCounters → Option TaskStat → Tried
  same_thread_sample pid attempt before delays none = again
  same_thread_sample pid attempt before delays (some after) =
      if not (same_task before after) then again else found (thread_sample pid attempt after delays)

  unfoldable pub read_delays : ℕ → Attempt → TaskStat → StatsAnswer → Fallible Tried
  read_delays pid attempt before gone = ok again
  read_delays pid attempt before (refused e) = err e
  read_delays pid attempt before (counted delays) = do
    after ← read_task_stat attempt.after
    ok (same_thread_sample pid attempt before delays after)

  -- A thread that is not there at the start of an attempt is not tried again.
  unfoldable pub try_thread : ℕ → Attempt → Option TaskStat → Fallible Tried
  try_thread pid attempt none = ok without
  try_thread pid attempt (some before) = read_delays pid attempt before attempt.stats

  unfoldable pub attempt_all : ℕ → List Attempt → Fallible (Option ThreadSample)
  attempt_all pid [] = ok none
  attempt_all pid (attempt ∷ attempts) = do
    before ← read_task_stat attempt.before
    tried ← try_thread pid attempt before
    or_again tried (attempt_all pid attempts)

  unfoldable pub read_stable_thread_sample : ℕ → Attempt → Attempt → Fallible (Option ThreadSample)
  read_stable_thread_sample pid first second = attempt_all pid (first ∷ second ∷ [])

-- An entry of the task directory: the error of the context when it is looked at, and what the
-- attempts on it read.
pub record Entry : Type 0 where
  pub interrupted : Option Failure
  pub is_dir : Bool
  pub name : Bytes
  pub first : Attempt
  pub second : Attempt

-- The client is open or not; opening it may fail.
unfoldable pub ensure_client : Option Failure → Bool → Bool × Option Failure
ensure_client opening true = (true, none)
ensure_client none false = (true, none)
ensure_client (some e) false = (false, some e)

-- Close: an open client is closed, once.
unfoldable pub close_client : Option Failure → Bool → Bool × Option Failure
close_client closing true = (false, closing)
close_client closing false = (false, none)

module _ (text : Bytes → String) where
  unfoldable pub read_entry : ℕ → Entry → Fallible (Option ThreadSample)
  read_entry pid entry =
      if is_task entry.is_dir entry.name
      then read_stable_thread_sample text pid entry.first entry.second
      else ok none

  unfoldable pub read_threads : ℕ → List Entry → Fallible (List ThreadSample)
  read_threads pid [] = ok []
  read_threads pid (entry ∷ rest) = elim entry.interrupted [
    | some e ↦ err e
    | none ↦ do
      sample ← read_entry pid entry
      samples ← read_threads pid rest
      ok (add_found sample samples)
  ]

  -- (*Backend).Snapshot, with whether the client is open then; the pid is an int, as a bit pattern.
  unfoldable pub snapshot_threads :
      Time → Time → ℕ → Option Failure → Bool → Directory Entry → Bool × Reply
  snapshot_threads started finished pid opening is_open directory =
      if nat_beq pid 0 || is_negative pid
      then (is_open, failed other)
      else let client = ensure_client opening is_open in
        (
          client.0,
          elim client.1 [
            | some e ↦ failed e
            | none ↦
                snapshot_reply "taskstats_counters_procfs_midpoint" started finished
                  (read_directory (read_threads pid) directory)
          ],
        )
