-- ===== src/Backend/Proc/Stable.antt =====
-- Every sample of a snapshot is of one task, and its counters are 64-bit words.
use mathlib.Core.Logic.Or
use mathlib.Core.List.{Mem, mem-cons}
use tsastat.Prelude.{
  ℕ, String, ◌≡◌, refl, ◌⊎◌, inl, inr, true, ◌||◌, Bool-cases, Option-cases, Option, none, some,
  List, [], ◌∷◌, arith, nat_beq, All,
}
use tsastat.Clock.{Time, is_negative}
use tsastat.Text.{Bytes}
use tsastat.Model.Sample.{ThreadSample, SchedstatCounters}
use tsastat.Model.Sources.{Failure, Takes, Fallible, ok, err, Gives, Gives-bind, itself, both}
use tsastat.Collector.Accumulator.Schedstat.Parts.{SchedstatInRange}
use tsastat.Procfs.{TaskStat, Schedstat, Parsed, parsed, malformed, parse_schedstat_line}
use tsastat.Procfs.Bounds.{Parses, IsWords, parse_schedstat_line-IsWords}
use tsastat.Backend.Files.{
  FileRead, contents, not_exist, permission, io_error, read_task_stat, same_task, Directory,
  read_directory-Gives, snapshot_reply-Takes, is_task, IfFound, if_task-Gives, is_task-directory,
  listed, add_found-All,
}
use tsastat.Backend.Proc.{
  read_schedstat, midpoint, Attempt, same_task_sample, read_counters, try_task, or_else,
  attempt_all, read_stable_task, Entry, read_entry, read_tasks, snapshot_tasks,
}

read_schedstat-InRange : (file : FileRead) → Gives SchedstatInRange (read_schedstat file)
unfolding read_schedstat
read_schedstat-InRange not_exist = omega arith
read_schedstat-InRange permission = omega arith
read_schedstat-InRange io_error = tt
read_schedstat-InRange (contents bytes) =
    described (parse_schedstat_line bytes) (parse_schedstat_line-IsWords bytes)
  where
    described :
        (p : Parsed Schedstat)
        → Parses IsWords p
        → Gives SchedstatInRange (elim p [
          | parsed stat ↦ ok (record {
            available = true;
            on_cpu_nanoseconds = stat.on_cpu_nanoseconds;
            runqueue_nanoseconds = stat.runqueue_nanoseconds;
            timeslices = stat.timeslices;
          })
          | malformed m ↦ err Failure.other
        ])
    described (parsed stat) h = record {
      on_cpu = h.on_cpu;
      runqueue = h.runqueue;
      timeslices = h.timeslices;
    }
    described (malformed m) h = tt

-- The sample is of a directory among the entries, and one of the two attempts on it read the same task
-- before and after the counters, which the sample is of.
pub record IsStable (pid : ℕ) (tasks : List Entry) (sample : ThreadSample) : Type 0 where
  pub entry : Entry
  pub in_tasks : Mem entry tasks
  pub is_directory : entry.is_dir ≡ true
  pub attempt : Attempt
  pub on_entry : (attempt ≡ entry.first) ⊎ (attempt ≡ entry.second)
  pub before : TaskStat
  pub after : TaskStat
  pub first : read_task_stat attempt.before ≡ ok (some before)
  pub last : read_task_stat attempt.after ≡ ok (some after)
  pub same : (before.tid ≡ after.tid) × (before.start_time_ticks ≡ after.start_time_ticks)
  pub counted : read_schedstat attempt.schedstat ≡ ok sample.schedstat
  pub of_process : sample.pid ≡ pid
  pub same_identity : (sample.tid ≡ after.tid) × (sample.start_time_ticks ≡ after.start_time_ticks)
  pub timestamp : sample.timestamp ≡ midpoint attempt.started_at attempt.finished_at
  pub in_range : SchedstatInRange sample.schedstat

or_else-Gives :
    (P : ThreadSample → Type 0) (found : Option ThreadSample)
    (next : Fallible (Option ThreadSample))
    → IfFound P found
    → Gives (IfFound P) next
    → Gives (IfFound P) (or_else found next)
unfolding or_else
or_else-Gives P none next h k = k
or_else-Gives P (some sample) next h k = h

module _ (text : Bytes → String) (pid : ℕ) (all : List Entry) (entry : Entry)
    (in_all : Mem entry all) (directory : entry.is_dir ≡ true) where
  abbrev Found : Option ThreadSample → Type 0
  Found = IfFound (IsStable pid all)

  abbrev OnEntry : Attempt → Type 0
  OnEntry attempt = (attempt ≡ entry.first) ⊎ (attempt ≡ entry.second)

  same_task_sample-Found :
      (attempt : Attempt) (before : TaskStat) (schedstat : SchedstatCounters)
      (after : Option TaskStat)
      → OnEntry attempt
      → read_task_stat attempt.before ≡ ok (some before)
      → read_task_stat attempt.after ≡ ok after
      → read_schedstat attempt.schedstat ≡ ok schedstat
      → SchedstatInRange schedstat
      → Gives Found (same_task_sample text pid attempt before schedstat after)
  unfolding same_task_sample
  same_task_sample-Found attempt before schedstat none on first last counted range = tt
  same_task_sample-Found attempt before schedstat (some after) on first last counted range =
      elim (Bool-cases (same_task before after)) [
        | inr other ↦ rw other tt
        | inl same ↦ rw same (record {
          entry = entry;
          in_tasks = in_all;
          is_directory = directory;
          attempt = attempt;
          on_entry = on;
          before = before;
          after = after;
          first = first;
          last = last;
          same = ground (arith, same);
          counted = counted;
          of_process = refl;
          same_identity = (refl, refl);
          timestamp = refl;
          in_range = range;
        })
      ]

  read_counters-Found :
      (attempt : Attempt) (before : Option TaskStat)
      → OnEntry attempt
      → read_task_stat attempt.before ≡ ok before
      → Gives Found (read_counters text pid attempt before)
  unfolding read_counters
  read_counters-Found attempt none on first = tt
  read_counters-Found attempt (some before) on first =
      Gives-bind (λ c. (read_schedstat attempt.schedstat ≡ ok c) × SchedstatInRange c) Found _ _
        (both SchedstatInRange (read_schedstat attempt.schedstat)
          (read_schedstat-InRange attempt.schedstat))
        λ schedstat c.
          Gives-bind (λ after. read_task_stat attempt.after ≡ ok after) Found _ _ (itself _)
            λ after last.
              same_task_sample-Found attempt before schedstat after on first last c.0 c.1

  attempt_all-Found :
      (attempts : List Attempt) → All OnEntry attempts → Gives Found (attempt_all text pid attempts)
  unfolding attempt_all try_task
  attempt_all-Found [] on = tt
  attempt_all-Found (attempt ∷ attempts) on =
      let rest = attempt_all-Found attempts on.1 in
      Gives-bind Found Found (try_task text pid attempt) _
        (Gives-bind (λ before. read_task_stat attempt.before ≡ ok before) Found _ _ (itself _)
          (λ before first. read_counters-Found attempt before on.0 first))
        λ found h. or_else-Gives (IsStable pid all) found (attempt_all text pid attempts) h rest

module _ (text : Bytes → String) (pid : ℕ) where
  read_entry-Found :
      (all : List Entry) (entry : Entry)
      → Mem entry all
      → Gives (IfFound (IsStable pid all)) (read_entry text pid entry)
  unfolding read_entry read_stable_task
  read_entry-Found all entry in_all =
      if_task-Gives (IsStable pid all) (is_task entry.is_dir entry.name) _ λ task.
        attempt_all-Found text pid all entry in_all (is_task-directory entry.is_dir entry.name task)
          (entry.first ∷ entry.second ∷ []) (inl refl, (inr refl, tt))

  read_tasks-Stable :
      (all tasks : List Entry)
      → ((entry : Entry) → Mem entry tasks → Mem entry all)
      → Gives (All (IsStable pid all)) (read_tasks text pid tasks)
  unfolding read_tasks
  read_tasks-Stable all [] among = tt
  read_tasks-Stable all (entry ∷ tasks) among =
      let rest = read_tasks-Stable all tasks (λ e m. among e (mem-cons.1 (Or.inr m))) in
      elim (Option-cases entry.interrupted) [
        | inr (e, stop) ↦ rw (stop, read_tasks) tt
        | inl go ↦
            rw (go, read_tasks)
              (Gives-bind (IfFound (IsStable pid all)) (All (IsStable pid all))
                (read_entry text pid entry) _
                (read_entry-Found all entry (among entry (mem-cons.1 (Or.inl refl))))
                λ found h.
                  Gives-bind (All (IsStable pid all)) (All (IsStable pid all)) _ _ rest
                    λ samples hs. add_found-All (IsStable pid all) found samples h hs)
      ]

  -- Every sample of a snapshot comes from one of the two attempts on a directory among the entries
  -- listed, and what that attempt read before and after the counters is the same task; the sample bears
  -- that task's identity, the process's pid, the counters and the time in the middle of the attempt,
  -- and its scheduler counters are 64-bit words, whatever the files hold.
  pub snapshot_tasks-IsStable :
      (started finished : Time) (directory : Directory Entry)
      → Takes
          (λ s. All (IsStable pid (listed directory)) s.samples)
          (snapshot_tasks text started finished pid directory)
  unfolding snapshot_tasks
  snapshot_tasks-IsStable started finished directory =
      elim (Bool-cases (nat_beq pid 0 || is_negative pid)) [
        | inl bad ↦ rw bad tt
        | inr good ↦ rw good (
            snapshot_reply-Takes (All (IsStable pid (listed directory))) "" started finished _ (
              read_directory-Gives (λ tasks. All (IsStable pid tasks)) (read_tasks text pid)
                directory λ tasks. read_tasks-Stable tasks tasks (λ e m. m)))
      ]
