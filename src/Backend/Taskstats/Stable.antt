-- ===== src/Backend/Taskstats/Stable.antt =====
-- Every sample of a snapshot is of one task, and has the counters that were read in between.
use mathlib.Core.Logic.Or
use mathlib.Core.List.{Mem, mem-cons}
use tsastat.Prelude.{
  ℕ, String, ◌≡◌, refl, ◌⊎◌, inl, inr, Bool, true, ◌||◌, Bool-cases, Option-cases, Option, none,
  some, List, [], ◌∷◌, arith, nat_beq, All,
}
use tsastat.Clock.{Time, is_negative}
use tsastat.Text.{Bytes}
use tsastat.Model.Sample.{ThreadSample, DelayCounters}
use tsastat.Model.Sources.{Failure, Takes, Fallible, ok, Gives, Gives-bind, itself}
use tsastat.Procfs.{TaskStat}
use tsastat.Backend.Files.{
  read_task_stat, same_task, Directory, read_directory-Gives, snapshot_reply-Takes, is_task,
  IfFound, if_task-Gives, is_task-directory, listed, add_found-All,
}
use tsastat.Backend.Taskstats.{
  StatsAnswer, counted, gone, refused, Attempt, Tried, without, again, found, same_thread_sample,
  read_delays, try_thread, or_again, attempt_all, read_stable_thread_sample, Entry, ensure_client,
  read_entry, read_threads, snapshot_threads,
}

-- The sample is of a directory among the entries, and one of the two attempts on it read the same task
-- before and after the counters, which the sample is of.
pub record HasCounters (pid : ℕ) (tasks : List Entry) (sample : ThreadSample) : Type 0 where
  pub entry : Entry
  pub in_tasks : Mem entry tasks
  pub is_directory : entry.is_dir ≡ true
  pub attempt : Attempt
  pub on_entry : (attempt ≡ entry.first) ⊎ (attempt ≡ entry.second)
  pub before : TaskStat
  pub after : TaskStat
  pub first : read_task_stat attempt.before ≡ ok (some before)
  pub last : read_task_stat attempt.after ≡ ok (some after)
  pub same : (before.tid ≡ after.tid) × (before.start_time_ticks ≡ after.start_time_ticks)
  pub answered : attempt.stats ≡ counted sample.delays
  pub of_process : sample.pid ≡ pid
  pub same_identity : (sample.tid ≡ after.tid) × (sample.start_time_ticks ≡ after.start_time_ticks)

abbrev FoundOne : (ThreadSample → Type 0) → Tried → Type 0
FoundOne P (found sample) = P sample
FoundOne P _ = Unit

or_again-Gives :
    (P : ThreadSample → Type 0) (tried : Tried) (rest : Fallible (Option ThreadSample))
    → FoundOne P tried
    → Gives (IfFound P) rest
    → Gives (IfFound P) (or_again tried rest)
unfolding or_again
or_again-Gives P without rest h k = tt
or_again-Gives P again rest h k = k
or_again-Gives P (found sample) rest h k = h

module _ (text : Bytes → String) (pid : ℕ) (all : List Entry) (entry : Entry)
    (in_all : Mem entry all) (directory : entry.is_dir ≡ true) where
  abbrev Has : ThreadSample → Type 0
  Has = HasCounters pid all

  abbrev OnEntry : Attempt → Type 0
  OnEntry attempt = (attempt ≡ entry.first) ⊎ (attempt ≡ entry.second)

  same_thread_sample-FoundOne :
      (attempt : Attempt) (before : TaskStat) (delays : DelayCounters) (after : Option TaskStat)
      → OnEntry attempt
      → read_task_stat attempt.before ≡ ok (some before)
      → attempt.stats ≡ counted delays
      → read_task_stat attempt.after ≡ ok after
      → FoundOne Has (same_thread_sample text pid attempt before delays after)
  unfolding same_thread_sample
  same_thread_sample-FoundOne attempt before delays none on first stats last = tt
  same_thread_sample-FoundOne attempt before delays (some after) on first stats last =
      elim (Bool-cases (same_task before after)) [
        | inr other ↦ rw other tt
        | inl same ↦ rw same (record {
          entry = entry;
          in_tasks = in_all;
          is_directory = directory;
          attempt = attempt;
          on_entry = on;
          before = before;
          after = after;
          first = first;
          last = last;
          same = ground (arith, same);
          answered = stats;
          of_process = refl;
          same_identity = (refl, refl);
        })
      ]

  read_delays-FoundOne :
      (attempt : Attempt) (before : TaskStat) (answer : StatsAnswer)
      → OnEntry attempt
      → read_task_stat attempt.before ≡ ok (some before)
      → attempt.stats ≡ answer
      → Gives (FoundOne Has) (read_delays text pid attempt before answer)
  unfolding read_delays
  read_delays-FoundOne attempt before gone on first stats = tt
  read_delays-FoundOne attempt before (refused e) on first stats = tt
  read_delays-FoundOne attempt before (counted delays) on first stats =
      Gives-bind (λ after. read_task_stat attempt.after ≡ ok after) (FoundOne Has) _ _
        (itself (read_task_stat attempt.after))
        (λ after last. same_thread_sample-FoundOne attempt before delays after on first stats last)

  try_thread-FoundOne :
      (attempt : Attempt) (before : Option TaskStat)
      → OnEntry attempt
      → read_task_stat attempt.before ≡ ok before
      → Gives (FoundOne Has) (try_thread text pid attempt before)
  unfolding try_thread
  try_thread-FoundOne attempt none on first = tt
  try_thread-FoundOne attempt (some before) on first =
      read_delays-FoundOne attempt before attempt.stats on first refl

  attempt_all-IfSome :
      (attempts : List Attempt)
      → All OnEntry attempts
      → Gives (IfFound Has) (attempt_all text pid attempts)
  unfolding attempt_all
  attempt_all-IfSome [] on = tt
  attempt_all-IfSome (attempt ∷ attempts) on =
      let rest = attempt_all-IfSome attempts on.1 in
      Gives-bind (λ before. read_task_stat attempt.before ≡ ok before) (IfFound Has) _ _
        (itself (read_task_stat attempt.before))
        λ before first.
          Gives-bind (FoundOne Has) (IfFound Has) _ _
            (try_thread-FoundOne attempt before on.0 first)
            λ tried h. or_again-Gives Has tried (attempt_all text pid attempts) h rest

module _ (text : Bytes → String) (pid : ℕ) where
  read_entry-IfFound :
      (all : List Entry) (entry : Entry)
      → Mem entry all
      → Gives (IfFound (HasCounters pid all)) (read_entry text pid entry)
  unfolding read_entry read_stable_thread_sample
  read_entry-IfFound all entry in_all =
      if_task-Gives (HasCounters pid all) (is_task entry.is_dir entry.name) _ λ task.
        attempt_all-IfSome text pid all entry in_all
          (is_task-directory entry.is_dir entry.name task) (entry.first ∷ entry.second ∷ [])
          (inl refl, (inr refl, tt))

  read_threads-All :
      (all tasks : List Entry)
      → ((entry : Entry) → Mem entry tasks → Mem entry all)
      → Gives (All (HasCounters pid all)) (read_threads text pid tasks)
  unfolding read_threads
  read_threads-All all [] among = tt
  read_threads-All all (entry ∷ tasks) among =
      let rest = read_threads-All all tasks (λ e m. among e (mem-cons.1 (Or.inr m))) in
      elim (Option-cases entry.interrupted) [
        | inr (e, stop) ↦ rw (stop, read_threads) tt
        | inl go ↦
            rw (go, read_threads)
              (Gives-bind (IfFound (HasCounters pid all)) (All (HasCounters pid all))
                (read_entry text pid entry) _
                (read_entry-IfFound all entry (among entry (mem-cons.1 (Or.inl refl))))
                λ sample h.
                  Gives-bind (All (HasCounters pid all)) (All (HasCounters pid all)) _ _ rest
                    λ samples hs. add_found-All (HasCounters pid all) sample samples h hs)
      ]

  -- Every sample of a taskstats snapshot comes from one of the two attempts on a directory among the
  -- entries listed, and what that attempt read before and after the delay counters is the same task; the
  -- sample has that task's identity, the process's pid and those counters.
  pub snapshot_threads-HasCounters :
      (started finished : Time) (opening : Option Failure) (is_open : Bool)
      (directory : Directory Entry)
      → Takes
          (λ s. All (HasCounters pid (listed directory)) s.samples)
          (snapshot_threads text started finished pid opening is_open directory).1
  unfolding snapshot_threads
  snapshot_threads-HasCounters started finished opening is_open directory =
      elim (Bool-cases (nat_beq pid 0 || is_negative pid)) [
        | inl bad ↦ rw bad tt
        | inr good ↦ elim (Option-cases (ensure_client opening is_open).1) [
          | inr (e, closed) ↦ rw (good, closed) tt
          | inl open_now ↦
              rw (good, open_now)
                (snapshot_reply-Takes (All (HasCounters pid (listed directory))) _ started finished
                  _
                  (read_directory-Gives (λ tasks. All (HasCounters pid tasks))
                    (read_threads text pid) directory
                    λ tasks. read_threads-All tasks tasks (λ e m. m)))
        ]
      ]
