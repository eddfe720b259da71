-- ===== src/Backend/Files.antt =====
-- What the procfs backends read of a task: its files and its directory entry.
use tsastat.Prelude.{
  String, ◌≡◌, refl, Bool, true, false, ◌&&◌, Option, none, some, List, [], ◌∷◌, arith, nat_beq,
  if◌then◌else◌, All,
}
use tsastat.Text.{Bytes, parse_int}
use tsastat.Clock.{Time}
use tsastat.Model.Sample.{ThreadSample}
use tsastat.Model.Sources.{
  Failure, process_not_found, other, Reply, taken, failed, Takes, Fallible, ok, err, Gives,
}
use tsastat.Procfs.{TaskStat, parsed, malformed, parse_proc_stat_line}

-- What os.ReadFile answers.
pub data FileRead : Type 0 where
  contents : Bytes → FileRead
  not_exist permission io_error : FileRead

-- readTaskStat: there is no result for a file that does not exist.
unfoldable pub read_task_stat : FileRead → Fallible (Option TaskStat)
read_task_stat not_exist = ok none
read_task_stat permission = err other
read_task_stat io_error = err other
read_task_stat (contents bytes) = elim (parse_proc_stat_line bytes) [
  | parsed stat ↦ ok (some stat)
  | malformed m ↦ err other
]

-- before.TID == after.TID && before.StartTimeTicks == after.StartTimeTicks
abbrev pub same_task : TaskStat → TaskStat → Bool
same_task before after =
    nat_beq before.tid after.tid && nat_beq before.start_time_ticks after.start_time_ticks

-- What os.ReadDir of the task directory answers; a missing one comes with whether procfs's root is
-- missing too.
pub data Directory (E : Type 0) : Type 0 where
  entries : List E → Directory E
  missing : Bool → Directory E
  forbidden unreadable : Directory E

-- The error of a directory that cannot be read.
abbrev pub directory_error : Bool → Failure
directory_error true = other
directory_error false = process_not_found

-- What the samples of a directory come to.
unfoldable pub read_directory :
    {E : Type 0}
    → (List E → Fallible (List ThreadSample))
    → Directory E
    → Fallible (List ThreadSample)
read_directory read (entries tasks) = read tasks
read_directory read (missing root) = err (directory_error root)
read_directory read forbidden = err other
read_directory read unreadable = err other

unfoldable pub snapshot_reply : String → Time → Time → Fallible (List ThreadSample) → Reply
snapshot_reply method started finished (err e) = failed e
snapshot_reply method started finished (ok samples) = taken (record {
  samples = samples;
  started_at = started;
  finished_at = finished;
  sampling_method = method;
})

-- The entries of a directory that can be read.
unfoldable pub listed : {E : Type 0} → Directory E → List E
listed (entries tasks) = tasks
listed _ = []

pub read_directory-Gives :
    {E : Type 0} (P : List E → List ThreadSample → Type 0)
    (read : List E → Fallible (List ThreadSample)) (directory : Directory E)
    → ((tasks : List E) → Gives (P tasks) (read tasks))
    → Gives (P (listed directory)) (read_directory read directory)
unfolding read_directory listed
read_directory-Gives P read (entries tasks) h = h tasks
read_directory-Gives P read (missing root) h = tt
read_directory-Gives P read forbidden h = tt
read_directory-Gives P read unreadable h = tt

pub snapshot_reply-Takes :
    (P : List ThreadSample → Type 0) (method : String) (started finished : Time)
    (r : Fallible (List ThreadSample))
    → Gives P r
    → Takes (λ s. P s.samples) (snapshot_reply method started finished r)
unfolding snapshot_reply
snapshot_reply-Takes P method started finished (ok samples) h = h
snapshot_reply-Takes P method started finished (err e) h = tt

-- An entry is passed over unless it is a directory with a number for a name.
abbrev pub is_task : Bool → Bytes → Bool
is_task is_dir name = is_dir && (elim (parse_int name) [ none ↦ false | some tid ↦ true ])

pub is_task-directory : (is_dir : Bool) (name : Bytes) → is_task is_dir name ≡ true → is_dir ≡ true
is_task-directory true name e = refl
is_task-directory false name e = absurd (ground (arith, e))

unfoldable pub add_found : Option ThreadSample → List ThreadSample → List ThreadSample
add_found none samples = samples
add_found (some sample) samples = sample ∷ samples

-- A property of the sample, if there is one.
abbrev pub IfFound : (ThreadSample → Type 0) → Option ThreadSample → Type 0
IfFound P none = Unit
IfFound P (some sample) = P sample

module _ (P : ThreadSample → Type 0) where
  pub if_task-Gives :
      (b : Bool) (m : Fallible (Option ThreadSample))
      → (b ≡ true → Gives (IfFound P) m)
      → Gives (IfFound P) (if b then m else ok none)
  if_task-Gives true m h = h refl
  if_task-Gives false m h = tt

  pub add_found-All :
      (found : Option ThreadSample) (samples : List ThreadSample)
      → IfFound P found
      → All P samples
      → All P (add_found found samples)
  unfolding add_found
  add_found-All none samples h k = k
  add_found-All (some sample) samples h k = (h, k)
