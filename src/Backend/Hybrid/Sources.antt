-- ===== src/Backend/Hybrid/Sources.antt =====
-- The source status of the hybrid backend.
use tsastat.Prelude.{
  String, ◌≡◌, refl, ◌⊎◌, inl, inr, Bool, true, false, not, ◌&&◌, Bool-cases, none, List, [], ◌∷◌,
  arith, ◌==◌, string_eq, lookup, insert, delete, lookup-upsert, lookup-delete,
}
use tsastat.Model.Sources.{Reply, taken, failed}
use tsastat.Backend.Hybrid.{
  Backend, SourceSet, mark_active, mark_unavailable, disable_taskstats, new_with_sources,
  new_backend, open_scheduler_events, is_target_error, proc_snapshot, merged_snapshot,
  taskstats_snapshot, snapshot,
}

-- No source is both active and unavailable, and taskstats is not active once it is given up.
pub record IsStatus (b : Backend) : Type 0 where
  pub separate :
      (source : String) → (lookup source b.active ≡ none) ⊎ (lookup source b.unavailable ≡ none)
  pub given_up : (b.taskstats_disabled ≡ false) ⊎ (lookup "taskstats" b.active ≡ none)

-- A source is moved from one set to the other.
moved :
    (moving source : String) (from to : SourceSet)
    → (lookup source from ≡ none) ⊎ (lookup source to ≡ none)
    → (lookup source (delete moving from) ≡ none) ⊎ (lookup source (insert moving true to) ≡ none)
unfolding insert
moved moving source from to h = elim (Bool-cases (moving == source)) [
  | inl same ↦ inl (rw (lookup-delete moving source from, same) refl)
  | inr differs ↦
      rw (lookup-delete moving source from, lookup-upsert moving source (λ _. true) to, differs) h
]

mark_active-IsStatus :
    (source : String) (b : Backend)
    → (b.taskstats_disabled ≡ false) ⊎ ((source == "taskstats") ≡ false)
    → IsStatus b
    → IsStatus (mark_active source b)
unfolding mark_active insert
mark_active-IsStatus source b kept v = record {
  separate = λ other. swap (moved source other b.unavailable b.active (swap (v.separate other)));
  given_up = elim kept [
    | inl on ↦ inl on
    | inr differs ↦ elim v.given_up [
      | inl on ↦ inl on
      | inr gone ↦ inr (rw (lookup-upsert source "taskstats" (λ _. true) b.active, differs) gone)
    ]
  ];
}
  where
    swap : {A B : Type 0} → A ⊎ B → B ⊎ A
    swap (inl a) = inr a
    swap (inr b') = inl b'

mark_unavailable-IsStatus :
    (source : String) (b : Backend) → IsStatus b → IsStatus (mark_unavailable source b)
unfolding mark_unavailable
mark_unavailable-IsStatus source b v = record {
  separate = λ other. moved source other b.active b.unavailable (v.separate other);
  given_up = elim v.given_up [
    | inl on ↦ inl on
    | inr gone ↦ inr (rw (lookup-delete source "taskstats" b.active, gone) (ground arith))
  ];
}

disable_taskstats-IsStatus : (b : Backend) → IsStatus b → IsStatus (disable_taskstats b)
unfolding disable_taskstats
disable_taskstats-IsStatus b v = record {
  separate = λ other. moved "taskstats" other b.active b.unavailable (v.separate other);
  given_up = inr (rw (lookup-delete "taskstats" "taskstats" b.active) refl);
}

proc_snapshot-IsStatus :
    (proc : Reply) (b : Backend) → IsStatus b → IsStatus (proc_snapshot proc b).0
unfolding proc_snapshot
proc_snapshot-IsStatus (failed e) b v = v
proc_snapshot-IsStatus (taken s) b v = mark_active-IsStatus "proc" b (inr refl) v

-- New gives a status in which no source is both active and unavailable.
new_backend-IsStatus : (opened : Bool) → IsStatus (new_backend opened)
unfolding new_backend new_with_sources lookup mark_unavailable delete
new_backend-IsStatus true = record { separate = λ source. inl refl; given_up = inl refl }
new_backend-IsStatus false = record { separate = λ source. inl refl; given_up = inr refl }

taskstats_snapshot-IsStatus :
    (taskstats proc : Reply) (b : Backend)
    → b.taskstats_disabled ≡ false
    → IsStatus b
    → IsStatus (taskstats_snapshot taskstats proc b).0
unfolding taskstats_snapshot merged_snapshot mark_active
taskstats_snapshot-IsStatus (taken stats) (failed e) b on v = v
taskstats_snapshot-IsStatus (taken stats) (taken s) b on v =
    mark_active-IsStatus "proc" (mark_active "taskstats" b) (inr refl)
      (mark_active-IsStatus "taskstats" b (inl on) v)
taskstats_snapshot-IsStatus (failed e) proc b on v = elim (Bool-cases (is_target_error e)) [
  | inl target ↦ rw target v
  | inr source_error ↦
      rw source_error
        (proc_snapshot-IsStatus proc (disable_taskstats b) (disable_taskstats-IsStatus b v))
]

enabled : (disabled has : Bool) → not disabled && has ≡ true → disabled ≡ false
enabled disabled has h = ground arith

snapshot-IsStatus :
    (taskstats proc : Reply) (b : Backend) → IsStatus b → IsStatus (snapshot taskstats proc b).0
unfolding snapshot
snapshot-IsStatus taskstats proc b v =
    elim (Bool-cases (not b.taskstats_disabled && b.has_taskstats)) [
      | inl on ↦ rw on (
          taskstats_snapshot-IsStatus taskstats proc b
            (enabled b.taskstats_disabled b.has_taskstats on) v)
      | inr off ↦ rw off (proc_snapshot-IsStatus proc b v)
    ]

open_scheduler_events-IsStatus :
    (opened : Bool) (b : Backend) → IsStatus b → IsStatus (open_scheduler_events opened b)
unfolding open_scheduler_events
open_scheduler_events-IsStatus true b v =
    mark_active-IsStatus "proc" (mark_active "ebpf" b) (inr refl)
      (mark_active-IsStatus "ebpf" b (inr refl) v)
open_scheduler_events-IsStatus false b v = mark_unavailable-IsStatus "ebpf" b v

-- A call of the backend, with what its sources answer.
pub data Use : Type 0 where
  take_snapshot : Reply → Reply → Use
  open_stream : Bool → Use

unfoldable pub use_all : List Use → Backend → Backend
use_all [] b = b
use_all (take_snapshot taskstats proc ∷ uses) b = use_all uses (snapshot taskstats proc b).0
use_all (open_stream opened ∷ uses) b = use_all uses (open_scheduler_events opened b)

use_all-IsStatus : (uses : List Use) (b : Backend) → IsStatus b → IsStatus (use_all uses b)
unfolding use_all
use_all-IsStatus [] b v = v
use_all-IsStatus (take_snapshot taskstats proc ∷ uses) b v =
    use_all-IsStatus uses _ (snapshot-IsStatus taskstats proc b v)
use_all-IsStatus (open_stream opened ∷ uses) b v =
    use_all-IsStatus uses _ (open_scheduler_events-IsStatus opened b v)

-- After New and any calls of Snapshot and OpenSchedulerEvents, whatever the sources answer, no source
-- is both active and unavailable, and taskstats is not active once it is given up.
pub use_from_new-IsStatus :
    (opened : Bool) (uses : List Use) → IsStatus (use_all uses (new_backend opened))
use_from_new-IsStatus opened uses =
    use_all-IsStatus uses (new_backend opened) (new_backend-IsStatus opened)
