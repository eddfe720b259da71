-- ===== src/Model/Scheduler.antt =====
-- internal/model/scheduler.go: the events of the scheduler timeline.
use tsastat.Prelude.{ℕ, String, ◌≡◌, ◌↔◌, Bool, true, arith, nat_beq, Comparable}
use tsastat.Clock.{Time}

pub data SchedulerEventKind : Type 0 where
  wakeup switch_in switch_out : SchedulerEventKind

pub data SchedulerState : Type 0 where
  unknown on_cpu runnable sleeping uninterruptible stopped tracing_stop idle dead : SchedulerState

pub record SchedulerEvent : Type 0 where
  pub timestamp : Time
  pub pid : ℕ
  pub tid : ℕ
  pub start_time_ticks : ℕ
  pub start_time_nanoseconds : ℕ
  pub comm : String
  pub cpu : ℕ
  pub kind : SchedulerEventKind
  pub state : SchedulerState

abbrev scheduler_state_number : SchedulerState → ℕ
scheduler_state_number unknown = 0
scheduler_state_number on_cpu = 1
scheduler_state_number runnable = 2
scheduler_state_number sleeping = 3
scheduler_state_number uninterruptible = 4
scheduler_state_number stopped = 5
scheduler_state_number tracing_stop = 6
scheduler_state_number idle = 7
scheduler_state_number dead = 8

abbrev pub scheduler_state_beq : SchedulerState → SchedulerState → Bool
scheduler_state_beq s t = nat_beq (scheduler_state_number s) (scheduler_state_number t)

pub scheduler_state_beq_iff : (s t : SchedulerState) → (scheduler_state_beq s t ≡ true) ↔ (s ≡ t)
scheduler_state_beq_iff s t = ground arith

instance abbrev pub scheduler_state_eq : Comparable SchedulerState
scheduler_state_eq = record { equals = scheduler_state_beq; equals_iff = scheduler_state_beq_iff }
