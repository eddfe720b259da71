-- ===== src/Model/Sample.antt =====
-- internal/model/sample.go: one thread's reading, and the snapshot of a process.
use tsastat.Prelude.{ℕ, String, ◌≡◌, ◌↔◌, Bool, true, false, ◌&&◌, List, arith, nat_beq, Comparable}
use tsastat.Clock.{Time}
use tsastat.Model.State.{ThreadState}

pub record ThreadIdentity : Type 0 where
  pub tid : ℕ
  pub start_time_ticks : ℕ
  pub start_time_nanoseconds : ℕ

pub record SchedstatCounters : Type 0 where
  pub available : Bool
  pub on_cpu_nanoseconds : ℕ
  pub runqueue_nanoseconds : ℕ
  pub timeslices : ℕ

pub record DelayCounter : Type 0 where
  pub available : Bool
  pub count : ℕ
  pub total_nanoseconds : ℕ

pub record DelayCounters : Type 0 where
  pub available : Bool
  pub version : ℕ
  pub accounting_enabled : Bool
  pub accounting_enabled_known : Bool
  pub cpu : DelayCounter
  pub block_io : DelayCounter
  pub swap_in : DelayCounter
  pub reclaim : DelayCounter
  pub thrashing : DelayCounter
  pub compaction : DelayCounter
  pub write_protect_copy : DelayCounter
  pub irq : DelayCounter

pub record ThreadSample : Type 0 where
  pub pid : ℕ
  pub tid : ℕ
  pub start_time_ticks : ℕ
  pub start_time_nanoseconds : ℕ
  pub comm : String
  pub state : ThreadState
  pub timestamp : Time
  pub schedstat : SchedstatCounters
  pub delays : DelayCounters

unfoldable pub identity : ThreadSample → ThreadIdentity
identity s = record {
  tid = s.tid;
  start_time_ticks = s.start_time_ticks;
  start_time_nanoseconds = s.start_time_nanoseconds;
}

pub record ThreadSnapshot : Type 0 where
  pub samples : List ThreadSample
  pub started_at : Time
  pub finished_at : Time
  pub sampling_method : String

unfoldable pub identity_beq : ThreadIdentity → ThreadIdentity → Bool
identity_beq a b =
    nat_beq a.tid b.tid
    && nat_beq a.start_time_ticks b.start_time_ticks
    && nat_beq a.start_time_nanoseconds b.start_time_nanoseconds

pub identity_beq_iff : (a b : ThreadIdentity) → (identity_beq a b ≡ true) ↔ (a ≡ b)
unfolding identity_beq
identity_beq_iff a b = ground arith

instance abbrev pub identity_eq : Comparable ThreadIdentity
identity_eq = record { equals = identity_beq; equals_iff = identity_beq_iff }

-- The zero values of the Go structs.
abbrev pub no_schedstat : SchedstatCounters
no_schedstat = record {
  available = false;
  on_cpu_nanoseconds = 0;
  runqueue_nanoseconds = 0;
  timeslices = 0;
}

abbrev pub no_counter : DelayCounter
no_counter = record { available = false; count = 0; total_nanoseconds = 0 }

abbrev pub no_delays : DelayCounters
no_delays = record {
  available = false;
  version = 0;
  accounting_enabled = false;
  accounting_enabled_known = false;
  cpu = no_counter;
  block_io = no_counter;
  swap_in = no_counter;
  reclaim = no_counter;
  thrashing = no_counter;
  compaction = no_counter;
  write_protect_copy = no_counter;
  irq = no_counter;
}
