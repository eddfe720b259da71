-- ===== src/Backend/Ebpf.antt =====
-- internal/backend/ebpf: the records of the ring buffer (wire.go), the state after a switch (ebpf.go)
-- and the start times (identity.go). A Go string is its bytes; `text` gives the model's string of them.
pub mod Wire
pub mod Events
pub mod Identity
pub mod Tests
use Prim.Native.Nat.{bit_and}
use tsastat.Prelude.{
  ℕ, String, Bool, true, false, ◌||◌, not, Option, none, some, List, [], ◌∷◌, nat_beq,
  if◌then◌else◌,
}
use tsastat.Clock.{zero_time}
use tsastat.Text.{Bytes, length, take, drop, index_byte}
use tsastat.Text.Binary.{ByteOrder, native_uint}
use tsastat.Model.Scheduler.{SchedulerEventKind, SchedulerState, SchedulerEvent}

-- The flag of a preempted thread, and the bits of a task's state.
abbrev pub event_flag_preempted : ℕ
event_flag_preempted = 1

abbrev task_interruptible : ℕ
task_interruptible = 0x0001

abbrev task_uninterruptible : ℕ
task_uninterruptible = 0x0002

abbrev task_stopped : ℕ
task_stopped = 0x0004

abbrev task_traced : ℕ
task_traced = 0x0008

abbrev task_parked : ℕ
task_parked = 0x0040

-- taskUninterruptible | taskNoLoad
abbrev task_idle : ℕ
task_idle = 0x0402

-- exitDead | exitZombie | taskDead
abbrev any_dead : ℕ
any_dead = 0x00b0

abbrev task_rt_lock_wait : ℕ
task_rt_lock_wait = 0x1000

-- raw & mask != 0
abbrev pub has_bits : ℕ → ℕ → Bool
has_bits raw mask = not (nat_beq (bit_and raw mask) 0)

unfoldable pub state_after_switch : ℕ → ℕ → SchedulerState
state_after_switch raw flags =
    if has_bits flags event_flag_preempted || nat_beq raw 0
    then SchedulerState.runnable
    else if has_bits raw task_rt_lock_wait
    then SchedulerState.uninterruptible
    else if nat_beq (bit_and raw task_idle) task_idle
    then SchedulerState.idle
    else if has_bits raw task_uninterruptible
    then SchedulerState.uninterruptible
    else if has_bits raw task_interruptible || has_bits raw task_parked
    then SchedulerState.sleeping
    else if has_bits raw task_stopped
    then SchedulerState.stopped
    else if has_bits raw task_traced
    then SchedulerState.tracing_stop
    else if has_bits raw any_dead
    then SchedulerState.dead
    else SchedulerState.unknown

-- bpfSchedulerEvent
pub record RawEvent : Type 0 where
  pub timestamp_ns : ℕ
  pub start_time_ns : ℕ
  pub state : ℕ
  pub tgid : ℕ
  pub tid : ℕ
  pub cpu : ℕ
  pub kind : ℕ
  pub flags : ℕ
  pub comm : Bytes
  pub padding : ℕ

-- binary.Read fills the fields one after another.
unfoldable pub read_raw_event : ByteOrder → Bytes → RawEvent
read_raw_event order raw =
    let raw₁ = drop 8 raw in
    let raw₂ = drop 8 raw₁ in
    let raw₃ = drop 8 raw₂ in
    let raw₄ = drop 4 raw₃ in
    let raw₅ = drop 4 raw₄ in
    let raw₆ = drop 4 raw₅ in
    let raw₇ = drop 4 raw₆ in
    let raw₈ = drop 4 raw₇ in
    let raw₉ = drop 16 raw₈ in
    record {
      timestamp_ns = native_uint order (take 8 raw);
      start_time_ns = native_uint order (take 8 raw₁);
      state = native_uint order (take 8 raw₂);
      tgid = native_uint order (take 4 raw₃);
      tid = native_uint order (take 4 raw₄);
      cpu = native_uint order (take 4 raw₅);
      kind = native_uint order (take 4 raw₆);
      flags = native_uint order (take 4 raw₇);
      comm = take 16 raw₈;
      padding = native_uint order (take 4 raw₉);
    }

unfoldable pub null_terminated_string : Bytes → Bytes
null_terminated_string value = elim (index_byte 0 value) [
  | none ↦ value
  | some index ↦ take index value
]

-- The kind and the state of an event, by its type; another type is an error.
unfoldable pub event_kind : ℕ → ℕ → ℕ → Option (SchedulerEventKind × SchedulerState)
event_kind kind state flags =
    if nat_beq kind 1
    then some (SchedulerEventKind.wakeup, SchedulerState.runnable)
    else if nat_beq kind 2
    then some (SchedulerEventKind.switch_in, SchedulerState.on_cpu)
    else if nat_beq kind 3
    then some (SchedulerEventKind.switch_out, state_after_switch state flags)
    else none

module _ (text : Bytes → String) where
  -- The event of a raw record, with the kernel's time of it.
  unfoldable pub scheduler_event : RawEvent → Option (ℕ × SchedulerEvent)
  scheduler_event e = elim (event_kind e.kind e.state e.flags) [
    | none ↦ none
    | some (kind, state) ↦ some (
      e.timestamp_ns,
      record {
        timestamp = zero_time;
        pid = e.tgid;
        tid = e.tid;
        start_time_ticks = 0;
        start_time_nanoseconds = e.start_time_ns;
        comm = text (null_terminated_string e.comm);
        cpu = e.cpu;
        kind = kind;
        state = state;
      },
    )
  ]

  -- decodeSchedulerEvent; `none` is an error.
  unfoldable pub decode_scheduler_event : ByteOrder → Bytes → Option (ℕ × SchedulerEvent)
  decode_scheduler_event order raw =
      if not (nat_beq (length raw) 64) then none else scheduler_event (read_raw_event order raw)
