-- ===== src/Backend/Ebpf/Events.antt =====
-- The events that the records of the kernel program mean.
use tsastat.Prelude.{
  ℕ, ◌<◌, ◌≡◌, refl, ap, ◌∙◌, inl, inr, ◌⊎◌, Bool-cases, String, Option, none, some, ◌∷◌, ◌++◌,
  arith, nat_beq,
}
use tsastat.Clock.{zero_time}
use tsastat.Text.{Bytes, length}
use tsastat.Text.Slices.{IsFree}
use tsastat.Text.Binary.{ByteOrder}
use tsastat.Model.Scheduler.{SchedulerEventKind, SchedulerState, SchedulerEvent}
use tsastat.Backend.Ebpf.{
  RawEvent, null_terminated_string, state_after_switch, event_kind, scheduler_event,
  decode_scheduler_event,
}
use tsastat.Backend.Ebpf.Wire.{
  write_raw_event, Fits, written_size, read_raw_event-write_raw_event, null_terminated_string-name,
}

-- The states that the kernel reports of a thread that has left the processor, each by its number.
pub data Reported : ℕ → SchedulerState → Type 0 where
  running : Reported 0 SchedulerState.runnable
  interruptible : Reported 0x1 SchedulerState.sleeping
  uninterruptible : Reported 0x2 SchedulerState.uninterruptible
  stopped : Reported 0x4 SchedulerState.stopped
  traced : Reported 0x8 SchedulerState.tracing_stop
  exit_dead : Reported 0x10 SchedulerState.dead
  exit_zombie : Reported 0x20 SchedulerState.dead
  parked : Reported 0x40 SchedulerState.sleeping
  dead : Reported 0x80 SchedulerState.dead
  idle : Reported 0x402 SchedulerState.idle
  rt_lock_wait : Reported 0x1000 SchedulerState.uninterruptible
  new : Reported 0x800 SchedulerState.unknown

-- What the type, the state and the flags of a record mean; some types mean nothing.
pub data Means (kind state flags : ℕ) : Option (SchedulerEventKind × SchedulerState) → Type 0 where
  wakeup :
      kind ≡ 1 → Means kind state flags (some (SchedulerEventKind.wakeup, SchedulerState.runnable))
  switch_in :
      kind ≡ 2 → Means kind state flags (some (SchedulerEventKind.switch_in, SchedulerState.on_cpu))
  preempted :
      kind ≡ 3
      → flags ≡ 1
      → Means kind state flags (some (SchedulerEventKind.switch_out, SchedulerState.runnable))
  blocked :
      (s : SchedulerState)
      → kind ≡ 3
      → flags ≡ 0
      → Reported state s
      → Means kind state flags (some (SchedulerEventKind.switch_out, s))
  unknown : (kind ≡ 0) ⊎ (3 < kind) → Means kind state flags none

state_after_switch-Reported :
    (raw : ℕ) (s : SchedulerState) → Reported raw s → state_after_switch raw 0 ≡ s
unfolding state_after_switch
state_after_switch-Reported _ _ running = refl
state_after_switch-Reported _ _ interruptible = refl
state_after_switch-Reported _ _ uninterruptible = refl
state_after_switch-Reported _ _ stopped = refl
state_after_switch-Reported _ _ traced = refl
state_after_switch-Reported _ _ exit_dead = refl
state_after_switch-Reported _ _ exit_zombie = refl
state_after_switch-Reported _ _ parked = refl
state_after_switch-Reported _ _ dead = refl
state_after_switch-Reported _ _ idle = refl
state_after_switch-Reported _ _ rt_lock_wait = refl
state_after_switch-Reported _ _ new = refl

event_kind-Means :
    (kind state flags : ℕ) (m : Option (SchedulerEventKind × SchedulerState))
    → Means kind state flags m
    → event_kind kind state flags ≡ m
unfolding event_kind state_after_switch
event_kind-Means kind state flags _ (wakeup k) = rw k refl
event_kind-Means kind state flags _ (switch_in k) = rw k refl
event_kind-Means kind state flags _ (preempted k f) = rw (k, f) refl
event_kind-Means kind state flags _ (blocked s k f r) =
    rw (k, f)
      (ap (λ t. some (SchedulerEventKind.switch_out, t)) (state_after_switch-Reported state s r))
event_kind-Means kind state flags _ (unknown other) = ground (arith, other)

-- The event of a record whose type means `m`, with the kernel's time of it.
abbrev pub meant_event :
    String → RawEvent → Option (SchedulerEventKind × SchedulerState) → Option (ℕ × SchedulerEvent)
meant_event comm e none = none
meant_event comm e (some (kind, state)) = some (
  e.timestamp_ns,
  record {
    timestamp = zero_time;
    pid = e.tgid;
    tid = e.tid;
    start_time_ticks = 0;
    start_time_nanoseconds = e.start_time_ns;
    comm = comm;
    cpu = e.cpu;
    kind = kind;
    state = state;
  },
)

scheduler_event-Means :
    (text : Bytes → String) (e : RawEvent) (m : Option (SchedulerEventKind × SchedulerState))
    → event_kind e.kind e.state e.flags ≡ m
    → scheduler_event text e ≡ meant_event (text (null_terminated_string e.comm)) e m
unfolding scheduler_event
scheduler_event-Means text e none k = rw (k, scheduler_event) refl
scheduler_event-Means text e (some (kind, state)) k = rw (k, scheduler_event) refl

-- decodeSchedulerEvent of a written record, in either byte order, is the event that its type, state
-- and flags mean, with the record's thread group as process and its thread, processor, times and name
-- in their places; there is no event if the type is unknown. The fields fit, the name ends with a zero
-- byte, and of a thread that has left the processor the flags are that it is preempted, or none and its
-- state is one of the kernel's listed above. Bytes of any other size than a record's are refused.
pub decode_scheduler_event-write_raw_event :
    (text : Bytes → String) (order : ByteOrder) (e : RawEvent) (name rest other : Bytes)
    (m : Option (SchedulerEventKind × SchedulerState))
    → Fits e
    → e.comm ≡ name ++ (0 ∷ rest)
    → IsFree 0 name
    → Means e.kind e.state e.flags m
    → ¬ (length other ≡ 64)
    → (decode_scheduler_event text order (write_raw_event order e) ≡ meant_event (text name) e m)
      × (decode_scheduler_event text order other ≡ none)
unfolding decode_scheduler_event
decode_scheduler_event-write_raw_event text order e name rest other m f named free means size =
    let read_name : null_terminated_string e.comm ≡ name =
      ap null_terminated_string named ∙ null_terminated_string-name name rest free in
    (
      rw (written_size order e f) (
          ap (scheduler_event text) (read_raw_event-write_raw_event order e f)
          ∙ scheduler_event-Means text e m (event_kind-Means e.kind e.state e.flags m means)
          ∙ ap (λ n. meant_event (text n) e m) read_name),
      elim (Bool-cases (nat_beq (length other) 64)) [
        | inl same ↦ absurd (size (ground (arith, same)))
        | inr differs ↦ rw differs refl
      ],
    )
