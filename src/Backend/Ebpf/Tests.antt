-- ===== src/Backend/Ebpf/Tests.antt =====
-- A concrete record of the ring buffer, and a concrete start time.
use tsastat.Prelude.{
  ℕ, ◌-◌, ◌/◌, ◌%◌, ◌<◌, ◌≡◌, ◌↔◌, refl, String, none, some, [], ◌∷◌, arith, word,
}
use tsastat.Text.{Bytes}
use tsastat.Text.Binary.{big_endian}
use tsastat.Backend.Ebpf.{RawEvent, decode_scheduler_event}
use tsastat.Model.Scheduler.{SchedulerEventKind, SchedulerState}
use tsastat.Backend.Ebpf.Wire.{write_raw_event}
use tsastat.Backend.Ebpf.Events.{
  Reported, blocked, meant_event, decode_scheduler_event-write_raw_event,
}
use tsastat.Backend.Ebpf.Identity.{
  nanoseconds_per_second, Moves, proc_start_time_ticks, proc_start_time_ticks-Moves,
}

abbrev rest : Bytes
rest = 0 ∷ 0 ∷ 0 ∷ 0 ∷ 0 ∷ 0 ∷ 0 ∷ 0 ∷ 0 ∷ 0 ∷ 0 ∷ 0 ∷ []

abbrev raw : RawEvent
raw = record {
  timestamp_ns = 123456789;
  start_time_ns = 42;
  state = 0x402;
  tgid = 1;
  tid = 7;
  cpu = 3;
  kind = 3;
  flags = 0;
  comm = b'a' ∷ b'b' ∷ b'c' ∷ 0 ∷ rest;
  padding = 0;
}

abbrev named : Bytes → String
named bytes = "abc"

decode_scheduler_event-write_raw_event_example :
    (decode_scheduler_event named big_endian (write_raw_event big_endian raw)
      ≡ meant_event "abc" raw (some (SchedulerEventKind.switch_out, SchedulerState.idle)))
    × (decode_scheduler_event named big_endian [] ≡ none)
decode_scheduler_event-write_raw_event_example =
    decode_scheduler_event-write_raw_event named big_endian raw (b'a' ∷ b'b' ∷ b'c' ∷ []) rest []
      (some (SchedulerEventKind.switch_out, SchedulerState.idle))
      (record {
        timestamp_ns = omega arith;
        start_time_ns = omega arith;
        state = omega arith;
        tgid = omega arith;
        tid = omega arith;
        cpu = omega arith;
        kind = omega arith;
        flags = omega arith;
        comm = refl;
        padding = omega arith;
      })
      refl (refl, (refl, (refl, tt))) (blocked SchedulerState.idle refl refl Reported.idle)
      (λ e. omega arith)

-- A boot-time offset of minus one second.
proc_start_time_ticks-Moves_example :
    (proc_start_time_ticks 5000000000 (word - 1000000000) 100 ≡ some 400) ↔ (
      (0 < 100)
      × (nanoseconds_per_second % 100 ≡ 0)
      × ((moved : ℕ) × Moves 5000000000 (word - 1000000000) moved
          × (400 ≡ moved / (nanoseconds_per_second / 100))))
proc_start_time_ticks-Moves_example =
    proc_start_time_ticks-Moves 5000000000 (word - 1000000000) 100 400 (omega arith) (omega arith)
