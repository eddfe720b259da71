-- ===== src/Backend/Taskstats/Tests.antt =====
-- Concrete payloads, and a snapshot of concrete answers.
use tsastat.Prelude.{
  ℕ, zero, suc, ◌*◌, ◌≡◌, refl, String, true, false, not, none, List, [], ◌∷◌, arith, All,
}
use tsastat.Text.{Bytes}
use tsastat.Text.Binary.{little_endian, big_endian}
use tsastat.Model.Sample.{no_delays}
use tsastat.Model.Sources.{Takes, Gives, ok}
use tsastat.Procfs.RoundTrip.{stat_line}
use tsastat.Backend.Files.{FileRead, contents, Directory, entries, listed}
use tsastat.Backend.Taskstats.{counted, gone, Entry, snapshot_threads}
use tsastat.Backend.Taskstats.Decode.{decode_delay_counters}
use tsastat.Backend.Taskstats.Availability.{
  IsAvailable, is_ok, is_refused, decode_delay_counters-IsAvailable,
}
use tsastat.Backend.Taskstats.Layout.{Delay, Taskstats, write_taskstats, known_counters}
use tsastat.Backend.Taskstats.RoundTrip.{decode_delay_counters-write_taskstats}
use tsastat.Backend.Taskstats.Stable.{HasCounters, snapshot_threads-HasCounters}

abbrev ones : ℕ → Bytes
ones zero = []
ones (suc n) = 1 ∷ ones n

-- Version 9, with the counters up to the reclaim delay.
abbrev payload : Bytes
payload = 9 ∷ 0 ∷ ones 326

decode_delay_counters-IsAvailable_example :
    (is_ok (decode_delay_counters little_endian payload true true)
      ≡ not (is_refused little_endian payload))
    × Gives (IsAvailable payload) (decode_delay_counters little_endian payload true true)
decode_delay_counters-IsAvailable_example =
    decode_delay_counters-IsAvailable little_endian payload true true

abbrev delay : ℕ → Delay
delay n = record { count = n; total = 1000 * n }

-- Version 13 has no counter for interrupts yet.
abbrev written : Taskstats
written = record {
  version = 13;
  exit = ones 14;
  cpu = delay 1;
  block_io = delay 2;
  swap_in = delay 3;
  accounting = ones 248;
  reclaim = delay 4;
  thrashing = delay 5;
  begin_time = ones 8;
  compaction = delay 6;
  identity = ones 32;
  write_protect_copy = delay 7;
  irq = delay 8;
  later = [];
}

decode_delay_counters-write_taskstats_example :
    decode_delay_counters big_endian (write_taskstats big_endian written) true true
    ≡ ok (known_counters written true true)
decode_delay_counters-write_taskstats_example =
    decode_delay_counters-write_taskstats big_endian written
      (record {
        version = omega arith;
        exit = refl;
        cpu = (omega arith, omega arith);
        block_io = (omega arith, omega arith);
        swap_in = (omega arith, omega arith);
        accounting = refl;
        reclaim = (omega arith, omega arith);
        thrashing = (omega arith, omega arith);
        begin_time = refl;
        compaction = (omega arith, omega arith);
        identity = refl;
        write_protect_copy = (omega arith, omega arith);
        irq = (omega arith, omega arith);
      })
      true true (λ e. omega arith) (λ e. omega arith)

abbrev zeros : ℕ → List Bytes
zeros zero = []
zeros (suc n) = (b'0' ∷ []) ∷ zeros n

abbrev stat : FileRead
stat = contents (
    stat_line (record { tid = 7; comm = b'w' ∷ []; state = b'R'; start_time_ticks = 99 }) (zeros 18)
      [])

-- The first attempt's thread is gone from taskstats; the second has its counters.
abbrev directory : Directory Entry
directory = entries (
    record {
      interrupted = none;
      is_dir = true;
      name = b'7' ∷ [];
      first = record {
        started_at = 100;
        before = stat;
        stats = gone;
        after = stat;
        finished_at = 110;
      };
      second = record {
        started_at = 120;
        before = stat;
        stats = counted no_delays;
        after = stat;
        finished_at = 130;
      };
    }
    ∷ [])

abbrev named : Bytes → String
named bytes = "worker"

snapshot_threads-HasCounters_example :
    Takes
      (λ s. All (HasCounters 7 (listed directory)) s.samples)
      (snapshot_threads named 100 140 7 none false directory).1
snapshot_threads-HasCounters_example =
    snapshot_threads-HasCounters named 7 100 140 none false directory
