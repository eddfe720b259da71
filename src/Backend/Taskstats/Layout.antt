-- ===== src/Backend/Taskstats/Layout.antt =====
-- The struct taskstats that the kernel writes, and the counters that it holds.
use tsastat.Prelude.{ℕ, ◌<◌, ◌≡◌, Bool, true, ◌++◌, ltb, if◌then◌else◌, ◌^◌, word}
use tsastat.Text.{Bytes, length}
use tsastat.Text.Binary.{ByteOrder, write_uint}
use tsastat.Model.Sample.{DelayCounter, DelayCounters, no_counter}

-- How often and for how long a thread has been delayed.
pub record Delay : Type 0 where
  pub count : ℕ
  pub total : ℕ

-- struct taskstats of the kernel's linux/taskstats.h; what is not read is bytes.
pub record Taskstats : Type 0 where
  pub version : ℕ
  pub exit : Bytes
  pub cpu : Delay
  pub block_io : Delay
  pub swap_in : Delay
  pub accounting : Bytes
  pub reclaim : Delay
  pub thrashing : Delay
  pub begin_time : Bytes
  pub compaction : Delay
  pub identity : Bytes
  pub write_protect_copy : Delay
  pub irq : Delay
  pub later : Bytes

abbrev pub write_delay : ByteOrder → Delay → Bytes
write_delay order d = write_uint order 8 d.count ++ write_uint order 8 d.total

unfoldable pub write_taskstats : ByteOrder → Taskstats → Bytes
write_taskstats order t =
    write_uint order 2 t.version
    ++ (t.exit
        ++ (write_delay order t.cpu
            ++ (write_delay order t.block_io
                ++ (write_delay order t.swap_in
                    ++ (t.accounting
                        ++ (write_delay order t.reclaim
                            ++ (write_delay order t.thrashing
                                ++ (t.begin_time
                                    ++ (write_delay order t.compaction
                                        ++ (t.identity
                                            ++ (write_delay order t.write_protect_copy
                                                ++ (write_delay order t.irq ++ t.later))))))))))))

abbrev pub FitsDelay : Delay → Type 0
FitsDelay d = (d.count < word) × (d.total < word)

-- The numbers fit, and the bytes in between have the sizes that they have in the kernel's struct.
pub record Fits (t : Taskstats) : Type 0 where
  pub version : t.version < 2 ^ 16
  pub exit : length t.exit ≡ 14
  pub cpu : FitsDelay t.cpu
  pub block_io : FitsDelay t.block_io
  pub swap_in : FitsDelay t.swap_in
  pub accounting : length t.accounting ≡ 248
  pub reclaim : FitsDelay t.reclaim
  pub thrashing : FitsDelay t.thrashing
  pub begin_time : length t.begin_time ≡ 8
  pub compaction : FitsDelay t.compaction
  pub identity : length t.identity ≡ 32
  pub write_protect_copy : FitsDelay t.write_protect_copy
  pub irq : FitsDelay t.irq

-- A counter that came with a version of the struct.
abbrev pub since : ℕ → ℕ → Delay → DelayCounter
since first version d =
    if ltb version first
    then no_counter
    else record { available = true; count = d.count; total_nanoseconds = d.total }

abbrev pub known_counters : Taskstats → Bool → Bool → DelayCounters
known_counters t enabled known = record {
  available = true;
  version = t.version;
  accounting_enabled = enabled;
  accounting_enabled_known = known;
  cpu = since 1 t.version t.cpu;
  block_io = since 1 t.version t.block_io;
  swap_in = since 1 t.version t.swap_in;
  reclaim = since 7 t.version t.reclaim;
  thrashing = since 9 t.version t.thrashing;
  compaction = since 11 t.version t.compaction;
  write_protect_copy = since 13 t.version t.write_protect_copy;
  irq = since 14 t.version t.irq;
}
