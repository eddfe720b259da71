-- ===== src/Backend/Taskstats/RoundTrip.antt =====
-- The counters that the kernel writes into its struct taskstats are read back.
use tsastat.Prelude.{
  ℕ, ◌+◌, ◌≡◌, ◌≢◌, refl, ap, ◌∙◌, ◌||◌, Bool, false, [], ◌++◌, arith, ltb, nat_beq,
}
use tsastat.Text.{Bytes, length}
use tsastat.Text.Fields.{append_assoc}
use tsastat.Text.Binary.{ByteOrder, write_uint}
use tsastat.Text.Layout.{sizes, field_at}
use tsastat.Model.Sources.{ok}
use tsastat.Backend.Taskstats.Decode.{
  uint_at, decode_delay_counter, decode_versioned_delay_counter, decode_delay_counters,
}
use tsastat.Backend.Taskstats.Layout.{
  Delay, Taskstats, write_delay, write_taskstats, FitsDelay, Fits, since, known_counters,
}

-- A counter is read where it stands.
counter_at :
    (order : ByteOrder) (version first offset total : ℕ) (d : Delay) (bs before rest : Bytes)
    → bs ≡ before ++ (write_delay order d ++ rest)
    → length before ≡ offset
    → offset + 8 ≡ total
    → FitsDelay d
    → decode_versioned_delay_counter order bs version first offset total ≡ since first version d
unfolding decode_versioned_delay_counter decode_delay_counter
counter_at order version first offset total d bs before rest parts at next fits =
    let size : length bs ≡ offset + (16 + length rest) =
      ap length parts ∙ simp (sizes, at) (omega arith) in
    let count : uint_at order 8 offset bs ≡ d.count =
      field_at order 8 offset d.count bs before (write_uint order 8 d.total ++ rest)
        (parts ∙ simp append_assoc refl) at fits.0 in
    let time : uint_at order 8 total bs ≡ d.total =
      field_at order 8 total d.total bs (before ++ write_uint order 8 d.count) rest
        (parts ∙ simp append_assoc refl) (simp (sizes, at, next) refl) fits.1 in
    let long : (ltb (length bs) (offset + 8) || ltb (length bs) (total + 8)) ≡ false =
      ground (arith, size, next) in
    rw (long, count, time) refl

module _ (order : ByteOrder) (t : Taskstats) (fits : Fits t) where
  abbrev written : Bytes
  written = write_taskstats order t

  -- What stands behind a counter, and in front of it.
  abbrev after_irq : Bytes
  after_irq = t.later

  abbrev after_write_protect_copy : Bytes
  after_write_protect_copy = write_delay order t.irq ++ after_irq

  abbrev after_compaction : Bytes
  after_compaction =
      t.identity ++ (write_delay order t.write_protect_copy ++ after_write_protect_copy)

  abbrev after_thrashing : Bytes
  after_thrashing = t.begin_time ++ (write_delay order t.compaction ++ after_compaction)

  abbrev after_reclaim : Bytes
  after_reclaim = write_delay order t.thrashing ++ after_thrashing

  abbrev after_swap_in : Bytes
  after_swap_in = t.accounting ++ (write_delay order t.reclaim ++ after_reclaim)

  abbrev after_block_io : Bytes
  after_block_io = write_delay order t.swap_in ++ after_swap_in

  abbrev after_cpu : Bytes
  after_cpu = write_delay order t.block_io ++ after_block_io

  abbrev before_cpu : Bytes
  before_cpu = write_uint order 2 t.version ++ t.exit

  abbrev before_block_io : Bytes
  before_block_io = before_cpu ++ (write_delay order t.cpu)

  abbrev before_swap_in : Bytes
  before_swap_in = before_block_io ++ (write_delay order t.block_io)

  abbrev before_reclaim : Bytes
  before_reclaim = before_swap_in ++ (write_delay order t.swap_in ++ t.accounting)

  abbrev before_thrashing : Bytes
  before_thrashing = before_reclaim ++ (write_delay order t.reclaim)

  abbrev before_compaction : Bytes
  before_compaction = before_thrashing ++ (write_delay order t.thrashing ++ t.begin_time)

  abbrev before_write_protect_copy : Bytes
  before_write_protect_copy = before_compaction ++ (write_delay order t.compaction ++ t.identity)

  abbrev before_irq : Bytes
  before_irq = before_write_protect_copy ++ (write_delay order t.write_protect_copy)

  abbrev Reads : ℕ → ℕ → ℕ → Delay → Type 0
  Reads first offset total d =
      decode_versioned_delay_counter order written t.version first offset total
      ≡ since first t.version d

  cpu_read : Reads 1 16 24 t.cpu
  unfolding write_taskstats
  cpu_read =
      counter_at order t.version 1 16 24 t.cpu written before_cpu after_cpu (simp append_assoc refl)
        (simp (sizes, fits.exit) refl) refl fits.cpu

  block_io_read : Reads 1 32 40 t.block_io
  unfolding write_taskstats
  block_io_read =
      counter_at order t.version 1 32 40 t.block_io written before_block_io after_block_io
        (simp append_assoc refl) (simp (sizes, fits.exit) refl) refl fits.block_io

  swap_in_read : Reads 1 48 56 t.swap_in
  unfolding write_taskstats
  swap_in_read =
      counter_at order t.version 1 48 56 t.swap_in written before_swap_in after_swap_in
        (simp append_assoc refl) (simp (sizes, fits.exit) refl) refl fits.swap_in

  reclaim_read : Reads 7 312 320 t.reclaim
  unfolding write_taskstats
  reclaim_read =
      counter_at order t.version 7 312 320 t.reclaim written before_reclaim after_reclaim
        (simp append_assoc refl) (simp (sizes, fits.exit, fits.accounting) refl) refl fits.reclaim

  thrashing_read : Reads 9 328 336 t.thrashing
  unfolding write_taskstats
  thrashing_read =
      counter_at order t.version 9 328 336 t.thrashing written before_thrashing after_thrashing
        (simp append_assoc refl) (simp (sizes, fits.exit, fits.accounting) refl) refl fits.thrashing

  compaction_read : Reads 11 352 360 t.compaction
  unfolding write_taskstats
  compaction_read =
      counter_at order t.version 11 352 360 t.compaction written before_compaction after_compaction
        (simp append_assoc refl) (simp (sizes, fits.exit, fits.accounting, fits.begin_time) refl)
        refl fits.compaction

  write_protect_copy_read : Reads 13 400 408 t.write_protect_copy
  unfolding write_taskstats
  write_protect_copy_read =
      counter_at order t.version 13 400 408 t.write_protect_copy written before_write_protect_copy
        after_write_protect_copy (simp append_assoc refl)
        (simp (sizes, fits.exit, fits.accounting, fits.begin_time, fits.identity) refl) refl
        fits.write_protect_copy

  irq_read : Reads 14 416 424 t.irq
  unfolding write_taskstats
  irq_read =
      counter_at order t.version 14 416 424 t.irq written before_irq after_irq
        (simp append_assoc refl)
        (simp (sizes, fits.exit, fits.accounting, fits.begin_time, fits.identity) refl) refl
        fits.irq

  version_read : uint_at order 2 0 written ≡ t.version
  unfolding write_taskstats
  version_read =
      field_at order 2 0 t.version written [] (t.exit ++ (write_delay order t.cpu ++ after_cpu))
        refl refl fits.version

  long_enough : ltb (length written) 64 ≡ false
  unfolding write_taskstats
  long_enough =
      let size : length written ≡ 432 + length t.later =
        simp (sizes, fits.exit, fits.accounting, fits.begin_time, fits.identity) (omega arith) in
      ground (arith, size)

  -- decodeDelayCounters of a struct that the kernel has written, in either byte order, are the counters
  -- that the struct's version has, each with the count and the time written for it, and the others are
  -- not available. The version is neither 0 nor 15, the numbers fit in their fields, and the bytes in
  -- between have their sizes.
  pub decode_delay_counters-write_taskstats :
      (enabled known : Bool)
      → t.version ≢ 0
      → t.version ≢ 15
      → decode_delay_counters order (write_taskstats order t) enabled known
        ≡ ok (known_counters t enabled known)
  unfolding decode_delay_counters
  decode_delay_counters-write_taskstats enabled known positive known_layout =
      let not_zero : nat_beq t.version 0 ≡ false = ground (arith, positive) in
      let not_fifteen : nat_beq t.version 15 ≡ false = ground (arith, known_layout) in
      rw (long_enough, version_read)
        (rw (not_zero, not_fifteen)
          (rw
            (
              cpu_read, block_io_read, swap_in_read, reclaim_read, thrashing_read, compaction_read,
              write_protect_copy_read, irq_read,
            )
            refl))
