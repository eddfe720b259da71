-- ===== src/Backend/Taskstats/Decode.antt =====
-- internal/backend/taskstats/decode.go: the delay counters of a taskstats payload.
use tsastat.Prelude.{ℕ, ◌+◌, Bool, true, ◌||◌, ltb, nat_beq, if◌then◌else◌}
use tsastat.Text.{Bytes, length, take, drop}
use tsastat.Text.Binary.{ByteOrder, native_uint}
use tsastat.Model.Sample.{DelayCounter, DelayCounters, no_counter}
use tsastat.Model.Sources.{other, Fallible, ok, err}

-- The number that `size` bytes at `offset` hold.
abbrev pub uint_at : ByteOrder → ℕ → ℕ → Bytes → ℕ
uint_at order size offset payload = native_uint order (take size (drop offset payload))

-- The offsets are not negative.
unfoldable pub decode_delay_counter : ByteOrder → Bytes → ℕ → ℕ → DelayCounter
decode_delay_counter order payload count_offset total_offset =
    if ltb (length payload) (count_offset + 8) || ltb (length payload) (total_offset + 8)
    then no_counter
    else record {
      available = true;
      count = uint_at order 8 count_offset payload;
      total_nanoseconds = uint_at order 8 total_offset payload;
    }

unfoldable pub decode_versioned_delay_counter : ByteOrder → Bytes → ℕ → ℕ → ℕ → ℕ → DelayCounter
decode_versioned_delay_counter order payload version minimum count_offset total_offset =
    if ltb version minimum
    then no_counter
    else decode_delay_counter order payload count_offset total_offset

abbrev pub decoded : ByteOrder → Bytes → ℕ → Bool → Bool → DelayCounters
decoded order payload version enabled known =
    let counter = decode_versioned_delay_counter order payload version in
    record {
      available = true;
      version = version;
      accounting_enabled = enabled;
      accounting_enabled_known = known;
      cpu = counter 1 16 24;
      block_io = counter 1 32 40;
      swap_in = counter 1 48 56;
      reclaim = counter 7 312 320;
      thrashing = counter 9 328 336;
      compaction = counter 11 352 360;
      write_protect_copy = counter 13 400 408;
      irq = counter 14 416 424;
    }

-- decodeDelayCounters: version 15 has another layout.
unfoldable pub decode_delay_counters : ByteOrder → Bytes → Bool → Bool → Fallible DelayCounters
decode_delay_counters order payload enabled known =
    let version = uint_at order 2 0 payload in
    if ltb (length payload) 64
    then err other
    else if nat_beq version 0
    then err other
    else if nat_beq version 15
    then err other
    else ok (decoded order payload version enabled known)
