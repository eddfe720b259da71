-- ===== src/Collector/Accumulator/Delays.antt =====
-- Deltas of the taskstats delay counters, and their allocation to windows in proportion to time.
-- The eight counters of `delayDelta` are a record of their own.
pub mod Parts
use tsastat.Prelude.{
  ℕ, suc, ◌+◌, ◌-◌, ◌%◌, Bool, true, false, ◌||◌, ◌&&◌, not, Option, none, some, ltb, nat_beq,
  if◌then◌else◌, ◌>>=◌, add64, word, sign_bit,
}
use tsastat.Clock.{Time, Duration, time_sub}
use tsastat.Model.Sample.{ThreadSample, DelayCounters, DelayCounter}
use tsastat.Model.Stats.{ThreadIntervalStats, DelayIntervalCounter, DelayIntervalCounters}
use tsastat.Collector.Grid.{Grid, Visitor, for_each_window}
use tsastat.Collector.Counters.{
  share, nanoseconds_duration, DelayCounterDelta, calculate_delay_counter_delta,
}
use tsastat.Collector.Accumulator.Windows.{Windows, with_thread_stats}
use tsastat.Collector.Accumulator.Schedstat.{is_positive, longest}

pub record CounterDeltas : Type 0 where
  pub cpu : DelayCounterDelta
  pub block_io : DelayCounterDelta
  pub swap_in : DelayCounterDelta
  pub reclaim : DelayCounterDelta
  pub thrashing : DelayCounterDelta
  pub compaction : DelayCounterDelta
  pub write_protect_copy : DelayCounterDelta
  pub irq : DelayCounterDelta

pub record DelayDelta : Type 0 where
  pub version : ℕ
  pub accounting_enabled : Bool
  pub accounting_enabled_known : Bool
  pub resets : ℕ
  pub counters : CounterDeltas

unfoldable pub delay_delta : DelayCounters → DelayCounters → DelayDelta
delay_delta previous current =
    let (cpu, r1) = calculate_delay_counter_delta previous.cpu current.cpu 0 in
    let (block_io, r2) = calculate_delay_counter_delta previous.block_io current.block_io r1 in
    let (swap_in, r3) = calculate_delay_counter_delta previous.swap_in current.swap_in r2 in
    let (reclaim, r4) = calculate_delay_counter_delta previous.reclaim current.reclaim r3 in
    let (thrashing, r5) = calculate_delay_counter_delta previous.thrashing current.thrashing r4 in
    let (compaction, r6) =
      calculate_delay_counter_delta previous.compaction current.compaction r5 in
    let (write_protect_copy, r7) =
      calculate_delay_counter_delta previous.write_protect_copy current.write_protect_copy r6 in
    let (irq, r8) = calculate_delay_counter_delta previous.irq current.irq r7 in
    record {
      version = current.version;
      accounting_enabled = current.accounting_enabled;
      accounting_enabled_known = current.accounting_enabled_known;
      resets = r8;
      counters = record {
        cpu = cpu;
        block_io = block_io;
        swap_in = swap_in;
        reclaim = reclaim;
        thrashing = thrashing;
        compaction = compaction;
        write_protect_copy = write_protect_copy;
        irq = irq;
      };
    }

unfoldable pub has_comparable_counter : DelayDelta → Bool
has_comparable_counter d =
    d.counters.cpu.available || d.counters.block_io.available || d.counters.swap_in.available
    || d.counters.reclaim.available || d.counters.thrashing.available
    || d.counters.compaction.available || d.counters.write_protect_copy.available
    || d.counters.irq.available

-- The part of one counter's delta that falls to a span, as addDelayCounterDelta computes it.
unfoldable pub counter_share : ℕ → ℕ → ℕ → DelayCounterDelta → Option DelayCounterDelta
counter_share from to total delta = if not delta.available then some delta else do
  count ← share delta.count from to total
  nanoseconds ← share delta.total_nanoseconds from to total
  some (record { available = true; count = count; total_nanoseconds = nanoseconds })

unfoldable pub counter_shares : ℕ → ℕ → ℕ → CounterDeltas → Option CounterDeltas
counter_shares from to total deltas = do
  cpu ← counter_share from to total deltas.cpu
  block_io ← counter_share from to total deltas.block_io
  swap_in ← counter_share from to total deltas.swap_in
  reclaim ← counter_share from to total deltas.reclaim
  thrashing ← counter_share from to total deltas.thrashing
  compaction ← counter_share from to total deltas.compaction
  write_protect_copy ← counter_share from to total deltas.write_protect_copy
  irq ← counter_share from to total deltas.irq
  some (record {
    cpu = cpu;
    block_io = block_io;
    swap_in = swap_in;
    reclaim = reclaim;
    thrashing = thrashing;
    compaction = compaction;
    write_protect_copy = write_protect_copy;
    irq = irq;
  })

-- The rest of addDelayCounterDelta: the part is added to the window's counter.
unfoldable pub add_counter : DelayCounterDelta → DelayIntervalCounter → DelayIntervalCounter
add_counter part target = if not part.available then target else record {
  available = true;
  count = add64 target.count part.count;
  total = add64 target.total (nanoseconds_duration part.total_nanoseconds);
}

unfoldable pub add_counters : CounterDeltas → DelayIntervalCounters → DelayIntervalCounters
add_counters parts target = record {
  cpu = add_counter parts.cpu target.cpu;
  block_io = add_counter parts.block_io target.block_io;
  swap_in = add_counter parts.swap_in target.swap_in;
  reclaim = add_counter parts.reclaim target.reclaim;
  thrashing = add_counter parts.thrashing target.thrashing;
  compaction = add_counter parts.compaction target.compaction;
  write_protect_copy = add_counter parts.write_protect_copy target.write_protect_copy;
  irq = add_counter parts.irq target.irq;
}

unfoldable pub count_delay_pair : Duration → Duration → ThreadIntervalStats → ThreadIntervalStats
count_delay_pair gap observed stat = record stat {
  delay_observed = add64 stat.delay_observed observed;
  delay_sample_pairs = stat.delay_sample_pairs + 1;
  delay_max_sample_gap = longest gap stat.delay_max_sample_gap;
}

unfoldable pub describe_delays : DelayDelta → ThreadIntervalStats → ThreadIntervalStats
describe_delays delta stat = record stat {
  delay_version = delta.version;
  delay_accounting_enabled = delta.accounting_enabled;
  delay_accounting_enabled_known = delta.accounting_enabled_known;
  delay_counter_resets = stat.delay_counter_resets + delta.resets;
}

unfoldable pub add_delays :
    Duration → Duration → DelayDelta → CounterDeltas → ThreadIntervalStats → ThreadIntervalStats
add_delays gap observed delta parts stat =
    let described = describe_delays delta stat in
    let counted =
      if has_comparable_counter delta then count_delay_pair gap observed described else described in
    record counted { delays = add_counters parts counted.delays }

unfoldable pub delay_visitor : Grid → ThreadSample → DelayDelta → Time → Duration → Visitor Windows
delay_visitor g sample delta start total index overlap_start overlap_end ws = do
  parts ←
      counter_shares (time_sub overlap_start start) (time_sub overlap_end start) total
        delta.counters
  some (
      with_thread_stats g index sample
        (add_delays total (time_sub overlap_end overlap_start) delta parts) ws)

unfoldable pub add_delay_delta :
    Grid → ThreadSample → Time → Time → DelayDelta → Windows → Option Windows
add_delay_delta g sample start end delta ws =
    let total = time_sub end start in
    if not (is_positive total)
    then some ws
    else for_each_window g start end (delay_visitor g sample delta start total) ws

unfoldable pub observe_delays :
    Grid → ThreadSample → ThreadSample → Time → Time → Windows → Option Windows
observe_delays g previous current start end ws =
    let delta = delay_delta previous.delays current.delays in
    if not previous.delays.available || not current.delays.available
    then some ws
    else if not (has_comparable_counter delta) && nat_beq delta.resets 0
    then some ws
    else add_delay_delta g current start end delta ws
