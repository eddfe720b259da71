-- ===== src/Collector/Accumulator/Delays/Parts.antt =====
-- The parts of a delay delta that a visit computes: no division panics.
use tsastat.Prelude.{ℕ, ◌-◌, ◌≤◌, ◌<◌, ◌≡◌, refl, true, not, some, arith, word, if◌then◌else◌}
use tsastat.Model.Sample.{DelayCounter, DelayCounters}
use tsastat.Collector.Counters.{DelayCounterDelta, calculate_delay_counter_delta}
use tsastat.Collector.Counters.Shares.{portion, share-eq}
use tsastat.Collector.Accumulator.Delays.{CounterDeltas, delay_delta, counter_share, counter_shares}

abbrev pub CounterInRange : DelayCounter → Type 0
CounterInRange c = (c.count < word) × (c.total_nanoseconds < word)

pub record DelaysInRange (c : DelayCounters) : Type 0 where
  pub cpu : CounterInRange c.cpu
  pub block_io : CounterInRange c.block_io
  pub swap_in : CounterInRange c.swap_in
  pub reclaim : CounterInRange c.reclaim
  pub thrashing : CounterInRange c.thrashing
  pub compaction : CounterInRange c.compaction
  pub write_protect_copy : CounterInRange c.write_protect_copy
  pub irq : CounterInRange c.irq

abbrev pub DeltaInRange : DelayCounterDelta → Type 0
DeltaInRange d = (d.count < word) × (d.total_nanoseconds < word)

pub record DeltasInRange (d : CounterDeltas) : Type 0 where
  pub cpu : DeltaInRange d.cpu
  pub block_io : DeltaInRange d.block_io
  pub swap_in : DeltaInRange d.swap_in
  pub reclaim : DeltaInRange d.reclaim
  pub thrashing : DeltaInRange d.thrashing
  pub compaction : DeltaInRange d.compaction
  pub write_protect_copy : DeltaInRange d.write_protect_copy
  pub irq : DeltaInRange d.irq

counter_delta-InRange :
    (previous current : DelayCounter) (resets : ℕ)
    → CounterInRange current
    → DeltaInRange (calculate_delay_counter_delta previous current resets).0
unfolding calculate_delay_counter_delta
counter_delta-InRange previous current resets h = ground arith

pub delay_delta-InRange :
    (previous current : DelayCounters)
    → DelaysInRange current
    → DeltasInRange (delay_delta previous current).counters
unfolding delay_delta
delay_delta-InRange p c h = record {
  cpu = counter_delta-InRange p.cpu c.cpu _ h.cpu;
  block_io = counter_delta-InRange p.block_io c.block_io _ h.block_io;
  swap_in = counter_delta-InRange p.swap_in c.swap_in _ h.swap_in;
  reclaim = counter_delta-InRange p.reclaim c.reclaim _ h.reclaim;
  thrashing = counter_delta-InRange p.thrashing c.thrashing _ h.thrashing;
  compaction = counter_delta-InRange p.compaction c.compaction _ h.compaction;
  write_protect_copy =
      counter_delta-InRange p.write_protect_copy c.write_protect_copy _ h.write_protect_copy;
  irq = counter_delta-InRange p.irq c.irq _ h.irq;
}

-- The part of one delta; an unavailable one is passed on.
abbrev pub counter_between : ℕ → ℕ → ℕ → DelayCounterDelta → DelayCounterDelta
counter_between from to total d = if not d.available then d else record {
  available = true;
  count = portion d.count total to - portion d.count total from;
  total_nanoseconds = portion d.total_nanoseconds total to - portion d.total_nanoseconds total from;
}

pub counter_share-eq :
    (d : DelayCounterDelta) (from to total : ℕ)
    → DeltaInRange d
    → 0 < total
    → from ≤ to
    → to ≤ total
    → counter_share from to total d ≡ some (counter_between from to total d)
unfolding counter_share
counter_share-eq d from to total h pos lo hi =
    rw
      (
        share-eq d.count from to total h.0 pos lo hi,
        share-eq d.total_nanoseconds from to total h.1 pos lo hi,
      )
      (ground arith)

abbrev pub counters_between : ℕ → ℕ → ℕ → CounterDeltas → CounterDeltas
counters_between from to total d = record {
  cpu = counter_between from to total d.cpu;
  block_io = counter_between from to total d.block_io;
  swap_in = counter_between from to total d.swap_in;
  reclaim = counter_between from to total d.reclaim;
  thrashing = counter_between from to total d.thrashing;
  compaction = counter_between from to total d.compaction;
  write_protect_copy = counter_between from to total d.write_protect_copy;
  irq = counter_between from to total d.irq;
}

pub counter_shares-eq :
    (d : CounterDeltas) (from to total : ℕ)
    → DeltasInRange d
    → 0 < total
    → from ≤ to
    → to ≤ total
    → counter_shares from to total d ≡ some (counters_between from to total d)
unfolding counter_shares
counter_shares-eq d from to total h pos lo hi =
    rw
      (
        counter_share-eq d.cpu from to total h.cpu pos lo hi,
        counter_share-eq d.block_io from to total h.block_io pos lo hi,
        counter_share-eq d.swap_in from to total h.swap_in pos lo hi,
        counter_share-eq d.reclaim from to total h.reclaim pos lo hi,
        counter_share-eq d.thrashing from to total h.thrashing pos lo hi,
        counter_share-eq d.compaction from to total h.compaction pos lo hi,
        counter_share-eq d.write_protect_copy from to total h.write_protect_copy pos lo hi,
        counter_share-eq d.irq from to total h.irq pos lo hi,
      )
      refl
