-- ===== src/Collector/Counters/Deltas.antt =====
-- The delta of one delay counter.
use tsastat.Prelude.{
  ℕ, ◌+◌, ◌<◌, ◌≡◌, ◌⊎◌, inl, inr, refl, true, false, Bool-cases, not, ◌||◌, arith, ltb,
}
use tsastat.Model.Sample.{DelayCounter}
use tsastat.Collector.Counters.{DelayCounterDelta, no_delta, calculate_delay_counter_delta}

-- What the delta of two readings comes to: `r` holds the delta and the number of resets after it.
pub data Compared (previous current : DelayCounter) (resets : ℕ) (r : DelayCounterDelta × ℕ)
    : Type 0 where
  -- Neither figure went back, and the delta leads from the first reading to the second.
  grown :
      previous.available ≡ true
      → current.available ≡ true
      → r.0.available ≡ true
      → previous.count + r.0.count ≡ current.count
      → previous.total_nanoseconds + r.0.total_nanoseconds ≡ current.total_nanoseconds
      → r.1 ≡ resets
      → Compared previous current resets r
  -- A figure went back.
  went_back :
      previous.available ≡ true
      → current.available ≡ true
      → (current.count < previous.count) ⊎ (current.total_nanoseconds < previous.total_nanoseconds)
      → r ≡ (no_delta, resets + 1)
      → Compared previous current resets r
  -- A reading lacks the counter.
  missing :
      (previous.available ≡ false) ⊎ (current.available ≡ false)
      → r ≡ (no_delta, resets)
      → Compared previous current resets r

-- calculateDelayCounterDelta: if both readings have the counter and neither of its figures went
-- back, the delta leads from the first reading to the second and no reset is counted; if one went
-- back, the delta is empty and one reset is counted; if a reading lacks the counter, the delta is
-- empty and no reset is counted.
pub calculate_delay_counter_delta-Compared :
    (previous current : DelayCounter) (resets : ℕ)
    → Compared previous current resets (calculate_delay_counter_delta previous current resets)
unfolding calculate_delay_counter_delta
calculate_delay_counter_delta-Compared previous current resets =
    elim (Bool-cases (not previous.available || not current.available)) [
      | inl lacks ↦ rw lacks (missing (ground (arith, lacks)) refl)
      | inr both ↦
          elim (Bool-cases (
            ltb current.count previous.count
            || ltb current.total_nanoseconds previous.total_nanoseconds)) [
              | inl back ↦
                  rw (both, back)
                    (went_back (ground (arith, both)) (ground (arith, both)) (ground (arith, back))
                      refl)
              | inr fine ↦
                  rw (both, fine)
                    (grown (ground (arith, both)) (ground (arith, both)) refl (ground (arith, fine))
                      (ground (arith, fine)) refl)
            ]
    ]
