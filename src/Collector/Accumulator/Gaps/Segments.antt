-- ===== src/Collector/Accumulator/Gaps/Segments.antt =====
-- A segment of one thread in one state is booked to the windows that it overlaps, each nanosecond
-- once.
use tsastat.Prelude.{
  ℕ, ◌+◌, ◌-◌, ◌/◌, ◌≤◌, ◌<◌, ◌≡◌, refl, inl, inr, Bool-cases, arith, sign_bit, SameWord, Returns,
  Returns-some, Returns-weaken,
}
use tsastat.Clock.{Time, Duration, after, time_sub, time_sub-eq, time_add-eq, half-eq}
use tsastat.Model.State.{ThreadState}
use tsastat.Model.Sample.{ThreadSample, ThreadIdentity, identity, identity_eq}
use tsastat.Collector.Grid.{Grid, clip, InHorizon, Piece, for_each_window}
use tsastat.Collector.Grid.Walk.{for_each_window_empty}
use tsastat.Collector.Totals.{Meter, IsMeter, Adds, credit, total_of, with_thread_stats-total}
use tsastat.Collector.Totals.Spans.{IsOpen, for_each_window-total}
use tsastat.Collector.Accumulator.Windows.{Windows}
use tsastat.Collector.Accumulator.Meters.{
  IsStateMeter, time_in, time_in-IsMeter, time_in-IsStateMeter, spent, add_state_time-time_in,
  observed, observed-IsMeter, observed-IsStateMeter, add_state_time-observed,
}
use tsastat.Collector.Accumulator.Gaps.{midpoint_time, add_state_time, segment_visitor, add_segment}

-- The middle of a gap that is not too long.
pub midpoint_time-eq :
    (start end : Time)
    → start ≤ end
    → end - start < sign_bit
    → midpoint_time start end ≡ start + (end - start) / 2
unfolding midpoint_time
midpoint_time-eq start end le fits =
    rw (time_sub-eq end start le fits, half-eq (end - start) fits)
      (time_add-eq start ((end - start) / 2) (omega arith))

-- The part of a segment that a quantity counts.
pub record IsEarned (f : Meter) (state : ThreadState) (earned : Duration → ℕ) : Type 0 where
  pub meter : IsMeter f
  pub quiet : IsStateMeter f
  pub adds : (delta : Duration) → Adds f (earned delta) (add_state_time state delta)
  pub linear : (x y : ℕ) → earned (x + y) ≡ earned x + earned y

pub time_in-IsEarned :
    (wanted state : ThreadState) → IsEarned (time_in wanted) state (spent state wanted)
time_in-IsEarned wanted state = record {
  meter = time_in-IsMeter wanted;
  quiet = time_in-IsStateMeter wanted;
  adds = add_state_time-time_in wanted state;
  linear = λ x y. ground arith;
}

pub observed-IsEarned : (state : ThreadState) → IsEarned observed state (λ d. d)
observed-IsEarned state = record {
  meter = observed-IsMeter;
  quiet = observed-IsStateMeter;
  adds = add_state_time-observed state;
  linear = λ x y. refl;
}

module _ (f : Meter) (state : ThreadState) (earned : Duration → ℕ) (e : IsEarned f state earned)
    (g : Grid) (start end : Time) (key : ThreadIdentity) (sample : ThreadSample) where
  earned_between :
      (from to : Time)
      → start ≤ from
      → from ≤ to
      → credit (identity sample) key (earned (to - start))
        ≡ credit (identity sample) key (earned (from - start))
          + credit (identity sample) key (earned (to - from))
  earned_between from to lo hi =
      let split : to - start ≡ (from - start) + (to - from) = omega arith in
      rw split (ground (arith, e.linear (from - start) (to - from)))

  nothing_earned : (n : ℕ) → n ≡ 0 → credit (identity sample) key (earned n) ≡ 0
  nothing_earned n h = rw h (ground (arith, e.linear 0 0))

  segment_visitor-total :
      (index : ℕ) (from to : Time) (ws : Windows)
      → InHorizon g end
      → start ≤ from
      → Piece g end index from to
      → Returns (segment_visitor g sample state index from to ws) (λ ws'.
        SameWord (total_of f key ws') (
          total_of f key ws
          + (credit (identity sample) key (earned (to - start))
              - credit (identity sample) key (earned (from - start)))))
  unfolding segment_visitor
  segment_visitor-total index from to ws h low piece =
      let exact : time_sub to from ≡ to - from =
        time_sub-eq to from (omega (arith, piece)) (omega (arith, piece, h.room)) in
      rw exact (
        Returns-some _ (
          omega (
            arith,
            earned_between from to low (omega (arith, piece)),
            with_thread_stats-total f e.meter key g index (earned (to - from)) sample
                (add_state_time state (to - from)) ws (e.adds (to - from)),
          )))

  -- A segment's time goes to one thread and one state.
  pub add_segment-total :
      (ws : Windows)
      → InHorizon g end
      → g.origin ≤ start
      → start ≤ end
      → IsOpen g start
      → Returns (add_segment g sample state start end ws) (λ ws'.
        SameWord
          (total_of f key ws')
          (total_of f key ws + credit (identity sample) key (earned (end - start))))
  unfolding add_segment
  add_segment-total ws h lo le o = elim (Bool-cases (after end start)) [
    | inl later ↦
        Returns-weaken (for_each_window g start end (segment_visitor g sample state) ws)
          (λ ws' p. omega (arith, p, none_yet, clipped))
          (for_each_window-total g (segment_visitor g sample state) start end h f key booked
            booked_mono
            (λ index from to s piece low.
              segment_visitor-total index from to s h (ground arith) piece)
            (rw clipped o) ws (ground arith) (ground arith))
    | inr empty ↦
        rw (for_each_window_empty g start end (segment_visitor g sample state) ws (ground arith))
          (Returns-some ws (omega (arith, nothing_earned (end - start) (ground arith))))
  ]
    where
      booked : Time → ℕ
      booked t = credit (identity sample) key (earned (t - start))

      booked_mono : (x y : Time) → x ≤ y → booked x ≤ booked y
      booked_mono x y le' =
          let split : y - start ≡ (x - start) + ((y - start) - (x - start)) = omega arith in
          rw split (ground (arith, e.linear (x - start) ((y - start) - (x - start))))

      clipped : clip g start ≡ start
      clipped = ground arith

      none_yet : booked (clip g start) ≡ 0
      none_yet = nothing_earned (clip g start - start) (ground arith)
