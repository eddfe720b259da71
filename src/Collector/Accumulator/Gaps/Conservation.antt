-- ===== src/Collector/Accumulator/Gaps/Conservation.antt =====
-- A gap that is still open books every nanosecond of it, once, to the states of its two ends.
use tsastat.Prelude.{
  ℕ, ◌+◌, ◌-◌, ◌/◌, ◌≤◌, ◌<◌, ◌≡◌, false, not, inl, inr, Bool-cases, arith, sign_bit, SameWord,
  Returns, Returns-bind, Returns-weaken, ◌>>=◌, if◌then◌else◌,
}
use tsastat.Clock.{Time, Duration, after}
use tsastat.Model.State.{ThreadState, state_beq}
use tsastat.Model.Sample.{ThreadSample, ThreadIdentity, identity, identity_eq}
use tsastat.Collector.Grid.{Grid, clip, InHorizon}
use tsastat.Collector.Totals.{Meter, IsMeter, credit, total_of}
use tsastat.Collector.Totals.Spans.{IsOpen}
use tsastat.Collector.Accumulator.Windows.{Windows}
use tsastat.Collector.Accumulator.Meters.{IsStateMeter, time_in, spent, observed}
use tsastat.Collector.Accumulator.Schedstat.{observe_schedstat}
use tsastat.Collector.Accumulator.Delays.{observe_delays}
use tsastat.Collector.Accumulator.Schedstat.Parts.{SchedstatInRange}
use tsastat.Collector.Accumulator.Delays.Parts.{DelaysInRange}
use tsastat.Collector.Accumulator.Gaps.{
  add_segment, record_transition, record_gap, observe_gap, observe_disappearance,
}
use tsastat.Collector.Accumulator.Gaps.Quiet.{
  observe_schedstat-total, observe_delays-total, record_gap-total, record_transition-total,
}
use tsastat.Collector.Accumulator.Gaps.Segments.{
  midpoint_time-eq, IsEarned, time_in-IsEarned, observed-IsEarned, add_segment-total,
}

-- What a gap between two readings of a thread adds to a quantity: all of it for one state, or the
-- first half for the old state and the rest for the new one.
abbrev pub gap_amount :
    (ThreadState → Duration → ℕ) → ThreadIdentity → ThreadSample → ThreadSample → Duration → ℕ
gap_amount earned key previous current gap =
    if state_beq previous.state current.state
    then credit (identity previous) key (earned previous.state gap)
    else credit (identity previous) key (earned previous.state (gap / 2))
      + credit (identity current) key (earned current.state (gap - gap / 2))

-- A gap that can be booked: it begins after what has been reported, and its counters are words.
pub record IsGap (g : Grid) (previous current : ThreadSample) (end : Time) : Type 0 where
  pub horizon : InHorizon g end
  pub after_origin : g.origin ≤ previous.timestamp
  pub nonempty : previous.timestamp < end
  pub still_open : IsOpen g previous.timestamp
  pub schedstat : SchedstatInRange current.schedstat
  pub delays : DelaysInRange current.delays

module _ (f : Meter) (earned : ThreadState → Duration → ℕ)
    (e : (state : ThreadState) → IsEarned f state (earned state)) (g : Grid) (key : ThreadIdentity)
    (previous current : ThreadSample) (end : Time) (gap : IsGap g previous current end) where
  open gap use {horizon, after_origin, nonempty, still_open}

  abbrev start : Time
  start = previous.timestamp

  abbrev middle : Time
  middle = start + (end - start) / 2

  middle_bounds :
      (start ≤ middle)
      × (middle ≤ end)
      × (middle - start ≡ (end - start) / 2)
      × (end - middle ≡ (end - start) - (end - start) / 2)
      × InHorizon g middle
      × (end - start < sign_bit)
  middle_bounds = (
    omega arith,
    omega (arith, gap),
    omega arith,
    omega (arith, gap),
    record { positive = horizon.positive; room = omega (arith, gap, horizon.room) },
    omega (arith, gap, horizon.room),
  )

  quiet : IsStateMeter f
  quiet = (e previous.state).quiet

  meter : IsMeter f
  meter = (e previous.state).meter

  clipped : clip g start ≡ start
  clipped = ground (arith, gap.after_origin)

  clip-IsOpen : IsOpen g (clip g start)
  clip-IsOpen = rw clipped still_open

  halves-total :
      (ws : Windows) (second : ThreadState) (other : ThreadSample)
      → Returns
          (do
            ws₄ ← add_segment g previous previous.state start middle ws
            ws₅ ← add_segment g other second middle end ws₄
            record_transition g other start middle end ws₅)
          (λ ws'. SameWord (total_of f key ws') (
            total_of f key ws
            + credit (identity previous) key (earned previous.state ((end - start) / 2))
            + credit (identity other) key (earned second ((end - start) - (end - start) / 2))))
  halves-total ws second other =
      Returns-bind (add_segment g previous previous.state start middle ws) _
        (add_segment-total f previous.state (earned previous.state) (e previous.state) g start
          middle key previous ws (middle_bounds.4) after_origin (middle_bounds.0) still_open)
        λ ws₄ p₄.
          Returns-bind (add_segment g other second middle end ws₄) _
            (add_segment-total f second (earned second) (e second) g middle end key other ws₄
              horizon (omega (arith, middle_bounds.0, gap)) (middle_bounds.1)
              (omega (arith, middle_bounds.0, gap)))
            λ ws₅ p₅.
              Returns-weaken (record_transition g other start middle end ws₅)
                (λ ws' p.
                  let first = rw (middle_bounds.2) at p₄ in
                  let rest = rw (middle_bounds.3) at p₅ in omega (arith, p, first, rest))
                (record_transition-total g start end horizon clip-IsOpen nonempty
                  (omega (arith, gap)) f meter quiet key other middle ws₅)

  -- The gap's time is booked whole, whatever the counters do.
  pub observe_gap-total :
      (ws : Windows)
      → Returns (observe_gap g previous current end ws) (λ ws'.
        SameWord
          (total_of f key ws')
          (total_of f key ws + gap_amount earned key previous current (end - start)))
  unfolding observe_gap
  observe_gap-total ws =
      let shown : not (after end start) ≡ false = ground (arith, nonempty) in
      rw (midpoint_time-eq start end (omega (arith, gap)) (middle_bounds.5), shown)
        (Returns-bind (observe_schedstat g previous current start end ws) _
          (observe_schedstat-total g start end horizon clip-IsOpen nonempty (omega (arith, gap)) f
            meter quiet key previous current ws gap.schedstat)
          λ ws₁ p₁.
            Returns-bind (observe_delays g previous current start end ws₁) _
              (observe_delays-total g start end horizon clip-IsOpen nonempty (omega (arith, gap)) f
                meter quiet key previous current ws₁ gap.delays)
              λ ws₂ p₂.
                Returns-bind (record_gap g previous start end ws₂) _
                  (record_gap-total g start end horizon clip-IsOpen nonempty (omega (arith, gap)) f
                    meter quiet key previous ws₂)
                  λ ws₃ p₃. elim (Bool-cases (state_beq previous.state current.state)) [
                    | inl same ↦ rw same (
                        Returns-weaken (add_segment g previous previous.state start end ws₃)
                          (λ ws' p. omega (arith, p, p₁, p₂, p₃))
                          (add_segment-total f previous.state (earned previous.state)
                            (e previous.state) g start end key previous ws₃ horizon after_origin
                            (omega (arith, gap)) still_open))
                    | inr changed ↦ rw changed (
                        Returns-weaken _ (λ ws' p. omega (arith, p, p₁, p₂, p₃))
                          (halves-total ws₃ current.state current))
                  ])

  -- A thread that has gone is booked to its last state for the first half, and to no known state
  -- for the second.
  pub observe_disappearance-total :
      (ws : Windows)
      → Returns (observe_disappearance g previous end ws) (λ ws'. SameWord (total_of f key ws') (
          total_of f key ws
          + credit (identity previous) key (earned previous.state ((end - start) / 2))
          + credit
              (identity previous)
              key
              (earned ThreadState.unknown ((end - start) - (end - start) / 2))))
  unfolding observe_disappearance
  observe_disappearance-total ws =
      let shown : not (after end start) ≡ false = ground (arith, nonempty) in
      rw (midpoint_time-eq start end (omega (arith, gap)) (middle_bounds.5), shown)
        (Returns-bind (record_gap g previous start end ws) _
          (record_gap-total g start end horizon clip-IsOpen nonempty (omega (arith, gap)) f meter
            quiet key previous ws)
          λ ws₁ p₁.
            Returns-weaken _ (λ ws' p. omega (arith, p, p₁))
              (halves-total ws₁ ThreadState.unknown previous))

module _ (g : Grid) (key : ThreadIdentity) (previous current : ThreadSample) (end : Time)
    (gap : IsGap g previous current end) (ws : Windows) where
  -- observeGap returns, and over all windows together it adds to the thread's time in each state:
  -- the whole gap if both ends show one state, else half of it, rounded down, for the first state
  -- and the rest for the second; to other states and threads nothing. The gap is not empty,
  -- begins at or after the origin and the end of the reported windows, and ends in the horizon;
  -- the counters of the second reading are 64-bit words. Sums are 64-bit words.
  pub observe_gap-time_in :
      (wanted : ThreadState)
      → Returns (observe_gap g previous current end ws) (λ ws'.
        SameWord (total_of (time_in wanted) key ws') (
          total_of (time_in wanted) key ws
          + gap_amount
              (λ state. spent state wanted)
              key
              previous
              current
              (end - previous.timestamp)))
  observe_gap-time_in wanted =
      observe_gap-total (time_in wanted) (λ state. spent state wanted) (time_in-IsEarned wanted) g
        key previous current end gap ws

  -- observeGap between two readings of one thread returns, and over all windows together the
  -- observed time of that thread grows by exactly the length of the gap, and that of other
  -- threads does not. The gap is not empty, begins at or after the origin and the end of the
  -- reported windows, and ends in the horizon; the counters of the second reading are 64-bit
  -- words. Sums are 64-bit words.
  pub observe_gap-observed :
      identity previous ≡ identity current
      → Returns (observe_gap g previous current end ws) (λ ws'.
        SameWord
          (total_of observed key ws')
          (total_of observed key ws + credit (identity previous) key (end - previous.timestamp)))
  observe_gap-observed same =
      Returns-weaken (observe_gap g previous current end ws) (λ ws' p. omega (arith, p, whole))
        (observe_gap-total observed (λ _ d. d) observed-IsEarned g key previous current end gap ws)
    where
      whole :
          gap_amount (λ _ d. d) key previous current (end - previous.timestamp)
          ≡ credit (identity previous) key (end - previous.timestamp)
      whole = rw (← same) (ground arith)

  -- observeDisappearance returns, and over all windows together it adds the first half of the
  -- gap, rounded down, to the thread's time in its last state, and the rest to its time in the
  -- unknown state; to other states and threads nothing. The gap is as for observeGap.
  pub observe_disappearance-time_in :
      (wanted : ThreadState)
      → Returns (observe_disappearance g previous end ws) (λ ws'.
        SameWord (total_of (time_in wanted) key ws') (
          total_of (time_in wanted) key ws
          + credit
              (identity previous)
              key
              (spent previous.state wanted ((end - previous.timestamp) / 2))
          + credit (identity previous) key (
              spent ThreadState.unknown wanted
                ((end - previous.timestamp) - (end - previous.timestamp) / 2))))
  observe_disappearance-time_in wanted =
      observe_disappearance-total (time_in wanted) (λ state. spent state wanted)
        (time_in-IsEarned wanted) g key previous current end gap ws
