-- ===== src/Collector/Accumulator/Observe/Returning.antt =====
-- The bookkeeping of one thread returns, wherever its last reading lies: no loop runs on and no
-- division panics.
use tsastat.Prelude.{
  ℕ, ◌≤◌, ◌<◌, ◌≡◌, inl, inr, not, ◌&&◌, ◌||◌, Bool-cases, nat_beq, Option, some, arith, leb,
  Returns, Returns-some, Returns-bind, Returns-if, Returns-weaken, ◌>>=◌,
}
use tsastat.Clock.{Time, after, time_sub, time_add, half, time_sub_mono, time_sub_pos}
use tsastat.Model.State.{ThreadState, state_beq}
use tsastat.Model.Sample.{ThreadSample}
use tsastat.Collector.Grid.{Grid, Visitor, visit, InHorizon, Piece, for_each_window}
use tsastat.Collector.Grid.Walk.{for_each_window_rule}
use tsastat.Collector.Accumulator.Windows.{Windows}
use tsastat.Collector.Accumulator.Schedstat.{
  SchedstatDelta, is_positive, schedstat_visitor, add_schedstat_delta, record_schedstat_reset,
  observe_schedstat, schedstat_went_down,
}
use tsastat.Collector.Accumulator.Schedstat.Parts.{
  SchedstatInRange, DeltaInRange, schedstat_delta-InRange, schedstat_share-eq,
}
use tsastat.Collector.Accumulator.Delays.{
  DelayDelta, delay_delta, delay_visitor, add_delay_delta, observe_delays, has_comparable_counter,
}
use tsastat.Collector.Accumulator.Delays.Parts.{
  DelaysInRange, DeltasInRange, delay_delta-InRange, counter_shares-eq,
}
use tsastat.Collector.Accumulator.Gaps.{
  midpoint_time, segment_visitor, add_segment, record_gap, record_transition, observe_gap,
  observe_disappearance,
}

-- The code returns.
abbrev pub Ends {ℓ} : {A : Type ℓ} → Option A → Type ℓ
Ends m = Returns m (λ _. Unit {0})

pub InHorizon-mono : (g : Grid) (s t : Time) → s ≤ t → InHorizon g t → InHorizon g s
InHorizon-mono g s t le h = record { positive = h.positive; room = omega (arith, h.room) }

pub InHorizon-same :
    (g g' : Grid) (t : Time)
    → g'.origin ≡ g.origin
    → g'.interval ≡ g.interval
    → InHorizon g t
    → InHorizon g' t
InHorizon-same g g' t eo ei h = record { positive = rw ei h.positive; room = rw (eo, ei) h.room }

-- A walk ends if its visits end.
pub for_each_window-Ends {ℓ} :
    {S : Type ℓ} (g : Grid) (start end : Time) (fn : Visitor S) (s : S)
    → InHorizon g end
    → ((index : ℕ) (from to : Time) (s' : S)
        → Piece g end index from to
        → start ≤ from
        → Ends (fn index from to s'))
    → Ends (for_each_window g start end fn s)
unfolding for_each_window visit
for_each_window-Ends {S} g start end fn s h visits =
    elim (Bool-cases (not (after end start) || not (after end g.origin))) [
      | inl nothing ↦ rw nothing (Returns-some s tt)
      | inr spanned ↦
          Returns-weaken (for_each_window g start end fn s) (λ _ _. tt)
            (for_each_window_rule g fn end h (λ t _. start ≤ t)
              (λ index from to s' piece low.
                Returns-if (leb g.next_window index) (fn index from to s') (some s')
                  (λ _.
                    Returns-weaken (fn index from to s') (λ _ _. omega (arith, piece, low))
                      (visits index from to s' piece low))
                  (λ _. Returns-some s' (omega (arith, piece, low))))
              start s (ground (arith, spanned)) (ground (arith, spanned)) (ground arith))
    ]

module _ (g : Grid) (start end : Time) (h : InHorizon g end) where
  add_segment-Ends :
      (sample : ThreadSample) (state : ThreadState) (ws : Windows)
      → Ends (add_segment g sample state start end ws)
  unfolding add_segment segment_visitor
  add_segment-Ends sample state ws =
      for_each_window-Ends g start end (segment_visitor g sample state) ws h
        λ index from to s piece low. Returns-some _ tt

  record_gap-Ends : (sample : ThreadSample) (ws : Windows) → Ends (record_gap g sample start end ws)
  unfolding record_gap
  record_gap-Ends sample ws =
      for_each_window-Ends g start end _ ws h λ index from to s piece low. Returns-some _ tt

  record_transition-Ends :
      (sample : ThreadSample) (middle : Time) (ws : Windows)
      → Ends (record_transition g sample start middle end ws)
  unfolding record_transition
  record_transition-Ends sample middle ws =
      for_each_window-Ends g start end _ ws h λ index from to s piece low. Returns-some _ tt

  record_schedstat_reset-Ends :
      (sample : ThreadSample) (ws : Windows) → Ends (record_schedstat_reset g sample start end ws)
  unfolding record_schedstat_reset
  record_schedstat_reset-Ends sample ws =
      for_each_window-Ends g start end _ ws h λ index from to s piece low. Returns-some _ tt

  module _ (lt : start < end) where
    add_schedstat_delta-Ends :
        (sample : ThreadSample) (delta : SchedstatDelta) (ws : Windows)
        → DeltaInRange delta
        → Ends (add_schedstat_delta g sample start end delta ws)
    unfolding add_schedstat_delta schedstat_visitor
    add_schedstat_delta-Ends sample delta ws range =
        Returns-if (not (is_positive (time_sub end start))) _ _ (λ _. Returns-some ws tt)
          λ _.
            for_each_window-Ends g start end
              (schedstat_visitor g sample delta start (time_sub end start)) ws h
              λ index from to s piece low.
                rw
                  (schedstat_share-eq delta (time_sub from start) (time_sub to start)
                    (time_sub end start) range (time_sub_pos end start lt)
                    (time_sub_mono from to start low (omega (arith, piece)))
                    (time_sub_mono to end start (omega (arith, piece, low)) (omega (arith, piece))))
                  (Returns-some _ tt)

    add_delay_delta-Ends :
        (sample : ThreadSample) (delta : DelayDelta) (ws : Windows)
        → DeltasInRange delta.counters
        → Ends (add_delay_delta g sample start end delta ws)
    unfolding add_delay_delta delay_visitor
    add_delay_delta-Ends sample delta ws range =
        Returns-if (not (is_positive (time_sub end start))) _ _ (λ _. Returns-some ws tt)
          λ _.
            for_each_window-Ends g start end
              (delay_visitor g sample delta start (time_sub end start)) ws h
              λ index from to s piece low.
                rw
                  (counter_shares-eq delta.counters (time_sub from start) (time_sub to start)
                    (time_sub end start) range (time_sub_pos end start lt)
                    (time_sub_mono from to start low (omega (arith, piece)))
                    (time_sub_mono to end start (omega (arith, piece, low)) (omega (arith, piece))))
                  (Returns-some _ tt)

    observe_schedstat-Ends :
        (previous current : ThreadSample) (ws : Windows)
        → SchedstatInRange current.schedstat
        → Ends (observe_schedstat g previous current start end ws)
    unfolding observe_schedstat
    observe_schedstat-Ends previous current ws range =
        Returns-if (not previous.schedstat.available || not current.schedstat.available) _ _
          (λ _. Returns-some ws tt)
          λ _.
            Returns-if (schedstat_went_down previous.schedstat current.schedstat) _ _
              (λ _. record_schedstat_reset-Ends current ws)
              λ _.
                add_schedstat_delta-Ends current _ ws
                  (schedstat_delta-InRange previous.schedstat current.schedstat range)

    observe_delays-Ends :
        (previous current : ThreadSample) (ws : Windows)
        → DelaysInRange current.delays
        → Ends (observe_delays g previous current start end ws)
    unfolding observe_delays
    observe_delays-Ends previous current ws range =
        let delta = delay_delta previous.delays current.delays in
        Returns-if (not previous.delays.available || not current.delays.available) _ _
          (λ _. Returns-some ws tt)
          λ _.
            Returns-if (not (has_comparable_counter delta) && nat_beq delta.resets 0) _ _
              (λ _. Returns-some ws tt)
              λ _.
                add_delay_delta-Ends current delta ws
                  (delay_delta-InRange previous.delays current.delays range)

midpoint_time-le : (start end : Time) → start ≤ end → midpoint_time start end ≤ end
unfolding midpoint_time time_add half time_sub
midpoint_time-le start end le = ground arith

module _ (g : Grid) (previous : ThreadSample) (end : Time) (h : InHorizon g end) where
  -- The two halves of a gap in which the state changes.
  halves-Ends :
      (state : ThreadState) (other : ThreadSample) (ws : Windows)
      → previous.timestamp < end
      → Ends (do
        ws' ←
            add_segment g previous previous.state previous.timestamp
              (midpoint_time previous.timestamp end)
              ws
        ws'' ← add_segment g other state (midpoint_time previous.timestamp end) end ws'
        record_transition g other previous.timestamp
            (midpoint_time previous.timestamp end)
            end
            ws'')
  halves-Ends state other ws lt =
      let middle = midpoint_time previous.timestamp end in
      let early =
        InHorizon-mono g middle end (midpoint_time-le previous.timestamp end (omega arith)) h in
      Returns-bind _ _
        (add_segment-Ends g previous.timestamp middle early previous previous.state ws)
        λ ws' _.
          Returns-bind _ _ (add_segment-Ends g middle end h other state ws')
            λ ws'' _. record_transition-Ends g previous.timestamp end h other middle ws''

  pub observe_gap-Ends :
      (current : ThreadSample) (ws : Windows)
      → SchedstatInRange current.schedstat
      → DelaysInRange current.delays
      → Ends (observe_gap g previous current end ws)
  unfolding observe_gap
  observe_gap-Ends current ws schedstat delays =
      let start = previous.timestamp in
      Returns-if (not (after end start)) _ _ (λ _. Returns-some ws tt)
        λ later.
          let lt : start < end = ground (arith, later) in
          Returns-bind _ _ (observe_schedstat-Ends g start end h lt previous current ws schedstat)
            λ ws₁ _.
              Returns-bind _ _ (observe_delays-Ends g start end h lt previous current ws₁ delays)
                λ ws₂ _. Returns-bind _ _ (record_gap-Ends g start end h previous ws₂) λ ws₃ _.
                  Returns-if (state_beq previous.state current.state) _ _
                    (λ _. add_segment-Ends g start end h previous previous.state ws₃)
                    (λ _. halves-Ends current.state current ws₃ lt)

  pub observe_disappearance-Ends : (ws : Windows) → Ends (observe_disappearance g previous end ws)
  unfolding observe_disappearance
  observe_disappearance-Ends ws =
      let start = previous.timestamp in
      Returns-if (not (after end start)) _ _ (λ _. Returns-some ws tt)
        λ later.
          Returns-bind _ _ (record_gap-Ends g start end h previous ws)
            λ ws₁ _. halves-Ends ThreadState.unknown previous ws₁ (ground (arith, later))
