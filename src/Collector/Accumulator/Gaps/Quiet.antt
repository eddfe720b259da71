-- ===== src/Collector/Accumulator/Gaps/Quiet.antt =====
-- The parts of a gap's bookkeeping that leave the state times alone: they return, and add nothing to them.
use tsastat.Prelude.{
  ℕ, ◌≤◌, ◌<◌, refl, ◌∙◌, Returns-if, not, ◌&&◌, nat_beq, ◌||◌, arith, SameWord, Returns,
  Returns-some, Returns-weaken,
}
use tsastat.Clock.{Time, time_sub, time_sub_mono, time_sub_pos}
use tsastat.Model.Sample.{ThreadSample, ThreadIdentity, identity_eq}
use tsastat.Collector.Grid.{Grid, Visitor, clip, InHorizon, Piece, for_each_window}
use tsastat.Collector.Totals.{
  Meter, IsMeter, Adds, total_of, with_thread_stats-total, with_window-total,
}
use tsastat.Collector.Totals.Spans.{IsOpen, for_each_window-total}
use tsastat.Collector.Accumulator.Windows.{Windows, with_thread_stats}
use tsastat.Collector.Accumulator.Meters.{IsStateMeter}
use tsastat.Collector.Accumulator.Schedstat.{
  SchedstatDelta, is_positive, schedstat_visitor, add_schedstat_delta, record_schedstat_reset,
  observe_schedstat, schedstat_went_down,
}
use tsastat.Collector.Accumulator.Schedstat.Parts.{
  SchedstatInRange, DeltaInRange, schedstat_delta-InRange, schedstat_share-eq,
}
use tsastat.Collector.Accumulator.Delays.{
  DelayDelta, delay_delta, delay_visitor, add_delay_delta, observe_delays, has_comparable_counter,
}
use tsastat.Collector.Accumulator.Delays.Parts.{
  DelaysInRange, DeltasInRange, delay_delta-InRange, counter_shares-eq,
}
use tsastat.Collector.Accumulator.Gaps.{record_gap, note_window_gap, record_transition}

module _ (g : Grid) (start end : Time) (h : InHorizon g end) (o : IsOpen g (clip g start))
    (lt : start < end) (lo : g.origin < end) (f : Meter) (meter : IsMeter f)
    (quiet : IsStateMeter f) (key : ThreadIdentity) where
  -- A walk whose visits add nothing.
  quiet_walk :
      (fn : Visitor Windows) (ws : Windows)
      → ((index : ℕ) (from to : Time) (s : Windows)
          → Piece g end index from to
          → start ≤ from
          → Returns (fn index from to s) (λ s'. SameWord (total_of f key s') (total_of f key s)))
      → Returns
          (for_each_window g start end fn ws)
          (λ ws'. SameWord (total_of f key ws') (total_of f key ws))
  quiet_walk fn ws keep =
      Returns-weaken (for_each_window g start end fn ws) (λ ws' p. omega (arith, p))
        (for_each_window-total g fn start end h f key (λ _. 0) (λ x y _. omega arith)
          (λ index from to s piece low.
            Returns-weaken (fn index from to s) (λ s' p. omega (arith, p))
              (keep index from to s piece (ground arith)))
          o ws lt lo)

  quiet_write :
      (index : ℕ) (sample : ThreadSample) (write : _) (ws : Windows)
      → Adds f 0 write
      → SameWord (total_of f key (with_thread_stats g index sample write ws)) (total_of f key ws)
  quiet_write index sample write ws adds =
      ground (arith, with_thread_stats-total f meter key g index 0 sample write ws adds)

  record_schedstat_reset-total :
      (sample : ThreadSample) (ws : Windows)
      → Returns
          (record_schedstat_reset g sample start end ws)
          (λ ws'. SameWord (total_of f key ws') (total_of f key ws))
  unfolding record_schedstat_reset
  record_schedstat_reset-total sample ws =
      quiet_walk _ ws
        λ index from to s piece low. Returns-some _ (quiet_write index sample _ s quiet.reset)

  add_schedstat_delta-total :
      (sample : ThreadSample) (delta : SchedstatDelta) (ws : Windows)
      → DeltaInRange delta
      → Returns
          (add_schedstat_delta g sample start end delta ws)
          (λ ws'. SameWord (total_of f key ws') (total_of f key ws))
  unfolding add_schedstat_delta schedstat_visitor
  add_schedstat_delta-total sample delta ws range =
      Returns-if (not (is_positive (time_sub end start))) _ _ (λ _. Returns-some ws refl)
        λ _.
          quiet_walk (schedstat_visitor g sample delta start (time_sub end start)) ws
            λ index from to s piece low.
              rw
                (schedstat_share-eq delta (time_sub from start) (time_sub to start)
                  (time_sub end start) range (time_sub_pos end start lt)
                  (time_sub_mono from to start low (omega (arith, piece)))
                  (time_sub_mono to end start (omega (arith, piece)) (omega (arith, piece))))
                (Returns-some _ (quiet_write index sample _ s (quiet.schedstat _ _ _)))

  pub observe_schedstat-total :
      (previous current : ThreadSample) (ws : Windows)
      → SchedstatInRange current.schedstat
      → Returns
          (observe_schedstat g previous current start end ws)
          (λ ws'. SameWord (total_of f key ws') (total_of f key ws))
  unfolding observe_schedstat
  observe_schedstat-total previous current ws range =
      Returns-if (not previous.schedstat.available || not current.schedstat.available) _ _
        (λ _. Returns-some ws refl)
        λ _.
          Returns-if (schedstat_went_down previous.schedstat current.schedstat) _ _
            (λ _. record_schedstat_reset-total current ws)
            λ _.
              add_schedstat_delta-total current _ ws
                (schedstat_delta-InRange previous.schedstat current.schedstat range)

  add_delay_delta-total :
      (sample : ThreadSample) (delta : DelayDelta) (ws : Windows)
      → DeltasInRange delta.counters
      → Returns
          (add_delay_delta g sample start end delta ws)
          (λ ws'. SameWord (total_of f key ws') (total_of f key ws))
  unfolding add_delay_delta delay_visitor
  add_delay_delta-total sample delta ws range =
      Returns-if (not (is_positive (time_sub end start))) _ _ (λ _. Returns-some ws refl)
        λ _.
          quiet_walk (delay_visitor g sample delta start (time_sub end start)) ws
            λ index from to s piece low.
              rw
                (counter_shares-eq delta.counters (time_sub from start) (time_sub to start)
                  (time_sub end start) range (time_sub_pos end start lt)
                  (time_sub_mono from to start low (omega (arith, piece)))
                  (time_sub_mono to end start (omega (arith, piece)) (omega (arith, piece))))
                (Returns-some _ (quiet_write index sample _ s (quiet.delay _ _ _ _)))

  pub observe_delays-total :
      (previous current : ThreadSample) (ws : Windows)
      → DelaysInRange current.delays
      → Returns
          (observe_delays g previous current start end ws)
          (λ ws'. SameWord (total_of f key ws') (total_of f key ws))
  unfolding observe_delays
  observe_delays-total previous current ws range =
      let delta = delay_delta previous.delays current.delays in
      Returns-if (not previous.delays.available || not current.delays.available) _ _
        (λ _. Returns-some ws refl)
        λ _.
          Returns-if (not (has_comparable_counter delta) && nat_beq delta.resets 0) _ _
            (λ _. Returns-some ws refl)
            λ _.
              add_delay_delta-total current delta ws
                (delay_delta-InRange previous.delays current.delays range)

  pub record_gap-total :
      (sample : ThreadSample) (ws : Windows)
      → Returns
          (record_gap g sample start end ws)
          (λ ws'. SameWord (total_of f key ws') (total_of f key ws))
  unfolding record_gap note_window_gap
  record_gap-total sample ws = quiet_walk _ ws λ index from to s piece low.
      Returns-some _
        (with_window-total f key index _ _ (λ w. refl) ∙ quiet_write index sample _ s (quiet.gap _))

  pub record_transition-total :
      (sample : ThreadSample) (middle : Time) (ws : Windows)
      → Returns
          (record_transition g sample start middle end ws)
          (λ ws'. SameWord (total_of f key ws') (total_of f key ws))
  unfolding record_transition
  record_transition-total sample middle ws = quiet_walk _ ws λ index from to s piece low.
      Returns-some _ (quiet_write index sample _ s (quiet.transition _))
