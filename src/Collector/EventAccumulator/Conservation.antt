-- ===== src/Collector/EventAccumulator/Conservation.antt =====
-- A segment of the scheduler timeline is booked to the windows that it overlaps, each nanosecond
-- once.
use tsastat.Prelude.{
  ℕ, ◌+◌, ◌-◌, ◌≤◌, ◌≡◌, not, arith, SameWord, Returns, Returns-some, Returns-weaken, Returns-if,
}
use tsastat.Clock.{Time, Duration, after, time_sub, time_sub-eq}
use tsastat.Model.State.{ThreadState}
use tsastat.Model.Scheduler.{SchedulerState}
use tsastat.Model.Sample.{ThreadIdentity, identity_eq}
use tsastat.Model.Stats.{add_duration}
use tsastat.Collector.Grid.{Grid, InHorizon, Piece, clip, window_start}
use tsastat.Collector.Grid.Bounds.{window_start-EndsWindows}
use tsastat.Collector.Totals.{Adds, credit, total_of, with_track_stats-total}
use tsastat.Collector.Totals.Spans.{IsOpen, walk-total}
use tsastat.Collector.Accumulator.Windows.{Windows}
use tsastat.Collector.Accumulator.Meters.{time_in, time_in-IsMeter, spent}
use tsastat.Collector.EventAccumulator.Track.{SchedulerTrack, track_identity}
use tsastat.Collector.EventAccumulator.Windows.{
  reported_state, add_cpu_time, add_track_time, track_visitor, for_each_event_window,
  add_track_segment,
}

add_track_time-time_in :
    (wanted : ThreadState) (state : SchedulerState) (delta : Duration)
    → Adds (time_in wanted) (spent (reported_state state) wanted delta) (add_track_time state delta)
unfolding add_track_time add_cpu_time add_duration
add_track_time-time_in wanted SchedulerState.on_cpu delta stat = ground arith
add_track_time-time_in wanted SchedulerState.runnable delta stat = ground arith
add_track_time-time_in wanted _ delta stat = ground arith

module _ (g : Grid) (track : SchedulerTrack) (start end : Time) (key : ThreadIdentity)
    (wanted : ThreadState) (ws : Windows) where
  abbrev booked : Time → ℕ
  booked t =
      credit (track_identity track) key (spent (reported_state track.state) wanted (t - start))

  booked_mono : (x y : Time) → x ≤ y → booked x ≤ booked y
  booked_mono x y le = ground arith

  visit-books :
      (index : ℕ) (from to : Time) (s : Windows)
      → InHorizon g end
      → start ≤ from
      → Piece g end index from to
      → Returns (track_visitor g track index from to s) (λ s'.
        SameWord
          (total_of (time_in wanted) key s')
          (total_of (time_in wanted) key s + (booked to - booked from)))
  unfolding track_visitor
  visit-books index from to s h low piece =
      let exact : time_sub to from ≡ to - from =
        time_sub-eq to from (omega (arith, piece)) (omega (arith, piece, h.room)) in
      let split : booked to
          ≡ booked from
            + credit (track_identity track) key
                (spent (reported_state track.state) wanted (to - from)) =
        ground (arith, low, piece.nonempty) in
      rw exact (
        Returns-some _ (
          omega (
            arith,
            split,
            with_track_stats-total (time_in wanted) (time_in-IsMeter wanted) key g index
                (spent (reported_state track.state) wanted (to - from)) track
                (add_track_time track.state (to - from)) s
                (add_track_time-time_in wanted track.state (to - from)),
          )))

  -- addTrackSegment returns, and over all windows together it adds the whole length of the
  -- segment to the thread's time in the state under which the track's state is reported, and
  -- nothing to other states and threads. The segment begins at or after the origin and the end of
  -- the reported windows, and ends in the horizon. Sums are 64-bit words.
  pub add_track_segment-time_in :
      InHorizon g end
      → g.origin ≤ start
      → start ≤ end
      → IsOpen g start
      → Returns (add_track_segment g track start end ws) (λ ws'.
        SameWord (total_of (time_in wanted) key ws') (
          total_of (time_in wanted) key ws
          + credit
              (track_identity track)
              key
              (spent (reported_state track.state) wanted (end - start))))
  unfolding add_track_segment for_each_event_window
  add_track_segment-time_in h lo le o =
      let clipped : clip g start ≡ start = ground (arith, lo) in
      let nothing : booked (clip g start) ≡ 0 = rw clipped (ground arith) in
      Returns-if (not (after end start)) _ _ (λ empty. Returns-some ws (ground (arith, le, empty)))
        λ later.
          Returns-weaken _ (λ ws' p. omega (arith, p, nothing))
            (walk-total g (track_visitor g track) start end h (time_in wanted) key booked
              booked_mono
              (λ index from to s piece low. visit-books index from to s h (rw clipped at low) piece)
              (rw clipped o) ws (λ index. window_start g (index + 1)) (window_start-EndsWindows g)
              (rw clipped le))
