-- ===== src/Collector/EventAccumulator/Invariant/Observe.antt =====
-- Observe keeps the invariant of the event accumulator, whatever the event.
use tsastat.Prelude.{
  ◌≤◌, ◌≡◌, refl, true, false, ◌&&◌, ◌||◌, inl, inr, Bool-cases, Option-cases, arith, nat_beq,
  Returns, Returns-some, Returns-bind, Returns-if, Returns-weaken, lookup, nat_eq,
}
use tsastat.Clock.{Time, is_zero, before}
use tsastat.Model.Scheduler.{SchedulerEvent}
use tsastat.Collector.Grid.{InHorizon}
use tsastat.Collector.Totals.Spans.{IsOpen}
use tsastat.Collector.Accumulator.Windows.{Windows}
use tsastat.Collector.EventAccumulator.Track.{
  SchedulerTrack, discovered_track, refreshed_track, scheduler_identity_changed,
}
use tsastat.Collector.EventAccumulator.Windows.{
  add_track_segment, record_event, record_initialization_race,
}
use tsastat.Collector.EventAccumulator.Observe.{
  EventAccumulator, Tracks, observe_event, observe_accepted, observe_known, observe_track,
  observe_before_origin, observe_in_order,
}
use tsastat.Collector.EventAccumulator.Invariant.{IsGood}
use tsastat.Collector.EventAccumulator.Invariant.Keeps.{
  add_track_segment-IsGood, record_event-IsGood, record_late_event-IsGood,
  record_initialization_race-IsGood,
}

-- The open windows are good, and the watermark, which lies in the horizon, has passed every boundary
-- that has been reported.
pub record EventInv (a : EventAccumulator) : Type 0 where
  pub horizon : InHorizon a.grid a.watermark
  pub started : a.origin ≤ a.watermark
  pub good : IsGood a.grid a.windows
  pub reached : IsOpen a.grid a.watermark
  pub at_first : a.advanced ≡ false → a.next_window ≡ 0

-- What an event leaves alone.
pub record SameClock (a b : EventAccumulator) : Type 0 where
  pub grid : b.grid ≡ a.grid
  pub watermark : b.watermark ≡ a.watermark
  pub advanced : b.advanced ≡ a.advanced

abbrev pub Keeps : EventAccumulator → EventAccumulator → Type 0
Keeps a b = EventInv b × SameClock a b

with_windows-Keeps :
    (a : EventAccumulator) (ws : Windows) (tracks : Tracks)
    → EventInv a
    → IsGood a.grid ws
    → Keeps a (record a { windows = ws; tracks = tracks })
with_windows-Keeps a ws tracks v good = (
  record {
    horizon = v.horizon;
    started = v.started;
    good = good;
    reached = v.reached;
    at_first = v.at_first;
  },
  record { grid = refl; watermark = refl; advanced = refl },
)

-- The origin lies in the horizon of any grid that has one.
origin-InHorizon : (a : EventAccumulator) → EventInv a → InHorizon a.grid a.origin
origin-InHorizon a v = omega (arith, v.horizon, v.started)

-- An event that is not late lies in a window that is still open.
abbrev IsTimely : EventAccumulator → Time → Type 0
IsTimely a at = a.advanced ≡ true → a.watermark ≤ at

timely-IsOpen :
    (a : EventAccumulator) (at : Time)
    → EventInv a
    → IsTimely a at
    → a.origin ≤ at
    → IsOpen a.grid at
timely-IsOpen a at v timely lo = elim (Bool-cases a.advanced) [
  | inl ran ↦ omega (arith, timely ran, v.reached)
  | inr fresh ↦ rw (v.at_first fresh) (omega arith)
]

module _ (a : EventAccumulator) (event : SchedulerEvent) (v : EventInv a)
    (h : InHorizon a.grid event.timestamp) (timely : IsTimely a event.timestamp) where
  observe_in_order-Keeps :
      (track : SchedulerTrack)
      → a.origin ≤ event.timestamp
      → Returns (observe_in_order track event a) (Keeps a)
  unfolding observe_in_order
  observe_in_order-Keeps track lo =
      Returns-bind (add_track_segment a.grid track track.since event.timestamp a.windows) _
        (add_track_segment-IsGood a.grid track track.since event.timestamp a.windows h lo v.good)
        λ ws₁ good₁.
          Returns-bind (record_event a.grid track event ws₁) _
            (record_event-IsGood a.grid track event ws₁ h lo
              (timely-IsOpen a event.timestamp v timely lo) good₁)
            λ ws₂ good₂. Returns-some _ (with_windows-Keeps a ws₂ _ v good₂)

  observe_before_origin-Keeps :
      (track : SchedulerTrack) → Returns (observe_before_origin track event a) (Keeps a)
  unfolding observe_before_origin
  observe_before_origin-Keeps track =
      Returns-if (before event.timestamp track.last_event) _ _
        (λ _.
          Returns-bind (record_initialization_race a.grid a.origin a.windows) _
            (record_initialization_race-IsGood a.grid a.origin a.windows (origin-InHorizon a v)
              v.good)
            λ ws good. Returns-some _ (with_windows-Keeps a ws _ v good))
        (λ _. Returns-some _ (with_windows-Keeps a a.windows _ v v.good))

  observe_track-Keeps : (track : SchedulerTrack) → Returns (observe_track track event a) (Keeps a)
  unfolding observe_track
  observe_track-Keeps track =
      Returns-if (before event.timestamp track.seed_at) _ _
        (λ _. Returns-some _ (with_windows-Keeps a a.windows _ v v.good))
        λ _.
          Returns-if (before event.timestamp a.origin) _ _ (λ _. observe_before_origin-Keeps track)
            λ lo.
              Returns-if
                (before event.timestamp track.since || before event.timestamp track.last_event) _ _
                (λ _.
                  Returns-some _
                    (with_windows-Keeps a _ _ v (record_late_event-IsGood a.grid a.windows v.good)))
                (λ _. observe_in_order-Keeps track (ground arith))

module _ (a : EventAccumulator) (event : SchedulerEvent) (v : EventInv a)
    (h : InHorizon a.grid event.timestamp) where
  observe_known-Keeps :
      (track : SchedulerTrack)
      → IsTimely a event.timestamp
      → Returns (observe_known track event a) (Keeps a)
  unfolding observe_known
  observe_known-Keeps track timely =
      Returns-if (scheduler_identity_changed track event) _ _
        (λ _.
          Returns-bind (record_initialization_race a.grid event.timestamp a.windows) _
            (record_initialization_race-IsGood a.grid event.timestamp a.windows h v.good)
            λ ws good.
              let kept = with_windows-Keeps a ws a.tracks v good in
              Returns-weaken _
                (λ b k. (
                  k.0,
                  record { grid = k.1.grid; watermark = k.1.watermark; advanced = k.1.advanced },
                ))
                (observe_track-Keeps (record a { windows = ws }) event kept.0 h timely
                  (discovered_track a.origin event)))
        (λ _. observe_track-Keeps a event v h timely (refreshed_track track event))

  observe_accepted-Keeps : IsTimely a event.timestamp → Returns (observe_accepted event a) (Keeps a)
  unfolding observe_accepted
  observe_accepted-Keeps timely = elim (Option-cases (lookup event.tid a.tracks)) [
    | inl missing ↦
        rw (missing, observe_accepted)
          (observe_track-Keeps a event v h timely (discovered_track a.origin event))
    | inr (track, found) ↦ rw (found, observe_accepted) (observe_known-Keeps track timely)
  ]

  -- From a state that satisfies the invariant, Observe returns for any event in the horizon and keeps the
  -- invariant; no event moves the origin, the next window or the
  -- watermark.
  pub observe_event-Keeps : Returns (observe_event event a) (Keeps a)
  unfolding observe_event
  observe_event-Keeps =
      Returns-if (is_zero event.timestamp || nat_beq event.tid 0) _ _
        (λ _. Returns-some _ (with_windows-Keeps a a.windows a.tracks v v.good))
        λ _.
          Returns-if (a.advanced && before event.timestamp a.watermark) _ _
            (λ _. Returns-some _ (
              with_windows-Keeps a _ a.tracks v (record_late_event-IsGood a.grid a.windows v.good)))
            (λ on_time. observe_accepted-Keeps (λ ran. ground arith))
