-- ===== src/Collector/Loop/EventReports.antt =====
-- What runSchedulerEvents emits.
use tsastat.Prelude.{
  ℕ, ◌+◌, ◌*◌, ◌<◌, ◌≡◌, refl, ◌∙◌, inl, inr, not, ◌&&◌, Bool-cases, Option, none, some, List, [],
  ◌∷◌, arith, Returns, Returns-some, Returns-bind, Returns-weaken, sign_bit, All, ltb,
}
use tsastat.Clock.{Time, Duration, is_negative}
use tsastat.Model.Sample.{ThreadSnapshot}
use tsastat.Model.Stats.{IntervalReport}
use tsastat.Model.Sources.{BackendSourceStatus}
use tsastat.Collector.Grid.{Grid}
use tsastat.Collector.Accumulator.Finalize.Tiling.{Tiles-same}
use tsastat.Collector.EventAccumulator.Observe.{
  EventAccumulator, new_event_accumulator, set_clock_calibration_uncertainty, observe_event,
}
use tsastat.Collector.EventAccumulator.Advance.{advance, next_boundary}
use tsastat.Collector.EventAccumulator.Invariant.Advance.{IsSound}
use tsastat.Collector.EventAccumulator.Runs.{new_event_accumulator-EventInv}
use tsastat.Collector.Loop.{Sink, with_source_status, Next, select_loop}
use tsastat.Collector.Loop.Events.{
  value, closed, Flushed, flushed_to, flush_failed, flush_waiting, flush_scheduler_events,
  StreamMessage, context_done, exited, event, error, timer, complete_window, event_round, opened,
  stream_accumulator, run_scheduler_events,
}
use tsastat.Collector.Loop.Emitted.{Emits, Steps, select_loop-Done}
use tsastat.Collector.Loop.Boundary.{
  Stands, Stands-here, EventInHorizon, observe_event-Stands, FlushInHorizon, FlushStands,
  flush_scheduler_events-Stands, advance-next_boundary,
}

-- The events that a message brings are in the horizon.
abbrev pub MessageInHorizon : Grid → StreamMessage → Type 0
MessageInHorizon g (event (value e)) = EventInHorizon g e
MessageInHorizon g (timer refusal messages lost) = All (FlushInHorizon g) messages
MessageInHorizon g _ = Unit

-- How often the timer fires.
abbrev pub timers : List StreamMessage → ℕ
timers [] = 0
timers (timer refusal flush lost ∷ messages) = timers messages + 1
timers (_ ∷ messages) = timers messages

-- The windows that the timers to come complete end in range.
record IsListening (g : Grid) (messages : List StreamMessage) (a : EventAccumulator) : Type 0 where
  stands : Stands g a.next_window a
  events : All (MessageInHorizon g) messages
  room : (a.next_window + timers messages + 2) * g.interval < sign_bit

pub with_source_status-IsSound :
    (status : Option BackendSourceStatus) (report : IntervalReport)
    → IsSound report
    → IsSound (with_source_status status report)
unfolding with_source_status
with_source_status-IsSound none report h = h
with_source_status-IsSound (some status) report h = h

module _ (sink : Sink) (g : Grid) where
  abbrev EventSteps : List StreamMessage → EventAccumulator → Next EventAccumulator → Type 0
  EventSteps messages a =
      Steps sink g IsSound with_source_status-IsSound event_round (λ a'. a'.next_window)
        (IsListening g) messages a

  complete_window-Steps :
      (messages : List StreamMessage) (lost : ℕ) (a : EventAccumulator) (f : Flushed)
      → All (MessageInHorizon g) messages
      → (a.next_window + timers messages + 3) * g.interval < sign_bit
      → Stands g a.next_window a
      → FlushStands g a.next_window f
      → Returns (complete_window (next_boundary a.grid) lost f) (EventSteps messages a)
  unfolding complete_window
  complete_window-Steps messages lost a (flush_failed e) events room s t = Returns-some _ tt
  complete_window-Steps messages lost a flush_waiting events room s t = Returns-some _ tt
  complete_window-Steps messages lost a (flushed_to b) events room s t =
      let same : next_boundary a.grid ≡ next_boundary b.grid =
        cc (s.origin, t.origin, s.interval, t.interval, t.next_window) in
      rw same (
        Returns-bind (advance (next_boundary b.grid) lost b) _
          (advance-next_boundary lost b t.inv
            (rw (t.next_window, t.interval) (omega (arith, room))))
          λ r k. Returns-some _ (
            record {
              stands = record {
                inv = k.0.inv;
                origin = k.0.origin ∙ t.origin;
                interval = k.0.interval ∙ t.interval;
                next_window = refl;
              };
              events = events;
              room = rw (k.1, t.next_window) (omega (arith, room));
            },
            rw t.next_window at
                (Tiles-same g b.grid b.next_window r.1 t.origin t.interval k.0.tiles),
            omega (arith, k.1, k.2, t.next_window),
            k.0.sound,
          ))

  event_round-Steps :
      (message : StreamMessage) (messages : List StreamMessage) (a : EventAccumulator)
      → IsListening g (message ∷ messages) a
      → Returns (event_round message a) (EventSteps messages a)
  unfolding event_round
  event_round-Steps context_done messages a l = Returns-some _ tt
  event_round-Steps exited messages a l = Returns-some _ tt
  event_round-Steps (event closed) messages a l = Returns-some _ tt
  event_round-Steps (event (value e)) messages a l =
      Returns-bind (observe_event e a) _
        (observe_event-Stands g a.next_window a e l.stands l.events.0)
        λ b s. Returns-some _ (
          record {
            stands = Stands-here g _ _ s;
            events = l.events.1;
            room = rw s.next_window l.room;
          },
          tt,
          omega (arith, s.next_window),
          tt,
        )
  event_round-Steps (error closed) messages a l = Returns-some _ tt
  event_round-Steps (error (value none)) messages a l =
      Returns-some _
        (record { stands = l.stands; events = l.events.1; room = l.room }, tt, omega arith, tt)
  event_round-Steps (error (value (some e))) messages a l = Returns-some _ tt
  event_round-Steps (timer refusal flush lost) messages a l =
      Returns-bind (flush_scheduler_events refusal flush a) _
        (flush_scheduler_events-Stands g a.next_window refusal flush a l.stands l.events.0)
        λ f t. complete_window-Steps messages lost a f l.events.1 (omega (arith, l.room)) l.stands t

-- The accumulator of an opened stream is ready.
pub stream_accumulator-Stands :
    (now : Time) (interval : Duration) (initial : ThreadSnapshot) (uncertainty : Duration)
    → 0 < interval
    → interval < sign_bit
    → Stands
        (new_event_accumulator now interval initial).grid
        0
        (stream_accumulator now interval initial uncertainty)
unfolding stream_accumulator set_clock_calibration_uncertainty new_event_accumulator
stream_accumulator-Stands now interval initial uncertainty positive fits =
    let v = new_event_accumulator-EventInv now interval initial positive fits in
    elim (Bool-cases (ltb 0 uncertainty && not (is_negative uncertainty))) [
      | inl good ↦ rw good (record {
        inv = record {
          horizon = v.horizon;
          started = v.started;
          good = v.good;
          reached = v.reached;
          at_first = v.at_first;
        };
        origin = refl;
        interval = refl;
        next_window = refl;
      })
      | inr bad ↦ rw bad (record { inv = v; origin = refl; interval = refl; next_window = refl })
    ]

-- On a stream that has been opened, with a positive interval, runSchedulerEvents returns or waits,
-- whatever the stream and `emit` answer, as long as the events are in the horizon, and so are the
-- windows that the timer completes. The reports that it has emitted by then tile the time from the
-- origin of the event accumulator on, in order, one for each window; the figures of every thread in
-- them agree; they are not more than `count`, unless that is 0, and it only waits when fewer have been
-- emitted.
pub run_scheduler_events-Emits :
    (sink : Sink) (now : Time) (interval : Duration) (initial : ThreadSnapshot)
    (uncertainty : Duration) (messages : List StreamMessage)
    → 0 < interval
    → (timers messages + 2) * interval < sign_bit
    → All (MessageInHorizon (new_event_accumulator now interval initial).grid) messages
    → Returns
        (run_scheduler_events sink now interval (opened initial uncertainty) messages)
        (λ (outcome, out).
          Emits sink (new_event_accumulator now interval initial).grid IsSound 0 0 outcome out)
unfolding run_scheduler_events
run_scheduler_events-Emits sink now interval initial uncertainty messages positive fits events =
    let g = (new_event_accumulator now interval initial).grid in
    let a = stream_accumulator now interval initial uncertainty in
    let s =
      stream_accumulator-Stands now interval initial uncertainty positive (omega (arith, fits)) in
    let timed : g.interval ≡ interval = unfold new_event_accumulator in refl in
    Returns-weaken (select_loop sink event_round messages 0 a) (λ r d. rw s.next_window at d)
      (select_loop-Done sink g IsSound with_source_status-IsSound event_round (λ a'. a'.next_window)
        (IsListening g) (event_round-Steps sink g) messages 0 a
        (record {
          stands = Stands-here g _ _ s;
          events = events;
          room = rw (s.next_window, timed) (omega (arith, fits));
        })
        (ground arith))
