-- ===== src/Collector/Loop/EventLiveness.antt =====
-- runSchedulerEvents emits all the reports that are asked for, if its timer fires often enough and
-- nothing fails.
use tsastat.Prelude.{
  ℕ, ◌+◌, ◌*◌, ◌≤◌, ◌<◌, ◌≡◌, refl, ◌∙◌, Bool, true, false, Option, none, some, List, [], ◌∷◌,
  arith, Returns, Returns-some, Returns-bind, All, sign_bit,
}
use tsastat.Clock.{Time, Duration}
use tsastat.Model.Sample.{ThreadSnapshot}
use tsastat.Model.Sources.{Failure}
use tsastat.Collector.Grid.{Grid}
use tsastat.Collector.EventAccumulator.Observe.{
  EventAccumulator, new_event_accumulator, observe_event,
}
use tsastat.Collector.EventAccumulator.Advance.{advance, next_boundary}
use tsastat.Collector.Loop.{Sink, Next}
use tsastat.Collector.Loop.Events.{
  value, closed, FlushMessage, Flushed, flushed_to, flush_loop, flush_scheduler_events,
  drain_scheduler_events, StreamMessage, complete_window, event_round, opened, stream_accumulator,
  run_scheduler_events,
}
use tsastat.Collector.Loop.Boundary.{
  Stands, Stands-here, observe_event-Stands, drain_scheduler_events-Stands, FlushInHorizon,
  advance-next_boundary,
}
use tsastat.Collector.Loop.EventReports.{MessageInHorizon, timers, stream_accumulator-Stands}
use tsastat.Collector.Loop.Liveness.{Accepts, Finishes, total, GoesOn, select_loop-Finishes}

-- The flush is confirmed before anything fails.
abbrev pub confirms : List FlushMessage → Bool
confirms [] = false
confirms (FlushMessage.event (value e) ∷ messages) = confirms messages
confirms (FlushMessage.error (value none) ∷ messages) = confirms messages
confirms (FlushMessage.flushed (value events) ∷ messages) = true
confirms (_ ∷ messages) = false

-- A message that does not end the loop.
abbrev pub is_healthy : StreamMessage → Bool
is_healthy (StreamMessage.event (value e)) = true
is_healthy (StreamMessage.error (value none)) = true
is_healthy (StreamMessage.timer none messages lost) = confirms messages
is_healthy _ = false

abbrev weight : StreamMessage → ℕ
weight (StreamMessage.timer refusal messages lost) = 1
weight _ = 0

-- The flush comes to an accumulator on the same window.
abbrev FlushedTo : Grid → ℕ → Flushed → Type 0
FlushedTo g index f = (b : EventAccumulator) × (f ≡ flushed_to b) × Stands g index b

flush_loop-FlushedTo :
    (g : Grid) (index : ℕ) (messages : List FlushMessage) (a : EventAccumulator)
    → confirms messages ≡ true
    → Stands g index a
    → All (FlushInHorizon g) messages
    → Returns (flush_loop messages a) (FlushedTo g index)
unfolding flush_loop
flush_loop-FlushedTo g index [] a c s h = absurd (ground (arith, c))
flush_loop-FlushedTo g index (FlushMessage.context_done e ∷ messages) a c s h =
    absurd (ground (arith, c))
flush_loop-FlushedTo g index (FlushMessage.exited ∷ messages) a c s h = absurd (ground (arith, c))
flush_loop-FlushedTo g index (FlushMessage.event closed ∷ messages) a c s h =
    absurd (ground (arith, c))
flush_loop-FlushedTo g index (FlushMessage.event (value e) ∷ messages) a c s h =
    Returns-bind (observe_event e a) _ (observe_event-Stands g index a e s h.0)
      λ b t. flush_loop-FlushedTo g index messages b c t h.1
flush_loop-FlushedTo g index (FlushMessage.error closed ∷ messages) a c s h =
    absurd (ground (arith, c))
flush_loop-FlushedTo g index (FlushMessage.error (value none) ∷ messages) a c s h =
    flush_loop-FlushedTo g index messages a c s h.1
flush_loop-FlushedTo g index (FlushMessage.error (value (some e)) ∷ messages) a c s h =
    absurd (ground (arith, c))
flush_loop-FlushedTo g index (FlushMessage.flushed closed ∷ messages) a c s h =
    absurd (ground (arith, c))
flush_loop-FlushedTo g index (FlushMessage.flushed (value events) ∷ messages) a c s h =
    Returns-bind (drain_scheduler_events events a) _
      (drain_scheduler_events-Stands g index events a s h.0) λ b t. Returns-some _ (b, refl, t)

-- The loop is on the grid, and its messages are healthy, in the horizon and in range.
record IsLive (g : Grid) (messages : List StreamMessage) (a : EventAccumulator) : Type 0 where
  stands : Stands g a.next_window a
  healthy : All (λ m. is_healthy m ≡ true) messages
  events : All (MessageInHorizon g) messages
  room : (a.next_window + timers messages + 2) * g.interval < sign_bit

module _ (sink : Sink) (accepts : Accepts sink) (g : Grid) where
  abbrev Live : StreamMessage → List StreamMessage → Next EventAccumulator → Type 0
  Live = GoesOn sink accepts event_round weight (IsLive g)

  complete_window-Live :
      (refusal : Option Failure) (flush : List FlushMessage) (messages : List StreamMessage)
      (lost : ℕ) (a : EventAccumulator) (f : Flushed)
      → All (λ m. is_healthy m ≡ true) messages
      → All (MessageInHorizon g) messages
      → (a.next_window + timers messages + 3) * g.interval < sign_bit
      → Stands g a.next_window a
      → FlushedTo g a.next_window f
      → Returns
          (complete_window (next_boundary a.grid) lost f)
          (Live (StreamMessage.timer refusal flush lost) messages)
  unfolding complete_window
  complete_window-Live refusal flush messages lost a f healthy events room s (b, e, t) =
      let same : next_boundary a.grid ≡ next_boundary b.grid =
        cc (s.origin, t.origin, s.interval, t.interval, t.next_window) in
      rw (e, complete_window, same)
        (Returns-bind (advance (next_boundary b.grid) lost b) _
          (advance-next_boundary lost b t.inv
            (rw (t.next_window, t.interval) (omega (arith, room))))
          λ r k. Returns-some _ (
            record {
              stands = record {
                inv = k.0.inv;
                origin = k.0.origin ∙ t.origin;
                interval = k.0.interval ∙ t.interval;
                next_window = refl;
              };
              healthy = healthy;
              events = events;
              room = rw (k.1, t.next_window) (omega (arith, room));
            },
            k.2,
          ))

  event_round-Live :
      (message : StreamMessage) (messages : List StreamMessage) (a : EventAccumulator)
      → IsLive g (message ∷ messages) a
      → Returns (event_round message a) (Live message messages)
  unfolding event_round flush_scheduler_events
  event_round-Live StreamMessage.context_done messages a l = absurd (ground (arith, l.healthy.0))
  event_round-Live StreamMessage.exited messages a l = absurd (ground (arith, l.healthy.0))
  event_round-Live (StreamMessage.event closed) messages a l = absurd (ground (arith, l.healthy.0))
  event_round-Live (StreamMessage.event (value e)) messages a l =
      Returns-bind (observe_event e a) _
        (observe_event-Stands g a.next_window a e l.stands l.events.0)
        λ b s. Returns-some _ (
          record {
            stands = Stands-here g _ _ s;
            healthy = l.healthy.1;
            events = l.events.1;
            room = rw s.next_window l.room;
          },
          refl,
        )
  event_round-Live (StreamMessage.error closed) messages a l = absurd (ground (arith, l.healthy.0))
  event_round-Live (StreamMessage.error (value none)) messages a l = Returns-some _ (
    record { stands = l.stands; healthy = l.healthy.1; events = l.events.1; room = l.room },
    refl,
  )
  event_round-Live (StreamMessage.error (value (some e))) messages a l =
      absurd (ground (arith, l.healthy.0))
  event_round-Live (StreamMessage.timer (some e) flush lost) messages a l =
      absurd (ground (arith, l.healthy.0))
  event_round-Live (StreamMessage.timer none flush lost) messages a l =
      Returns-bind (flush_loop flush a) _
        (flush_loop-FlushedTo g a.next_window flush a l.healthy.0 l.stands l.events.0)
        λ f t.
          complete_window-Live none flush messages lost a f l.healthy.1 l.events.1
            (omega (arith, l.room)) l.stands t

  total_timers :
      (messages : List StreamMessage)
      → total sink accepts event_round weight (IsLive g) messages ≡ timers messages
  total_timers [] = refl
  total_timers (StreamMessage.context_done ∷ messages) = omega (arith, total_timers messages)
  total_timers (StreamMessage.exited ∷ messages) = omega (arith, total_timers messages)
  total_timers (StreamMessage.event e ∷ messages) = omega (arith, total_timers messages)
  total_timers (StreamMessage.error e ∷ messages) = omega (arith, total_timers messages)
  total_timers (StreamMessage.timer refusal flush lost ∷ messages) =
      omega (arith, total_timers messages)

-- On a stream that has been opened, with a positive interval and a limit on the reports,
-- runSchedulerEvents finishes without an error after emitting exactly as many as were asked for, if
-- the timer fires that often, every flush is confirmed, and no message ends the loop; events, windows
-- and flushes are in the horizon, and `emit` refuses nothing.
pub run_scheduler_events-Finishes :
    (sink : Sink) (now : Time) (interval : Duration) (initial : ThreadSnapshot)
    (uncertainty : Duration) (messages : List StreamMessage)
    → Accepts sink
    → 0 < interval
    → (timers messages + 2) * interval < sign_bit
    → All (MessageInHorizon (new_event_accumulator now interval initial).grid) messages
    → All (λ m. is_healthy m ≡ true) messages
    → sink.count ≤ timers messages
    → Returns
        (run_scheduler_events sink now interval (opened initial uncertainty) messages)
        (Finishes sink 0)
unfolding run_scheduler_events
run_scheduler_events-Finishes sink now interval initial uncertainty messages accepts positive fits
      events healthy enough =
    let g = (new_event_accumulator now interval initial).grid in
    let a = stream_accumulator now interval initial uncertainty in
    let s =
      stream_accumulator-Stands now interval initial uncertainty positive (omega (arith, fits)) in
    let timed : g.interval ≡ interval = unfold new_event_accumulator in refl in
    select_loop-Finishes sink accepts event_round weight (IsLive g)
      (event_round-Live sink accepts g) messages 0 a
      (record {
        stands = Stands-here g _ _ s;
        healthy = healthy;
        events = events;
        room = rw (s.next_window, timed) (omega (arith, fits));
      })
      (omega arith) (omega (arith, enough, total_timers sink accepts g messages))
