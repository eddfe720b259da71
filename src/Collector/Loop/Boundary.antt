-- ===== src/Collector/Loop/Boundary.antt =====
-- What the timer of a scheduler-event loop does: a flush, and an Advance to the next boundary.
use tsastat.Prelude.{
  ℕ, ◌+◌, ◌*◌, ◌<◌, ◌≡◌, refl, ◌∙◌, ap, Option, none, some, List, [], ◌∷◌, arith, Returns,
  Returns-some, Returns-bind, Returns-weaken, sign_bit, All, for_each,
}
use tsastat.Model.Scheduler.{SchedulerEvent}
use tsastat.Model.Sources.{Failure}
use tsastat.Collector.Grid.{Grid, InHorizon}
use tsastat.Collector.Grid.Bounds.{window_start-EndsWindows}
use tsastat.Collector.Accumulator.Finalize.Tiling.{boundary, length_of}
use tsastat.Collector.Accumulator.Observe.Returning.{InHorizon-same}
use tsastat.Collector.EventAccumulator.Observe.{EventAccumulator, observe_event}
use tsastat.Collector.EventAccumulator.Advance.{advance, next_boundary}
use tsastat.Collector.EventAccumulator.Invariant.Observe.{EventInv, observe_event-Keeps}
use tsastat.Collector.EventAccumulator.Invariant.Advance.{Advanced, advance-Advances}
use tsastat.Collector.Loop.Events.{
  value, closed, FlushMessage, context_done, exited, event, error, flushed, Flushed, flushed_to,
  drain_scheduler_events, flush_loop, flush_scheduler_events,
}
use native.Mathlib.Nat.{mul-le-mul_right}

-- The accumulator satisfies its invariant, and stands on a grid, before a window of it.
pub record Stands (g : Grid) (index : ℕ) (a : EventAccumulator) : Type 0 where
  pub inv : EventInv a
  pub origin : a.origin ≡ g.origin
  pub interval : a.interval ≡ g.interval
  pub next_window : a.next_window ≡ index

pub Stands-here :
    (g : Grid) (index : ℕ) (a : EventAccumulator) → Stands g index a → Stands g a.next_window a
Stands-here g index a s = record {
  inv = s.inv;
  origin = s.origin;
  interval = s.interval;
  next_window = refl;
}

abbrev pub EventInHorizon : Grid → SchedulerEvent → Type 0
EventInHorizon g e = InHorizon g e.timestamp

pub observe_event-Stands :
    (g : Grid) (index : ℕ) (a : EventAccumulator) (e : SchedulerEvent)
    → Stands g index a
    → EventInHorizon g e
    → Returns (observe_event e a) (Stands g index)
observe_event-Stands g index a e s h =
    Returns-weaken (observe_event e a)
      (λ b k. record {
        inv = k.0;
        origin = ap (λ (h : Grid). h.origin) k.1.grid ∙ s.origin;
        interval = ap (λ (h : Grid). h.interval) k.1.grid ∙ s.interval;
        next_window = ap (λ (h : Grid). h.next_window) k.1.grid ∙ s.next_window;
      })
      (observe_event-Keeps a e s.inv (InHorizon-same g a.grid e.timestamp s.origin s.interval h))

pub drain_scheduler_events-Stands :
    (g : Grid) (index : ℕ) (events : List SchedulerEvent) (a : EventAccumulator)
    → Stands g index a
    → All (EventInHorizon g) events
    → Returns (drain_scheduler_events events a) (Stands g index)
unfolding drain_scheduler_events for_each
drain_scheduler_events-Stands g index [] a s h = Returns-some a s
drain_scheduler_events-Stands g index (e ∷ events) a s h =
    Returns-bind (observe_event e a) _ (observe_event-Stands g index a e s h.0)
      λ b t. drain_scheduler_events-Stands g index events b t h.1

-- The events that a message of the flush brings are in the horizon.
abbrev pub FlushInHorizon : Grid → FlushMessage → Type 0
FlushInHorizon g (event (value e)) = EventInHorizon g e
FlushInHorizon g (flushed (value events)) = All (EventInHorizon g) events
FlushInHorizon g _ = Unit

abbrev pub FlushStands : Grid → ℕ → Flushed → Type 0
FlushStands g index (flushed_to a) = Stands g index a
FlushStands g index _ = Unit

flush_loop-Stands :
    (g : Grid) (index : ℕ) (messages : List FlushMessage) (a : EventAccumulator)
    → Stands g index a
    → All (FlushInHorizon g) messages
    → Returns (flush_loop messages a) (FlushStands g index)
unfolding flush_loop
flush_loop-Stands g index [] a s h = Returns-some _ tt
flush_loop-Stands g index (context_done e ∷ messages) a s h = Returns-some _ tt
flush_loop-Stands g index (exited ∷ messages) a s h = Returns-some _ tt
flush_loop-Stands g index (event closed ∷ messages) a s h = Returns-some _ tt
flush_loop-Stands g index (event (value e) ∷ messages) a s h =
    Returns-bind (observe_event e a) _ (observe_event-Stands g index a e s h.0)
      λ b t. flush_loop-Stands g index messages b t h.1
flush_loop-Stands g index (error closed ∷ messages) a s h = Returns-some _ tt
flush_loop-Stands g index (error (value none) ∷ messages) a s h =
    flush_loop-Stands g index messages a s h.1
flush_loop-Stands g index (error (value (some e)) ∷ messages) a s h = Returns-some _ tt
flush_loop-Stands g index (flushed closed ∷ messages) a s h = Returns-some _ tt
flush_loop-Stands g index (flushed (value events) ∷ messages) a s h =
    Returns-bind (drain_scheduler_events events a) _
      (drain_scheduler_events-Stands g index events a s h.0) λ b t. Returns-some _ t

pub flush_scheduler_events-Stands :
    (g : Grid) (index : ℕ) (refusal : Option Failure) (messages : List FlushMessage)
    (a : EventAccumulator)
    → Stands g index a
    → All (FlushInHorizon g) messages
    → Returns (flush_scheduler_events refusal messages a) (FlushStands g index)
unfolding flush_scheduler_events
flush_scheduler_events-Stands g index (some e) messages a s h = Returns-some _ tt
flush_scheduler_events-Stands g index none messages a s h = flush_loop-Stands g index messages a s h

-- An Advance to the next boundary, if the accumulator is well-formed and that boundary is in range,
-- completes one window: it returns, and hands out exactly the report of the next window.
pub advance-next_boundary :
    (lost : ℕ) (a : EventAccumulator)
    → EventInv a
    → (a.next_window + 2) * a.interval < sign_bit
    → Returns (advance (next_boundary a.grid) lost a) (λ (b, reports).
      Advanced (next_boundary a.grid) a b reports
      × (b.next_window ≡ a.next_window + 1)
      × (length_of reports ≡ 1))
advance-next_boundary lost a v fits =
    let end : next_boundary a.grid ≡ boundary a.grid a.next_window + a.interval =
      unfold next_boundary in window_start-EndsWindows a.grid a.next_window (omega (arith, fits)) in
    Returns-weaken (advance (next_boundary a.grid) lost a)
      (λ (b, reports) k.
        let one : b.next_window ≡ a.next_window + 1 = grind (
          arith,
          end,
          k.complete,
          k.due,
          k.count,
          v.horizon.positive,
          mul-le-mul_right {m = a.next_window + 2} {n = b.next_window} a.interval,
        ) in
        (k, one, omega (arith, k.count, one)))
      (advance-Advances (next_boundary a.grid) lost a v
        (record { positive = v.horizon.positive; room = omega (arith, end, fits) }))
