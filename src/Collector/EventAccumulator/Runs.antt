-- ===== src/Collector/EventAccumulator/Runs.antt =====
-- Any sequence of calls of the event accumulator, as the collector makes them: events as they
-- arrive, and an Advance at each boundary.
use tsastat.Prelude.{
  ℕ, ◌+◌, ◌<◌, ◌≡◌, refl, ap, ◌∙◌, Option, some, List, [], ◌∷◌, ◌++◌, arith, Returns, Returns-some,
  Returns-bind, Returns-weaken, ◌>>=◌, sign_bit, All, All-append,
}
use tsastat.Clock.{Time, Duration}
use tsastat.Model.Sample.{ThreadSnapshot}
use tsastat.Model.Scheduler.{SchedulerEvent}
use tsastat.Model.Stats.{IntervalReport}
use tsastat.Collector.Grid.{Grid, InHorizon}
use tsastat.Collector.Accumulator.Finalize.Tiling.{
  Tiles, Tiles-append, Tiles-same, length_of, length_of-append,
}
use tsastat.Collector.EventAccumulator.Observe.{
  EventAccumulator, new_event_accumulator, observe_event,
}
use tsastat.Collector.EventAccumulator.Advance.{advance}
use tsastat.Collector.EventAccumulator.Invariant.Observe.{EventInv, observe_event-Keeps}
use tsastat.Collector.EventAccumulator.Invariant.Advance.{IsSound, advance-Advances}

pub data Call : Type 0 where
  event : SchedulerEvent → Call
  boundary : Time → ℕ → Call

abbrev pub call_time : Call → Time
call_time (event e) = e.timestamp
call_time (boundary watermark lost) = watermark

unfoldable pub step : Call → EventAccumulator → Option (EventAccumulator × List IntervalReport)
step (event e) a = do a' ← observe_event e a; some (a', [])
step (boundary watermark lost) a = advance watermark lost a

unfoldable pub run : List Call → EventAccumulator → Option (EventAccumulator × List IntervalReport)
run [] a = some (a, [])
run (call ∷ calls) a = do
  (a', reports) ← step call a
  (b, later) ← run calls a'
  some (b, reports ++ later)

-- What a run comes to.
pub record Ran (a b : EventAccumulator) (reports : List IntervalReport) : Type 0 where
  pub inv : EventInv b
  pub origin : b.origin ≡ a.origin
  pub interval : b.interval ≡ a.interval
  pub tiles : Tiles a.grid a.next_window reports
  pub count : b.next_window ≡ a.next_window + length_of reports
  pub sound : All IsSound reports

abbrev pub Runs : EventAccumulator → EventAccumulator × List IntervalReport → Type 0
Runs a (b, reports) = Ran a b reports

Ran-none : (a : EventAccumulator) → EventInv a → Ran a a []
Ran-none a v = record {
  inv = v;
  origin = refl;
  interval = refl;
  tiles = tt;
  count = omega arith;
  sound = tt;
}

Ran-append :
    (a b c : EventAccumulator) (xs ys : List IntervalReport)
    → Ran a b xs
    → Ran b c ys
    → Ran a c (xs ++ ys)
Ran-append a b c xs ys r s = record {
  inv = s.inv;
  origin = s.origin ∙ r.origin;
  interval = s.interval ∙ r.interval;
  tiles =
      Tiles-append a.grid a.next_window xs ys r.tiles
        (rw r.count at (Tiles-same a.grid b.grid b.next_window ys r.origin r.interval s.tiles));
  count = omega (arith, r.count, s.count, length_of-append xs ys);
  sound = All-append IsSound xs ys r.sound s.sound;
}

step-Runs :
    (call : Call) (a : EventAccumulator)
    → EventInv a
    → InHorizon a.grid (call_time call)
    → Returns (step call a) (Runs a)
unfolding step
step-Runs (event e) a v h = Returns-bind (observe_event e a) _ (observe_event-Keeps a e v h) λ b k.
    Returns-some _ (record {
      inv = k.0;
      origin = ap (λ (g : Grid). g.origin) k.1.grid;
      interval = ap (λ (g : Grid). g.interval) k.1.grid;
      tiles = tt;
      count = omega (arith, ap (λ (g : Grid). g.next_window) k.1.grid);
      sound = tt;
    })
step-Runs (boundary watermark lost) a v h =
    Returns-weaken (advance watermark lost a)
      (λ r c. record {
        inv = c.inv;
        origin = c.origin;
        interval = c.interval;
        tiles = c.tiles;
        count = c.count;
        sound = c.sound;
      })
      (advance-Advances watermark lost a v h)

-- Calls in the horizon of one grid are in the horizon of a grid with its origin and interval.
All-InHorizon :
    (g g' : Grid)
    → g'.origin ≡ g.origin
    → g'.interval ≡ g.interval
    → (calls : List Call) → All (λ call. InHorizon g (call_time call)) calls
    → All (λ call. InHorizon g' (call_time call)) calls
All-InHorizon g g' eo ei [] h = tt
All-InHorizon g g' eo ei (call ∷ calls) h = (
  record { positive = rw ei h.0.positive; room = rw (eo, ei) h.0.room },
  All-InHorizon g g' eo ei calls h.1,
)

pub run-Runs :
    (calls : List Call) (a : EventAccumulator)
    → EventInv a
    → All (λ call. InHorizon a.grid (call_time call)) calls
    → Returns (run calls a) (Runs a)
unfolding run
run-Runs [] a v h = Returns-some _ (Ran-none a v)
run-Runs (call ∷ calls) a v h = Returns-bind (step call a) _ (step-Runs call a v h.0) λ r k.
    Returns-bind (run calls r.0) _
      (run-Runs calls r.0 k.inv (All-InHorizon a.grid r.0.grid k.origin k.interval calls h.1))
      λ s l. Returns-some _ (Ran-append a r.0 s.0 r.1 s.1 k l)

-- The state in which the collector starts satisfies the invariant.
pub new_event_accumulator-EventInv :
    (now : Time) (interval : Duration) (initial : ThreadSnapshot)
    → 0 < interval
    → interval < sign_bit
    → EventInv (new_event_accumulator now interval initial)
unfolding new_event_accumulator
new_event_accumulator-EventInv now interval initial positive fits = record {
  horizon = record { positive = positive; room = omega arith };
  started = omega arith;
  good = tt;
  reached = omega arith;
  at_first = λ _. refl;
}

-- From a new event accumulator, with an interval that is positive and less than 2 ^ 63
-- nanoseconds, every sequence of Observe and Advance calls in the horizon returns and keeps the
-- invariant: the reports tile the time from its origin on, in order, and the figures of every
-- thread in them agree.
pub run_from_start-Runs :
    (now : Time) (interval : Duration) (initial : ThreadSnapshot) (calls : List Call)
    → 0 < interval
    → interval < sign_bit
    → All
        (λ call. InHorizon (new_event_accumulator now interval initial).grid (call_time call))
        calls
    → Returns
        (run calls (new_event_accumulator now interval initial))
        (Runs (new_event_accumulator now interval initial))
run_from_start-Runs now interval initial calls positive fits =
    run-Runs calls (new_event_accumulator now interval initial)
      (new_event_accumulator-EventInv now interval initial positive fits)
