-- ===== src/Collector/Loop/Events.antt =====
-- runSchedulerEvents, flushSchedulerEvents and drainSchedulerEvents.
use tsastat.Prelude.{ℕ, Option, none, some, List, [], ◌∷◌, if◌then◌else◌, ◌>>=◌, for_each}
use tsastat.Clock.{Time, Duration}
use tsastat.Model.Sample.{ThreadSnapshot}
use tsastat.Model.Scheduler.{SchedulerEvent}
use tsastat.Model.Stats.{IntervalReport}
use tsastat.Model.Sources.{Failure, process_not_found, other, is_canceled}
use tsastat.Collector.EventAccumulator.Observe.{
  EventAccumulator, new_event_accumulator, set_clock_calibration_uncertainty, observe_event,
}
use tsastat.Collector.EventAccumulator.Advance.{advance, next_boundary}
use tsastat.Collector.Loop.{
  Sink, Outcome, finished, stopped, waiting, Next, end_with, go_on, select_loop,
}

-- A channel gives a value, or is closed.
pub data Received (A : Type 0) : Type 0 where
  value : A → Received A
  closed : Received A

-- What the select of flushSchedulerEvents receives. A flush that is confirmed brings the events that
-- are waiting by then.
pub data FlushMessage : Type 0 where
  context_done : Failure → FlushMessage
  exited : FlushMessage
  event : Received SchedulerEvent → FlushMessage
  error : Received (Option Failure) → FlushMessage
  flushed : Received (List SchedulerEvent) → FlushMessage

-- What the flush comes to.
pub data Flushed : Type 0 where
  flushed_to : EventAccumulator → Flushed
  flush_failed : Failure → Flushed
  flush_waiting : Flushed

unfoldable pub drain_scheduler_events :
    List SchedulerEvent → EventAccumulator → Option EventAccumulator
drain_scheduler_events events a = for_each events observe_event a

unfoldable pub flush_loop : List FlushMessage → EventAccumulator → Option Flushed
flush_loop [] a = some flush_waiting
flush_loop (context_done e ∷ messages) a = some (flush_failed e)
flush_loop (exited ∷ messages) a = some (flush_failed process_not_found)
flush_loop (event closed ∷ messages) a = some (flush_failed other)
flush_loop (event (value e) ∷ messages) a = do a' ← observe_event e a; flush_loop messages a'
flush_loop (error closed ∷ messages) a = some (flush_failed other)
flush_loop (error (value none) ∷ messages) a = flush_loop messages a
flush_loop (error (value (some e)) ∷ messages) a = some (flush_failed e)
flush_loop (flushed closed ∷ messages) a = some (flush_failed other)
flush_loop (flushed (value events) ∷ messages) a = do
  a' ← drain_scheduler_events events a
  some (flushed_to a')

-- stream.Flush() may refuse.
unfoldable pub flush_scheduler_events :
    Option Failure → List FlushMessage → EventAccumulator → Option Flushed
flush_scheduler_events (some e) messages a = some (flush_failed e)
flush_scheduler_events none messages a = flush_loop messages a

-- What the select of the loop receives. When the timer fires the stream is flushed, and tells how
-- many events it has lost.
pub data StreamMessage : Type 0 where
  context_done : StreamMessage
  exited : StreamMessage
  event : Received SchedulerEvent → StreamMessage
  error : Received (Option Failure) → StreamMessage
  timer : Option Failure → List FlushMessage → ℕ → StreamMessage

-- The window up to `boundary` is completed after the flush.
unfoldable pub complete_window : Time → ℕ → Flushed → Option (Next EventAccumulator)
complete_window boundary lost (flush_failed e) =
    some (end_with (if is_canceled e then finished else stopped e))
complete_window boundary lost flush_waiting = some (end_with waiting)
complete_window boundary lost (flushed_to a) = do
  (b, reports) ← advance boundary lost a
  some (go_on b reports)

unfoldable pub event_round : StreamMessage → EventAccumulator → Option (Next EventAccumulator)
event_round StreamMessage.context_done a = some (end_with finished)
event_round StreamMessage.exited a = some (end_with (stopped process_not_found))
event_round (StreamMessage.event closed) a = some (end_with (stopped other))
event_round (StreamMessage.event (value e)) a = do a' ← observe_event e a; some (go_on a' [])
event_round (StreamMessage.error closed) a = some (end_with (stopped other))
event_round (StreamMessage.error (value none)) a = some (go_on a [])
event_round (StreamMessage.error (value (some e))) a = some (end_with (stopped e))
event_round (timer refused messages lost) a = do
  done ← flush_scheduler_events refused messages a
  complete_window (next_boundary a.grid) lost done

-- What OpenSchedulerEvents returns: the stream's first snapshot and the uncertainty of its clock, or
-- an error.
pub data Opening : Type 0 where
  opened : ThreadSnapshot → Duration → Opening
  refused : Failure → Opening

-- The accumulator of a stream that has been opened; `now` is the clock's time.
unfoldable pub stream_accumulator : Time → Duration → ThreadSnapshot → Duration → EventAccumulator
stream_accumulator now interval initial uncertainty =
    set_clock_calibration_uncertainty uncertainty (new_event_accumulator now interval initial)

unfoldable pub run_scheduler_events :
    Sink → Time → Duration → Opening → List StreamMessage → Option (Outcome × List IntervalReport)
run_scheduler_events sink now interval (refused e) messages = some (stopped e, [])
run_scheduler_events sink now interval (opened initial uncertainty) messages =
    select_loop sink event_round messages 0 (stream_accumulator now interval initial uncertainty)
