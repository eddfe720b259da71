-- ===== src/Collector/Loop/HybridRounds.antt =====
-- The rounds of the hybrid loop: each returns, and hands out the next windows.
use tsastat.Prelude.{
  ℕ, ◌+◌, ◌*◌, ◌<◌, ◌≡◌, refl, ◌∙◌, sym, subst, false, not, Option, none, some, List, [], ◌∷◌,
  arith, Returns, Returns-some, Returns-bind, Returns-weaken, sign_bit, All,
}
use tsastat.Clock.{Time}
use tsastat.Model.Sources.{Reply, taken, failed}
use tsastat.Collector.Grid.{Grid}
use tsastat.Collector.Accumulator.Finalize.Tiling.{Tiles-same}
use tsastat.Collector.Accumulator.Scan.{normalize_snapshot}
use tsastat.Collector.Accumulator.Observe.Scans.{IsTimely}
use tsastat.Collector.Accumulator.Observe.{Accumulator, observe}
use tsastat.Collector.Accumulator.Observe.Runs.{IsStarted, IsTimely-same, observe_next-Observed}
use tsastat.Collector.EventAccumulator.Observe.{observe_event}
use tsastat.Collector.EventAccumulator.Advance.{advance, next_boundary}
use tsastat.Collector.EventAccumulator.Invariant.Advance.{IsSound}
use tsastat.Collector.Loop.{Sink, Next, end_with, go_on}
use tsastat.Collector.Loop.Events.{
  value, closed, Flushed, flushed_to, flush_failed, flush_waiting, flush_scheduler_events,
}
use tsastat.Collector.Loop.Emitted.{Steps}
use tsastat.Collector.Loop.Boundary.{
  Stands, Stands-here, EventInHorizon, observe_event-Stands, FlushInHorizon, FlushStands,
  flush_scheduler_events-Stands, advance-next_boundary,
}
use tsastat.Collector.Loop.EventReports.{with_source_status-IsSound}
use tsastat.Collector.Loop.Hybrid.{
  HybridState, HybridMessage, context_done, exited, event, error, sample_tick, timer,
  observe_aux_snapshot, take_sample, report_merged, complete_hybrid_window, hybrid_round,
}
use tsastat.Collector.Loop.Merged.{merge_all-Tiles}

abbrev pub ReplyIsTimely : Grid → Time → Reply → Type 0
ReplyIsTimely g now (failed e) = Unit
ReplyIsTimely g now (taken snapshot) = IsTimely g (normalize_snapshot now snapshot)

-- The events that a message brings are in the horizon, and the snapshots are timely.
abbrev pub HybridInHorizon : Grid → HybridMessage → Type 0
HybridInHorizon g (event (value e)) = EventInHorizon g e
HybridInHorizon g (sample_tick now reply) = ReplyIsTimely g now reply
HybridInHorizon g (timer refusal messages lost now reply) =
    All (FlushInHorizon g) messages × ReplyIsTimely g now reply
HybridInHorizon g _ = Unit

-- How often the timer fires.
abbrev pub hybrid_timers : List HybridMessage → ℕ
hybrid_timers [] = 0
hybrid_timers (timer refusal flush lost now reply ∷ messages) = hybrid_timers messages + 1
hybrid_timers (_ ∷ messages) = hybrid_timers messages

-- An auxiliary accumulator has its baseline, on the grid of the events.
pub record IsAuxiliary (g : Grid) (a : Accumulator) : Type 0 where
  pub started : IsStarted a
  pub origin : a.origin ≡ g.origin
  pub interval : a.interval ≡ g.interval

abbrev pub AuxStands : Grid → Option Accumulator → Type 0
AuxStands g none = Unit
AuxStands g (some a) = IsAuxiliary g a

pub record IsPaired (g : Grid) (messages : List HybridMessage) (s : HybridState) : Type 0 where
  pub stands : Stands g s.events.next_window s.events
  pub auxiliary : AuxStands g s.auxiliary
  pub timely : All (HybridInHorizon g) messages
  pub room : (s.events.next_window + hybrid_timers messages + 2) * g.interval < sign_bit

-- A sample leaves the events and their windows alone.
abbrev Sampled : Grid → HybridState → Next HybridState → Type 0
Sampled g s (end_with outcome) = Unit
Sampled g s (go_on t reports) = (t.events ≡ s.events) × AuxStands g t.auxiliary × (reports ≡ [])

sample_at :
    (g : Grid) (now : Time) (reply : Reply) (s : HybridState) (o : Option Accumulator)
    → s.auxiliary ≡ o
    → AuxStands g o
    → ReplyIsTimely g now reply
    → Returns (take_sample now reply s) (Sampled g s)
unfolding take_sample observe_aux_snapshot observe
sample_at g now reply s none e h timely = rw (e, take_sample) (Returns-some _ (refl, rw e tt, refl))
sample_at g now (failed f) s (some acc) e h timely = rw (e, take_sample) (Returns-some _ tt)
sample_at g now (taken snapshot) s (some acc) e h timely =
    let going : not acc.initialized ≡ false = rw h.started.initialized refl in
    let scan = normalize_snapshot now snapshot in
    let seen =
      observe_next-Observed acc scan h.started
        (IsTimely-same g acc.grid scan h.origin h.interval timely) in
    rw (e, take_sample, going)
      (rw seen.1 (
        Returns-some _ (
          refl,
          record {
            started = seen.2.started;
            origin = seen.2.origin ∙ h.origin;
            interval = seen.2.interval ∙ h.interval;
          },
          refl,
        )))

module _ (sink : Sink) (g : Grid) where
  abbrev HybridSteps : List HybridMessage → HybridState → Next HybridState → Type 0
  HybridSteps messages s =
      Steps sink g IsSound with_source_status-IsSound hybrid_round (λ t. t.events.next_window)
        (IsPaired g) messages s

  report_merged-Steps :
      (messages : List HybridMessage) (lost index : ℕ) (at : Time) (s t : HybridState)
      → s.events.next_window ≡ index
      → at ≡ next_boundary t.events.grid
      → Stands g index t.events
      → AuxStands g t.auxiliary
      → All (HybridInHorizon g) messages
      → (index + hybrid_timers messages + 3) * g.interval < sign_bit
      → Returns (report_merged at lost t) (HybridSteps messages s)
  unfolding report_merged
  report_merged-Steps messages lost index at s t here due stands aux timely room = rw due (
      Returns-bind (advance (next_boundary t.events.grid) lost t.events) _
        (advance-next_boundary lost t.events stands.inv
          (rw (stands.next_window, stands.interval) (omega (arith, room))))
        λ r k.
          let merged =
            merge_all-Tiles t.events.grid t.events.next_window r.1 t.reports k.0.tiles k.0.sound in
          Returns-some _ (
            record {
              stands = record {
                inv = k.0.inv;
                origin = k.0.origin ∙ stands.origin;
                interval = k.0.interval ∙ stands.interval;
                next_window = refl;
              };
              auxiliary = aux;
              timely = timely;
              room = rw (k.1, stands.next_window) (omega (arith, room));
            },
            rw (here ∙ sym stands.next_window) (
                Tiles-same g t.events.grid t.events.next_window _ stands.origin stands.interval
                  merged.0),
            omega (arith, k.1, k.2, merged.1, stands.next_window, here),
            merged.2,
          ))

  complete_hybrid_window-Steps :
      (messages : List HybridMessage) (lost : ℕ) (now : Time) (reply : Reply) (s : HybridState)
      (f : Flushed)
      → Stands g s.events.next_window s.events
      → AuxStands g s.auxiliary
      → All (HybridInHorizon g) messages
      → ReplyIsTimely g now reply
      → (s.events.next_window + hybrid_timers messages + 3) * g.interval < sign_bit
      → FlushStands g s.events.next_window f
      → Returns
          (complete_hybrid_window (next_boundary s.events.grid) lost now reply s f)
          (HybridSteps messages s)
  unfolding complete_hybrid_window
  complete_hybrid_window-Steps messages lost now reply s (flush_failed e) st aux timely t room h =
      Returns-some _ tt
  complete_hybrid_window-Steps messages lost now reply s flush_waiting st aux timely t room h =
      Returns-some _ tt
  complete_hybrid_window-Steps messages lost now reply s (flushed_to b) st aux timely t room h =
      Returns-bind (take_sample now reply (record s { events = b })) _
        (sample_at g now reply (record s { events = b }) s.auxiliary refl aux t) after_sample
    where
      after_sample :
          (next : Next HybridState)
          → Sampled g (record s { events = b }) next
          → Returns
              (elim next [
                | end_with outcome ↦ some (end_with outcome)
                | go_on sampled reports ↦ report_merged (next_boundary s.events.grid) lost sampled
              ])
              (HybridSteps messages s)
      after_sample (end_with outcome) q = Returns-some _ tt
      after_sample (go_on u reports) q =
          report_merged-Steps messages lost s.events.next_window (next_boundary s.events.grid) s u
            refl (cc (st.origin, h.origin, st.interval, h.interval, h.next_window, q.0))
            (subst (Stands g s.events.next_window) (sym q.0) h) q.1 timely room

  pub hybrid_round-Steps :
      (message : HybridMessage) (messages : List HybridMessage) (s : HybridState)
      → IsPaired g (message ∷ messages) s
      → Returns (hybrid_round message s) (HybridSteps messages s)
  unfolding hybrid_round
  hybrid_round-Steps context_done messages s p = Returns-some _ tt
  hybrid_round-Steps exited messages s p = Returns-some _ tt
  hybrid_round-Steps (event closed) messages s p = Returns-some _ tt
  hybrid_round-Steps (event (value e)) messages s p =
      Returns-bind (observe_event e s.events) _
        (observe_event-Stands g s.events.next_window s.events e p.stands p.timely.0)
        λ b t. Returns-some _ (
          record {
            stands = Stands-here g _ _ t;
            auxiliary = p.auxiliary;
            timely = p.timely.1;
            room = rw t.next_window p.room;
          },
          tt,
          omega (arith, t.next_window),
          tt,
        )
  hybrid_round-Steps (error closed) messages s p = Returns-some _ tt
  hybrid_round-Steps (error (value none)) messages s p = Returns-some _ (
    record { stands = p.stands; auxiliary = p.auxiliary; timely = p.timely.1; room = p.room },
    tt,
    omega arith,
    tt,
  )
  hybrid_round-Steps (error (value (some e))) messages s p = Returns-some _ tt
  hybrid_round-Steps (sample_tick now reply) messages s p =
      Returns-weaken (take_sample now reply s) after_sample
        (sample_at g now reply s s.auxiliary refl p.auxiliary p.timely.0)
    where
      after_sample : (next : Next HybridState) → Sampled g s next → HybridSteps messages s next
      after_sample (end_with outcome) q = tt
      after_sample (go_on t reports) q = (
        record {
          stands = rw q.0 p.stands;
          auxiliary = q.1;
          timely = p.timely.1;
          room = rw q.0 p.room;
        },
        rw q.2 tt,
        rw (q.2, q.0) (omega arith),
        rw q.2 tt,
      )
  hybrid_round-Steps (timer refusal flush lost now reply) messages s p =
      Returns-bind (flush_scheduler_events refusal flush s.events) _
        (flush_scheduler_events-Stands g s.events.next_window refusal flush s.events p.stands
          p.timely.0.0)
        λ f t.
          complete_hybrid_window-Steps messages lost now reply s f p.stands p.auxiliary p.timely.1
            p.timely.0.1 (omega (arith, p.room)) t
