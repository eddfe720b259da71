-- ===== src/Collector/EventAccumulator/Invariant/Advance.antt =====
-- Advance keeps the invariant, and its reports tile the time and carry consistent figures.
use tsastat.Prelude.{
  ℕ, zero, suc, ◌+◌, ◌-◌, ◌*◌, ◌≤◌, ◌<◌, ◌≡◌, refl, ap, true, inl, inr, ◌⊎◌, Bool-cases,
  Option-cases, Option, none, some, List, [], ◌∷◌, map, arith, Returns, Returns-some, Returns-bind,
  Returns-if, if◌then◌else◌, lookup, delete, nat_eq, sign_bit, All, All-sort_slice, AllEntries,
  AllEntries-delete_ne, AllEntries-lookup, for_each, for_each_keeps,
}
use tsastat.Clock.{Time, Duration, before, after}
use tsastat.Model.Stats.{IntervalReport}
use tsastat.Collector.Grid.{Grid, InHorizon, window_bounds}
use tsastat.Collector.Grid.Bounds.{window_bounds-eq, window_start-EndsWindows}
use tsastat.Collector.Accumulator.Windows.{Windows, Stats, IntervalWindow}
use tsastat.Collector.Accumulator.Finalize.{Finalized, advance_window}
use tsastat.Collector.Accumulator.Finalize.Tiling.{
  boundary, Completed, Completed-step, Tiles, length_of,
}
use tsastat.Collector.EventAccumulator.Observe.{EventAccumulator}
use tsastat.Collector.EventAccumulator.Advance.{
  next_boundary, is_running, book_track, sorted_event_stats, event_report, report_loop, advance_to,
  advance,
}
use tsastat.Collector.EventAccumulator.Invariant.{IsConsistent, IsGood, IsGoodWindow}
use tsastat.Collector.EventAccumulator.Invariant.Keeps.{add_track_segment-IsGood}
use tsastat.Collector.EventAccumulator.Invariant.Observe.{EventInv}

abbrev pub IsSound : IntervalReport → Type 0
IsSound r = All IsConsistent r.threads

values-All :
    (m : Stats) → AllEntries (λ _ s. IsConsistent s) m → All IsConsistent (map (λ entry. entry.1) m)
values-All [] h = tt
values-All ((k, s) ∷ m) h = (h.0, values-All m h.1)

event_report-IsSound :
    (g : Grid) (uncertainty : Duration) (lost : ℕ) (ws : Windows)
    → IsGood g ws
    → IsSound (event_report g uncertainty lost (lookup g.next_window ws))
unfolding event_report sorted_event_stats
event_report-IsSound g uncertainty lost ws good = elim (Option-cases (lookup g.next_window ws)) [
  | inl missing ↦ rw (missing, event_report) tt
  | inr (w, found) ↦
      rw (found, event_report)
        (All-sort_slice IsConsistent _ _
          (values-All w.stats (AllEntries-lookup (IsGoodWindow g) g.next_window ws w good found).1))
]

delete-IsGood :
    (g : Grid) (ws : Windows) → IsGood g ws → IsGood (advance_window g) (delete g.next_window ws)
delete-IsGood g ws good =
    AllEntries-delete_ne (IsGoodWindow g) (IsGoodWindow (advance_window g)) g.next_window
      (λ index w other h. (ground arith, h.1)) ws good

abbrev Reported : Grid → Time → Windows → Finalized → Type 0
Reported g watermark ws r =
    Completed g watermark ws r × IsGood r.grid r.windows × All IsSound r.reports

event_report-bounds :
    (g : Grid) (uncertainty : Duration) (lost : ℕ) (o : Option IntervalWindow)
    → g.next_window * g.interval + g.interval < sign_bit
    → ((event_report g uncertainty lost o).interval_start ≡ boundary g g.next_window)
      × ((event_report g uncertainty lost o).interval_end ≡ boundary g g.next_window + g.interval)
unfolding event_report window_bounds
event_report-bounds g uncertainty lost none h = (
  ap (λ (b : Time × Time). b.0) (window_bounds-eq g g.next_window h),
  ap (λ (b : Time × Time). b.1) (window_bounds-eq g g.next_window h),
)
event_report-bounds g uncertainty lost (some w) h = (
  ap (λ (b : Time × Time). b.0) (window_bounds-eq g g.next_window h),
  ap (λ (b : Time × Time). b.1) (window_bounds-eq g g.next_window h),
)

report_loop-Reported :
    (uncertainty : Duration) (lost fuel : ℕ) (watermark : Time) (g : Grid) (ws : Windows)
    → InHorizon g watermark
    → g.next_window * g.interval + g.interval < sign_bit
    → watermark - boundary g g.next_window < fuel
    → IsGood g ws
    → Returns (report_loop uncertainty lost fuel watermark g ws) (Reported g watermark ws)
unfolding report_loop
report_loop-Reported uncertainty lost zero watermark g ws h fits enough good = absurd (omega arith)
report_loop-Reported uncertainty lost (suc fuel) watermark g ws h fits enough good =
    let end : next_boundary g ≡ boundary g g.next_window + g.interval =
      unfold next_boundary in window_start-EndsWindows g g.next_window fits in
    let report = event_report g uncertainty lost (lookup g.next_window ws) in
    let bounds = event_report-bounds g uncertainty lost (lookup g.next_window ws) fits in
    elim (Bool-cases (after (next_boundary g) watermark)) [
      | inl stop ↦
          rw (stop, report_loop)
            (Returns-some _ (
              record {
                origin = refl;
                interval = refl;
                tiles = tt;
                count = omega arith;
                complete = ground (arith, end, stop);
                due = inl refl;
                pruned = λ index. ground arith;
              },
              good,
              tt,
            ))
      | inr more ↦
          let due : boundary g g.next_window + g.interval ≤ watermark = ground (arith, end, more) in
          rw (more, report_loop)
            (Returns-bind
              (report_loop uncertainty lost fuel watermark (advance_window g)
                (delete g.next_window ws))
              _
              (report_loop-Reported uncertainty lost fuel watermark (advance_window g)
                (delete g.next_window ws) (record { positive = h.positive; room = h.room })
                (omega (arith, due, h.room)) (omega (arith, due, enough, h.positive))
                (delete-IsGood g ws good))
              λ r c. Returns-some _ (
                Completed-step g watermark ws r report due (bounds.0) (bounds.1) c.0,
                c.1,
                (event_report-IsSound g uncertainty lost ws good, c.2),
              ))
    ]

book_track-IsGood :
    (g : Grid) (watermark : Time) (entry : _) (ws : Windows)
    → InHorizon g watermark
    → g.origin ≤ watermark
    → IsGood g ws
    → Returns (book_track g watermark entry ws) (IsGood g)
unfolding book_track
book_track-IsGood g watermark (key, track) ws h lo good =
    Returns-if (is_running watermark track) _ _
      (λ _. add_track_segment-IsGood g track track.since watermark ws h lo good)
      (λ _. Returns-some ws good)

-- What a call of Advance comes to: the invariant, the reports, and where they stop.
pub record Advanced (watermark : Time) (a b : EventAccumulator) (reports : List IntervalReport)
    : Type 0 where
  pub inv : EventInv b
  pub origin : b.origin ≡ a.origin
  pub interval : b.interval ≡ a.interval
  pub tiles : Tiles a.grid a.next_window reports
  pub count : b.next_window ≡ a.next_window + length_of reports
  pub complete : watermark < boundary a.grid b.next_window + a.interval
  pub due : (b.next_window ≡ a.next_window) ⊎ (boundary a.grid b.next_window ≤ watermark)
  pub sound : All IsSound reports

-- The invariant of the state that the reported windows leave.
Reported-EventInv :
    (watermark top : Time) (a b : EventAccumulator) (r : Finalized) (ws : Windows)
    → EventInv a
    → InHorizon a.grid watermark
    → Reported a.grid watermark ws r
    → b.grid ≡ r.grid
    → b.windows ≡ r.windows
    → b.advanced ≡ true
    → b.watermark ≡ top
    → a.watermark ≤ top
    → watermark ≤ top
    → (top ≡ watermark) ⊎ (top ≡ a.watermark)
    → EventInv b
Reported-EventInv watermark top a b r ws v h (c, good, sound) eg ew ea et low high one = record {
  horizon =
      rw (et, eg)
        (record {
          positive = rw c.interval h.positive;
          room =
              rw (c.interval, c.origin)
                (elim one [ inl e ↦ rw e h.room | inr e ↦ rw e v.horizon.room ]);
        });
  started = rw (et, eg, c.origin) (omega (arith, v.started));
  good = rw (eg, ew) good;
  reached =
      rw (et, eg, c.origin, c.interval)
        (elim c.due [
          | inl same ↦ rw same (omega (arith, v.reached))
          | inr due ↦ omega (arith, due)
        ]);
  at_first = λ fresh. cc (ea, fresh);
}

abbrev pub Advances : Time → EventAccumulator → EventAccumulator × List IntervalReport → Type 0
Advances watermark a (b, reports) = Advanced watermark a b reports

advance_to-Advances :
    (watermark : Time) (lost : ℕ) (a : EventAccumulator)
    → EventInv a
    → InHorizon a.grid watermark
    → a.origin ≤ watermark
    → Returns (advance_to watermark lost a) (Advances watermark a)
unfolding advance_to
advance_to-Advances watermark lost a v h lo =
    Returns-bind (for_each a.tracks (book_track a.grid watermark) a.windows) _
      (for_each_keeps (IsGood a.grid) (book_track a.grid watermark) a.tracks
        (λ entry ws good. book_track-IsGood a.grid watermark entry ws h lo good) a.windows v.good)
      λ ws good.
        Returns-bind
          (report_loop a.clock_calibration_uncertainty lost (suc (watermark - a.origin)) watermark
            a.grid ws)
          _
          (report_loop-Reported a.clock_calibration_uncertainty lost (suc (watermark - a.origin))
            watermark a.grid ws h (omega (arith, v.reached, v.horizon)) (omega arith) good)
          λ r reported. Returns-some _ (record {
            inv =
                Reported-EventInv watermark
                  (if after watermark a.watermark then watermark else a.watermark) a _ r ws v h
                  reported refl refl refl refl (ground arith) (ground arith) (ground arith);
            origin = reported.0.origin;
            interval = reported.0.interval;
            tiles = reported.0.tiles;
            count = reported.0.count;
            complete = reported.0.complete;
            due = reported.0.due;
            sound = reported.2;
          })

-- From a state that satisfies the invariant, Advance returns for any watermark in the horizon and keeps
-- the invariant; its reports are of consecutive windows from the next one on, up to the last that ends
-- by the watermark, and the figures of every thread in them agree.
pub advance-Advances :
    (watermark : Time) (lost : ℕ) (a : EventAccumulator)
    → EventInv a
    → InHorizon a.grid watermark
    → Returns (advance watermark lost a) (Advances watermark a)
unfolding advance
advance-Advances watermark lost a v h =
    Returns-if (before watermark a.origin) _ _
      (λ early. Returns-some _ (record {
        inv = v;
        origin = refl;
        interval = refl;
        tiles = tt;
        count = omega arith;
        complete = ground (arith, early);
        due = inl refl;
        sound = tt;
      }))
      (λ lo. advance_to-Advances watermark lost a v h (ground arith))
