-- ===== src/Collector/Accumulator/Observe/Runs.antt =====
-- Any sequence of snapshots, as the collector observes them.
use tsastat.Prelude.{
  ◌+◌, ◌*◌, ◌<◌, ◌≡◌, refl, ◌∙◌, inl, inr, true, false, not, Bool-cases, Option, some, List, [],
  ◌∷◌, ◌++◌, arith, sign_bit, Returns, Returns-some, Returns-bind, ◌>>=◌, if◌then◌else◌, All,
  for_each_keeps, nat_eq,
}
use tsastat.Clock.{Time, Duration, before}
use tsastat.Model.Sample.{ThreadSample, ThreadSnapshot}
use tsastat.Model.Stats.{IntervalReport}
use tsastat.Collector.Grid.{Grid, InHorizon}
use tsastat.Collector.Accumulator.Windows.{Windows}
use tsastat.Collector.Accumulator.Finalize.{finalize_through}
use tsastat.Collector.Accumulator.Finalize.Tiling.{
  Completed, finalize_through-Completed, Tiles, Tiles-append, Tiles-same, length_of,
  length_of-append,
}
use tsastat.Collector.Accumulator.Scan.{samples_by_identity, normalize_snapshot}
use tsastat.Collector.Accumulator.Observe.{
  sample_end, Accumulator, new_accumulator, observe, observe_first, observe_next, observe_thread,
  watermark_of,
}
use tsastat.Collector.Accumulator.Observe.Returning.{InHorizon-same}
use tsastat.Collector.Accumulator.Observe.Scans.{
  IsReading, IsTimely, record_scan-Ends, record_observations-Ends, observe_thread-Ends,
  samples_by_identity-AllEntries, watermark_of-InHorizon,
}

-- Whatever the watermark, finalizeThrough completes the windows that end by it.
finalize-Completed :
    (watermark : Time) (g : Grid) (ws : Windows)
    → InHorizon g watermark
    → g.next_window * g.interval + g.interval < sign_bit
    → Returns (finalize_through true watermark g ws) (Completed g watermark ws)
finalize-Completed watermark g ws h fits = elim (Bool-cases (before watermark g.origin)) [
  | inl early ↦
      unfold finalize_through in
      rw early (
        Returns-some _ (record {
          origin = refl;
          interval = refl;
          tiles = tt;
          count = omega arith;
          complete = ground (arith, early);
          due = inl refl;
          pruned = λ index. ground arith;
        }))
  | inr late ↦ finalize_through-Completed watermark g ws h (ground (arith, late)) fits
]

-- The accumulator has its baseline, and its next window ends in range.
pub record IsStarted (a : Accumulator) : Type 0 where
  pub initialized : a.initialized ≡ true
  pub fits : a.next_window * a.interval + a.interval < sign_bit

-- What observing comes to.
pub record Observed (a b : Accumulator) (reports : List IntervalReport) : Type 0 where
  pub started : IsStarted b
  pub origin : b.origin ≡ a.origin
  pub interval : b.interval ≡ a.interval
  pub tiles : Tiles a.grid a.next_window reports
  pub count : b.next_window ≡ a.next_window + length_of reports

abbrev pub Observes : Accumulator → Accumulator × List IntervalReport → Type 0
Observes a (b, reports) = Observed a b reports

-- The next window that is left ends in range.
left_fits :
    (g : Grid) (watermark : Time) (ws : Windows) (r : _)
    → InHorizon g watermark
    → g.next_window * g.interval + g.interval < sign_bit
    → Completed g watermark ws r
    → r.grid.next_window * r.grid.interval + r.grid.interval < sign_bit
left_fits g watermark ws r h fits c =
    rw c.interval (elim c.due [ inl same ↦ rw same fits | inr due ↦ omega (arith, due, h.room) ])

pub observe_next-Observed :
    (a : Accumulator) (snapshot : ThreadSnapshot)
    → IsStarted a
    → IsTimely a.grid snapshot
    → Returns (observe_next a snapshot) (Observes a)
unfolding observe_next
observe_next-Observed a snapshot v timely =
    let current = samples_by_identity snapshot.samples in
    let watermark = watermark_of snapshot a.previous current in
    let readings =
      samples_by_identity-AllEntries (IsReading a.grid snapshot) snapshot.samples timely.readings in
    let reached = watermark_of-InHorizon a.grid snapshot a.previous current timely readings in
    rw v.initialized (
      Returns-bind _ _ (record_scan-Ends a.grid snapshot a.windows timely.horizon) λ ws₁ _.
        Returns-bind _ _
          (record_observations-Ends a.grid snapshot snapshot.samples ws₁ timely.horizon
            timely.readings)
          λ ws₂ _.
            Returns-bind _ _
              (for_each_keeps (λ _. Unit {0}) (observe_thread a.grid snapshot current) a.previous
                (λ entry ws _. observe_thread-Ends a.grid snapshot timely current readings entry ws)
                ws₂ tt)
              λ ws₃ _.
                Returns-bind (finalize_through true watermark a.grid ws₃) _
                  (finalize-Completed watermark a.grid ws₃ reached v.fits)
                  λ r c. Returns-some _ (record {
                    started = record {
                      initialized = refl;
                      fits = left_fits a.grid watermark ws₃ r reached v.fits c;
                    };
                    origin = c.origin;
                    interval = c.interval;
                    tiles = c.tiles;
                    count = c.count;
                  }))

-- The grid on which the first snapshot puts the windows.
abbrev pub first_grid : Accumulator → ThreadSnapshot → Grid
first_grid a snapshot = record a.grid {
  origin = if a.fixed_origin then a.origin else snapshot.finished_at;
}

Observed-append :
    (a b c : Accumulator) (xs ys : List IntervalReport)
    → Observed a b xs
    → Observed b c ys
    → Observed a c (xs ++ ys)
Observed-append a b c xs ys r s = record {
  started = s.started;
  origin = s.origin ∙ r.origin;
  interval = s.interval ∙ r.interval;
  tiles =
      Tiles-append a.grid a.next_window xs ys r.tiles
        (rw r.count at (Tiles-same a.grid b.grid b.next_window ys r.origin r.interval s.tiles));
  count = omega (arith, r.count, s.count, length_of-append xs ys);
}

-- The first snapshot sets the baseline: it reports nothing.
pub record Baseline (g : Grid) (b : Accumulator) (reports : List IntervalReport) : Type 0 where
  pub started : IsStarted b
  pub origin : b.origin ≡ g.origin
  pub interval : b.interval ≡ g.interval
  pub next_window : b.next_window ≡ g.next_window
  pub silent : reports ≡ []

pub observe_first-Baseline :
    (a : Accumulator) (snapshot : ThreadSnapshot)
    → a.next_window ≡ 0
    → IsTimely (first_grid a snapshot) snapshot
    → a.interval < sign_bit
    → Returns
        (observe_first a snapshot)
        (λ (b, reports). Baseline (first_grid a snapshot) b reports)
unfolding observe_first
observe_first-Baseline a snapshot none_yet timely fits =
    Returns-bind _ _ (record_scan-Ends (first_grid a snapshot) snapshot a.windows timely.horizon)
      λ ws _. Returns-some _ (record {
        started = record { initialized = refl; fits = rw none_yet (omega arith) };
        origin = refl;
        interval = refl;
        next_window = refl;
        silent = refl;
      })

-- A snapshot, and the clock when it is observed.
pub record Reading : Type 0 where
  pub now : Time
  pub snapshot : ThreadSnapshot

unfoldable pub observe_all : List Reading → Accumulator → Option (Accumulator × List IntervalReport)
observe_all [] a = some (a, [])
observe_all (r ∷ rest) a = do
  (a', reports) ← observe r.now a r.snapshot
  (b, later) ← observe_all rest a'
  some (b, reports ++ later)

abbrev pub AllTimely : Grid → List Reading → Type 0
AllTimely g readings =
    All (λ (r : Reading). IsTimely g (normalize_snapshot r.now r.snapshot)) readings

-- The windows that a new accumulator puts after its first snapshot.
abbrev pub scan_grid : Duration → Reading → Grid
scan_grid interval first = record {
  origin = (normalize_snapshot first.now first.snapshot).finished_at;
  interval = interval;
  next_window = 0;
}

-- A snapshot that is timely for one grid is timely for any with its origin and interval.
pub IsTimely-same :
    (g g' : Grid) (snapshot : ThreadSnapshot)
    → g'.origin ≡ g.origin
    → g'.interval ≡ g.interval
    → IsTimely g snapshot
    → IsTimely g' snapshot
IsTimely-same g g' snapshot eo ei t = record {
  horizon = InHorizon-same g g' snapshot.finished_at eo ei t.horizon;
  ordered = t.ordered;
  readings = IsReading-same snapshot.samples t.readings;
}
  where
    IsReading-same :
        (samples : List ThreadSample)
        → All (IsReading g snapshot) samples
        → All (IsReading g' snapshot) samples
    IsReading-same [] h = tt
    IsReading-same (s ∷ samples) h = (
      record {
        horizon = InHorizon-same g g' (sample_end snapshot s) eo ei h.0.horizon;
        schedstat = h.0.schedstat;
        delays = h.0.delays;
      },
      IsReading-same samples h.1,
    )

AllTimely-same :
    (g g' : Grid) (readings : List Reading)
    → g'.origin ≡ g.origin
    → g'.interval ≡ g.interval
    → AllTimely g readings
    → AllTimely g' readings
AllTimely-same g g' [] eo ei h = tt
AllTimely-same g g' (r ∷ readings) eo ei h = (
  IsTimely-same g g' (normalize_snapshot r.now r.snapshot) eo ei h.0,
  AllTimely-same g g' readings eo ei h.1,
)

-- An accumulator that has its baseline observes any number of snapshots.
observe_all-Observed :
    (readings : List Reading) (a : Accumulator)
    → IsStarted a
    → AllTimely a.grid readings
    → Returns (observe_all readings a) (Observes a)
unfolding observe_all observe
observe_all-Observed [] a v h =
    Returns-some _
      (record { started = v; origin = refl; interval = refl; tiles = tt; count = omega arith })
observe_all-Observed (r ∷ readings) a v h =
    let going : not a.initialized ≡ false = rw v.initialized refl in
    rw going (
      Returns-bind (observe_next a (normalize_snapshot r.now r.snapshot)) _
        (observe_next-Observed a (normalize_snapshot r.now r.snapshot) v h.0)
        λ s k.
          Returns-bind (observe_all readings s.0) _
            (observe_all-Observed readings s.0 k.started
              (AllTimely-same a.grid s.0.grid readings k.origin k.interval h.1))
            λ t l. Returns-some _ (Observed-append a s.0 t.0 s.1 t.1 k l))

-- From a new accumulator, the first snapshot sets the origin, at its end, and reports nothing; any
-- snapshots after it are observed, and the reports tile the time from the origin on, in order, and
-- lead to the next window. The snapshots' times are in the horizon and their counters are 64-bit
-- words; the interval is less than 2 ^ 63 nanoseconds.
pub observe_from_new-Observed :
    (interval : Duration) (first : Reading) (readings : List Reading)
    → interval < sign_bit
    → AllTimely (scan_grid interval first) (first ∷ readings)
    → Returns (observe_all (first ∷ readings) (new_accumulator interval)) (λ (b, reports).
      (b.origin ≡ (scan_grid interval first).origin)
      × Tiles (scan_grid interval first) 0 reports
      × (b.next_window ≡ length_of reports))
unfolding observe_all observe new_accumulator
observe_from_new-Observed interval first readings fits h =
    let snapshot = normalize_snapshot first.now first.snapshot in
    Returns-bind _ _ (observe_first-Baseline (new_accumulator interval) snapshot refl h.0 fits)
      λ s k.
        Returns-bind (observe_all readings s.0) _
          (observe_all-Observed readings s.0 k.started
            (AllTimely-same (scan_grid interval first) s.0.grid readings k.origin k.interval h.1))
          λ t l.
            let tiles =
              Tiles-same (scan_grid interval first) s.0.grid s.0.next_window t.1 k.origin k.interval
                l.tiles in
            Returns-some _ (
              l.origin ∙ k.origin,
              rw k.silent (rw k.next_window at tiles),
              rw k.silent (omega (arith, l.count, k.next_window)),
            )
