-- ===== src/Collector/Accumulator/Finalize/Tiling.antt =====
-- finalizeThrough reports the completed windows in order, without a gap or an overlap.
use native.Mathlib.Nat.{add-zero}
use tsastat.Prelude.{
  ℕ, zero, suc, ◌+◌, ◌-◌, ◌*◌, ◌≤◌, ◌<◌, ◌≡◌, refl, ap, ◌⊎◌, true, not, ◌&&◌, ◌||◌, inl, inr,
  Bool-cases, none, List, [], ◌∷◌, ◌++◌, arith, ltb, leb, sign_bit, Returns, Returns-some,
  Returns-bind, Returns-if, if◌then◌else◌, lookup, delete, lookup-delete, nat_eq,
}
use tsastat.Clock.{Time, after, before}
use tsastat.Model.Stats.{IntervalReport}
use tsastat.Collector.Grid.{Grid, InHorizon, window_bounds}
use tsastat.Collector.Grid.Bounds.{window_bounds-eq}
use tsastat.Collector.Accumulator.Windows.{Windows}
use tsastat.Collector.Accumulator.Finalize.{
  Finalized, finalize_loop, finalize_through, advance_window, prepend, report_next, window_report,
}

abbrev pub boundary : Grid → ℕ → Time
boundary g index = g.origin + index * g.interval

-- The reports cover one window after the other, from window `index` on.
abbrev pub Tiles : Grid → ℕ → List IntervalReport → Type 0
Tiles g index [] = Unit
Tiles g index (r ∷ rs) =
    (r.interval_start ≡ boundary g index)
    × (r.interval_end ≡ boundary g index + g.interval)
    × Tiles g (index + 1) rs

abbrev pub length_of : List IntervalReport → ℕ
length_of [] = 0
length_of (r ∷ rs) = suc (length_of rs)

pub length_of-append :
    (xs ys : List IntervalReport) → length_of (xs ++ ys) ≡ length_of xs + length_of ys
length_of-append [] ys = omega arith
length_of-append (x ∷ xs) ys = omega (arith, length_of-append xs ys)

pub Tiles-append :
    (g : Grid) (index : ℕ) (xs ys : List IntervalReport)
    → Tiles g index xs
    → Tiles g (index + length_of xs) ys
    → Tiles g index (xs ++ ys)
Tiles-append g index [] ys hx hy = rw add-zero at hy
Tiles-append g index (x ∷ xs) ys hx hy =
    let shift : index + suc (length_of xs) ≡ index + 1 + length_of xs = omega arith in
    (hx.0, hx.1, Tiles-append g (index + 1) xs ys hx.2 (rw shift at hy))

-- The next window does not matter.
pub Tiles-same :
    (g g' : Grid) (index : ℕ) (xs : List IntervalReport)
    → g'.origin ≡ g.origin
    → g'.interval ≡ g.interval
    → Tiles g' index xs
    → Tiles g index xs
Tiles-same g g' index [] eo ei h = tt
Tiles-same g g' index (x ∷ xs) eo ei h =
    (rw (eo, ei) at h.0, rw (eo, ei) at h.1, Tiles-same g g' (index + 1) xs eo ei h.2)

-- What completing the windows up to a watermark comes to.
pub record Completed (g : Grid) (watermark : Time) (ws : Windows) (r : Finalized) : Type 0 where
  pub origin : r.grid.origin ≡ g.origin
  pub interval : r.grid.interval ≡ g.interval
  pub tiles : Tiles g g.next_window r.reports
  pub count : r.grid.next_window ≡ g.next_window + length_of r.reports
  pub complete : watermark < boundary g r.grid.next_window + g.interval
  pub due : (r.grid.next_window ≡ g.next_window) ⊎ (boundary g r.grid.next_window ≤ watermark)
  pub pruned :
      (index : ℕ)
      → lookup index r.windows ≡ (
          if leb g.next_window index && ltb index r.grid.next_window then none else lookup index ws)

report_next-bounds :
    (g : Grid) (ws : Windows)
    → g.next_window * g.interval + g.interval < sign_bit
    → ((report_next g ws).interval_start ≡ boundary g g.next_window)
      × ((report_next g ws).interval_end ≡ boundary g g.next_window + g.interval)
unfolding report_next window_report
report_next-bounds g ws h = rw (window_bounds-eq g g.next_window h) (ground arith)

-- One more window is reported in front of what the rest of the loop does.
pub Completed-step :
    (g : Grid) (watermark : Time) (ws : Windows) (r : Finalized) (report : IntervalReport)
    → boundary g g.next_window + g.interval ≤ watermark
    → report.interval_start ≡ boundary g g.next_window
    → report.interval_end ≡ boundary g g.next_window + g.interval
    → Completed (advance_window g) watermark (delete g.next_window ws) r
    → Completed g watermark ws (prepend report r)
Completed-step g watermark ws r report due start end c = record {
  origin = c.origin;
  interval = c.interval;
  tiles = (start, end, c.tiles);
  count = omega (arith, c.count);
  complete = c.complete;
  due = elim c.due [ inl e ↦ inr (rw e (omega arith)) | inr p ↦ inr p ];
  pruned = λ index. ground (arith, c.pruned index, lookup-delete g.next_window index ws, c.count);
}

finalize_loop-Completed :
    (fuel : ℕ) (watermark : Time) (g : Grid) (ws : Windows)
    → InHorizon g watermark
    → g.next_window * g.interval + g.interval < sign_bit
    → watermark - boundary g g.next_window < fuel
    → Returns (finalize_loop fuel watermark g ws) (Completed g watermark ws)
unfolding finalize_loop
finalize_loop-Completed zero watermark g ws h fits enough = absurd (omega arith)
finalize_loop-Completed (suc fuel) watermark g ws h fits enough =
    let end : (window_bounds g g.next_window).1 ≡ boundary g g.next_window + g.interval =
      ap (λ (b : Time × Time). b.1) (window_bounds-eq g g.next_window fits) in
    let bounds = report_next-bounds g ws fits in
    elim (Bool-cases (after (window_bounds g g.next_window).1 watermark)) [
      | inl stop ↦
          rw (stop, finalize_loop)
            (Returns-some _ (record {
              origin = refl;
              interval = refl;
              tiles = tt;
              count = omega arith;
              complete = ground (arith, end, stop);
              due = inl refl;
              pruned = λ index. ground arith;
            }))
      | inr more ↦
          let due : boundary g g.next_window + g.interval ≤ watermark = ground (arith, end, more) in
          rw (more, finalize_loop)
            (Returns-bind
              (finalize_loop fuel watermark (advance_window g) (delete g.next_window ws)) _
              (finalize_loop-Completed fuel watermark (advance_window g) (delete g.next_window ws)
                (record { positive = h.positive; room = h.room }) (omega (arith, due, h.room))
                (omega (arith, due, enough, h.positive)))
              λ r c.
                Returns-some _
                  (Completed-step g watermark ws r (report_next g ws) due (bounds.0) (bounds.1) c))
    ]

-- finalizeThrough ends, and completes exactly the windows that end by the watermark: their
-- reports tile the time from the first window that was open, in order; it stops at a window that
-- ends after the watermark; what it has reported it forgets, and the later windows it keeps. The
-- accumulator is initialized, the watermark is in the horizon and not before the origin, and the
-- next window ends in range.
pub finalize_through-Completed :
    (watermark : Time) (g : Grid) (ws : Windows)
    → InHorizon g watermark
    → g.origin ≤ watermark
    → g.next_window * g.interval + g.interval < sign_bit
    → Returns (finalize_through true watermark g ws) (Completed g watermark ws)
unfolding finalize_through
finalize_through-Completed watermark g ws h lo fits =
    Returns-if (not true || before watermark g.origin) _ _ (λ early. absurd (ground arith))
      λ _. finalize_loop-Completed (suc (watermark - g.origin)) watermark g ws h fits (omega arith)
