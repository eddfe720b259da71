-- ===== src/Collector/Totals/Spans.antt =====
-- What a walk over the windows of a span adds to the totals.
use native.Mathlib.Nat.{mul-le-mul_right}
use tsastat.Prelude.{
  ℕ, ◌+◌, ◌-◌, ◌*◌, ◌≤◌, ◌<◌, ◌≡◌, true, arith, SameWord, Returns, Returns-weaken, leb,
}
use tsastat.Clock.{Time}
use tsastat.Model.Sample.{ThreadIdentity}
use tsastat.Collector.Grid.{
  Grid, Visitor, visit, walk, clip, EndsWindows, InHorizon, Piece, for_each_window, window_end,
}
use tsastat.Collector.Grid.Bounds.{window_end-EndsWindows}
use tsastat.Collector.Grid.Walk.{walk_rule, for_each_window-eq}
use tsastat.Collector.Accumulator.Windows.{Windows}
use tsastat.Collector.Totals.{Meter, total_of}

-- Nothing from `start` on has been reported yet.
abbrev pub IsOpen : Grid → Time → Type 0
IsOpen g start = g.origin + g.next_window * g.interval ≤ start

-- A piece of a span that is still open lies in an open window.
pub open-Piece :
    (g : Grid) (end : Time) (index : ℕ) (start stop : Time)
    → Piece g end index start stop
    → IsOpen g start
    → g.next_window ≤ index
open-Piece g end index start stop piece open_start =
    grind (arith, mul-le-mul_right {m = index + 1} {n = g.next_window} g.interval)

module _ (g : Grid) (fn : Visitor Windows) (start end : Time) (h : InHorizon g end) (f : Meter)
    (key : ThreadIdentity) (amount : Time → ℕ) (mono : (x y : Time) → x ≤ y → amount x ≤ amount y)
    (adds : (index : ℕ) (from to : Time) (ws : Windows)
      → Piece g end index from to
      → clip g start ≤ from
      → Returns
          (fn index from to ws)
          (λ ws'. SameWord (total_of f key ws') (total_of f key ws + (amount to - amount from))))
    (o : IsOpen g (clip g start)) (ws : Windows) where
  -- The total at an instant of the walk.
  abbrev Reached : Time → Windows → Type 0
  Reached t s =
      (clip g start ≤ t)
      × SameWord (total_of f key s) (total_of f key ws + (amount t - amount (clip g start)))

  visit-Reached :
      (index : ℕ) (from to : Time) (s : Windows)
      → Piece g end index from to
      → Reached from s
      → Returns (visit g fn index from to s) (Reached to)
  unfolding visit
  visit-Reached index from to s piece (lo, same) =
      let shown : leb g.next_window index ≡ true =
        ground (arith, open-Piece g end index from to piece (omega arith)) in
      let low : amount (clip g start) ≤ amount from = mono (clip g start) from lo in
      let high : amount from ≤ amount to = mono from to (omega (arith, piece)) in
      rw shown (
        Returns-weaken (fn index from to s)
          (λ s' added. (omega (arith, piece), omega (arith, added, same, low, high)))
          (adds index from to s piece lo))

  -- The amounts of the pieces telescope.
  pub walk-total :
      (ends : ℕ → Time)
      → EndsWindows g ends
      → clip g start ≤ end
      → Returns (walk g ends fn start end ws) (λ ws'.
        SameWord (total_of f key ws') (total_of f key ws + (amount end - amount (clip g start))))
  walk-total ends right hi =
      Returns-weaken (walk g ends fn start end ws) (λ ws' p. p.1)
        (walk_rule g ends right fn end h Reached visit-Reached start ws hi
          (omega arith, omega arith))

  pub for_each_window-total :
      start < end
      → g.origin < end
      → Returns (for_each_window g start end fn ws) (λ ws'.
        SameWord (total_of f key ws') (total_of f key ws + (amount end - amount (clip g start))))
  for_each_window-total lt lo =
      rw (for_each_window-eq g start end fn ws lt lo)
        (walk-total (window_end g) (window_end-EndsWindows g) (ground arith))
