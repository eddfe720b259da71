-- ===== src/Collector/Grid/Walk.antt =====
-- The rule for a walk over the windows of a span.
use tsastat.Prelude.{
  ℕ, zero, suc, ◌-◌, ◌≤◌, ◌<◌, ◌≡◌, refl, some, arith, not, ◌||◌, leb, inl, inr, Bool-cases,
  Returns, Returns-bind,
}
use tsastat.Clock.{Time, after, before}
use tsastat.Collector.Grid.{
  Grid, Visitor, visit, window_end, EndsWindows, overlap_end, window_loop, walk, for_each_window,
  InHorizon, Piece, clip,
}
use tsastat.Collector.Grid.Bounds.{
  index_of, window_index-eq, index_of_bounds, window_end-EndsWindows,
}

-- The first piece of a span that begins at `start`.
pub overlap_end-Piece :
    (g : Grid) (ends : ℕ → Time) (start end : Time)
    → EndsWindows g ends
    → InHorizon g end
    → g.origin ≤ start
    → start < end
    → Piece g end (index_of g start) start (overlap_end ends (index_of g start) end)
unfolding overlap_end
overlap_end-Piece g ends start end right h lo lt = ground (
  arith,
  h.positive,
  h.room,
  index_of_bounds g start h.positive lo,
  right (index_of g start) (omega (arith, index_of_bounds g start h.positive lo)),
)

pub for_each_window_empty {ℓ} :
    {S : Type ℓ} (g : Grid) (start end : Time) (fn : Visitor S) (s : S)
    → end ≤ start
    → for_each_window g start end fn s ≡ some s
unfolding for_each_window
for_each_window_empty g start end fn s le = ground arith

pub for_each_window-eq {ℓ} :
    {S : Type ℓ} (g : Grid) (start end : Time) (fn : Visitor S) (s : S)
    → start < end
    → g.origin < end
    → for_each_window g start end fn s ≡ walk g (window_end g) fn start end s
unfolding for_each_window
for_each_window-eq g start end fn s lt lo = ground arith

module _ {ℓ κ} {S : Type ℓ} (g : Grid) (ends : ℕ → Time) (right : EndsWindows g ends)
    (fn : Visitor S) (end : Time) (h : InHorizon g end) (P : Time → S → Type κ)
    (keep : (index : ℕ) (start stop : Time) (s : S)
      → Piece g end index start stop
      → P start s
      → Returns (visit g fn index start stop s) (P stop)) where
  window_loop_rule :
      (fuel : ℕ) (start : Time) (s : S)
      → g.origin ≤ start
      → start ≤ end
      → end - start < fuel
      → P start s
      → Returns (window_loop g ends fn fuel start end s) (P end)
  unfolding window_loop
  window_loop_rule zero start s lo hi enough p = absurd (omega arith)
  window_loop_rule (suc fuel) start s lo hi enough p = elim (Bool-cases (before start end)) [
    | inr over ↦
        let same : start ≡ end = ground arith in rw (over, window_loop) (s, refl, rw (← same) p)
    | inl more ↦
        let index = index_of g start in
        let piece = overlap_end-Piece g ends start end right h lo (ground arith) in
        rw (more, window_loop, window_index-eq g end start h lo hi)
          (Returns-bind (visit g fn index start (overlap_end ends index end) s)
            (window_loop g ends fn fuel (overlap_end ends index end) end)
            (keep index start (overlap_end ends index end) s piece p)
            λ s' p'.
              window_loop_rule fuel (overlap_end ends index end) s' (omega (arith, piece))
                (omega (arith, piece)) (omega (arith, piece)) p')
  ]

  -- A visitor that carries `P` along each piece carries it from the clipped start to the end.
  pub walk_rule :
      (start : Time) (s : S)
      → clip g start ≤ end
      → P (clip g start) s
      → Returns (walk g ends fn start end s) (P end)
  unfolding walk
  walk_rule start s hi p =
      window_loop_rule (suc (end - clip g start)) (clip g start) s (ground arith) hi (omega arith) p

module _ {ℓ κ} {S : Type ℓ} (g : Grid) (ends : ℕ → Time) (right : EndsWindows g ends)
    (fn : Visitor S) (end : Time) (h : InHorizon g end) (P : S → Type κ)
    (keep : (index : ℕ) (start stop : Time) (s : S)
      → g.next_window ≤ index
      → Piece g end index start stop
      → P s
      → Returns (fn index start stop s) P) where
  visit_keeps :
      (index : ℕ) (start stop : Time) (s : S)
      → Piece g end index start stop
      → P s
      → Returns (visit g fn index start stop s) P
  unfolding visit
  visit_keeps index start stop s piece p = elim (Bool-cases (leb g.next_window index)) [
    | inl visited ↦ rw visited (keep index start stop s (ground arith) piece p)
    | inr passed ↦ rw passed (s, refl, p)
  ]

  pub walk_keeps :
      (start : Time) (s : S) → clip g start ≤ end → P s → Returns (walk g ends fn start end s) P
  walk_keeps start s hi p = walk_rule g ends right fn end h (λ _. P) visit_keeps start s hi p

module _ {ℓ κ} {S : Type ℓ} (g : Grid) (fn : Visitor S) (end : Time) (h : InHorizon g end)
    (P : Time → S → Type κ)
    (keep : (index : ℕ) (start stop : Time) (s : S)
      → Piece g end index start stop
      → P start s
      → Returns (visit g fn index start stop s) (P stop)) where
  -- A visitor that keeps `P` on every piece: `for_each_window` returns and keeps it too.
  pub for_each_window_rule :
      (start : Time) (s : S)
      → start < end
      → g.origin < end
      → P (clip g start) s
      → Returns (for_each_window g start end fn s) (P end)
  for_each_window_rule start s lt lo p = rw (for_each_window-eq g start end fn s lt lo) (
      walk_rule g (window_end g) (window_end-EndsWindows g) fn end h P keep start s (ground arith)
        p)

module _ {ℓ κ} {S : Type ℓ} (g : Grid) (fn : Visitor S) (end : Time) (h : InHorizon g end)
    (P : S → Type κ)
    (keep : (index : ℕ) (start stop : Time) (s : S)
      → g.next_window ≤ index
      → Piece g end index start stop
      → P s
      → Returns (fn index start stop s) P) where
  pub for_each_window_keeps :
      (start : Time) (s : S) → P s → Returns (for_each_window g start end fn s) P
  unfolding for_each_window
  for_each_window_keeps start s p =
      elim (Bool-cases (not (after end start) || not (after end g.origin))) [
        | inl nothing ↦ rw nothing (s, refl, p)
        | inr some_span ↦ rw some_span (
            walk_keeps g (window_end g) (window_end-EndsWindows g) fn end h P keep start s
              (ground arith) p)
      ]
