-- ===== src/Collector/Grid/Bounds.antt =====
-- Within the horizon the arithmetic of windowIndex and windowBounds neither saturates nor wraps.
use tsastat.Prelude.{
  ℕ, ◌+◌, ◌-◌, ◌*◌, ◌/◌, ◌≤◌, ◌<◌, ◌≡◌, ap, some, arith, checked_div-some, sign_bit,
}
use tsastat.Clock.{Time, time_sub-eq, time_add-eq}
use tsastat.Collector.Grid.{
  Grid, window_index, window_start, window_bounds, window_end, EndsWindows, InHorizon,
}

-- The window of an instant, in unbounded arithmetic.
abbrev pub index_of : Grid → Time → ℕ
index_of g t = (t - g.origin) / g.interval

pub window_index-eq :
    (g : Grid) (end t : Time)
    → InHorizon g end
    → g.origin ≤ t
    → t ≤ end
    → window_index g t ≡ some (index_of g t)
unfolding window_index
window_index-eq g end t h lo hi =
    ground (arith, time_sub-eq t g.origin, checked_div-some (t - g.origin) g.interval h.positive)

-- An instant lies in its window.
pub index_of_bounds :
    (g : Grid) (t : Time)
    → 0 < g.interval
    → g.origin ≤ t
    → (g.origin + index_of g t * g.interval ≤ t)
      × (t < g.origin + index_of g t * g.interval + g.interval)
index_of_bounds g t pos lo = omega arith

pub window_start-eq :
    (g : Grid) (index : ℕ)
    → index * g.interval < sign_bit
    → window_start g index ≡ g.origin + index * g.interval
unfolding window_start
window_start-eq g index h = ground (arith, time_add-eq g.origin (index * g.interval))

pub window_bounds-eq :
    (g : Grid) (index : ℕ)
    → index * g.interval + g.interval < sign_bit
    → window_bounds g index
      ≡ (g.origin + index * g.interval, g.origin + index * g.interval + g.interval)
unfolding window_bounds
window_bounds-eq g index h = ground (
  arith,
  window_start-eq g index (omega arith),
  time_add-eq (g.origin + index * g.interval) g.interval (omega arith),
)

pub window_end-EndsWindows : (g : Grid) → EndsWindows g (window_end g)
unfolding window_end
window_end-EndsWindows g index h = ap (λ (b : Time × Time). b.1) (window_bounds-eq g index h)

-- The start of the next window ends this one.
pub window_start-EndsWindows : (g : Grid) → EndsWindows g (λ index. window_start g (index + 1))
window_start-EndsWindows g index h = rw (window_start-eq g (index + 1) (omega arith)) (omega arith)
