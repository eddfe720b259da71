-- ===== src/Collector/Grid.antt =====
-- The report windows of internal/collector: window `index` spans `interval` from
-- `origin + index * interval`. Both accumulators walk a span window by window (forEachWindow) and
-- pass over the windows that they have reported. A loop that would not end is `none`.
pub mod Bounds
pub mod Walk
use tsastat.Prelude.{
  ℕ, zero, suc, ◌+◌, ◌-◌, ◌*◌, ◌/◌, ◌≤◌, ◌<◌, ◌≡◌, refl, sym, ap, ◌⊎◌, inl, inr, Bool, true, false,
  not, ◌||◌, Option, none, some, arith, ltb, leb, nat_beq, if◌then◌else◌, Bool-cases, ◌>>=◌,
  Returns, Returns-some, Returns-bind, checked_div, checked_div-some, mul64, word, sign_bit,
}
use tsastat.Clock.{Time, Duration, after, before, time_sub, time_add, time_sub-eq, time_add-eq}

-- The fields `origin`, `interval` and `nextWindow` of the accumulators.
pub record Grid : Type 0 where
  pub origin : Time
  pub interval : Duration
  pub next_window : ℕ

-- windowIndex: how many whole intervals lie before `at`.
unfoldable pub window_index : Grid → Time → Option ℕ
window_index g at =
    if not (after at g.origin) then some 0 else checked_div (time_sub at g.origin) g.interval

unfoldable pub window_start : Grid → ℕ → Time
window_start g index = time_add g.origin (mul64 index g.interval)

-- windowBounds
unfoldable pub window_bounds : Grid → ℕ → Time × Time
unfolding window_start
window_bounds g index = (window_start g index, time_add (window_start g index) g.interval)

-- What one visit does to the state `S`: the window, and the part of the span that lies in it.
abbrev pub Visitor {ℓ} : Type ℓ → Type ℓ
Visitor S = ℕ → Time → Time → S → Option S

-- Where a window ends.
unfoldable pub window_end : Grid → ℕ → Time
window_end g index = (window_bounds g index).1

-- The smaller of the span's end and the window's end.
unfoldable pub overlap_end : (ℕ → Time) → ℕ → Time → Time
overlap_end ends index end = if before (ends index) end then ends index else end

-- A reported window is passed over.
unfoldable pub visit {ℓ} : {S : Type ℓ} → Grid → Visitor S → Visitor S
visit g fn index start stop s = if leb g.next_window index then fn index start stop s else some s

-- `for start.Before(end)`, on fuel. The two accumulators compute the end of a window, `ends`, in
-- different ways.
unfoldable pub window_loop {ℓ} :
    {S : Type ℓ} → Grid → (ℕ → Time) → Visitor S → ℕ → Time → Time → S → Option S
window_loop g ends fn zero start end s = none
window_loop g ends fn (suc fuel) start end s = elim (before start end) [
  | true ↦ do
    index ← window_index g start
    s' ← visit g fn index start (overlap_end ends index end) s
    window_loop g ends fn fuel (overlap_end ends index end) end s'
  | false ↦ some s
]

-- The later of the two times.
abbrev pub clip : Grid → Time → Time
clip g start = if before start g.origin then g.origin else start

-- Each round moves `start` on, so the length of the span is enough fuel.
unfoldable pub walk {ℓ} : {S : Type ℓ} → Grid → (ℕ → Time) → Visitor S → Time → Time → S → Option S
walk g ends fn start end s = window_loop g ends fn (suc (end - clip g start)) (clip g start) end s

-- (*Accumulator).forEachWindow
unfoldable pub for_each_window {ℓ} : {S : Type ℓ} → Grid → Time → Time → Visitor S → S → Option S
for_each_window g start end fn s =
    if not (after end start) || not (after end g.origin)
    then some s
    else walk g (window_end g) fn start end s

-- The intervals are positive, and `end` lies less than 2 ^ 63 nanoseconds after the origin, with
-- room for one more interval.
pub record InHorizon (g : Grid) (end : Time) : Type 0 where
  pub positive : 0 < g.interval
  pub room : end + g.interval < g.origin + sign_bit

-- The part of a span that one visit is given.
pub record Piece (g : Grid) (end : Time) (index : ℕ) (start stop : Time) : Type 0 where
  pub after_origin : g.origin ≤ start
  pub nonempty : start < stop
  pub in_span : stop ≤ end
  pub in_window : g.origin + index * g.interval ≤ start
  pub before_next : stop ≤ g.origin + index * g.interval + g.interval

-- `ends` gives the end of each window whose end is in range.
abbrev pub EndsWindows : Grid → (ℕ → Time) → Type 0
EndsWindows g ends =
    (index : ℕ)
    → index * g.interval + g.interval < sign_bit
    → ends index ≡ g.origin + index * g.interval + g.interval
