-- ===== src/Collector/Totals.antt =====
-- What the open windows hold of one thread, summed over the windows.
pub mod Spans
use tsastat.Prelude.{
  ℕ, String, ◌+◌, ◌-◌, ◌*◌, ◌%◌, ◌≤◌, ◌<◌, ◌≡◌, refl, sym, ap, ◌∙◌, inl, inr, Bool, true, false,
  Option, none, some, List, [], ◌∷◌, arith, if◌then◌else◌, ◌==◌, nat_eq, Comparable, Bool-cases,
  Option-cases, lookup, upsert, lookup-upsert, sum_by, entry_sum, sum_by-upsert, word, add64,
  SameWord, Returns, Returns-weaken, leb,
}
use tsastat.Clock.{Time}
use tsastat.Model.Sample.{
  ThreadSample, identity, ThreadIdentity, identity_eq, identity_beq, identity_beq_iff,
}
use tsastat.Model.Stats.{ThreadIntervalStats}
use tsastat.Collector.Grid.{Grid, Visitor, visit, walk, clip, EndsWindows, InHorizon, Piece}
use tsastat.Collector.Grid.Walk.{walk_rule}
use tsastat.Collector.Accumulator.Windows.{
  IntervalWindow, Windows, Write, Stats, new_window, or_new_window, with_window, new_stats,
  or_new_stats, rename_thread, with_thread_stats,
}
use tsastat.Collector.EventAccumulator.Track.{SchedulerTrack, track_identity}
use tsastat.Collector.EventAccumulator.Windows.{
  new_event_window, or_new_event_window, with_event_window, new_track_stats, or_new_track_stats,
  with_track_stats,
}

abbrev pub Meter : Type 0
Meter = ThreadIntervalStats → ℕ

abbrev pub window_total : Meter → ThreadIdentity → IntervalWindow → ℕ
window_total f key w = entry_sum f (lookup key w.stats)

unfoldable pub total_of : Meter → ThreadIdentity → Windows → ℕ
total_of f key ws = sum_by (λ _ w. window_total f key w) ws

-- A window that is made for the purpose counts as an empty one.
pub total_of-upsert :
    (f : Meter) (key : ThreadIdentity) (index amount : ℕ)
    (make : Option IntervalWindow → IntervalWindow) (ws : Windows)
    → SameWord (window_total f key (make none)) amount
    → ((w : IntervalWindow)
        → SameWord (window_total f key (make (some w))) (window_total f key w + amount))
    → SameWord (total_of f key (upsert index make ws)) (total_of f key ws + amount)
unfolding total_of
total_of-upsert f key index amount make ws new old = elim (Option-cases (lookup index ws)) [
  | inl e ↦ let c = rw e at changed in omega (arith, c)
  | inr (w, e) ↦ let c = rw e at changed in omega (arith, c, old w)
]
  where
    changed :
        sum_by (λ _ w. window_total f key w) (upsert index make ws)
          + entry_sum (window_total f key) (lookup index ws)
        ≡ sum_by (λ _ w. window_total f key w) ws + window_total f key (make (lookup index ws))
    changed = sum_by-upsert (λ _ w. window_total f key w) index make ws

-- The statistics of one thread are written; those of the others stay.
pub window_total-upsert :
    (f : Meter) (key thread : ThreadIdentity) (amount : ℕ)
    (make : Option ThreadIntervalStats → ThreadIntervalStats) (w : Stats)
    → SameWord (f (make none)) amount
    → ((stat : ThreadIntervalStats) → SameWord (f (make (some stat))) (f stat + amount))
    → SameWord
        (entry_sum f (lookup key (upsert thread make w)))
        (entry_sum f (lookup key w) + (if thread == key then amount else 0))
window_total-upsert f key thread amount make w new old =
    rw (lookup-upsert thread key make w) (elim (Bool-cases (thread == key)) [
      | inl same ↦ rw (same, ← (identity_beq_iff thread key).0 same) (made (lookup thread w))
      | inr other ↦ rw other (omega arith)
    ])
  where
    made : (o : Option ThreadIntervalStats) → SameWord (f (make o)) (entry_sum f o + amount)
    made none = omega (arith, new)
    made (some stat) = old stat

-- A quantity that is 0 at first, and that a change of name leaves alone.
pub record IsMeter (f : Meter) : Type 0 where
  pub blank : (g : Grid) (index : ℕ) (sample : ThreadSample) → f (new_stats g index sample) ≡ 0
  pub blank_track :
      (g : Grid) (index : ℕ) (track : SchedulerTrack) → f (new_track_stats g index track) ≡ 0
  pub renamed : (comm : String) (stat : ThreadIntervalStats) → f (rename_thread comm stat) ≡ f stat

-- The write adds `amount` to the quantity.
abbrev pub Adds : Meter → ℕ → Write → Type 0
Adds f amount write = (stat : ThreadIntervalStats) → SameWord (f (write stat)) (f stat + amount)

-- What is booked to a thread counts for that thread alone.
abbrev pub credit : ThreadIdentity → ThreadIdentity → ℕ → ℕ
credit thread key amount = if thread == key then amount else 0

-- Both accessors write an entry in a window, and make the window and the entry where they must.
abbrev write_entry :
    (Option IntervalWindow → IntervalWindow)
    → ThreadIdentity
    → (Option ThreadIntervalStats → ThreadIntervalStats)
    → Option IntervalWindow
    → IntervalWindow
write_entry or_new thread make found =
    let w = or_new found in record w { stats = upsert thread make w.stats }

write_entry-total :
    (f : Meter) (key : ThreadIdentity) (index amount : ℕ)
    (or_new : Option IntervalWindow → IntervalWindow) (thread : ThreadIdentity)
    (make : Option ThreadIntervalStats → ThreadIntervalStats) (ws : Windows)
    → (or_new none).stats ≡ []
    → ((w : IntervalWindow) → or_new (some w) ≡ w)
    → SameWord (f (make none)) amount
    → ((stat : ThreadIntervalStats) → SameWord (f (make (some stat))) (f stat + amount))
    → SameWord
        (total_of f key (upsert index (write_entry or_new thread make) ws))
        (total_of f key ws + credit thread key amount)
unfolding lookup
write_entry-total f key index amount or_new thread make ws blank same new old =
    total_of-upsert f key index (credit thread key amount) (write_entry or_new thread make) ws
      (rw blank (omega (arith, window_total-upsert f key thread amount make [] new old)))
      (λ w. rw (same w) (window_total-upsert f key thread amount make w.stats new old))

module _ (f : Meter) (meter : IsMeter f) (key : ThreadIdentity) (g : Grid) (index amount : ℕ) where
  pub with_thread_stats-total :
      (sample : ThreadSample) (write : Write) (ws : Windows)
      → Adds f amount write
      → SameWord
          (total_of f key (with_thread_stats g index sample write ws))
          (total_of f key ws + credit (identity sample) key amount)
  unfolding with_thread_stats with_window new_window
  with_thread_stats-total sample write ws adds =
      let blank = new_stats g index sample in
      let named = λ (stat : ThreadIntervalStats). rename_thread sample.comm stat in
      write_entry-total f key index amount or_new_window (identity sample)
        (λ found. write (rename_thread sample.comm (or_new_stats g index sample found))) ws refl
        (λ w. refl)
        (omega
          (arith, adds (named blank), meter.renamed sample.comm blank, meter.blank g index sample))
        (λ stat. omega (arith, adds (named stat), meter.renamed sample.comm stat))

  pub with_track_stats-total :
      (track : SchedulerTrack) (write : Write) (ws : Windows)
      → Adds f amount write
      → SameWord
          (total_of f key (with_track_stats g index track write ws))
          (total_of f key ws + credit (track_identity track) key amount)
  unfolding with_track_stats with_event_window new_event_window
  with_track_stats-total track write ws adds =
      let blank = new_track_stats g index track in
      let named = λ (stat : ThreadIntervalStats). rename_thread track.comm stat in
      write_entry-total f key index amount or_new_event_window (track_identity track)
        (λ found. write (rename_thread track.comm (or_new_track_stats g index track found))) ws refl
        (λ w. refl)
        (omega (
          arith,
          adds (named blank),
          meter.renamed track.comm blank,
          meter.blank_track g index track,
        ))
        (λ stat. omega (arith, adds (named stat), meter.renamed track.comm stat))

-- A write that leaves the statistics of a window alone.
pub with_window-total :
    (f : Meter) (key : ThreadIdentity) (index : ℕ) (write : IntervalWindow → IntervalWindow)
    (ws : Windows)
    → ((w : IntervalWindow) → (write w).stats ≡ w.stats)
    → SameWord (total_of f key (with_window index write ws)) (total_of f key ws)
unfolding with_window new_window lookup
with_window-total f key index write ws same = omega (
  arith,
  total_of-upsert f key index 0 (λ found. write (or_new_window found)) ws
      (rw (same new_window) refl) (λ w. rw (same w) (omega arith)),
)
