-- ===== src/Collector/Hybrid/Matching.antt =====
-- What a merged report takes over: no auxiliary thread serves two threads of the event report.
use mathlib.Core.List.{Perm}
use mathlib.Core.List.Perm
use tsastat.Prelude.{
  ℕ, ◌+◌, ◌≡◌, refl, ap, inl, inr, Bool, true, false, Bool-cases, Option-cases, not, ◌&&◌, ◌||◌,
  none, some, List, [], ◌∷◌, ◌++◌, map, arith, if◌then◌else◌, nat_beq,
}
use tsastat.Model.Stats.{
  ThreadIntervalStats, IntervalQuality, IntervalReport, delay_counters_available,
}
use tsastat.Collector.Hybrid.{
  Auxiliary, is_candidate, count_candidates, find_match, mark_used, merge_thread, merge_threads,
  count_mismatches, unused, copy_delay_stats, same_proven_thread, merged_quality,
  merge_auxiliary_quality, merge_hybrid_report,
}

-- The merged threads are the event report's, in order; some of them have taken the delay counters of
-- an auxiliary thread that is proved to be the same, and these are the `sources`.
pub data Taken
    : List ThreadIntervalStats → List ThreadIntervalStats → List ThreadIntervalStats → Type 0 where
  nothing : Taken [] [] []
  kept :
      {stats merged sources : List ThreadIntervalStats} (stat : ThreadIntervalStats)
      → Taken stats merged sources
      → Taken (stat ∷ stats) (stat ∷ merged) sources
  took :
      {stats merged sources : List ThreadIntervalStats} (stat source : ThreadIntervalStats)
      → same_proven_thread stat source ≡ true
      → Taken stats merged sources
      → Taken (stat ∷ stats) (copy_delay_stats stat source ∷ merged) (source ∷ sources)

-- The auxiliary threads that are not used up.
abbrev pub left_over : List Auxiliary → List ThreadIntervalStats
left_over [] = []
left_over (a ∷ auxiliary) = if a.used then left_over auxiliary else a.stat ∷ left_over auxiliary

left_over-unused : (stats : List ThreadIntervalStats) → left_over (map unused stats) ≡ stats
left_over-unused [] = refl
left_over-unused (stat ∷ stats) = ap (λ rest. stat ∷ rest) (left_over-unused stats)

candidate_fields : (u s : Bool) → not u && s ≡ true → (u ≡ false) × (s ≡ true)
candidate_fields u s h = ground arith

-- What is left of the choice among candidates.
only_one : (b : Bool) (x y : ThreadIntervalStats) → (if b then some x else none) ≡ some y → x ≡ y
only_one true x y e = ap (λ o. elim o [ none ↦ x | some z ↦ z ]) e
only_one false x y e = absurd (ground (arith, e))

find_match-same_proven :
    (stat source : ThreadIntervalStats) (auxiliary : List Auxiliary)
    → find_match stat auxiliary ≡ some source
    → (same_proven_thread stat source ≡ true)
      × Perm (source ∷ left_over (mark_used stat auxiliary)) (left_over auxiliary)
unfolding find_match mark_used
find_match-same_proven stat source [] e = absurd (ground (arith, e))
find_match-same_proven stat source (a ∷ auxiliary) e = elim (Bool-cases (is_candidate stat a)) [
  | inl candidate ↦
      let fields = candidate_fields a.used (same_proven_thread stat a.stat) candidate in
      let chosen : a.stat ≡ source =
        only_one (nat_beq (count_candidates stat auxiliary) 0) a.stat source (rw candidate at e) in
      rw (← chosen, candidate, fields.0) (fields.1, Perm.refl (a.stat ∷ left_over auxiliary))
  | inr other ↦
      let later = find_match-same_proven stat source auxiliary (rw other at e) in
      rw other (
        later.0,
        elim (Bool-cases a.used) [
          | inl used ↦ rw used later.1
          | inr free ↦ rw free (
              Perm.trans (Perm.swap a.stat source (left_over (mark_used stat auxiliary)))
                (Perm.cons a.stat later.1))
        ],
      )
]

-- The sources are taken from the threads that were left over.
abbrev Sources :
    List ThreadIntervalStats → List Auxiliary → List ThreadIntervalStats × List Auxiliary → Type 0
Sources stats auxiliary (merged, rest) =
    (sources : List ThreadIntervalStats) × Taken stats merged sources
    × Perm (sources ++ left_over rest) (left_over auxiliary)

merge_threads-Sources :
    (stats : List ThreadIntervalStats) (auxiliary : List Auxiliary)
    → Sources stats auxiliary (merge_threads stats auxiliary)
unfolding merge_threads merge_thread
merge_threads-Sources [] auxiliary = ([], nothing, Perm.refl (left_over auxiliary))
merge_threads-Sources (stat ∷ stats) auxiliary = elim (Option-cases (find_match stat auxiliary)) [
  | inl missing ↦
      rw (missing, Sources, merge_threads, merge_thread)
        (let (sources, taken, perm) = merge_threads-Sources stats auxiliary in
          (sources, kept stat taken, perm))
  | inr (source, found) ↦
      rw (found, Sources, merge_threads, merge_thread)
        (let same = find_match-same_proven stat source auxiliary found in
          let (sources, taken, perm) = merge_threads-Sources stats (mark_used stat auxiliary) in
          (
            source ∷ sources,
            took stat source same.0 taken,
            Perm.trans (Perm.cons source perm) same.1,
          ))
]

-- The threads whose delay counters no thread of the event report has taken.
abbrev pub count_with_delays : List ThreadIntervalStats → ℕ
count_with_delays [] = 0
count_with_delays (stat ∷ stats) =
    if delay_counters_available stat then count_with_delays stats + 1 else count_with_delays stats

count_mismatches-left_over :
    (auxiliary : List Auxiliary)
    → count_mismatches auxiliary ≡ count_with_delays (left_over auxiliary)
unfolding count_mismatches
count_mismatches-left_over [] = refl
count_mismatches-left_over (a ∷ auxiliary) = elim (Bool-cases a.used) [
  | inl used ↦ rw used (count_mismatches-left_over auxiliary)
  | inr free ↦ rw (free, count_mismatches-left_over auxiliary) refl
]

merged_quality-mismatches :
    (mismatches : ℕ) (event auxiliary : IntervalQuality)
    → (merged_quality mismatches event auxiliary).hybrid_identity_mismatches
      ≡ event.hybrid_identity_mismatches + mismatches
unfolding merged_quality merge_auxiliary_quality
merged_quality-mismatches mismatches event auxiliary = ground arith

-- What the merge of two reports of one interval comes to.
pub record Merged (event auxiliary report : IntervalReport) : Type 0 where
  pub sources : List ThreadIntervalStats
  pub rest : List ThreadIntervalStats
  pub taken : Taken event.threads report.threads sources
  pub split : Perm (sources ++ rest) auxiliary.threads
  pub mismatches :
      report.quality.hybrid_identity_mismatches
      ≡ event.quality.hybrid_identity_mismatches + count_with_delays rest
  pub start : report.interval_start ≡ event.interval_start
  pub end : report.interval_end ≡ event.interval_end

-- mergeHybridReport of two reports of one interval keeps the event report's threads, in order, but
-- for the delay counters that some of them take from auxiliary threads that are proved to be the
-- same; the auxiliary threads are those sources and a rest, so that none is taken twice, and every
-- thread of the rest that has delay counters is counted as a mismatch.
pub merge_hybrid_report-Merged :
    (event auxiliary : IntervalReport)
    → event.interval_start ≡ auxiliary.interval_start
    → event.interval_end ≡ auxiliary.interval_end
    → Merged event auxiliary (merge_hybrid_report event auxiliary)
unfolding merge_hybrid_report merged_quality merge_auxiliary_quality
merge_hybrid_report-Merged event auxiliary start end =
    let same_interval : not (nat_beq event.interval_start auxiliary.interval_start)
          || not (nat_beq event.interval_end auxiliary.interval_end)
        ≡ false =
      ground (arith, start, end) in
    let rest = (merge_threads event.threads (map unused auxiliary.threads)).1 in
    let (sources, taken, perm) =
      merge_threads-Sources event.threads (map unused auxiliary.threads) in
    rw same_interval (record {
      sources = sources;
      rest = left_over rest;
      taken = taken;
      split = rw (left_over-unused auxiliary.threads) at perm;
      mismatches = omega (
        arith,
        merged_quality-mismatches (count_mismatches rest) event.quality auxiliary.quality,
        count_mismatches-left_over rest,
      );
      start = refl;
      end = refl;
    })
