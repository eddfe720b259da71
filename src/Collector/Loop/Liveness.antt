-- ===== src/Collector/Loop/Liveness.antt =====
-- A scheduler-event loop whose timer keeps firing emits all the reports that are asked for.
use tsastat.Prelude.{
  ℕ, ◌+◌, ◌≤◌, ◌<◌, ◌≡◌, refl, ◌⊎◌, inl, inr, false, not, ◌&&◌, Bool-cases, Option, none, some,
  List, [], ◌∷◌, arith, ltb, leb, Returns, Returns-some, Returns-bind, Returns-if,
}
use tsastat.Model.Stats.{IntervalReport}
use tsastat.Collector.Accumulator.Finalize.Tiling.{length_of, length_of-append}
use tsastat.Collector.Loop.{
  Sink, Outcome, finished, with_source_status, Emission, emit_all, Next, end_with, go_on,
  wants_more, after_round, select_loop,
}

-- `emit` never refuses a report, and there is a limit.
pub record Accepts (sink : Sink) : Type 0 where
  pub accepts : (n : ℕ) (report : IntervalReport) → sink.emit n report ≡ none
  pub limited : 0 < sink.count

-- What a loop comes to that has emitted all.
abbrev pub Finishes : Sink → ℕ → Outcome × List IntervalReport → Type 0
Finishes sink emitted (outcome, out) = (outcome ≡ finished) × (emitted + length_of out ≡ sink.count)

-- One call of `emit_all`: the limit is reached, or all reports are emitted.
record Emitting (sink : Sink) (emitted : ℕ) (reports : List IntervalReport) (e : Emission)
    : Type 0 where
  counted : e.emitted ≡ emitted + length_of e.out
  outcome :
      ((e.ended ≡ some finished) × (e.emitted ≡ sink.count))
      ⊎ ((e.ended ≡ none) × (e.emitted < sink.count) × (length_of e.out ≡ length_of reports))

module _ (sink : Sink) (s : Accepts sink) where
  emit_all-Emitting :
      (reports : List IntervalReport) (emitted : ℕ)
      → emitted < sink.count
      → Emitting sink emitted reports (emit_all sink emitted reports)
  unfolding emit_all
  emit_all-Emitting [] emitted few = record {
    counted = omega arith;
    outcome = inr (refl, few, refl);
  }
  emit_all-Emitting (report ∷ reports) emitted few =
      let accepted = s.accepts emitted (with_source_status (sink.source_status emitted) report) in
      elim (Bool-cases (ltb 0 sink.count && leb sink.count (emitted + 1))) [
        | inl enough ↦
            rw (accepted, emit_all, enough)
              (record { counted = omega arith; outcome = inl (refl, ground (arith, enough, few)) })
        | inr more ↦
            let rest = emit_all-Emitting reports (emitted + 1) (ground (arith, more, s.limited)) in
            rw (accepted, emit_all, more)
              (record {
                counted = omega (arith, rest.counted);
                outcome = elim rest.outcome [
                  | inl stop ↦ inl stop
                  | inr (going, fewer, all) ↦ inr (going, fewer, omega (arith, all))
                ];
              })
      ]

  module _ {M S : Type 0} (round : M → S → Option (Next S)) (weight : M → ℕ)
      (P : List M → S → Type 0) where
    abbrev pub total : List M → ℕ
    total [] = 0
    total (message ∷ messages) = weight message + total messages

    -- A round goes on, and hands out as many reports as the message weighs.
    abbrev pub GoesOn : M → List M → Next S → Type 0
    GoesOn message messages (end_with outcome) = ⊥
    GoesOn message messages (go_on t reports) = P messages t × (length_of reports ≡ weight message)

    after_round-Finishes :
        (rest : ℕ → S → Option (Outcome × List IntervalReport)) (message : M) (messages : List M)
        (emitted : ℕ) (next : Next S)
        → emitted < sink.count
        → sink.count ≤ emitted + (weight message + total messages)
        → GoesOn message messages next
        → ((emitted' : ℕ) (t : S)
            → P messages t
            → emitted' < sink.count
            → sink.count ≤ emitted' + total messages
            → Returns (rest emitted' t) (Finishes sink emitted'))
        → Returns (after_round sink emitted rest next) (Finishes sink emitted)
    unfolding after_round
    after_round-Finishes rest message messages emitted (end_with outcome) few enough g go = absurd g
    after_round-Finishes rest message messages emitted (go_on t reports) few enough (p, w) go =
        let e = emit_all-Emitting reports emitted few in
        elim e.outcome [
          | inl (stop, all) ↦
              rw (stop, after_round) (Returns-some _ (refl, omega (arith, e.counted, all)))
          | inr (going, fewer, whole) ↦
              rw (going, after_round)
                (Returns-bind _ _
                  (go (emit_all sink emitted reports).emitted t p fewer
                    (omega (arith, enough, e.counted, whole, w)))
                  λ r f. Returns-some _ (
                    f.0,
                    omega (
                      arith,
                      f.1,
                      e.counted,
                      length_of-append (emit_all sink emitted reports).out r.1,
                    ),
                  ))
        ]

    -- A loop that is sent enough weight finishes, with exactly the reports that were asked for.
    pub select_loop-Finishes :
        ((message : M) (messages : List M) (t : S)
          → P (message ∷ messages) t
          → Returns (round message t) (GoesOn message messages))
        → (messages : List M) (emitted : ℕ) (t : S) → P messages t
        → emitted ≤ sink.count
        → sink.count ≤ emitted + total messages
        → Returns (select_loop sink round messages emitted t) (Finishes sink emitted)
    unfolding select_loop
    select_loop-Finishes keep [] emitted t p fine enough =
        let no_more : wants_more sink emitted ≡ false = ground (arith, fine, enough, s.limited) in
        rw no_more (Returns-some _ (refl, omega (arith, fine, enough)))
    select_loop-Finishes keep (message ∷ messages) emitted t p fine enough =
        Returns-if (not (wants_more sink emitted)) _ _
          (λ done. Returns-some _ (refl, ground (arith, fine, done)))
          (λ more. Returns-bind (round message t) _ (keep message messages t p) λ next g.
            after_round-Finishes _ message messages emitted next (ground (arith, more, s.limited))
              enough g
              λ emitted' u q fewer rest.
                select_loop-Finishes keep messages emitted' u q (omega (arith, fewer)) rest)
