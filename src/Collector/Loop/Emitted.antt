-- ===== src/Collector/Loop/Emitted.antt =====
-- What a loop of the collector emits, whatever its rounds do: the rule from the rounds to the loop.
use tsastat.Prelude.{
  ℕ, ◌+◌, ◌≤◌, ◌<◌, ◌≡◌, refl, ◌⊎◌, inl, inr, Bool, true, false, not, ◌&&◌, Bool-cases,
  Option-cases, Option, none, some, List, [], ◌∷◌, arith, ltb, leb, Returns, Returns-some,
  Returns-bind, Returns-if, All, All-append,
}
use tsastat.Model.Stats.{IntervalReport}
use tsastat.Model.Sources.{BackendSourceStatus}
use tsastat.Collector.Grid.{Grid}
use tsastat.Collector.Accumulator.Finalize.Tiling.{Tiles, Tiles-append, length_of, length_of-append}
use tsastat.Collector.Loop.{
  Sink, Outcome, finished, stopped, waiting, with_source_status, Emission, emit_all, Next, end_with,
  go_on, wants_more, after_round, select_loop,
}

abbrev pub is_waiting : Outcome → Bool
is_waiting waiting = true
is_waiting _ = false

-- What has been emitted by a loop that has returned, or that waits: the reports tile the time from a
-- window on, have the property `Q`, and are not more than were asked for; a loop that waits has more
-- to emit.
pub record Emits (sink : Sink) (g : Grid) (Q : IntervalReport → Type 0) (emitted index : ℕ)
    (outcome : Outcome) (out : List IntervalReport) : Type 0 where
  pub tiles : Tiles g index out
  pub all : All Q out
  pub bounded : (sink.count ≡ 0) ⊎ (emitted + length_of out ≤ sink.count)
  pub going :
      (is_waiting outcome ≡ false) ⊎ (sink.count ≡ 0) ⊎ (emitted + length_of out < sink.count)

-- The same of one call of `emit_all`.
record Emitted (sink : Sink) (g : Grid) (Q : IntervalReport → Type 0) (emitted index : ℕ)
    (reports : List IntervalReport) (e : Emission) : Type 0 where
  tiles : Tiles g index e.out
  all : All Q e.out
  counted : e.emitted ≡ emitted + length_of e.out
  bounded : (sink.count ≡ 0) ⊎ (e.emitted ≤ sink.count)
  ended :
      ((outcome : Outcome) × (e.ended ≡ some outcome) × (is_waiting outcome ≡ false))
      ⊎ ((e.ended ≡ none)
          × (wants_more sink e.emitted ≡ true)
          × (length_of e.out ≡ length_of reports))

shown_times :
    (status : Option BackendSourceStatus) (report : IntervalReport)
    → ((with_source_status status report).interval_start ≡ report.interval_start)
      × ((with_source_status status report).interval_end ≡ report.interval_end)
unfolding with_source_status
shown_times none report = (refl, refl)
shown_times (some status) report = (refl, refl)

module _ (sink : Sink) (g : Grid) (Q : IntervalReport → Type 0)
    (shown : (status : Option BackendSourceStatus) (report : IntervalReport)
      → Q report
      → Q (with_source_status status report)) where
  emit_all-Emitted :
      (reports : List IntervalReport) (emitted index : ℕ)
      → wants_more sink emitted ≡ true
      → Tiles g index reports
      → All Q reports
      → Emitted sink g Q emitted index reports (emit_all sink emitted reports)
  unfolding emit_all
  emit_all-Emitted [] emitted index more tiles all = record {
    tiles = tt;
    all = tt;
    counted = omega arith;
    bounded = ground (arith, more);
    ended = inr (refl, more, refl);
  }
  emit_all-Emitted (report ∷ reports) emitted index more tiles all =
      let status = sink.source_status emitted in
      let times = shown_times status report in
      elim (Option-cases (sink.emit emitted (with_source_status status report))) [
        | inr (e, refused) ↦
            rw (refused, emit_all)
              (record {
                tiles = tt;
                all = tt;
                counted = omega arith;
                bounded = ground (arith, more);
                ended = inl (stopped e, refl, refl);
              })
        | inl accepted ↦ elim (Bool-cases (ltb 0 sink.count && leb sink.count (emitted + 1))) [
          | inl enough ↦
              rw (accepted, emit_all, enough)
                (record {
                  tiles = (rw times.0 tiles.0, rw times.1 tiles.1, tt);
                  all = (shown status report all.0, tt);
                  counted = omega arith;
                  bounded = ground (arith, enough, more);
                  ended = inl (finished, refl, refl);
                })
          | inr few ↦
              let rest =
                emit_all-Emitted reports (emitted + 1) (index + 1) (ground (arith, few)) tiles.2
                  all.1 in
              rw (accepted, emit_all, few)
                (record {
                  tiles = (rw times.0 tiles.0, rw times.1 tiles.1, rest.tiles);
                  all = (shown status report all.0, rest.all);
                  counted = omega (arith, rest.counted);
                  bounded = rest.bounded;
                  ended = elim rest.ended [
                    | inl stop ↦ inl stop
                    | inr (open_end, wants, whole) ↦ inr (open_end, wants, omega (arith, whole))
                  ];
                })
        ]
      ]

  module _ {M S : Type 0} (round : M → S → Option (Next S)) (index : S → ℕ)
      (P : List M → S → Type 0) where
    -- What a round comes to, with the messages that are left.
    abbrev pub Steps : List M → S → Next S → Type 0
    Steps messages s (end_with outcome) = Unit
    Steps messages s (go_on t reports) =
        P messages t
        × Tiles g (index s) reports
        × (index t ≡ index s + length_of reports)
        × All Q reports

    abbrev pub Done : ℕ → ℕ → Outcome × List IntervalReport → Type 0
    Done emitted i (outcome, out) = Emits sink g Q emitted i outcome out

    after_round-Done :
        (rest : ℕ → S → Option (Outcome × List IntervalReport)) (messages : List M) (emitted : ℕ)
        (s : S) (next : Next S)
        → wants_more sink emitted ≡ true
        → Steps messages s next
        → ((emitted' : ℕ) (t : S)
            → P messages t
            → (sink.count ≡ 0) ⊎ (emitted' ≤ sink.count)
            → Returns (rest emitted' t) (Done emitted' (index t)))
        → Returns (after_round sink emitted rest next) (Done emitted (index s))
    unfolding after_round
    after_round-Done rest messages emitted s (end_with outcome) more steps go =
        Returns-some _ (record {
          tiles = tt;
          all = tt;
          bounded = ground (arith, more);
          going = ground (arith, more);
        })
    after_round-Done rest messages emitted s (go_on t reports) more (p, tiles, advanced, all) go =
        let e = emit_all-Emitted reports emitted (index s) more tiles all in
        elim e.ended [
          | inl (outcome, stop, ends) ↦
              rw (stop, after_round)
                (Returns-some _ (record {
                  tiles = e.tiles;
                  all = e.all;
                  bounded = ground (arith, e.bounded, e.counted);
                  going = inl ends;
                }))
          | inr (open_end, wants, whole) ↦
              rw (open_end, after_round)
                (Returns-bind _ _ (go (emit_all sink emitted reports).emitted t p e.bounded) λ r d.
                  let later : index t ≡ index s + length_of (emit_all sink emitted reports).out =
                    omega (arith, advanced, whole) in
                  let both = length_of-append (emit_all sink emitted reports).out r.1 in
                  Returns-some _ (record {
                    tiles =
                        Tiles-append g (index s) (emit_all sink emitted reports).out r.1 e.tiles
                          (rw later at d.tiles);
                    all = All-append Q (emit_all sink emitted reports).out r.1 e.all d.all;
                    bounded = ground (arith, d.bounded, both, e.counted);
                    going = ground (arith, d.going, both, e.counted);
                  }))
        ]

    -- A loop whose rounds return and hand out the next windows returns, and emits them in order.
    pub select_loop-Done :
        ((message : M) (messages : List M) (s : S)
          → P (message ∷ messages) s
          → Returns (round message s) (Steps messages s))
        → (messages : List M) (emitted : ℕ) (s : S) → P messages s
        → (sink.count ≡ 0) ⊎ (emitted ≤ sink.count)
        → Returns (select_loop sink round messages emitted s) (Done emitted (index s))
    unfolding select_loop
    select_loop-Done keep [] emitted s p fine = elim (Bool-cases (wants_more sink emitted)) [
      | inl more ↦ rw more (
          Returns-some _ (record {
            tiles = tt;
            all = tt;
            bounded = ground (arith, fine);
            going = ground (arith, more);
          }))
      | inr enough ↦ rw enough (
          Returns-some _
            (record { tiles = tt; all = tt; bounded = ground (arith, fine); going = inl refl }))
    ]
    select_loop-Done keep (message ∷ messages) emitted s p fine =
        Returns-if (not (wants_more sink emitted)) _ _
          (λ _.
            Returns-some _
              (record { tiles = tt; all = tt; bounded = ground (arith, fine); going = inl refl }))
          (λ more. Returns-bind (round message s) _ (keep message messages s p) λ next steps.
            after_round-Done _ messages emitted s next (ground (arith, more)) steps
              λ emitted' t q fine'. select_loop-Done keep messages emitted' t q fine')
