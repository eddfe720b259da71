-- ===== src/Collector/Loop.antt =====
-- The loops of internal/collector/collector.go. What `select` receives, in turn, is a list of
-- messages; a loop that has seen them all goes on waiting. Each loop runs until enough reports are
-- emitted, and a round may hand out reports. `none` is a panic or a loop that does not end.

pub mod Snapshots
pub mod Events
pub mod Hybrid
pub mod Emitted
pub mod SnapshotReports
pub mod Boundary
pub mod EventReports
pub mod Merged
pub mod HybridRounds
pub mod HybridReports
pub mod Liveness
pub mod EventLiveness
pub mod Tests
use tsastat.Prelude.{
  ℕ, ◌+◌, ◌≤◌, ◌<◌, Bool, true, false, ◌||◌, ◌&&◌, not, Option, none, some, List, [], ◌∷◌, ◌++◌,
  ltb, leb, nat_beq, if◌then◌else◌, ◌>>=◌,
}
use tsastat.Model.Stats.{IntervalReport, IntervalQuality}
use tsastat.Model.Sources.{Failure, BackendSourceStatus}

-- What the loops are given: the number of reports to emit (0 for no limit), and what `emit` and
-- SourceStatus answer when they are called for the n-th report; a backend may have no SourceStatus.
pub record Sink : Type 0 where
  pub count : ℕ
  pub emit : ℕ → IntervalReport → Option Failure
  pub source_status : ℕ → Option BackendSourceStatus

pub data Outcome : Type 0 where
  finished : Outcome
  stopped : Failure → Outcome
  waiting : Outcome

-- withSourceStatus
unfoldable pub with_source_status : Option BackendSourceStatus → IntervalReport → IntervalReport
with_source_status none report = report
with_source_status (some status) report = record report {
  quality = record report.quality {
    active_sources = status.active;
    unavailable_sources = status.unavailable;
  };
}

-- What emitting some reports comes to: whether that ends the loop, how many have been emitted, and
-- which.
pub record Emission : Type 0 where
  pub ended : Option Outcome
  pub emitted : ℕ
  pub out : List IntervalReport

-- `for _, report := range reports`, where `emitted` reports have been emitted before.
unfoldable pub emit_all : Sink → ℕ → List IntervalReport → Emission
emit_all sink emitted [] = record { ended = none; emitted = emitted; out = [] }
emit_all sink emitted (report ∷ reports) =
    let shown = with_source_status (sink.source_status emitted) report in
    let rest = emit_all sink (emitted + 1) reports in
    elim (sink.emit emitted shown) [
      | some e ↦ record { ended = some (stopped e); emitted = emitted; out = [] }
      | none ↦
          if ltb 0 sink.count && leb sink.count (emitted + 1)
          then record { ended = some finished; emitted = emitted + 1; out = shown ∷ [] }
          else record rest { out = shown ∷ rest.out }
    ]

-- What a round comes to: the loop returns, or goes on after some reports.
pub data Next (S : Type 0) : Type 0 where
  end_with : Outcome → Next S
  go_on : S → List IntervalReport → Next S

-- count <= 0 || emitted < count
abbrev pub wants_more : Sink → ℕ → Bool
wants_more sink emitted = nat_beq sink.count 0 || ltb emitted sink.count

unfoldable pub after_round :
    {S : Type 0}
    → Sink
    → ℕ
    → (ℕ → S → Option (Outcome × List IntervalReport))
    → Next S
    → Option (Outcome × List IntervalReport)
after_round sink emitted rest (end_with outcome) = some (outcome, [])
after_round sink emitted rest (go_on s reports) =
    let e = emit_all sink emitted reports in
    elim e.ended [
      | some outcome ↦ some (outcome, e.out)
      | none ↦ do (outcome, out) ← rest e.emitted s; some (outcome, e.out ++ out)
    ]

-- `for count <= 0 || emitted < count { select { … } }`
unfoldable pub select_loop :
    {M S : Type 0}
    → Sink
    → (M → S → Option (Next S))
    → List M
    → ℕ
    → S
    → Option (Outcome × List IntervalReport)
select_loop sink round [] emitted s =
    some ((if wants_more sink emitted then waiting else finished), [])
select_loop sink round (message ∷ messages) emitted s =
    if not (wants_more sink emitted) then some (finished, []) else do
      next ← round message s
      after_round sink emitted (λ emitted' s'. select_loop sink round messages emitted' s') next
