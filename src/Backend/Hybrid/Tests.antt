-- ===== src/Backend/Hybrid/Tests.antt =====
-- The hybrid backend on concrete answers.
use tsastat.Prelude.{true, false, List, [], ◌∷◌}
use tsastat.Model.Sample.{ThreadSnapshot}
use tsastat.Model.Sources.{taken, failed, other}
use tsastat.Backend.Hybrid.{new_backend}
use tsastat.Backend.Hybrid.Sources.{
  IsStatus, Use, take_snapshot, open_stream, use_all, use_from_new-IsStatus,
}

abbrev empty_snapshot : ThreadSnapshot
empty_snapshot = record { samples = []; started_at = 5; finished_at = 6; sampling_method = "" }

-- taskstats answers once and then fails; the stream does not open.
abbrev uses : List Use
uses =
    take_snapshot (taken empty_snapshot) (taken empty_snapshot)
    ∷ open_stream false
    ∷ take_snapshot (failed other) (taken empty_snapshot)
    ∷ []

use_from_new-IsStatus_example : IsStatus (use_all uses (new_backend true))
use_from_new-IsStatus_example = use_from_new-IsStatus true uses
