-- ===== src/Backend/Proc/Tests.antt =====
-- A snapshot of concrete files.
use tsastat.Prelude.{ℕ, zero, suc, String, true, none, List, [], ◌∷◌, All}
use tsastat.Text.{Bytes}
use tsastat.Model.Sources.{Takes}
use tsastat.Procfs.RoundTrip.{stat_line}
use tsastat.Backend.Files.{FileRead, contents, not_exist, Directory, entries, listed}
use tsastat.Backend.Proc.{Entry, snapshot_tasks}
use tsastat.Backend.Proc.Stable.{IsStable, snapshot_tasks-IsStable}

abbrev zeros : ℕ → List Bytes
zeros zero = []
zeros (suc n) = (b'0' ∷ []) ∷ zeros n

abbrev stat_of : ℕ → FileRead
stat_of tid = contents (
    stat_line (record { tid = tid; comm = b'w' ∷ []; state = b'R'; start_time_ticks = 99 })
      (zeros 18) [])

-- The first attempt finds another task at its end; the second reads the same one twice.
abbrev directory : Directory Entry
directory = entries (
    record {
      interrupted = none;
      is_dir = true;
      name = b'7' ∷ [];
      first = record {
        started_at = 100;
        before = stat_of 7;
        schedstat = contents (b'1' ∷ 32 ∷ b'2' ∷ 32 ∷ b'3' ∷ []);
        after = stat_of 8;
        finished_at = 110;
      };
      second = record {
        started_at = 120;
        before = stat_of 7;
        schedstat = not_exist;
        after = stat_of 7;
        finished_at = 130;
      };
    }
    ∷ [])

abbrev named : Bytes → String
named bytes = "worker"

snapshot_tasks-IsStable_example :
    Takes
      (λ s. All (IsStable 7 (listed directory)) s.samples)
      (snapshot_tasks named 100 140 7 directory)
snapshot_tasks-IsStable_example = snapshot_tasks-IsStable named 7 100 140 directory
