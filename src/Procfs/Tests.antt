-- ===== src/Procfs/Tests.antt =====
-- The parsers on concrete lines, and their theorems at concrete inputs.
use tsastat.Prelude.{ℕ, zero, suc, ◌≡◌, refl, List, [], ◌∷◌, arith, All}
use tsastat.Text.{Bytes}
use tsastat.Procfs.{TaskStat, Schedstat, parsed, parse_proc_stat_line, parse_schedstat_line}
use tsastat.Procfs.RoundTrip.{
  stat_line, IsField, parse_proc_stat_line-stat_line, schedstat_line,
  parse_schedstat_line-schedstat_line,
}

-- A thread whose name is `a) (b`.
abbrev tricky : TaskStat
tricky = record {
  tid = 4242;
  comm = b'a' ∷ b')' ∷ 32 ∷ b'(' ∷ b'b' ∷ [];
  state = b'S';
  start_time_ticks = 123456789;
}

abbrev zeros : ℕ → List Bytes
zeros zero = []
zeros (suc n) = (b'0' ∷ []) ∷ zeros n

zeros-IsField : (n : ℕ) → All IsField (zeros n)
zeros-IsField zero = tt
zeros-IsField (suc n) = (((refl, (refl, tt)), (refl, tt)), zeros-IsField n)

parse_proc_stat_line-stat_line_example :
    parse_proc_stat_line (stat_line tricky (zeros 18) (zeros 30)) ≡ parsed tricky
parse_proc_stat_line-stat_line_example =
    parse_proc_stat_line-stat_line tricky (zeros 18) (zeros 30)
      (record { tid = omega arith; state = ((refl, (refl, tt)), (refl, tt)); start = omega arith })
      refl (zeros-IsField 18) (zeros-IsField 30)

abbrev counters : Schedstat
counters = record { on_cpu_nanoseconds = 17; runqueue_nanoseconds = 0; timeslices = 3 }

parse_schedstat_line-schedstat_line_example :
    parse_schedstat_line (schedstat_line counters (zeros 1)) ≡ parsed counters
parse_schedstat_line-schedstat_line_example =
    parse_schedstat_line-schedstat_line counters (zeros 1) (omega arith) (omega arith) (omega arith)
      ((refl, (refl, tt)), tt)
