-- ===== src/App/Config/Tests.antt =====
-- Concrete command lines.
use tsastat.Prelude.{ℕ, ◌*◌, ◌%◌, ◌^◌, ◌<◌, ◌≡◌, ◌↔◌, refl, false, Option, none, some, [], ◌∷◌}
use tsastat.Clock.{Duration}
use tsastat.Text.{Bytes, parse_int, unsigned, digits}
use tsastat.Text.Numbers.{decimal}
use tsastat.App.Config.{
  is_positive_integer, all_digits, parse_interval, set_duration, FlagValue, Config,
  positional_interval, validate, parse_config,
}
use tsastat.App.Config.Accepted.{IsUsable, parse_config-IsUsable, parse_interval-decimal}

abbrev no_durations : Bytes → Option Duration
no_durations raw = none

abbrev flags : Config
flags = record {
  pid = 1234;
  interval = 0;
  sample_interval = 0;
  count = 0;
  backend = "auto";
  output = "table";
  tid = 0;
  comm = "";
  show_idle = false;
  sort = "tid";
  no_header = false;
  version = false;
}

abbrev unset : ℕ → FlagValue
unset value = record { value = value; set = false }

abbrev accepted : Config
accepted = record flags { interval = 1000000000; sample_interval = 10000000 }

-- tsastat -p 1234 1
one_second :
    parse_config no_durations flags (unset 0) (unset 10000000) (unset 0) ((b'1' ∷ []) ∷ [])
    ≡ some accepted
unfolding parse_config positional_interval set_duration parse_interval is_positive_integer
    all_digits parse_int unsigned digits validate
one_second = refl

parse_config-IsUsable_example : IsUsable false accepted
parse_config-IsUsable_example =
    parse_config-IsUsable no_durations flags accepted (unset 0) (unset 10000000) (unset 0)
      ((b'1' ∷ []) ∷ []) refl one_second

-- 18446744074 seconds are taken for 290448384 nanoseconds.
parse_interval-decimal_example :
    (parse_interval no_durations (decimal 18446744074) ≡ some 290448384) ↔ (
      (0 < 18446744074)
      × (18446744074 < 2 ^ 63)
      × (290448384 ≡ (18446744074 * 1000000000) % 2 ^ 64))
parse_interval-decimal_example = parse_interval-decimal no_durations 18446744074 290448384
