-- ===== src/App/Config.antt =====
-- internal/app/config.go: what parseConfig makes of the flags and the arguments after them. The flag
-- package's reading of the command line comes before it, and is an argument here, as is
-- time.ParseDuration. Ints and durations are bit patterns.
pub mod Accepted
pub mod Tests
use tsastat.Prelude.{
  ℕ, String, Bool, true, false, ◌&&◌, ◌||◌, not, Option, none, some, List, [], ◌∷◌, leb, nat_beq,
  if◌then◌else◌, ◌>>=◌, ◌==◌, string_eq, mul64,
}
use tsastat.Clock.{Duration, is_negative}
use tsastat.Text.{Bytes, is_empty, is_digit, parse_int}

unfoldable pub all_digits : Bytes → Bool
all_digits [] = true
all_digits (b ∷ bs) = let rest = all_digits bs in if is_digit b then rest else false

-- isPositiveInteger
unfoldable pub is_positive_integer : Bytes → Bool
is_positive_integer raw = all_digits raw && not (is_empty raw)

abbrev pub second : ℕ
second = 1000000000

-- v <= 0
abbrev pub is_not_positive : ℕ → Bool
is_not_positive v = nat_beq v 0 || is_negative v

abbrev pub positive : ℕ → Option ℕ
positive v = if is_not_positive v then none else some v

-- time.Duration(seconds) * time.Second
abbrev pub of_seconds : ℕ → ℕ
of_seconds seconds = mul64 seconds second

-- parseInterval; `none` is an error.
unfoldable pub parse_interval : (Bytes → Option Duration) → Bytes → Option Duration
parse_interval parse_duration [] = none
parse_interval parse_duration (b ∷ bs) =
    if is_positive_integer (b ∷ bs)
    then (do n ← parse_int (b ∷ bs); seconds ← positive n; some (of_seconds seconds))
    else (do value ← parse_duration (b ∷ bs); positive value)

-- A flag's value, and whether it has been set: durationFlag and countFlag.
pub record FlagValue : Type 0 where
  pub value : ℕ
  pub set : Bool

-- (*durationFlag).Set and (*countFlag).Set
unfoldable pub set_duration : (Bytes → Option Duration) → Bytes → FlagValue → Option FlagValue
set_duration parse_duration raw flag = do
  value ← parse_interval parse_duration raw
  some (record { value = value; set = true })

unfoldable pub set_count : Bytes → FlagValue → Option FlagValue
set_count raw flag = do value ← parse_int raw; some (record { value = value; set = true })

pub record Config : Type 0 where
  pub pid : ℕ
  pub interval : Duration
  pub sample_interval : Duration
  pub count : ℕ
  pub backend : String
  pub output : String
  pub tid : ℕ
  pub comm : String
  pub show_idle : Bool
  pub sort : String
  pub no_header : Bool
  pub version : Bool

-- The interval may be an argument, unless it is a flag.
unfoldable pub positional_interval :
    (Bytes → Option Duration) → List Bytes → FlagValue → Option FlagValue
positional_interval parse_duration [] interval = some interval
positional_interval parse_duration (raw ∷ []) interval =
    if interval.set then none else set_duration parse_duration raw interval
positional_interval parse_duration (a ∷ b ∷ rest) interval = none

-- The checks; the two intervals are positive where they are compared.
unfoldable pub validate : FlagValue → Bool → Config → Option Config
validate interval count_set cfg =
    if is_not_positive cfg.pid
    then none
    else if not interval.set
    then none
    else if is_not_positive cfg.interval
    then none
    else if is_not_positive cfg.sample_interval
    then none
    else if not (cfg.backend == "ebpf") && leb cfg.interval cfg.sample_interval
    then none
    else if count_set && is_not_positive cfg.count
    then none
    else if is_negative cfg.tid
    then none
    else some cfg

-- parseConfig, after fs.Parse: `none` is an error. `cfg` has the values of the plain flags, and the
-- others carry whether they are set.
unfoldable pub parse_config :
    (Bytes → Option Duration)
    → Config
    → FlagValue
    → FlagValue
    → FlagValue
    → List Bytes
    → Option Config
parse_config parse_duration cfg interval sample count positionals =
    let read = record cfg {
      interval = interval.value;
      sample_interval = sample.value;
      count = count.value;
    } in
    if cfg.version then some read else (do
      chosen ← positional_interval parse_duration positionals interval
      validate chosen count.set (record read { interval = chosen.value }))
