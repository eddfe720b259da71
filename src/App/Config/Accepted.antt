-- ===== src/App/Config/Accepted.antt =====
-- What an accepted command line gives the collector, and what parseInterval makes of seconds.
use tsastat.Prelude.{
  ℕ, ◌*◌, ◌%◌, ◌^◌, ◌<◌, ◌≡◌, refl, ap, sym, subst, ◌↔◌, ltb, Bool-cases, ◌⊎◌, inl, inr, Bool, true,
  false, ◌&&◌, not, Option-cases, Option, none, some, List, [], ◌∷◌, arith, leb, if◌then◌else◌,
  ◌==◌, string_eq, sign_bit,
}
use tsastat.Clock.{Duration, is_negative}
use tsastat.Text.{Bytes, parse_int}
use tsastat.Text.Numbers.{
  IsDigits, IsDecimal, decimal, decimal-IsDecimal, parse_int-decimal, parse_int-large_decimal,
}
use tsastat.App.Config.{
  is_positive_integer, all_digits, is_not_positive, parse_interval, FlagValue, Config,
  positional_interval, validate, parse_config,
}

-- A configuration that the collector can run.
pub record IsUsable (count_set : Bool) (cfg : Config) : Type 0 where
  pub pid : (0 < cfg.pid) × (cfg.pid < sign_bit)
  pub interval : (0 < cfg.interval) × (cfg.interval < sign_bit)
  pub sample_interval : (0 < cfg.sample_interval) × (cfg.sample_interval < sign_bit)
  pub shorter : ((cfg.backend == "ebpf") ≡ true) ⊎ (cfg.sample_interval < cfg.interval)
  pub count : (count_set ≡ false) ⊎ ((0 < cfg.count) × (cfg.count < sign_bit))
  pub tid : cfg.tid < sign_bit

-- A check that has been passed.
passed :
    {A : Type 0} (b : Bool) (m : Option A) (a : A)
    → (if b then none else m) ≡ some a
    → (b ≡ false) × (m ≡ some a)
passed true m a e = absurd (ground (arith, e))
passed false m a e = (refl, e)

same_config : {c d : Config} → some c ≡ some d → c ≡ d
same_config {c} e = ap (λ o. elim o [ none ↦ c | some x ↦ x ]) e

positive_value : (v : ℕ) → is_not_positive v ≡ false → (0 < v) × (v < sign_bit)
positive_value v h = (ground (arith, h), ground (arith, h))

validate-IsUsable :
    (interval : FlagValue) (count_set : Bool) (cfg c : Config)
    → validate interval count_set cfg ≡ some c
    → (cfg ≡ c) × IsUsable count_set cfg
unfolding validate
validate-IsUsable interval count_set cfg c e =
    let pid = passed (is_not_positive cfg.pid) _ c e in
    let given = passed (not interval.set) _ c pid.1 in
    let positive_interval = passed (is_not_positive cfg.interval) _ c given.1 in
    let positive_sample = passed (is_not_positive cfg.sample_interval) _ c positive_interval.1 in
    let shorter =
      passed (not (cfg.backend == "ebpf") && leb cfg.interval cfg.sample_interval) _ c
        positive_sample.1 in
    let counted = passed (count_set && is_not_positive cfg.count) _ c shorter.1 in
    let tid = passed (is_negative cfg.tid) _ c counted.1 in
    (
      same_config tid.1,
      record {
        pid = positive_value cfg.pid pid.0;
        interval = positive_value cfg.interval positive_interval.0;
        sample_interval = positive_value cfg.sample_interval positive_sample.0;
        shorter = either_of (cfg.backend == "ebpf") shorter.0;
        count = if_set count_set counted.0;
        tid = ground (arith, tid.0);
      },
    )
  where
    either_of :
        (b : Bool)
        → (not b && leb cfg.interval cfg.sample_interval) ≡ false
        → (b ≡ true) ⊎ (cfg.sample_interval < cfg.interval)
    either_of true h = inl refl
    either_of false h = inr (ground (arith, h))

    if_set :
        (b : Bool)
        → (b && is_not_positive cfg.count) ≡ false
        → (b ≡ false) ⊎ ((0 < cfg.count) × (cfg.count < sign_bit))
    if_set true h = inr (positive_value cfg.count h)
    if_set false h = inl refl

-- A command line that parseConfig accepts, other than one that asks for the version, has a positive
-- pid and positive int64 intervals; the sample interval is shorter than the report interval unless
-- the backend is ebpf; a count that is set is a positive int64, and the tid is not negative. This is so
-- whatever time.ParseDuration answers.
pub parse_config-IsUsable :
    (parse_duration : Bytes → Option Duration) (cfg c : Config) (interval sample count : FlagValue)
    (positionals : List Bytes)
    → cfg.version ≡ false
    → parse_config parse_duration cfg interval sample count positionals ≡ some c
    → IsUsable count.set c
unfolding parse_config
parse_config-IsUsable parse_duration cfg c interval sample count positionals run e =
    elim (Option-cases (positional_interval parse_duration positionals interval)) [
      | inl bad ↦ absurd (ground (arith, rw (run, bad) at e))
      | inr (chosen, good) ↦
          let v = validate-IsUsable chosen count.set _ c (rw (run, good) at e) in
          subst (IsUsable count.set) v.0 v.1
    ]

digits_all : (bs : Bytes) → IsDigits bs → all_digits bs ≡ true
unfolding all_digits
digits_all [] h = refl
digits_all (b ∷ bs) h = rw h.0 (digits_all bs h.1)

-- A positive number of seconds that is an int64, and the nanoseconds that a 64-bit product keeps of it.
abbrev pub Wraps : ℕ → Duration → Type 0
Wraps n v = (0 < n) × (n < 2 ^ 63) × (v ≡ (n * 1000000000) % 2 ^ 64)

refused : {A : Type 0} (a : A) → Path (Option A) none (some a) → ⊥
refused a e = subst (λ o. elim o [ none ↦ Unit {0} | some x ↦ ⊥ ]) e tt

of_digits :
    (parse_duration : Bytes → Option Duration) (bs : Bytes) (n v : ℕ)
    → IsDecimal bs
    → parse_int bs ≡ some n
    → n < sign_bit
    → (parse_interval parse_duration bs ≡ some v) ↔ Wraps n v
unfolding parse_interval is_positive_integer
of_digits parse_duration [] n v d e hi = absurd (ground (arith, d.some_digit))
of_digits parse_duration (b ∷ bs) n v d e hi =
    rw (digits_all (b ∷ bs) d.digits_only, e)
      (elim (Bool-cases (is_not_positive n)) [
        | inl bad ↦ rw bad (λ k. absurd (refused v k), λ w. absurd (ground (arith, bad, w.0, hi)))
        | inr good ↦ rw good (
          λ k. (ground (arith, good), ground (arith, hi), ground (arith, k)),
          λ w. ap some (sym w.2),
        )
      ])

of_large_digits :
    (parse_duration : Bytes → Option Duration) (bs : Bytes)
    → IsDecimal bs
    → parse_int bs ≡ none
    → parse_interval parse_duration bs ≡ none
unfolding parse_interval is_positive_integer
of_large_digits parse_duration [] d e = refl
of_large_digits parse_duration (b ∷ bs) d e = rw (digits_all (b ∷ bs) d.digits_only, e) refl

-- An interval written as a number of seconds in decimal is accepted exactly if the number is positive
-- and below 2 ^ 63, and then as that many nanoseconds modulo 2 ^ 64: the product is not checked.
pub parse_interval-decimal :
    (parse_duration : Bytes → Option Duration) (n v : ℕ)
    → (parse_interval parse_duration (decimal n) ≡ some v)
      ↔ ((0 < n) × (n < 2 ^ 63) × (v ≡ (n * 1000000000) % 2 ^ 64))
parse_interval-decimal parse_duration n v = elim (Bool-cases (ltb n sign_bit)) [
  | inl small ↦
      of_digits parse_duration (decimal n) n v (decimal-IsDecimal n)
        (parse_int-decimal n (ground (arith, small))) (ground (arith, small))
  | inr large ↦
      let none_read =
        of_large_digits parse_duration (decimal n) (decimal-IsDecimal n)
          (parse_int-large_decimal n (ground (arith, large))) in
      rw none_read (λ k. absurd (refused v k), λ w. absurd (ground (arith, large, w.1)))
]
