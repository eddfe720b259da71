-- ===== src/Procfs/Bounds.antt =====
-- What the parsers accept is in range.
use tsastat.Prelude.{◌<◌, inl, inr, Option-cases, List, [], ◌∷◌, word}
use tsastat.Text.{Bytes, fields, parse_uint}
use tsastat.Text.Numbers.{parse_uint-bounds}
use tsastat.Procfs.{
  Schedstat, Malformed, Parsed, parsed, malformed, ◌>>=◌, or_malformed, schedstat_values,
  parse_schedstat_line,
}

-- A property of the value, if there is one.
abbrev pub Parses {ℓ} : {A : Type 0} → (A → Type ℓ) → Parsed A → Type ℓ
Parses P (parsed a) = P a
Parses P (malformed m) = Unit

Parses-bind :
    {A B : Type 0} (P : A → Type 0) (Q : B → Type 0) (m : Parsed A) (f : A → Parsed B)
    → Parses P m
    → ((a : A) → P a → Parses Q (f a))
    → Parses Q (m >>= f)
Parses-bind P Q (parsed a) f h k = k a h
Parses-bind P Q (malformed m) f h k = tt

or_malformed-word :
    (m : Malformed) (s : Bytes) → Parses (λ n. n < word) (or_malformed m (parse_uint s))
or_malformed-word m s = elim (Option-cases (parse_uint s)) [
  | inl bad ↦ rw bad tt
  | inr (n, good) ↦ rw good (parse_uint-bounds s n good)
]

pub record IsWords (s : Schedstat) : Type 0 where
  pub on_cpu : s.on_cpu_nanoseconds < word
  pub runqueue : s.runqueue_nanoseconds < word
  pub timeslices : s.timeslices < word

schedstat_values-IsWords : (fs : List Bytes) → Parses IsWords (schedstat_values fs)
unfolding schedstat_values
schedstat_values-IsWords [] = tt
schedstat_values-IsWords (a ∷ []) = tt
schedstat_values-IsWords (a ∷ b ∷ []) = tt
schedstat_values-IsWords (a ∷ b ∷ c ∷ rest) =
    Parses-bind (λ n. n < word) IsWords _ _ (or_malformed-word _ a)
      λ x hx.
        Parses-bind (λ n. n < word) IsWords _ _ (or_malformed-word _ b)
          λ y hy.
            Parses-bind (λ n. n < word) IsWords _ _ (or_malformed-word _ c)
              λ z hz. record { on_cpu = hx; runqueue = hy; timeslices = hz }

-- What ParseSchedstatLine accepts are 64-bit words, on any line.
pub parse_schedstat_line-IsWords : (line : Bytes) → Parses IsWords (parse_schedstat_line line)
unfolding parse_schedstat_line
parse_schedstat_line-IsWords line = schedstat_values-IsWords (fields line)
