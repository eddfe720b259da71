-- ===== src/Clock.antt =====
-- Go's time.Time and time.Duration, as the program uses them. A time is its distance in nanoseconds
-- from Go's zero time, so `0` is the time for which IsZero holds; no earlier time occurs. A duration
-- is an int64 number of nanoseconds, as a bit pattern.
use tsastat.Prelude.{
  ℕ, ◌+◌, ◌-◌, ◌/◌, ◌≤◌, ◌<◌, min, ◌≡◌, refl, Bool, arith, ltb, leb, nat_beq, if◌then◌else◌, word,
  sign_bit, max_int64,
}

abbrev pub Time : Type 0
Time = ℕ

abbrev pub Duration : Type 0
Duration = ℕ

abbrev pub zero_time : Time
zero_time = 0

abbrev pub is_zero : Time → Bool
is_zero t = nat_beq t 0

-- t.After(u), t.Before(u)
abbrev pub after : Time → Time → Bool
after t u = ltb u t

abbrev pub before : Time → Time → Bool
before t u = ltb t u

-- d < 0
abbrev pub is_negative : Duration → Bool
is_negative d = leb sign_bit d

-- t.Sub(u), which saturates at the ends of int64.
unfoldable pub time_sub : Time → Time → Duration
time_sub t u = if leb u t then min (t - u) max_int64 else word - min (u - t) sign_bit

-- t.Add(d); a negative duration goes back, and the model stops at the zero time.
unfoldable pub time_add : Time → Duration → Time
time_add t d = if is_negative d then t - (word - d) else t + d

-- d / 2, which rounds toward zero.
unfoldable pub half : Duration → Duration
half d = if is_negative d then (word - (word - d) / 2) else d / 2

pub time_sub-eq : (t u : Time) → u ≤ t → t - u < sign_bit → time_sub t u ≡ t - u
unfolding time_sub
time_sub-eq t u h k = ground arith

pub time_sub-lt : (t u : Time) → time_sub t u < word
unfolding time_sub
time_sub-lt t u = ground arith

pub time_sub_nonneg : (t u : Time) → u ≤ t → time_sub t u < sign_bit
unfolding time_sub
time_sub_nonneg t u h = ground arith

pub time_add-eq : (t : Time) (d : Duration) → d < sign_bit → time_add t d ≡ t + d
unfolding time_add
time_add-eq t d h = ground arith

pub half-eq : (d : Duration) → d < sign_bit → half d ≡ d / 2
unfolding half
half-eq d h = ground arith

-- A span that runs backwards is negative.
sub_backwards : time_sub 3 10 ≡ word - 7
unfolding time_sub
sub_backwards = refl

add_sub_backwards : time_add 10 (time_sub 3 10) ≡ 3
unfolding time_add time_sub
add_sub_backwards = refl

pub time_sub_mono : (t t' u : Time) → u ≤ t → t ≤ t' → time_sub t u ≤ time_sub t' u
unfolding time_sub
time_sub_mono t t' u h k = ground arith

pub time_sub_pos : (t u : Time) → u < t → 0 < time_sub t u
unfolding time_sub
time_sub_pos t u h = ground arith
