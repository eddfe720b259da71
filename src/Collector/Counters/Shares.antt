-- ===== src/Collector/Counters/Shares.antt =====
-- The proportional shares of a counter's delta are exact, and add up.
use native.Mathlib.Nat.{
  mul-div_cancel, div-le_of_le-mul, le-div_iff_mul-le, mul-le-mul_left, zero-div, mul-zero,
  zero-mul, div-zero, div-mul-le_self, le_trans,
}
use tsastat.Prelude.{
  ap, Bool-cases, inl, inr, ℕ, ◌+◌, ◌-◌, ◌*◌, ◌/◌, ◌%◌, ◌≤◌, ◌<◌, ◌≡◌, true, ◌||◌, some, arith,
  nat_beq, word,
}
use tsastat.Collector.Counters.{div64, multiply_divide, share}

product-lt : (v n d : ℕ) → v < word → n ≤ d → 0 < d → v * n < word * d
product-lt v n d hv hn hd = grind arith

pub div64-eq :
    (product d : ℕ)
    → product < word * d
    → div64 (product / word) (product % word) d ≡ some (product / d)
unfolding div64
div64-eq product d h =
    let whole : product / word * word + product % word ≡ product = omega arith in
    let fits : product / word < d = omega arith in ground (arith, whole, fits)

zero_share :
    (v n d : ℕ) → nat_beq v 0 || nat_beq n 0 || nat_beq d 0 ≡ true → some 0 ≡ some (v * n / d)
zero_share v n d h = ground (arith, zero-div d, mul-zero v, zero-mul n, div-zero (v * n))

-- multiplyDivide does not panic, and is the exact quotient of the full product, for a 64-bit value
-- and a numerator up to a positive denominator.
pub multiply_divide-eq :
    (value numerator denominator : ℕ)
    → value < word
    → numerator ≤ denominator
    → 0 < denominator
    → multiply_divide value numerator denominator ≡ some (value * numerator / denominator)
unfolding multiply_divide
multiply_divide-eq v n d hv hn hd = elim (Bool-cases (nat_beq v 0 || nat_beq n 0 || nat_beq d 0)) [
  | inl nothing ↦ rw (nothing, multiply_divide) (zero_share v n d nothing)
  | inr something ↦ rw (something, multiply_divide) (div64-eq (v * n) d (product-lt v n d hv hn hd))
]

-- The share of the first `x` nanoseconds of a gap.
abbrev pub portion : ℕ → ℕ → ℕ → ℕ
portion value total x = value * x / total

pub portion_mono :
    (value total x y : ℕ) → 0 < total → x ≤ y → portion value total x ≤ portion value total y
portion_mono value total x y pos h =
    (le-div_iff_mul-le pos).1
      (le_trans (div-mul-le_self (value * x) total) (mul-le-mul_left value h))

pub portion-le : (value total x : ℕ) → 0 < total → x ≤ total → portion value total x ≤ value
portion-le value total x pos h = div-le_of_le-mul total (grind arith)

pub portion_whole : (value total : ℕ) → 0 < total → portion value total total ≡ value
portion_whole value total pos = mul-div_cancel value pos

pub portion_none : (value total : ℕ) → portion value total 0 ≡ 0
portion_none value total = rw (mul-zero, zero-div)

-- A share is the difference of the portions at its two ends.
pub share-eq :
    (value from to total : ℕ)
    → value < word
    → 0 < total
    → from ≤ to
    → to ≤ total
    → share value from to total ≡ some (portion value total to - portion value total from)
unfolding share
share-eq value from to total hv pos h k =
    let low : portion value total from ≤ portion value total to =
      portion_mono value total from to pos h in
    let high : portion value total to ≤ value = portion-le value total to pos k in
    rw
      (
        multiply_divide-eq value from total hv (le_trans h k) pos,
        multiply_divide-eq value to total hv k pos,
      )
      (ap some (omega arith))
