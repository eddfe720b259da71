-- ===== src/Prelude/Words.antt =====
-- 64-bit words as bit patterns below 2 ^ 64, with the wrap-around written out. A pattern from
-- 2 ^ 63 up stands for a negative int64.
use Prim.Native.Nat.{ℕ, ◌+◌, ◌-◌, ◌*◌, ◌%◌, ◌^◌, ◌<◌}
use mathlib.Core.Path.{◌≡◌}
use native.Mathlib.Omega.{arith}

abbrev pub word : ℕ
word = 2 ^ 64

abbrev pub sign_bit : ℕ
sign_bit = 2 ^ 63

abbrev pub max_int64 : ℕ
max_int64 = 2 ^ 63 - 1

-- `a += b` on int64, uint64 and time.Duration.
abbrev pub add64 : ℕ → ℕ → ℕ
add64 a b = (a + b) % word

-- `a * b` on int64.
abbrev pub mul64 : ℕ → ℕ → ℕ
mul64 a b = (a * b) % word

pub add64_comm : (a b : ℕ) → add64 a b ≡ add64 b a
add64_comm a b = omega arith

pub add64_assoc : (a b c : ℕ) → add64 (add64 a b) c ≡ add64 a (add64 b c)
add64_assoc a b c = omega arith

pub mul64-eq : (a b : ℕ) → a * b < word → mul64 a b ≡ a * b
mul64-eq a b h = omega arith

-- Equal as 64-bit words.
abbrev pub SameWord : ℕ → ℕ → Type 0
SameWord a b = a % word ≡ b % word
