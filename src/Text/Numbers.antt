-- ===== src/Text/Numbers.antt =====
-- Decimal numbers: ParseUint and Atoi read what is written.
use tsastat.Prelude.{
  ℕ, zero, suc, ◌+◌, ◌-◌, ◌*◌, ◌/◌, ◌%◌, ◌≤◌, ◌<◌, ◌≡◌, refl, ap, ◌∙◌, true, false, inl, inr,
  Bool-cases, Option-cases, none, some, [], ◌∷◌, arith, ltb, nat_beq, All, word, sign_bit,
}
use tsastat.Text.{Bytes, is_space, is_empty, is_digit, digits, unsigned, parse_uint, parse_int}
use tsastat.Text.Fields.{IsWord}

-- The decimal digits of `n`, before others; `n` rounds are enough.
unfoldable pub decimal_before : ℕ → ℕ → Bytes → Bytes
decimal_before zero n rest = rest
decimal_before (suc fuel) n rest = elim (ltb n 10) [
  | true ↦ (48 + n) ∷ rest
  | false ↦ decimal_before fuel (n / 10) ((48 + n % 10) ∷ rest)
]

unfoldable pub decimal : ℕ → Bytes
decimal n = decimal_before (suc n) n []

abbrev pub IsDigits : Bytes → Type 0
IsDigits bs = All (λ b. is_digit b ≡ true) bs

-- The decimal digits are some digits.
pub record IsDecimal (bs : Bytes) : Type 0 where
  pub some_digit : is_empty bs ≡ false
  pub digits_only : IsDigits bs

decimal_before-IsDecimal :
    (fuel n : ℕ) (rest : Bytes) → n < fuel → IsDigits rest → IsDecimal (decimal_before fuel n rest)
unfolding decimal_before
decimal_before-IsDecimal zero n rest h k = absurd (omega arith)
decimal_before-IsDecimal (suc fuel) n rest h k = elim (Bool-cases (ltb n 10)) [
  | inl small ↦
      rw (small, decimal_before)
        (record { some_digit = refl; digits_only = (ground (arith, small), k) })
  | inr large ↦
      rw (large, decimal_before)
        (decimal_before-IsDecimal fuel (n / 10) ((48 + n % 10) ∷ rest) (ground (arith, h, large))
          (ground arith, k))
]

pub decimal-IsDecimal : (n : ℕ) → IsDecimal (decimal n)
unfolding decimal
decimal-IsDecimal n = decimal_before-IsDecimal (suc n) n [] (omega arith) tt

digits-decimal_before :
    (fuel n : ℕ) (rest : Bytes) → n < fuel → digits 0 (decimal_before fuel n rest) ≡ digits n rest
unfolding decimal_before digits
digits-decimal_before zero n rest h = absurd (omega arith)
digits-decimal_before (suc fuel) n rest h = elim (Bool-cases (ltb n 10)) [
  | inl small ↦
      let digit : is_digit (48 + n) ≡ true = ground (arith, small) in
      let value : 0 * 10 + (48 + n - 48) ≡ n = omega arith in
      rw (small, decimal_before, digit) (ap (λ m. digits m rest) value)
  | inr large ↦
      let digit : is_digit (48 + n % 10) ≡ true = ground arith in
      let value : n / 10 * 10 + (48 + n % 10 - 48) ≡ n = omega arith in
      rw (large, decimal_before)
        (digits-decimal_before fuel (n / 10) ((48 + n % 10) ∷ rest) (ground (arith, h, large))
          ∙ rw digit (ap (λ m. digits m rest) value))
]

unsigned-digits :
    (limit n : ℕ) (bs : Bytes)
    → n < limit
    → is_empty bs ≡ false
    → digits 0 bs ≡ some n
    → unsigned limit bs ≡ some n
unfolding unsigned
unsigned-digits limit n [] h e read = absurd (ground (arith, e))
unsigned-digits limit n (b ∷ bs) h e read = rw (read, unsigned) (ground (arith, h))

unsigned-decimal : (limit n : ℕ) → n < limit → unsigned limit (decimal n) ≡ some n
unfolding decimal digits
unsigned-decimal limit n h =
    unsigned-digits limit n (decimal n) h (decimal-IsDecimal n).some_digit
      (digits-decimal_before (suc n) n [] (omega arith))

unsigned-large_digits :
    (limit n : ℕ) (bs : Bytes) → limit ≤ n → digits 0 bs ≡ some n → unsigned limit bs ≡ none
unfolding unsigned
unsigned-large_digits limit n [] h read = refl
unsigned-large_digits limit n (b ∷ bs) h read = rw (read, unsigned) (ground (arith, h))

-- ParseUint reads the decimal digits of a 64-bit word.
pub parse_uint-decimal : (n : ℕ) → n < word → parse_uint (decimal n) ≡ some n
unfolding parse_uint
parse_uint-decimal n h = unsigned-decimal word n h

parse_int-digits : (bs : Bytes) → IsDecimal bs → parse_int bs ≡ unsigned sign_bit bs
unfolding parse_int
parse_int-digits [] d = absurd (ground (arith, d.some_digit))
parse_int-digits (b ∷ bs) d =
    let minus : nat_beq b b'-' ≡ false = ground (arith, d.digits_only.0) in
    let plus : nat_beq b b'+' ≡ false = ground (arith, d.digits_only.0) in rw (minus, plus) refl

-- Atoi reads the decimal digits of an int64 that is not negative.
pub parse_int-decimal : (n : ℕ) → n < sign_bit → parse_int (decimal n) ≡ some n
parse_int-decimal n h =
    parse_int-digits (decimal n) (decimal-IsDecimal n) ∙ unsigned-decimal sign_bit n h

-- Atoi refuses the decimal digits of a number that is not in an int64.
pub parse_int-large_decimal : (n : ℕ) → sign_bit ≤ n → parse_int (decimal n) ≡ none
unfolding decimal digits
parse_int-large_decimal n h =
    parse_int-digits (decimal n) (decimal-IsDecimal n)
    ∙ unsigned-large_digits sign_bit n (decimal n) h
        (digits-decimal_before (suc n) n [] (omega arith))

unsigned-bounds : (limit : ℕ) (s : Bytes) (n : ℕ) → unsigned limit s ≡ some n → n < limit
unfolding unsigned
unsigned-bounds limit [] n e = absurd (ground (arith, e))
unsigned-bounds limit (b ∷ bs) n e = elim (Option-cases (digits 0 (b ∷ bs))) [
  | inl bad ↦ absurd (ground (arith, rw (bad, unsigned) at e))
  | inr (m, good) ↦ ground (arith, rw (good, unsigned) at e)
]

-- What ParseUint reads is a 64-bit word.
pub parse_uint-bounds : (s : Bytes) (n : ℕ) → parse_uint s ≡ some n → n < word
unfolding parse_uint
parse_uint-bounds s n e = unsigned-bounds word s n e

digits-IsWord : (bs : Bytes) → IsDigits bs → All (λ b. is_space b ≡ false) bs
digits-IsWord [] h = tt
digits-IsWord (b ∷ bs) h = (ground (arith, h.0), digits-IsWord bs h.1)

pub decimal-IsWord : (n : ℕ) → IsWord (decimal n)
decimal-IsWord n =
    ((decimal-IsDecimal n).some_digit, digits-IsWord (decimal n) (decimal-IsDecimal n).digits_only)
