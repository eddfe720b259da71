-- ===== src/Backend/Ebpf/Identity.antt =====
-- internal/backend/ebpf/identity.go: the ticks of a start time.
use tsastat.Prelude.{
  ℕ, zero, suc, ◌+◌, ◌-◌, ◌/◌, ◌%◌, ◌≤◌, ◌<◌, ◌≡◌, refl, ◌↔◌, ap, ◌∙◌, sym, inl, inr, Bool, true,
  false, ◌||◌, ◌&&◌, not, Bool-cases, Option, none, some, List, [], ◌∷◌, ◌++◌, arith, ltb, leb,
  nat_beq, if◌then◌else◌, word, sign_bit, max_int64, mul64, add64,
}
use tsastat.Clock.{is_negative}
use tsastat.Text.{Bytes, length, take, drop, fields, parse_int}
use tsastat.Text.Binary.{ByteOrder, native_uint}

abbrev pub nanoseconds_per_second : ℕ
nanoseconds_per_second = 1000000000

-- strings.Split(s, "\n"), after the bytes of a line that has begun.
unfoldable pub lines_after : Bytes → Bytes → List Bytes
lines_after line [] = line ∷ []
lines_after line (b ∷ bs) = elim (nat_beq b 10) [
  | true ↦ line ∷ lines_after [] bs
  | false ↦ lines_after (line ++ (b ∷ [])) bs
]

unfoldable pub bytes_beq : Bytes → Bytes → Bool
bytes_beq [] [] = true
bytes_beq (a ∷ xs) (b ∷ ys) = nat_beq a b && bytes_beq xs ys
bytes_beq _ _ = false

abbrev boottime : Bytes
boottime = b'b' ∷ b'o' ∷ b'o' ∷ b't' ∷ b't' ∷ b'i' ∷ b'm' ∷ b'e' ∷ []

-- Seconds whose nanoseconds are not in an int64; math.MinInt64/1e9 is -9223372036.
abbrev pub too_many_seconds : ℕ → Bool
too_many_seconds seconds =
    if is_negative seconds then ltb 9223372036 (word - seconds) else ltb 9223372036 seconds

-- The offset, as a bit pattern.
unfoldable pub boottime_offset : ℕ → ℕ → Option ℕ
boottime_offset seconds nanoseconds =
    let offset = mul64 seconds nanoseconds_per_second in
    if is_negative nanoseconds || leb nanoseconds_per_second nanoseconds
    then none
    else if too_many_seconds seconds
    then none
    else if ltb 0 nanoseconds && not (is_negative offset) && ltb (max_int64 - nanoseconds) offset
    then none
    else some (add64 offset nanoseconds)

abbrev pub offset_fields : Bytes → Bytes → Option ℕ
offset_fields seconds nanoseconds = elim (parse_int seconds) [
  | none ↦ none
  | some s ↦ elim (parse_int nanoseconds) [ none ↦ none | some n ↦ boottime_offset s n ]
]

-- The fields of the first line for boottime decide.
unfoldable pub find_boottime : List Bytes → Option ℕ
find_boottime [] = none
find_boottime (line ∷ lines) = elim (fields line) [
  | a ∷ b ∷ c ∷ [] ↦ if bytes_beq a boottime then offset_fields b c else find_boottime lines
  | _ ↦ find_boottime lines
]

unfoldable pub parse_boottime_offset : Bytes → Option ℕ
parse_boottime_offset bytes = find_boottime (lines_after [] bytes)

-- The pairs of the auxiliary vector, on fuel; a word is 4 or 8 bytes.
unfoldable pub find_clock_ticks : ByteOrder → ℕ → ℕ → Bytes → Option ℕ
find_clock_ticks order size zero auxv = none
find_clock_ticks order size (suc fuel) auxv =
    let tag = native_uint order (take size auxv) in
    let value = native_uint order (take size (drop size auxv)) in
    let rest = find_clock_ticks order size fuel (drop (size + size) auxv) in
    if ltb (length auxv) (size + size)
    then none
    else if nat_beq tag 0
    then none
    else if nat_beq tag 17
    then (if nat_beq value 0 then none else some value)
    else rest

-- Each round takes a byte at least, so as many rounds as bytes are enough.
unfoldable pub parse_clock_ticks : ByteOrder → Bytes → ℕ → Option ℕ
parse_clock_ticks order auxv size =
    if not (nat_beq size 4) && not (nat_beq size 8)
    then none
    else find_clock_ticks order size (suc (length auxv)) auxv

-- loadIdentityConversion: what the two files hold, if they can be read.
unfoldable pub load_identity_conversion :
    ByteOrder → Option Bytes → Option Bytes → ℕ → Option (ℕ × ℕ)
load_identity_conversion order none auxv size = none
load_identity_conversion order (some offsets) auxv size = elim (parse_boottime_offset offsets) [
  | none ↦ none
  | some offset ↦ elim auxv [
    | none ↦ none
    | some bytes ↦ elim (parse_clock_ticks order bytes size) [
      | none ↦ none
      | some ticks ↦
          if nat_beq ticks 0 || not (nat_beq (nanoseconds_per_second % ticks) 0)
          then none
          else some (offset, ticks)
    ]
  ]
]

-- procStartTimeTicks; the offset is a bit pattern. The code writes the magnitude of a negative one as
-- -(offset + 1) + 1.
unfoldable pub proc_start_time_ticks : ℕ → ℕ → ℕ → Option ℕ
proc_start_time_ticks start offset ticks =
    if nat_beq ticks 0 || not (nat_beq (nanoseconds_per_second % ticks) 0)
    then none
    else if is_negative offset
    then (if ltb start (word - offset)
        then none
        else some ((start - (word - offset)) / (nanoseconds_per_second / ticks)))
    else (if ltb (word - 1 - offset) start
        then none
        else some ((start + offset) / (nanoseconds_per_second / ticks)))

-- The offset that a bit pattern stands for moves the start time, which has to stay a 64-bit word.
pub record Moves (start offset moved : ℕ) : Type 0 where
  pub forward : offset < sign_bit → moved ≡ start + offset
  pub backward : sign_bit ≤ offset → moved + (word - offset) ≡ start
  pub fits : moved < word

usable_rate :
    (ticks : ℕ)
    → 0 < ticks
    → nanoseconds_per_second % ticks ≡ 0
    → (nat_beq ticks 0 || not (nat_beq (nanoseconds_per_second % ticks) 0)) ≡ false
usable_rate ticks positive divides = rw divides (ground (arith, positive))

moved_ticks :
    (start offset ticks r : ℕ)
    → start < word
    → offset < word
    → 0 < ticks
    → nanoseconds_per_second % ticks ≡ 0
    → (proc_start_time_ticks start offset ticks ≡ some r)
      ↔ ((moved : ℕ) × Moves start offset moved × (r ≡ moved / (nanoseconds_per_second / ticks)))
unfolding proc_start_time_ticks
moved_ticks start offset ticks r hs ho positive divides =
    rw (usable_rate ticks positive divides) (elim (Bool-cases (is_negative offset)) [
      | inl back ↦ rw back (elim (Bool-cases (ltb start (word - offset))) [
        | inl early ↦ rw early (
          λ e. absurd (ground (arith, e)),
          λ (moved, m, e). absurd (ground (arith, back, early, m.backward)),
        )
        | inr late ↦ rw late (
          λ e. (
            start - (word - offset),
            record {
              forward = λ h. absurd (ground (arith, back, h));
              backward = λ h. ground (arith, late);
              fits = ground (arith, hs);
            },
            ground (arith, e),
          ),
          λ (moved, m, e).
              let same : moved ≡ start - (word - offset) =
                ground (arith, m.backward (ground (arith, back))) in
              ap some (ap (λ n. n / (nanoseconds_per_second / ticks)) (sym same) ∙ sym e),
        )
      ])
      | inr forth ↦ rw forth (elim (Bool-cases (ltb (word - 1 - offset) start)) [
        | inl late ↦ rw late (
          λ e. absurd (ground (arith, e)),
          λ (moved, m, e). absurd (ground (arith, forth, late, m.fits, m.forward)),
        )
        | inr early ↦ rw early (
          λ e. (
            start + offset,
            record {
              forward = λ h. refl;
              backward = λ h. absurd (ground (arith, forth, h));
              fits = ground (arith, early);
            },
            ground (arith, e),
          ),
          λ (moved, m, e).
              let same : moved ≡ start + offset = m.forward (ground (arith, forth)) in
              ap some (ap (λ n. n / (nanoseconds_per_second / ticks)) (sym same) ∙ sym e),
        )
      ])
    ])

rate_is_usable :
    (start offset ticks r : ℕ)
    → proc_start_time_ticks start offset ticks ≡ some r
    → (0 < ticks) × (nanoseconds_per_second % ticks ≡ 0)
unfolding proc_start_time_ticks
rate_is_usable start offset ticks r e =
    elim (Bool-cases (nat_beq ticks 0 || not (nat_beq (nanoseconds_per_second % ticks) 0))) [
      | inl unusable ↦ absurd (ground (arith, rw unusable at e))
      | inr usable ↦ (ground (arith, usable), ground (arith, usable))
    ]

-- With a 64-bit start time and an int64 offset, the ticks are there exactly if the rate is positive
-- and divides a second and the start time moved by the offset is a 64-bit word, and they are the
-- whole ticks in it.
pub proc_start_time_ticks-Moves :
    (start offset ticks r : ℕ)
    → start < word
    → offset < word
    → (proc_start_time_ticks start offset ticks ≡ some r) ↔ (
        (0 < ticks)
        × (nanoseconds_per_second % ticks ≡ 0)
        × ((moved : ℕ) × Moves start offset moved × (r ≡ moved / (nanoseconds_per_second / ticks))))
proc_start_time_ticks-Moves start offset ticks r hs ho = (
  λ e.
      let (positive, divides) = rate_is_usable start offset ticks r e in
      (positive, divides, (moved_ticks start offset ticks r hs ho positive divides).0 e),
  λ (positive, divides, moved). (moved_ticks start offset ticks r hs ho positive divides).1 moved,
)
