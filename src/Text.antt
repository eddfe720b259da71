-- ===== src/Text.antt =====
-- Go's strings, as lists of bytes, and what the program uses of the packages strings and strconv.
-- White space is that of ASCII.
pub mod Slices
pub mod Fields
pub mod Numbers
pub mod Binary
pub mod Layout
use tsastat.Prelude.{
  ℕ, zero, suc, ◌+◌, ◌-◌, ◌*◌, Bool, true, false, ◌&&◌, ◌||◌, Option, none, some, List, [], ◌∷◌,
  ◌++◌, ltb, leb, nat_beq, if◌then◌else◌, word, sign_bit,
}

abbrev pub Bytes : Type 0
Bytes = List ℕ

abbrev pub length {ℓ} : {A : Type ℓ} → List A → ℕ
length [] = 0
length (x ∷ xs) = suc (length xs)

-- xs[:n]
abbrev pub take {ℓ} : {A : Type ℓ} → ℕ → List A → List A
take zero xs = []
take (suc n) [] = []
take (suc n) (x ∷ xs) = x ∷ take n xs

-- xs[n:]
abbrev pub drop {ℓ} : {A : Type ℓ} → ℕ → List A → List A
drop zero xs = xs
drop (suc n) [] = []
drop (suc n) (x ∷ xs) = drop n xs

-- xs[n]
abbrev pub get_elem? {ℓ} : {A : Type ℓ} → List A → ℕ → Option A
get_elem? [] n = none
get_elem? (x ∷ xs) zero = some x
get_elem? (x ∷ xs) (suc n) = get_elem? xs n

-- strings.IndexByte; `none` is -1.
unfoldable pub index_byte : ℕ → Bytes → Option ℕ
index_byte c [] = none
index_byte c (b ∷ bs) =
    if nat_beq b c then some 0 else elim (index_byte c bs) [ none ↦ none | some i ↦ some (suc i) ]

-- strings.LastIndexByte
unfoldable pub last_index_byte : ℕ → Bytes → Option ℕ
last_index_byte c [] = none
last_index_byte c (b ∷ bs) = elim (last_index_byte c bs) [
  | some i ↦ some (suc i)
  | none ↦ if nat_beq b c then some 0 else none
]

abbrev pub is_space : ℕ → Bool
is_space b = nat_beq b 32 || (leb 9 b && leb b 13)

abbrev pub is_empty {ℓ} : {A : Type ℓ} → List A → Bool
is_empty [] = true
is_empty (x ∷ xs) = false

unfoldable pub trim_left : Bytes → Bytes
trim_left [] = []
trim_left (b ∷ bs) = if is_space b then trim_left bs else b ∷ bs

unfoldable pub trim_right : Bytes → Bytes
trim_right [] = []
trim_right (b ∷ bs) =
    let rest = trim_right bs in if is_space b && is_empty rest then [] else b ∷ rest

-- strings.TrimSpace
unfoldable pub trim_space : Bytes → Bytes
trim_space s = trim_right (trim_left s)

-- strings.Fields, after the bytes of a field that has begun.
unfoldable pub fields_after : Bytes → Bytes → List Bytes
fields_after [] [] = []
fields_after (c ∷ cs) [] = (c ∷ cs) ∷ []
fields_after [] (b ∷ bs) = elim (is_space b) [
  | true ↦ fields_after [] bs
  | false ↦ fields_after (b ∷ []) bs
]
fields_after (c ∷ cs) (b ∷ bs) = elim (is_space b) [
  | true ↦ (c ∷ cs) ∷ fields_after [] bs
  | false ↦ fields_after ((c ∷ cs) ++ (b ∷ [])) bs
]

unfoldable pub fields : Bytes → List Bytes
fields s = fields_after [] s

abbrev pub is_digit : ℕ → Bool
is_digit b = leb 48 b && leb b 57

-- The value of more decimal digits, after `n`.
unfoldable pub digits : ℕ → Bytes → Option ℕ
digits n [] = some n
digits n (b ∷ bs) = let rest = digits (n * 10 + (b - 48)) bs in if is_digit b then rest else none

-- A number that is below a limit.
abbrev pub below : ℕ → ℕ → Option ℕ
below limit n = if ltb n limit then some n else none

unfoldable pub unsigned : ℕ → Bytes → Option ℕ
unsigned limit [] = none
unsigned limit (b ∷ bs) = elim (digits 0 (b ∷ bs)) [ none ↦ none | some n ↦ below limit n ]

-- strconv.ParseUint(s, 10, 64); `none` is an error.
unfoldable pub parse_uint : Bytes → Option ℕ
parse_uint s = unsigned word s

-- A negative int64, as a bit pattern.
abbrev pub negated : ℕ → ℕ
negated n = if nat_beq n 0 then 0 else word - n

-- strconv.Atoi and strconv.ParseInt(s, 10, 64), with a bit pattern for the int64.
unfoldable pub parse_int : Bytes → Option ℕ
parse_int [] = none
parse_int (b ∷ bs) =
    if nat_beq b b'-'
    then elim (unsigned (sign_bit + 1) bs) [ none ↦ none | some n ↦ some (negated n) ]
    else if nat_beq b b'+'
    then unsigned sign_bit bs
    else unsigned sign_bit (b ∷ bs)
