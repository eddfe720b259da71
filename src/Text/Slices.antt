-- ===== src/Text/Slices.antt =====
-- Where a byte is found, and the slices around it.
use tsastat.Prelude.{
  ℕ, zero, suc, ◌+◌, ◌-◌, ◌≤◌, ◌≡◌, refl, ap, subst, true, false, none, some, List, [], ◌∷◌, ◌++◌,
  arith, nat_beq, All,
}
use tsastat.Text.{Bytes, length, take, drop, get_elem?, index_byte, last_index_byte}

module _ {ℓ} {A : Type ℓ} where
  pub take-length : (xs ys : List A) → take (length xs) (xs ++ ys) ≡ xs
  take-length [] ys = refl
  take-length (x ∷ xs) ys = ap (λ zs. x ∷ zs) (take-length xs ys)

  pub drop-length : (xs ys : List A) → drop (length xs) (xs ++ ys) ≡ ys
  drop-length [] ys = refl
  drop-length (x ∷ xs) ys = drop-length xs ys

  pub drop-suc-length :
      (xs : List A) (y : A) (ys : List A) → drop (suc (length xs)) (xs ++ (y ∷ ys)) ≡ ys
  drop-suc-length [] y ys = refl
  drop-suc-length (x ∷ xs) y ys = drop-suc-length xs y ys

  pub get_elem?-length :
      (xs : List A) (y : A) (ys : List A) → get_elem? (xs ++ (y ∷ ys)) (length xs) ≡ some y
  get_elem?-length [] y ys = refl
  get_elem?-length (x ∷ xs) y ys = get_elem?-length xs y ys

-- The byte `c` does not occur.
abbrev pub IsFree : ℕ → Bytes → Type 0
IsFree c bs = All (λ b. nat_beq b c ≡ false) bs

pub index_byte-first :
    (c : ℕ) (xs ys : Bytes) → IsFree c xs → index_byte c (xs ++ (c ∷ ys)) ≡ some (length xs)
unfolding index_byte
index_byte-first c [] ys free = ground arith
index_byte-first c (x ∷ xs) ys free = rw (free.0, index_byte-first c xs ys free.1) refl

last_index_byte-free : (c : ℕ) (xs : Bytes) → IsFree c xs → last_index_byte c xs ≡ none
unfolding last_index_byte
last_index_byte-free c [] free = refl
last_index_byte-free c (x ∷ xs) free = rw (last_index_byte-free c xs free.1, free.0) refl

pub last_index_byte-last :
    (c : ℕ) (xs ys : Bytes) → IsFree c ys → last_index_byte c (xs ++ (c ∷ ys)) ≡ some (length xs)
unfolding last_index_byte
last_index_byte-last c [] ys free =
    let here : nat_beq c c ≡ true = ground arith in rw (last_index_byte-free c ys free, here) refl
last_index_byte-last c (x ∷ xs) ys free = rw (last_index_byte-last c xs ys free) refl

pub length-append_least : {A : Type 0} (xs ys : List A) → length xs ≤ length (xs ++ ys)
length-append_least [] ys = omega arith
length-append_least (x ∷ xs) ys = omega (arith, length-append_least xs ys)

pub length-append : (xs ys : Bytes) → length (xs ++ ys) ≡ length xs + length ys
length-append [] ys = omega arith
length-append (x ∷ xs) ys = omega (arith, length-append xs ys)

pub length-drop : (n : ℕ) (xs : Bytes) → length (drop n xs) ≡ length xs - n
length-drop zero xs = omega arith
length-drop (suc n) [] = omega arith
length-drop (suc n) (x ∷ xs) = omega (arith, length-drop n xs)

-- The slices of bytes of which the first are known.
pub take_front : (n : ℕ) (xs ys : Bytes) → length xs ≡ n → take n (xs ++ ys) ≡ xs
take_front n xs ys e = subst (λ m. take m (xs ++ ys) ≡ xs) e (take-length xs ys)

pub drop_front : (n : ℕ) (xs ys : Bytes) → length xs ≡ n → drop n (xs ++ ys) ≡ ys
drop_front n xs ys e = subst (λ m. drop m (xs ++ ys) ≡ ys) e (drop-length xs ys)
