-- ===== src/Text/Fields.antt =====
-- The fields of words with a space before each.
use tsastat.Prelude.{ℕ, ◌≡◌, refl, ap, ◌∙◌, false, List, [], ◌∷◌, ◌++◌, arith, All}
use tsastat.Text.{
  Bytes, is_space, is_empty, fields, fields_after, trim_left, trim_right, trim_space,
}

-- A word: some bytes, none of them white space.
abbrev pub IsWord : Bytes → Type 0
IsWord w = (is_empty w ≡ false) × All (λ b. is_space b ≡ false) w

-- Each word after a space.
unfoldable pub spaced : List Bytes → Bytes
spaced [] = []
spaced (w ∷ ws) = 32 ∷ (w ++ spaced ws)

pub append_assoc : (xs ys zs : Bytes) → (xs ++ ys) ++ zs ≡ xs ++ (ys ++ zs)
append_assoc [] ys zs = refl
append_assoc (x ∷ xs) ys zs = ap (λ rest. x ∷ rest) (append_assoc xs ys zs)

append_nil : (xs : Bytes) → xs ≡ xs ++ []
append_nil [] = refl
append_nil (x ∷ xs) = ap (λ ys. x ∷ ys) (append_nil xs)

-- A byte that is not white space begins a field, or is one more of it.
fields_after_first :
    (b : ℕ) (rest : Bytes)
    → is_space b ≡ false
    → fields_after [] (b ∷ rest) ≡ fields_after (b ∷ []) rest
unfolding fields_after
fields_after_first b rest h = rw (h, fields_after) refl

fields_after_next :
    (c : ℕ) (cs : Bytes) (b : ℕ) (rest : Bytes)
    → is_space b ≡ false
    → fields_after (c ∷ cs) (b ∷ rest) ≡ fields_after ((c ∷ cs) ++ (b ∷ [])) rest
unfolding fields_after
fields_after_next c cs b rest h = rw (h, fields_after) refl

fields_after-word :
    (c : ℕ) (cs w rest : Bytes)
    → All (λ b. is_space b ≡ false) w
    → fields_after (c ∷ cs) (w ++ rest) ≡ fields_after ((c ∷ cs) ++ w) rest
fields_after-word c cs [] rest h = ap (λ xs. fields_after (c ∷ xs) rest) (append_nil cs)
fields_after-word c cs (b ∷ w) rest h =
    fields_after_next c cs b (w ++ rest) h.0
    ∙ fields_after-word c (cs ++ (b ∷ [])) w rest h.1
    ∙ ap (λ xs. fields_after (c ∷ xs) rest) (append_assoc cs (b ∷ []) w)

fields_after-spaced :
    (c : ℕ) (cs : Bytes) (ws : List Bytes)
    → All IsWord ws
    → fields_after (c ∷ cs) (spaced ws) ≡ (c ∷ cs) ∷ ws
unfolding fields_after spaced
fields_after-spaced c cs [] h = refl
fields_after-spaced c cs ([] ∷ ws) h = absurd (ground (arith, h.0.0))
fields_after-spaced c cs ((b ∷ w) ∷ ws) h =
    ap (λ fs. (c ∷ cs) ∷ fs)
      (fields_after_first b (w ++ spaced ws) h.0.1.0
        ∙ fields_after-word b [] w (spaced ws) h.0.1.1
        ∙ fields_after-spaced b w ws h.1)

-- Fields finds the words again.
pub fields-spaced : (ws : List Bytes) → All IsWord ws → fields (spaced ws) ≡ ws
unfolding fields fields_after spaced
fields-spaced [] h = refl
fields-spaced ([] ∷ ws) h = absurd (ground (arith, h.0.0))
fields-spaced ((b ∷ w) ∷ ws) h =
    fields_after_first b (w ++ spaced ws) h.0.1.0
    ∙ fields_after-word b [] w (spaced ws) h.0.1.1
    ∙ fields_after-spaced b w ws h.1

trim_right-word : (w : Bytes) → All (λ b. is_space b ≡ false) w → trim_right (w ++ (32 ∷ [])) ≡ w
unfolding trim_right
trim_right-word [] h = refl
trim_right-word (b ∷ w) h = rw (trim_right-word w h.1, h.0) refl

pub trim_space-word : (w : Bytes) → IsWord w → trim_space (w ++ (32 ∷ [])) ≡ w
unfolding trim_space trim_left
trim_space-word [] h = absurd (ground (arith, h.0))
trim_space-word (b ∷ w) h = rw h.1.0 (trim_right-word (b ∷ w) h.1)
