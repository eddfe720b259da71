-- ===== src/Prelude/Sorting.antt =====
-- sort.Slice and sort.SliceStable, as a stable insertion sort by a strict order.
use mathlib.Core.Path.{◌≡◌}
use mathlib.Core.Logic.{inl, inr}
use mathlib.Core.Bool.{Bool, true, false}
use mathlib.Core.List.{List, [], ◌∷◌, ◌++◌, Perm}
use mathlib.Core.List.Perm
use tsastat.Prelude.Tests.{if◌then◌else◌, Bool-cases}

module _ {ℓ} {A : Type ℓ} where
  -- In front of the first element that is not less, so an equal element is passed by none.
  unfoldable pub insert_sorted : (A → A → Bool) → A → List A → List A
  insert_sorted less x [] = x ∷ []
  insert_sorted less x (y ∷ ys) = if less y x then y ∷ insert_sorted less x ys else x ∷ y ∷ ys

  unfoldable pub sort_slice : (A → A → Bool) → List A → List A
  sort_slice less [] = []
  sort_slice less (x ∷ xs) = insert_sorted less x (sort_slice less xs)

  insert_sorted-perm :
      (less : A → A → Bool) (x : A) (xs : List A) → Perm (x ∷ xs) (insert_sorted less x xs)
  unfolding insert_sorted
  insert_sorted-perm less x [] = Perm.refl (x ∷ [])
  insert_sorted-perm less x (y ∷ ys) = elim (Bool-cases (less y x)) [
    | inl further ↦
        rw (further, insert_sorted)
          (Perm.trans (Perm.swap y x ys) (Perm.cons y (insert_sorted-perm less x ys)))
    | inr here ↦ rw (here, insert_sorted) (Perm.refl (x ∷ y ∷ ys))
  ]

  pub sort_slice-perm : (less : A → A → Bool) (xs : List A) → Perm xs (sort_slice less xs)
  unfolding sort_slice
  sort_slice-perm less [] = Perm.refl []
  sort_slice-perm less (x ∷ xs) =
      Perm.trans (Perm.cons x (sort_slice-perm less xs))
        (insert_sorted-perm less x (sort_slice less xs))

  -- No element is less than one that stands before it.
  abbrev pub NoneBelow : (A → A → Bool) → A → List A → Type 0
  NoneBelow less x [] = Unit
  NoneBelow less x (y ∷ ys) = (less y x ≡ false) × NoneBelow less x ys

  abbrev pub IsSorted : (A → A → Bool) → List A → Type 0
  IsSorted less [] = Unit
  IsSorted less (x ∷ xs) = NoneBelow less x xs × IsSorted less xs

  -- What a sort asks of its order: it is asymmetric, and what is not less is transitive.
  pub record IsOrder (less : A → A → Bool) : Type ℓ where
    pub asymm : (x y : A) → less x y ≡ true → less y x ≡ false
    pub trans : (x y z : A) → less y x ≡ false → less z y ≡ false → less z x ≡ false

  module _ (less : A → A → Bool) (order : IsOrder less) where
    NoneBelow-trans :
        (x y : A) (zs : List A) → less y x ≡ false → NoneBelow less y zs → NoneBelow less x zs
    NoneBelow-trans x y [] h k = tt
    NoneBelow-trans x y (z ∷ zs) h k = (order.trans x y z h k.0, NoneBelow-trans x y zs h k.1)

    NoneBelow-insert_sorted :
        (x y : A) (zs : List A)
        → less x y ≡ false
        → NoneBelow less y zs
        → NoneBelow less y (insert_sorted less x zs)
    unfolding insert_sorted
    NoneBelow-insert_sorted x y [] h k = (h, tt)
    NoneBelow-insert_sorted x y (z ∷ zs) h k = elim (Bool-cases (less z x)) [
      | inl further ↦ rw (further, insert_sorted) (k.0, NoneBelow-insert_sorted x y zs h k.1)
      | inr here ↦ rw (here, insert_sorted) (h, k)
    ]

    insert_sorted-IsSorted :
        (x : A) (xs : List A) → IsSorted less xs → IsSorted less (insert_sorted less x xs)
    unfolding insert_sorted
    insert_sorted-IsSorted x [] s = (tt, tt)
    insert_sorted-IsSorted x (y ∷ ys) s = elim (Bool-cases (less y x)) [
      | inl further ↦
          rw (further, insert_sorted)
            (
              NoneBelow-insert_sorted x y ys (order.asymm y x further) s.0,
              insert_sorted-IsSorted x ys s.1,
            )
      | inr here ↦ rw (here, insert_sorted) ((here, NoneBelow-trans x y ys here s.0), s)
    ]

    pub sort_slice-IsSorted : (xs : List A) → IsSorted less (sort_slice less xs)
    unfolding sort_slice
    sort_slice-IsSorted [] = tt
    sort_slice-IsSorted (x ∷ xs) =
        insert_sorted-IsSorted x (sort_slice less xs) (sort_slice-IsSorted xs)

-- Every element satisfies `P`.
abbrev pub All {ℓ κ} : {A : Type ℓ} → (A → Type κ) → List A → Type κ
All P [] = Unit
All P (x ∷ xs) = P x × All P xs

module _ {ℓ κ} {A : Type ℓ} (P : A → Type κ) where
  pub All-append : (xs ys : List A) → All P xs → All P ys → All P (xs ++ ys)
  All-append [] ys hx hy = hy
  All-append (x ∷ xs) ys hx hy = (hx.0, All-append xs ys hx.1 hy)

module _ {ℓ κ} {A : Type ℓ} (P : A → Type κ) (less : A → A → Bool) where
  All-insert_sorted : (x : A) (xs : List A) → P x → All P xs → All P (insert_sorted less x xs)
  unfolding insert_sorted
  All-insert_sorted x [] p h = (p, tt)
  All-insert_sorted x (y ∷ ys) p h = elim (Bool-cases (less y x)) [
    | inl further ↦ rw (further, insert_sorted) (h.0, All-insert_sorted x ys p h.1)
    | inr here ↦ rw (here, insert_sorted) (p, h)
  ]

  pub All-sort_slice : (xs : List A) → All P xs → All P (sort_slice less xs)
  unfolding sort_slice
  All-sort_slice [] h = tt
  All-sort_slice (x ∷ xs) h = All-insert_sorted x (sort_slice less xs) h.0 (All-sort_slice xs h.1)

module _ {ℓ} {A : Type ℓ} where
  -- Every element stands in relation to all that follow it.
  abbrev pub IsInOrder : (A → A → Type 0) → List A → Type 0
  IsInOrder R [] = Unit
  IsInOrder R (x ∷ xs) = All (R x) xs × IsInOrder R xs

  module _ (below : A → A → Bool) (R : A → A → Type 0)
      (says : (x y : A) → below y x ≡ false → R x y) where
    NoneBelow-All : (x : A) (ys : List A) → NoneBelow below x ys → All (R x) ys
    NoneBelow-All x [] h = tt
    NoneBelow-All x (y ∷ ys) h = (says x y h.0, NoneBelow-All x ys h.1)

    -- A list that is sorted by a comparison is ordered by any relation that the comparison tells.
    pub IsSorted-IsInOrder : (xs : List A) → IsSorted below xs → IsInOrder R xs
    IsSorted-IsInOrder [] s = tt
    IsSorted-IsInOrder (x ∷ xs) s = (NoneBelow-All x xs s.0, IsSorted-IsInOrder xs s.1)
