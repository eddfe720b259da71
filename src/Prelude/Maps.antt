-- ===== src/Prelude/Maps.antt =====
-- Go's maps as association lists in the order of insertion. `upsert` is the get-or-create-then-update
-- of the program's accessors: an absent key is added at the end, a present one changed in place.
use mathlib.Core.Path.{◌≡◌, refl}
use mathlib.Core.Logic.{inl, inr}
use mathlib.Core.Bool.{false}
use mathlib.Core.Option.{Option, none, some}
use mathlib.Core.List.{List, [], ◌∷◌}
use native.Mathlib.Omega.{arith}
use tsastat.Prelude.Tests.{if◌then◌else◌, Comparable, ◌==◌, Bool-cases, nat_eq}

abbrev pub Assoc {ℓ κ} : Type ℓ → Type κ → Type (ℓ ⊔ κ)
Assoc K V = List (K × V)

module _ {ℓ κ} {K : Type ℓ} {V : Type κ} ⦃e : Comparable K⦄ where
  unfoldable pub lookup : K → Assoc K V → Option V
  lookup k [] = none
  lookup k ((j, v) ∷ m) = if j == k then some v else lookup k m

  unfoldable pub upsert : K → (Option V → V) → Assoc K V → Assoc K V
  upsert k f [] = (k, f none) ∷ []
  upsert k f ((j, v) ∷ m) = if j == k then (j, f (some v)) ∷ m else (j, v) ∷ upsert k f m

  -- m[k] = v
  unfoldable pub insert : K → V → Assoc K V → Assoc K V
  insert k v = upsert k (λ _. v)

  -- delete(m, k)
  unfoldable pub delete : K → Assoc K V → Assoc K V
  delete k [] = []
  delete k ((j, v) ∷ m) = let rest = delete k m in if j == k then rest else (j, v) ∷ rest

  pub lookup-upsert :
      (k j : K) (f : Option V → V) (m : Assoc K V)
      → lookup j (upsert k f m) ≡ (if k == j then some (f (lookup k m)) else lookup j m)
  unfolding lookup upsert
  lookup-upsert k j f [] = refl
  lookup-upsert k j f ((i, v) ∷ m) =
      ground (arith, e.equals_iff k j, e.equals_iff i k, e.equals_iff i j, lookup-upsert k j f m)

  pub lookup-delete :
      (k j : K) (m : Assoc K V) → lookup j (delete k m) ≡ (if k == j then none else lookup j m)
  unfolding lookup delete
  lookup-delete k j [] = ground arith
  lookup-delete k j ((i, v) ∷ m) =
      ground (arith, e.equals_iff k j, e.equals_iff i k, e.equals_iff i j, lookup-delete k j m)

-- Every entry satisfies `P`.
abbrev pub AllEntries {ℓ κ μ} : {K : Type ℓ} {V : Type κ} → (K → V → Type μ) → Assoc K V → Type μ
AllEntries P [] = Unit
AllEntries P ((k, v) ∷ m) = P k v × AllEntries P m

module _ {ℓ κ μ} {K : Type ℓ} {V : Type κ} ⦃e : Comparable K⦄ (P : K → V → Type μ) where
  pub AllEntries-upsert :
      (k : K) (f : Option V → V) (m : Assoc K V)
      → P k (f none)
      → ((v : V) → P k v → P k (f (some v)))
      → AllEntries P m
      → AllEntries P (upsert k f m)
  unfolding upsert
  AllEntries-upsert k f [] new old h = (new, tt)
  AllEntries-upsert k f ((j, v) ∷ m) new old h = elim (Bool-cases (j == k)) [
    | inl same ↦
        rw (same, upsert)
          (rw (← (e.equals_iff j k).0 same) at (old v (rw (← (e.equals_iff j k).0 same) h.0)), h.1)
    | inr other ↦ rw (other, upsert) (h.0, AllEntries-upsert k f m new old h.1)
  ]

  pub AllEntries-delete : (k : K) (m : Assoc K V) → AllEntries P m → AllEntries P (delete k m)
  unfolding delete
  AllEntries-delete k [] h = tt
  AllEntries-delete k ((j, v) ∷ m) h = elim (Bool-cases (j == k)) [
    | inl same ↦ rw (same, delete) (AllEntries-delete k m h.1)
    | inr other ↦ rw (other, delete) (h.0, AllEntries-delete k m h.1)
  ]

  pub AllEntries-lookup :
      (k : K) (m : Assoc K V) (v : V) → AllEntries P m → lookup k m ≡ some v → P k v
  unfolding lookup
  AllEntries-lookup k [] v h found = cc
  AllEntries-lookup k ((j, w) ∷ m) v h found = elim (Bool-cases (j == k)) [
    | inl same ↦
        let shown = rw (same, lookup) at found in
        let value : w ≡ v = cc shown in rw (← (e.equals_iff j k).0 same, ← value) h.0
    | inr other ↦ AllEntries-lookup k m v h.1 (rw (other, lookup) at found)
  ]

-- Deleting a key leaves the entries of the other keys.
pub AllEntries-delete_ne {ℓ κ μ ν} :
    {K : Type ℓ} {V : Type κ} ⦃e : Comparable K⦄
    → (P : K → V → Type μ) (Q : K → V → Type ν) (k : K)
    → ((j : K) (v : V) → (j == k) ≡ false → P j v → Q j v)
    → (m : Assoc K V) → AllEntries P m
    → AllEntries Q (delete k m)
unfolding delete
AllEntries-delete_ne P Q k imp [] h = tt
AllEntries-delete_ne P Q k imp ((j, v) ∷ m) h = elim (Bool-cases (j == k)) [
  | inl same ↦ rw (same, delete) (AllEntries-delete_ne P Q k imp m h.1)
  | inr other ↦ rw (other, delete) (imp j v other h.0, AllEntries-delete_ne P Q k imp m h.1)
]
