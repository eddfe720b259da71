-- ===== src/Prelude/Sums.antt =====
-- Totals over the entries of a map, and how an update changes them.
use Prim.Native.Nat.{ℕ, ◌+◌}
use mathlib.Core.Path.{◌≡◌}
use mathlib.Core.Logic.{inl, inr}
use mathlib.Core.Option.{Option, none, some}
use mathlib.Core.List.{[], ◌∷◌}
use native.Mathlib.Omega.{arith}
use tsastat.Prelude.Tests.{Comparable, ◌==◌, Bool-cases}
use tsastat.Prelude.Maps.{Assoc, lookup, upsert}

-- What the entry at a key contributes; an absent entry contributes nothing.
abbrev pub entry_sum {κ} : {V : Type κ} → (V → ℕ) → Option V → ℕ
entry_sum g none = 0
entry_sum g (some v) = g v

module _ {ℓ κ} {K : Type ℓ} {V : Type κ} where
  unfoldable pub sum_by : (K → V → ℕ) → Assoc K V → ℕ
  sum_by g [] = 0
  sum_by g ((k, v) ∷ m) = g k v + sum_by g m

  pub sum_by-upsert :
      ⦃e : Comparable K⦄
      → (g : K → V → ℕ) (k : K) (f : Option V → V) (m : Assoc K V)
      → sum_by g (upsert k f m) + entry_sum (g k) (lookup k m) ≡ sum_by g m + g k (f (lookup k m))
  unfolding sum_by upsert lookup
  sum_by-upsert g k f [] = omega arith
  sum_by-upsert ⦃e⦄ g k f ((j, v) ∷ m) = elim (Bool-cases (j == k)) [
    | inl same ↦ rw (same, upsert, lookup) (rw (← (e.equals_iff j k).0 same) (omega arith))
    | inr other ↦ rw (other, upsert, lookup) (omega (arith, sum_by-upsert g k f m))
  ]
