-- ===== src/Prelude/Partial.antt =====
-- Code that may fail to return: a panic, or a loop that does not end, is `none`. `Returns` is the
-- total specification: the code returns, and its result satisfies the predicate.
use Prim.Native.Nat.{ℕ, ◌/◌, ◌<◌}
use mathlib.Core.Path.{◌≡◌, refl, sym, ap, ◌∙◌, subst}
use mathlib.Core.Bool.{Bool, true, false}
use mathlib.Core.Option.{Option, none, some}
use mathlib.Core.List.{List, [], ◌∷◌}
use native.Mathlib.Omega.{arith}
use tsastat.Prelude.Tests.{nat_beq, if◌then◌else◌}

infixl 5 ◌>>=◌
abbrev pub ◌>>=◌ {ℓ κ} : {A : Type ℓ} {B : Type κ} → Option A → (A → Option B) → Option B
none >>= f = none
some a >>= f = f a

abbrev pub Returns {ℓ κ} : {A : Type ℓ} → Option A → (A → Type κ) → Type (ℓ ⊔ κ)
Returns {A} m P = (a : A) × (m ≡ some a) × P a

module _ {ℓ κ} {A : Type ℓ} {P : A → Type κ} where
  pub Returns-some : (a : A) → P a → Returns (some a) P
  Returns-some a p = (a, refl, p)

  pub Returns-weaken {μ} :
      {Q : A → Type μ} (m : Option A) → ((a : A) → P a → Q a) → Returns m P → Returns m Q
  Returns-weaken m k (a, e, p) = (a, e, k a p)

  pub Returns-bind {μ ν} :
      {B : Type μ} {Q : B → Type ν} (m : Option A) (f : A → Option B)
      → Returns m P
      → ((a : A) → P a → Returns (f a) Q)
      → Returns (m >>= f) Q
  Returns-bind m f (a, e, p) k = rw e (k a p)

  pub Returns-if :
      (b : Bool) (m n : Option A)
      → (b ≡ true → Returns m P)
      → (b ≡ false → Returns n P)
      → Returns (if b then m else n) P
  Returns-if true m n km kn = km refl
  Returns-if false m n km kn = kn refl

-- The result is the only one.
module _ {ℓ κ} {A : Type ℓ} where
  some_injective : {a b : A} → some a ≡ some b → a ≡ b
  some_injective {a} e = ap (λ o. elim o [ none ↦ a | some x ↦ x ]) e

  pub Returns-at : {m : Option A} (a : A) (P : A → Type κ) → m ≡ some a → Returns m P → P a
  Returns-at a P e (b, eb, p) = subst P (some_injective (sym eb ∙ e)) p

-- Integer division panics at a zero divisor.
abbrev pub checked_div : ℕ → ℕ → Option ℕ
checked_div a b = if nat_beq b 0 then none else some (a / b)

pub checked_div-some : (a b : ℕ) → 0 < b → checked_div a b ≡ some (a / b)
checked_div-some a b h = ground arith

-- `for _, x := range xs { s = body x s }`, where the body may fail to return.
unfoldable pub for_each {ℓ κ} :
    {A : Type ℓ} {S : Type κ} → List A → (A → S → Option S) → S → Option S
for_each [] body s = some s
for_each (x ∷ xs) body s = body x s >>= for_each xs body

module _ {ℓ κ μ} {A : Type ℓ} {S : Type κ} (P : S → Type μ) (body : A → S → Option S) where
  -- A loop whose every round returns and keeps `P` returns and keeps `P`.
  pub for_each_keeps :
      (xs : List A)
      → ((x : A) (s : S) → P s → Returns (body x s) P)
      → (s : S) → P s
      → Returns (for_each xs body s) P
  unfolding for_each
  for_each_keeps [] keep s h = Returns-some s h
  for_each_keeps (x ∷ xs) keep s h =
      Returns-bind (body x s) (for_each xs body) (keep x s h) (for_each_keeps xs keep)
