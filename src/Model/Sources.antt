-- ===== src/Model/Sources.antt =====
-- internal/model/errors.go and backend.go: how a source of snapshots answers, and which sources are in
-- use.
use tsastat.Prelude.{◌≡◌, refl, String, Bool, true, false, List}
use tsastat.Model.Sample.{ThreadSnapshot}

-- The errors that the code tells apart: ProcessNotFoundError, the two of the context package, and
-- every other one.
pub data Failure : Type 0 where
  process_not_found canceled deadline_exceeded other : Failure

-- errors.Is(err, context.Canceled)
abbrev pub is_canceled : Failure → Bool
is_canceled canceled = true
is_canceled _ = false

-- What a Snapshot call returns.
pub data Reply : Type 0 where
  taken : ThreadSnapshot → Reply
  failed : Failure → Reply

pub record BackendSourceStatus : Type 0 where
  pub active : List String
  pub unavailable : List String

-- A value, or an error.
pub data Fallible (A : Type 0) : Type 0 where
  ok : A → Fallible A
  err : Failure → Fallible A

infixl 5 ◌>>=◌
abbrev pub ◌>>=◌ : {A B : Type 0} → Fallible A → (A → Fallible B) → Fallible B
ok a >>= f = f a
err e >>= f = err e

-- A property of the value, if there is one.
abbrev pub Gives {ℓ} : {A : Type 0} → (A → Type ℓ) → Fallible A → Type ℓ
Gives P (ok a) = P a
Gives P (err e) = Unit

pub Gives-bind :
    {A B : Type 0} (P : A → Type 0) (Q : B → Type 0) (m : Fallible A) (f : A → Fallible B)
    → Gives P m
    → ((a : A) → P a → Gives Q (f a))
    → Gives Q (m >>= f)
Gives-bind P Q (ok a) f h k = k a h
Gives-bind P Q (err e) f h k = tt

-- A property of the snapshot, if one was taken.
abbrev pub Takes {ℓ} : (ThreadSnapshot → Type ℓ) → Reply → Type ℓ
Takes P (taken snapshot) = P snapshot
Takes P (failed e) = Unit

pub itself : {A : Type 0} (m : Fallible A) → Gives (λ a. m ≡ ok a) m
itself (ok a) = refl
itself (err e) = tt

pub both :
    {A : Type 0} (P : A → Type 0) (m : Fallible A) → Gives P m → Gives (λ a. (m ≡ ok a) × P a) m
both P (ok a) h = (refl, h)
both P (err e) h = tt
