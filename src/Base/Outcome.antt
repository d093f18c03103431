-- ===== src/Base/Outcome.antt =====
-- A result, an error that `?` passes on, or a panic.
use mathlib.Core.Path.{◌≡◌, refl}
use mathlib.Core.Path.{subst}

pub data Outcome {ℓ} (A : Type ℓ) : Type ℓ where
  ok : A → Outcome A
  err panicked : Outcome A

infixl 5 ◌>>=◌
abbrev pub ◌>>=◌ {ℓ κ} : {A : Type ℓ} {B : Type κ} → Outcome A → (A → Outcome B) → Outcome B
ok a >>= f = f a
err >>= f = err
panicked >>= f = panicked

-- What a result satisfies, if there is one, with one rule for each way to build it.
abbrev pub Yields {ℓ κ} : {A : Type ℓ} → (A → Type κ) → Outcome A → Type κ
Yields P (ok a) = P a
Yields P err = Unit
Yields P panicked = Unit

module _ {ℓ κ μ} {A : Type ℓ} {B : Type κ} (P : B → Type μ) where
  pub Yields-bind :
      (r : Outcome A) (f : A → Outcome B)
      → ((a : A) → r ≡ ok a → Yields P (f a))
      → Yields P (r >>= f)
  Yields-bind (ok a) f h = h a refl
  Yields-bind err f h = tt
  Yields-bind panicked f h = tt

  pub Yields-then :
      (Q : A → Type μ) (r : Outcome A) (f : A → Outcome B)
      → Yields Q r
      → ((a : A) → Q a → Yields P (f a))
      → Yields P (r >>= f)
  Yields-then Q (ok a) f k h = h a k
  Yields-then Q err f k h = tt
  Yields-then Q panicked f k h = tt

module _ {ℓ κ} {A : Type ℓ} (P : A → Type κ) where
  pub Yields-ok : (r : Outcome A) {a : A} → Yields P r → r ≡ ok a → P a
  Yields-ok r h e = subst (Yields P) e h
