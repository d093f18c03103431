-- ===== src/Arweave/Gateway/Yields.antt =====
-- What a fetched result satisfies, if there is one, with one rule for each way to build it.
use em.Base.{◌≡◌}
use mathlib.Core.Path.{subst}
use em.Arweave.Gateway.{Fetched, ok, err, panicked, timeout, unwrap, ◌>>=◌}

abbrev pub Yields {ℓ κ} : {A : Type ℓ} → (A → Type κ) → Fetched A → Type κ
Yields P (ok a) = P a
Yields P err = Unit
Yields P panicked = Unit
Yields P timeout = Unit

module _ {ℓ κ μ} {A : Type ℓ} {B : Type κ} (P : B → Type μ) where
  pub Yields-bind :
      (r : Fetched A) (f : A → Fetched B) → ((a : A) → Yields P (f a)) → Yields P (r >>= f)
  Yields-bind (ok a) f h = h a
  Yields-bind err f h = tt
  Yields-bind panicked f h = tt
  Yields-bind timeout f h = tt

  pub Yields-then :
      (Q : A → Type μ) (r : Fetched A) (f : A → Fetched B)
      → Yields Q r
      → ((a : A) → Q a → Yields P (f a))
      → Yields P (r >>= f)
  Yields-then Q (ok a) f k h = h a k
  Yields-then Q err f k h = tt
  Yields-then Q panicked f k h = tt
  Yields-then Q timeout f k h = tt

module _ {ℓ κ} {A : Type ℓ} (P : A → Type κ) where
  pub Yields-unwrap : (r : Fetched A) → Yields P r → Yields P (unwrap r)
  Yields-unwrap (ok a) h = h
  Yields-unwrap err h = tt
  Yields-unwrap panicked h = tt
  Yields-unwrap timeout h = tt

  pub Yields-any : (r : Fetched A) → ((a : A) → P a) → Yields P r
  Yields-any (ok a) h = h a
  Yields-any err h = tt
  Yields-any panicked h = tt
  Yields-any timeout h = tt

  pub Yields-ok : (r : Fetched A) {a : A} → Yields P r → r ≡ ok a → P a
  Yields-ok r h e = subst (Yields P) e h

module _ {ℓ κ μ} {A : Type ℓ} (P : A → Type κ) (Q : A → Type μ) where
  pub Yields-map : (r : Fetched A) → ((a : A) → P a → Q a) → Yields P r → Yields Q r
  Yields-map (ok a) f h = f a h
  Yields-map err f h = tt
  Yields-map panicked f h = tt
  Yields-map timeout f h = tt
