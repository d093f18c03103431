-- ===== src/Base/Attempt.antt =====
-- A run that returns, panics, or is given too little fuel to end.
use mathlib.Core.Option.{Option, none, some}

pub data Attempt {ℓ} (A : Type ℓ) : Type ℓ where
  done : A → Attempt A
  panicked timeout : Attempt A

-- What `unwrap` makes of a value.
abbrev pub unwrap {ℓ} : {A : Type ℓ} → Option A → Attempt A
unwrap none = panicked
unwrap (some a) = done a

infixl 5 ◌>>=◌
abbrev pub ◌>>=◌ {ℓ κ} : {A : Type ℓ} {B : Type κ} → Attempt A → (A → Attempt B) → Attempt B
done a >>= f = f a
panicked >>= f = panicked
timeout >>= f = timeout
