-- ===== src/Js/Run.antt =====
-- Steps that change a state and give a result, an error that `?` passes on, or a panic.
use em.Base.{Option, none, some, ◌≡◌, refl}
use em.Base.Outcome.{Outcome, ok, err, panicked}

abbrev pub Run {ℓ κ} : Type ℓ → Type κ → Type (ℓ ⊔ κ)
Run S A = S → Outcome A × S

module _ {ℓ κ μ} {S : Type ℓ} {A : Type κ} {B : Type μ} where
  abbrev pub continue : Outcome A × S → (A → Run S B) → Outcome B × S
  continue (ok a, s) f = f a s
  continue (err, s) f = (err, s)
  continue (panicked, s) f = (panicked, s)

infixl 5 ◌>>=◌
abbrev pub ◌>>=◌ {ℓ κ μ} :
    {S : Type ℓ} {A : Type κ} {B : Type μ} → Run S A → (A → Run S B) → Run S B
(m >>= f) s = continue (m s) f

module _ {ℓ κ} {S : Type ℓ} {A : Type κ} where
  abbrev pub return : A → Run S A
  return a s = (ok a, s)

  -- `ok_or(…)?`, and `unwrap`.
  abbrev pub try : Option A → Run S A
  try none s = (err, s)
  try (some a) s = (ok a, s)

  abbrev pub unwrap : Option A → Run S A
  unwrap none s = (panicked, s)
  unwrap (some a) s = (ok a, s)

abbrev pub modify {ℓ} : {S : Type ℓ} → (S → S) → Run S (Unit {0})
modify f s = (ok tt, f s)

-- What holds of the result and of the state after a run, with a rule for a step and what follows it.
abbrev pub Ends {ℓ κ μ} :
    {S : Type ℓ} {A : Type κ} → (Outcome A → S → Type μ) → Outcome A × S → Type μ
Ends P (r, s) = P r s

module _ {ℓ κ μ ν} {S : Type ℓ} {A : Type κ} {B : Type μ} (P : Outcome B → S → Type ν) where
  pub try-then :
      (o : Option A) (s : S) (f : A → Run S B)
      → P err s
      → ((a : A) → o ≡ some a → Ends P (f a s))
      → Ends P (continue (try o s) f)
  try-then none s f e h = e
  try-then (some a) s f e h = h a refl

  pub unwrap-then :
      (o : Option A) (s : S) (f : A → Run S B)
      → P panicked s
      → ((a : A) → o ≡ some a → Ends P (f a s))
      → Ends P (continue (unwrap o s) f)
  unwrap-then none s f p h = p
  unwrap-then (some a) s f p h = h a refl

  pub Ends-then :
      (Q : Outcome A → S → Type ν) (r : Outcome A × S) (f : A → Run S B)
      → Ends Q r
      → ((s : S) → Q err s → P err s)
      → ((s : S) → Q panicked s → P panicked s)
      → ((a : A) (s : S) → Q (ok a) s → Ends P (f a s))
      → Ends P (continue r f)
  Ends-then Q (ok a, s) f q e p h = h a s q
  Ends-then Q (err, s) f q e p h = e s q
  Ends-then Q (panicked, s) f q e p h = p s q
