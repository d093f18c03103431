-- ===== src/Evm/Machine/Keeps.antt =====
-- Invariants of actions, with one rule for each way to build an action.
use em.Base.{Bool, true, false, Option, none, some, ◌≡◌, refl, if◌then◌else◌}
use em.Evm.Machine.{
  Machine, ExecutionState, Flow, next, stop, panic, exhausted, Action, pure, unwrap, finish, get,
  continue, ◌>>=◌,
}

-- What a flow leaves: a value that satisfies `Q`, and a machine that satisfies `P`, unless there is
-- a panic or the fuel ran out.
abbrev pub Leaves : {A : Type 0} → (Machine → Type 0) → (A → Type 0) → Flow A → Type 0
Leaves P Q (next a m) = Q a × P m
Leaves P Q (stop e m) = P m
Leaves P Q panic = Unit
Leaves P Q exhausted = Unit

pub record Keeps {A : Type 0} (P : Machine → Type 0) (Q : A → Type 0) (act : Action A)
    : Type 0 where
  pub at : (m : Machine) → P m → Leaves P Q (act m)

module _ {P : Machine → Type 0} {A : Type 0} {Q : A → Type 0} where
  pub Keeps-pure : (a : A) → Q a → Keeps P Q (pure a)
  unfolding pure
  Keeps-pure a q = record { at = λ m h. (q, h) }

  pub Keeps-finish : (e : ExecutionState) → Keeps P Q (finish e)
  unfolding finish
  Keeps-finish e = record { at = λ m h. h }

  pub Keeps-unwrap : (o : Option A) → ((a : A) → o ≡ some a → Q a) → Keeps P Q (unwrap o)
  unfolding unwrap
  Keeps-unwrap none q = record { at = λ m h. tt }
  Keeps-unwrap (some a) q = record { at = λ m h. (q a refl, h) }

  pub Keeps-if :
      (b : Bool) {act act' : Action A}
      → (b ≡ true → Keeps P Q act)
      → (b ≡ false → Keeps P Q act')
      → Keeps P Q (if b then act else act')
  Keeps-if true k k' = k refl
  Keeps-if false k k' = k' refl

module _ {P : Machine → Type 0} where
  pub Keeps-unwrap_any : {A : Type 0} (o : Option A) → Keeps P (λ _. Unit {0}) (unwrap o)
  unfolding unwrap
  Keeps-unwrap_any none = record { at = λ m h. tt }
  Keeps-unwrap_any (some a) = record { at = λ m h. (tt, h) }

  pub Keeps-get : Keeps P P get
  unfolding get
  Keeps-get = record { at = λ m h. (h, h) }

module _ {P : Machine → Type 0} {A B : Type 0} {R : A → Type 0} {Q : B → Type 0} where
  Leaves-continue :
      (flow : Flow A) (f : A → Action B)
      → Leaves P R flow
      → ((a : A) → R a → Keeps P Q (f a))
      → Leaves P Q (continue flow f)
  Leaves-continue (next a m) f l k = (k a l.0).at m l.1
  Leaves-continue (stop e m) f l k = l
  Leaves-continue panic f l k = tt
  Leaves-continue exhausted f l k = tt

  pub Keeps-bind :
      {act : Action A} {f : A → Action B}
      → Keeps P R act
      → ((a : A) → R a → Keeps P Q (f a))
      → Keeps P Q (act >>= f)
  unfolding ◌>>=◌
  Keeps-bind {act} {f} h k = record { at = λ m inv. Leaves-continue (act m) f (h.at m inv) k }
