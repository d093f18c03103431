-- ===== src/Evm/Ops/Compare.antt =====
-- The arms Lt to IsZero of `execute`.
pub mod Signed
use em.Base.{ℕ, Bool, true, false, ltb, ◌==◌, if◌then◌else◌}
use em.Evm.Primitives.{Primitives}
use em.Evm.Machine.{Action, ◌>>=◌, unwrap, push, pop}
use em.Evm.Ops.Arithmetic.{to_signed}

-- `if test { U256::one() } else { U256::zero() }`
abbrev pub flag : Bool → ℕ
flag test = if test then 1 else 0

unfoldable pub exec_lt : Action (Unit {0})
exec_lt = do lhs ← pop; rhs ← pop; push (flag (ltb lhs rhs))

unfoldable pub exec_gt : Action (Unit {0})
exec_gt = do lhs ← pop; rhs ← pop; push (flag (ltb rhs lhs))

unfoldable pub exec_eq : Action (Unit {0})
exec_eq = do lhs ← pop; rhs ← pop; push (flag (lhs == rhs))

unfoldable pub exec_is_zero : Action (Unit {0})
exec_is_zero = do val ← pop; push (flag (val == 0))

-- The `match` on the two signs, for SLt and for SGt, over absolute values.
abbrev pub s_lt_of : Bool → Bool → ℕ → ℕ → Bool
s_lt_of false false lhs rhs = ltb lhs rhs
s_lt_of true true lhs rhs = ltb rhs lhs
s_lt_of true false lhs rhs = true
s_lt_of false true lhs rhs = false

abbrev pub s_gt_of : Bool → Bool → ℕ → ℕ → Bool
s_gt_of false false lhs rhs = ltb rhs lhs
s_gt_of true true lhs rhs = ltb lhs rhs
s_gt_of true false lhs rhs = false
s_gt_of false true lhs rhs = true

module _ ⦃p : Primitives⦄ where
  -- The two arms differ in the test alone.
  unfoldable pub exec_signed : (Bool → Bool → ℕ → ℕ → Bool) → Action (Unit {0})
  exec_signed test = do
    top ← pop
    l_sign ← unwrap (p.bit top 255)
    lhs ← to_signed top
    second ← pop
    r_sign ← unwrap (p.bit second 255)
    rhs ← to_signed second
    push (flag (test l_sign r_sign lhs rhs))

  unfoldable pub exec_s_lt : Action (Unit {0})
  exec_s_lt = exec_signed s_lt_of

  unfoldable pub exec_s_gt : Action (Unit {0})
  exec_s_gt = exec_signed s_gt_of
