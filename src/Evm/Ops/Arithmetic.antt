-- ===== src/Evm/Ops/Arithmetic.antt =====
-- The arms Add to SignExtend of `execute`.
pub mod Signed
use em.Base.{ℕ, ◌+◌, ◌*◌, Option, none, some, ltb, ◌==◌, if◌then◌else◌, ◌%◌, ◌&&◌}
use mathlib.Core.Bool.{xor}
use em.Evm.Primitives.{Primitives, usize_mod}
use em.Evm.Machine.{Action, ◌>>=◌, pure, unwrap, finish, push, pop, ExecutionState, AbortError}

module _ ⦃p : Primitives⦄ where
  -- The function `to_signed`: the absolute value of a two's complement number.
  unfoldable pub to_signed : ℕ → Action ℕ
  to_signed value = do
    negative ← unwrap (p.bit value 255)
    pure (if negative then (p.overflowing_add (p.complement value) 1).0 else value)

  unfoldable pub exec_add : Action (Unit {0})
  exec_add = do lhs ← pop; rhs ← pop; res ← unwrap (p.add lhs rhs); push res

  unfoldable pub exec_sub : Action (Unit {0})
  exec_sub = do lhs ← pop; rhs ← pop; res ← unwrap (p.sub lhs rhs); push res

  unfoldable pub exec_mul : Action (Unit {0})
  exec_mul = do lhs ← pop; rhs ← pop; res ← unwrap (p.mul lhs rhs); push res

  -- The early return for a divisor of zero.
  unfoldable pub exec_div : Action (Unit {0})
  exec_div = do
    lhs ← pop
    rhs ← pop
    if rhs == 0
        then finish (ExecutionState.abort AbortError.div_zero)
        else (do res ← unwrap (p.div lhs rhs); push res)

  -- The quotient that SDiv computes from two absolute values.
  unfoldable pub signed_quotient : ℕ → ℕ → Action ℕ
  unfolding xor
  signed_quotient dividend divisor = do
    min ← unwrap (p.sub (p.shl 1 255) 1)
    if dividend == min && divisor == p.complement 1 then pure min else (do
      left ← unwrap (p.bit dividend 255)
      right ← unwrap (p.bit divisor 255)
      quotient ← unwrap (p.div dividend divisor)
      pure (if xor left right then p.complement quotient else quotient))

  unfoldable pub exec_s_div : Action (Unit {0})
  exec_s_div = do
    top ← pop
    dividend ← to_signed top
    second ← pop
    divisor ← to_signed second
    quotient ← if divisor == 0 then pure 0 else signed_quotient dividend divisor
    push quotient

  unfoldable pub exec_modulo : Action (Unit {0})
  exec_modulo = do
    lhs ← pop
    rhs ← pop
    push (elim (p.checked_rem lhs rhs) [ some res ↦ res | none ↦ 0 ])

  unfoldable pub exec_s_mod : Action (Unit {0})
  exec_s_mod = do
    lhs ← pop
    signed_lhs ← to_signed lhs
    sign ← unwrap (p.bit lhs 255)
    second ← pop
    rhs ← to_signed second
    if rhs == 0 then push 0 else (do
      value ← unwrap (p.rem signed_lhs rhs)
      push (if sign then (p.overflowing_add (p.complement value) 1).0 else value))

  -- `match a.checked_op(b) { Some(res) => res % c, None => 0 }`, where `%` panics for zero.
  unfoldable pub reduced : Option ℕ → ℕ → Action ℕ
  reduced none c = pure 0
  reduced (some res) c = unwrap (p.rem res c)

  unfoldable pub exec_add_mod : Action (Unit {0})
  exec_add_mod = do a ← pop; b ← pop; c ← pop; res ← reduced (p.checked_add a b) c; push res

  unfoldable pub exec_mul_mod : Action (Unit {0})
  exec_mul_mod = do a ← pop; b ← pop; c ← pop; res ← reduced (p.checked_mul a b) c; push res

  unfoldable pub exec_exp : Action (Unit {0})
  exec_exp = do lhs ← pop; rhs ← pop; push (p.overflowing_pow lhs rhs).0

  unfoldable pub exec_sign_extend : Action (Unit {0})
  exec_sign_extend = do
    pos ← pop
    value ← pop
    if ltb 32 pos then push value else (do
      let bit_pos = (p.low_u64 pos * 8 + 7) % usize_mod
      bit ← unwrap (p.bit value bit_pos)
      mask ← unwrap (p.sub (p.shl 1 bit_pos) 1)
      push (if bit then p.bitor value (p.complement mask) else p.bitand value mask))
