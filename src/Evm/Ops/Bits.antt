-- ===== src/Evm/Ops/Bits.antt =====
-- The arms And to Shr of `execute`. Shl and Sar have none: they reach `unimplemented!()`.
use em.Base.{ltb, if◌then◌else◌}
use em.Evm.Primitives.{Primitives}
use em.Evm.Machine.{Action, ◌>>=◌, unwrap, push, pop}

module _ ⦃p : Primitives⦄ where
  unfoldable pub exec_shr : Action (Unit {0})
  exec_shr = do rhs ← pop; lhs ← pop; if ltb rhs 256 then push (p.shr lhs rhs) else push 0

  unfoldable pub exec_and : Action (Unit {0})
  exec_and = do lhs ← pop; rhs ← pop; push (p.bitand lhs rhs)

  unfoldable pub exec_or : Action (Unit {0})
  exec_or = do lhs ← pop; rhs ← pop; push (p.bitor lhs rhs)

  unfoldable pub exec_xor : Action (Unit {0})
  exec_xor = do lhs ← pop; rhs ← pop; push (p.bitxor lhs rhs)

  unfoldable pub exec_not : Action (Unit {0})
  exec_not = do val ← pop; push (p.complement val)

  unfoldable pub exec_byte : Action (Unit {0})
  exec_byte = do
    rhs ← pop
    lhs ← pop
    if ltb 32 rhs
        then push 0
        else (do index ← unwrap (p.as_u64 rhs); byte ← unwrap (p.byte lhs index); push byte)
