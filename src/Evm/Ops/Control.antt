-- ===== src/Evm/Ops/Control.antt =====
-- The arms that move `pc`, push code bytes, or end the run. `pc` is behind the opcode's byte.
use em.Base.{ℕ, ◌+◌, ◌-◌, ◌%◌, List, ◌==◌, if◌then◌else◌, slice}
use em.Evm.Primitives.{Primitives, usize_mod}
use em.Evm.Machine.{
  Action, ◌>>=◌, ◌>>◌, pure, unwrap, finish, get, next, push, pop, dup, swap, ExecutionState,
}
use em.Base.{suc, zero, [], ◌∷◌, get_elem?, some, none}

-- GetPc.
unfoldable pub exec_get_pc : ℕ → Action (Unit {0})
exec_get_pc pc = push pc

-- Dup1 to Dup16, and Swap1 to Swap16.
unfoldable pub exec_dup : ℕ → Action (Unit {0})
exec_dup opcode = dup (opcode - 0x80 + 1)

unfoldable pub exec_swap : ℕ → Action (Unit {0})
exec_swap opcode = swap (opcode - 0x90 + 1)

-- Revert.
unfoldable pub exec_revert : Action ℕ
exec_revert = finish ExecutionState.revert

-- The bytes of Return: `idx` runs from `offset`, and reads zero behind the memory.
unfoldable pub returned : ℕ → ℕ → List ℕ → List ℕ
returned zero idx memory = []
returned (suc left) idx memory =
    (elim (get_elem? memory idx) [ none ↦ 0 | some b ↦ b ]) ∷ returned left (idx + 1) memory

abbrev pub put_result : List ℕ → Action (Unit {0})
put_result bytes m = next tt (record m { result = bytes })

module _ ⦃p : Primitives⦄ where
  -- Jump.
  unfoldable pub exec_jump : Action ℕ
  exec_jump = do offset ← pop; pure (p.low_u64 offset)

  -- JumpI.
  unfoldable pub exec_jump_i : ℕ → Action ℕ
  exec_jump_i pc = do
    offset ← pop
    condition ← pop
    pure (if condition == 0 then pc else p.low_u64 offset)

  -- Push1 to Push32.
  unfoldable pub exec_push : List ℕ → ℕ → ℕ → Action ℕ
  exec_push code opcode pc = do
    let value_size = opcode - 0x60 + 1
    value ← unwrap (slice code pc (pc + value_size))
    word ← unwrap (p.from_slice value)
    push word
    pure (pc + value_size)

  -- Return: the loop over `offset..offset + size`, then `break`.
  unfoldable pub exec_return : Action ℕ
  exec_return = do
    top ← pop
    second ← pop
    m ← get
    let offset = p.low_u64 top
    let end = (offset + p.low_u64 second) % usize_mod
    put_result (returned (end - offset) offset m.memory)
    finish ExecutionState.ok
