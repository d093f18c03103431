-- ===== src/Evm/Execute.antt =====
-- crates/evm/lib.rs, `Machine::execute`: the loop, on fuel. A round takes one unit, and the machine
-- of a call runs on what is left.
use em.Base.{ℕ, zero, suc, ◌+◌, true, false, Option, none, some, List, ltb, length, get_elem?}
use em.Base.Attempt.{Attempt, done, panicked, timeout}
use em.Evm.Primitives.{Primitives}
use em.Evm.Instruction.{Instruction, try_from}
use em.Evm.Machine.{
  Machine, BlockInfo, ExecutionState, AbortError, Flow, next, stop, panic, exhausted, Action, ◌>>=◌,
  pure, unwrap, finish, get,
}
use em.Evm.Ops.Calls.{Nested}
use em.Evm.Dispatch.{dispatch}

-- What the loop does after a round.
abbrev pub resume :
    (ℕ → Machine → Attempt (ExecutionState × Machine)) → Flow ℕ → Attempt (ExecutionState × Machine)
resume rest (next pc m) = rest pc m
resume rest (stop e m) = done (e, m)
resume rest panic = panicked
resume rest exhausted = timeout

module _ ⦃p : Primitives⦄ where
  -- `self.gas_used += cost`
  unfoldable pub charge : ℕ → Action (Unit {0})
  charge cost = do
    m ← get
    total ← unwrap (p.add m.gas_used cost)
    λ m'. next tt (record m' { gas_used = total })

  -- A round with an instruction; `pc` is behind its byte.
  unfoldable pub exec_instruction :
      Nested → List ℕ → BlockInfo → ℕ → ℕ → Option Instruction → Action ℕ
  exec_instruction nested code block opcode pc none =
      finish (ExecutionState.abort AbortError.invalid_opcode)
  exec_instruction nested code block opcode pc (some inst) = do
    m ← get
    let cost = m.cost_fn inst
    pc' ← dispatch nested code block opcode pc inst
    _ ← charge cost
    pure pc'

  -- The body of the loop.
  unfoldable pub round : Nested → List ℕ → BlockInfo → ℕ → Action ℕ
  round nested code block pc = do
    opcode ← unwrap (get_elem? code pc)
    exec_instruction nested code block opcode (pc + 1) (try_from opcode)

  -- The loop, from `pc` on.
  unfoldable pub run : ℕ → List ℕ → BlockInfo → ℕ → Machine → Attempt (ExecutionState × Machine)
  run zero code block pc m = timeout
  run (suc fuel) code block pc m = elim (ltb pc (length code)) [
    | false ↦ done (ExecutionState.ok, m)
    | true ↦
        resume (run fuel code block)
          (round (λ code' block'. run fuel code' block' 0) code block pc m)
  ]

  -- `Machine::execute`, which starts at zero.
  unfoldable pub execute : ℕ → List ℕ → BlockInfo → Machine → Attempt (ExecutionState × Machine)
  unfolding run
  execute fuel code block = run fuel code block 0
