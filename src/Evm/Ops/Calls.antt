-- ===== src/Evm/Ops/Calls.antt =====
-- The arms Call, and CallCode with DelegateCall. The called contract runs on a machine of its own,
-- which has no fetcher, and starts from the store that the fetcher gives.
use em.Base.{ℕ, ◌+◌, ◌%◌, List, slice, copy_from_slice}
use em.Base.Attempt.{Attempt, done, panicked, timeout}
use em.Evm.Primitives.{Primitives, usize_mod}
use em.Evm.Machine.{
  Machine, BlockInfo, ExecutionState, Action, panic, exhausted, next, ◌>>=◌, unwrap, get,
  put_memory, pop, new_with_data, set_storage,
}

-- `execute` of a nested machine: the code, the block, the machine.
abbrev pub Nested : Type 0
Nested = List ℕ → BlockInfo → Machine → Attempt (ExecutionState × Machine)

-- The machine after the nested run; its execution state is dropped.
abbrev pub returned_machine : Attempt (ExecutionState × Machine) → Action Machine
returned_machine (done (e, inner)) m = next inner m
returned_machine panicked m = panic
returned_machine timeout m = exhausted

-- What the two arms share, from `let input = …` on.
unfoldable pub call_contract : Nested → List ℕ → BlockInfo → ℕ → ℕ → ℕ → ℕ → ℕ → Action (Unit {0})
call_contract nested code block addr in_offset in_size out_offset out_size = do
  input ← unwrap (slice code in_offset ((in_offset + in_size) % usize_mod))
  m ← get
  contract ← unwrap (m.fetch_contract addr)
  let evm = set_storage contract.store (new_with_data (λ _. 0) input)
  inner ← returned_machine (nested contract.bytecode block evm)
  memory ←
      unwrap
        (copy_from_slice m.memory out_offset ((out_offset + out_size) % usize_mod) inner.result)
  put_memory memory

module _ ⦃p : Primitives⦄ where
  -- CallCode and DelegateCall.
  unfoldable pub exec_delegate_call : Nested → List ℕ → BlockInfo → Action (Unit {0})
  exec_delegate_call nested code block = do
    _ ← pop
    addr ← pop
    in_offset ← pop
    in_size ← pop
    out_offset ← pop
    out_size ← pop
    call_contract nested code block addr (p.low_u64 in_offset) (p.low_u64 in_size)
        (p.low_u64 out_offset) (p.low_u64 out_size)

  -- Call, with the value behind the address.
  unfoldable pub exec_call : Nested → List ℕ → BlockInfo → Action (Unit {0})
  exec_call nested code block = do
    _ ← pop
    addr ← pop
    _ ← pop
    in_offset ← pop
    in_size ← pop
    out_offset ← pop
    out_size ← pop
    call_contract nested code block addr (p.low_u64 in_offset) (p.low_u64 in_size)
        (p.low_u64 out_offset) (p.low_u64 out_size)
