-- ===== src/Evm/Tests.antt =====
-- Runs of whole programs: the tests of crates/evm/lib.rs and crates/evm/storage.rs, and more.
use em.Base.{
  ℕ, List, [], ◌∷◌, ◌++◌, ◌≡◌, refl, put, slice, resize, for_range, copy_from_slice, replicate,
}
use em.Base.Attempt.{Attempt, done, panicked, timeout}
use em.Base.Map
use em.Evm.Instruction.{try_from}
use em.Evm.Primitives.Numbers.{numbers}
use em.Evm.Storage
use em.Evm.Storage.{Storage}
use em.Evm.Machine.{BlockInfo, ExecutionState, AbortError, new, ◌>>=◌}
use em.Evm.Execute.{execute, round, exec_instruction, charge}
use em.Evm.Dispatch.{stay, unimplemented, dispatch}
use em.Evm.Ops.Arithmetic.{to_signed, signed_quotient, reduced}
use em.Evm.Ops.Memory.{load_byte, store_byte}
use em.Evm.Ops.Copies.{copy_byte, copy_word}
use em.Evm.Ops.Calls.{call_contract}
use em.Evm.Ops.Control.{returned}
use em.Evm.Ops.Arithmetic.{
  exec_add, exec_add_mod, exec_div, exec_exp, exec_modulo, exec_mul, exec_mul_mod, exec_s_div,
  exec_s_mod, exec_sign_extend, exec_sub,
}
use em.Evm.Ops.Bits.{exec_and, exec_byte, exec_not, exec_or, exec_shr, exec_xor}
use em.Evm.Ops.Calls.{exec_call, exec_delegate_call}
use em.Evm.Ops.Compare.{exec_eq, exec_gt, exec_is_zero, exec_lt, exec_s_gt, exec_s_lt}
use em.Evm.Ops.Context.{
  exec_address, exec_balance, exec_block_hash, exec_call_data_load, exec_call_data_size,
  exec_call_value, exec_code_size, exec_difficulty, exec_gas_limit, exec_keccak256, exec_number,
  exec_pop, exec_return_data_size, exec_s_load, exec_s_store, exec_timestamp, exec_zero,
}
use em.Evm.Ops.Control.{
  exec_dup, exec_get_pc, exec_jump, exec_jump_i, exec_push, exec_return, exec_revert, exec_swap,
}
use em.Evm.Ops.Copies.{exec_call_data_copy, exec_code_copy, exec_return_data_copy}
use em.Evm.Ops.Memory.{exec_m_load, exec_m_store, exec_m_store8}

abbrev no_block : BlockInfo
no_block = record { timestamp = 0; difficulty = 0; block_hash = 0; number = 0 }

-- What a run leaves: its state, the stack, the memory and the result.
data Final : Type 0 where
  final : ExecutionState → List ℕ → List ℕ → List ℕ → Final

run_code : List ℕ → Attempt Final
unfolding ◌>>=◌ execute round exec_instruction charge stay unimplemented dispatch try_from new
    numbers Map.insert Map.lookup Storage.get Storage.insert put slice resize for_range
    copy_from_slice to_signed signed_quotient reduced load_byte store_byte copy_byte copy_word
    call_contract returned exec_add exec_add_mod exec_address exec_and exec_balance exec_block_hash
    exec_byte exec_call exec_call_data_copy exec_call_data_load exec_call_data_size exec_call_value
    exec_code_copy exec_code_size exec_delegate_call exec_difficulty exec_div exec_dup exec_eq
    exec_exp exec_gas_limit exec_get_pc exec_gt exec_is_zero exec_jump exec_jump_i exec_keccak256
    exec_lt exec_m_load exec_m_store exec_m_store8 exec_modulo exec_mul exec_mul_mod exec_not
    exec_number exec_or exec_pop exec_push exec_return exec_return_data_copy exec_return_data_size
    exec_revert exec_s_div exec_s_gt exec_s_load exec_s_lt exec_s_mod exec_s_store exec_shr
    exec_sign_extend exec_sub exec_swap exec_timestamp exec_xor exec_zero
run_code code = elim (execute 100 code no_block (new (λ _. 0))) [
  | done (e, m) ↦ done (final e m.stack m.memory m.result)
  | panicked ↦ panicked
  | timeout ↦ timeout
]

-- PUSH1 1, PUSH1 2, ADD.
basic : run_code (0x60 ∷ 1 ∷ 0x60 ∷ 2 ∷ 0x01 ∷ []) ≡ done (final ExecutionState.ok (3 ∷ []) [] [])
unfolding run_code
basic = refl

-- PUSH1 0, PUSH1 3, SWAP1, POP, SWAP1.
swap_jump :
    run_code (0x60 ∷ 0 ∷ 0x60 ∷ 3 ∷ 0x90 ∷ 0x50 ∷ 0x90 ∷ [])
    ≡ done (final ExecutionState.ok (3 ∷ []) [] [])
unfolding run_code
swap_jump = refl

-- PUSH1 2, PUSH1 4, SDIV.
s_div : run_code (0x60 ∷ 2 ∷ 0x60 ∷ 4 ∷ 0x05 ∷ []) ≡ done (final ExecutionState.ok (2 ∷ []) [] [])
unfolding run_code
s_div = refl

-- A byte of no instruction.
invalid :
    run_code (0x0c ∷ []) ≡ done (final (ExecutionState.abort AbortError.invalid_opcode) [] [] [])
unfolding run_code
invalid = refl

-- PUSH1 0x2a, PUSH1 0x20, MSTORE, PUSH1 0x20, MLOAD, then RETURN of the stored word's last byte.
memory_word :
    run_code
      (0x60 ∷ 0x2a ∷ 0x60 ∷ 0x20 ∷ 0x52 ∷ 0x60 ∷ 0x20 ∷ 0x51 ∷ 0x60 ∷ 1 ∷ 0x60 ∷ 0x3f ∷ 0xf3 ∷ [])
    ≡ done (final ExecutionState.ok (0x2a ∷ []) (replicate 63 0 ++ 0x2a ∷ []) (0x2a ∷ []))
unfolding run_code
memory_word = refl
