-- ===== src/Evm/Dispatch.antt =====
-- crates/evm/lib.rs, the `match inst` of `execute`. An arm gives the next `pc`. The instructions
-- that no arm names reach `_ => unimplemented!()`, which panics.
use em.Base.{ℕ, List}
use em.Evm.Primitives.{Primitives}
use em.Evm.Instruction.{Instruction}
use em.Evm.Machine.{BlockInfo, Action, panic, ◌>>◌, pure}
use em.Evm.Ops.Arithmetic.{
  exec_add, exec_mul, exec_sub, exec_div, exec_s_div, exec_modulo, exec_s_mod, exec_add_mod,
  exec_mul_mod, exec_exp, exec_sign_extend,
}
use em.Evm.Ops.Compare.{exec_lt, exec_gt, exec_s_lt, exec_s_gt, exec_eq, exec_is_zero}
use em.Evm.Ops.Bits.{exec_and, exec_or, exec_xor, exec_not, exec_byte, exec_shr}
use em.Evm.Ops.Context.{
  exec_keccak256, exec_address, exec_balance, exec_zero, exec_call_value, exec_call_data_load,
  exec_call_data_size, exec_code_size, exec_return_data_size, exec_block_hash, exec_timestamp,
  exec_number, exec_difficulty, exec_gas_limit, exec_pop, exec_s_load, exec_s_store,
}
use em.Evm.Ops.Copies.{exec_call_data_copy, exec_code_copy, exec_return_data_copy}
use em.Evm.Ops.Memory.{exec_m_load, exec_m_store, exec_m_store8}
use em.Evm.Ops.Control.{
  exec_get_pc, exec_jump, exec_jump_i, exec_push, exec_dup, exec_swap, exec_return, exec_revert,
}
use em.Evm.Ops.Calls.{Nested, exec_call, exec_delegate_call}

unfoldable pub stay : Action (Unit {0}) → ℕ → Action ℕ
stay act pc = do act; pure pc

unfoldable pub unimplemented : Action ℕ
unimplemented m = panic

module _ ⦃p : Primitives⦄ (nested : Nested) (code : List ℕ) (block : BlockInfo)
    (opcode pc : ℕ) where
  unfoldable pub dispatch : Instruction → Action ℕ
  dispatch Instruction.stop = pure pc
  dispatch Instruction.add = stay exec_add pc
  dispatch Instruction.mul = stay exec_mul pc
  dispatch Instruction.sub = stay exec_sub pc
  dispatch Instruction.div = stay exec_div pc
  dispatch Instruction.s_div = stay exec_s_div pc
  dispatch Instruction.modulo = stay exec_modulo pc
  dispatch Instruction.s_mod = stay exec_s_mod pc
  dispatch Instruction.add_mod = stay exec_add_mod pc
  dispatch Instruction.mul_mod = stay exec_mul_mod pc
  dispatch Instruction.exp = stay exec_exp pc
  dispatch Instruction.sign_extend = stay exec_sign_extend pc
  dispatch Instruction.lt = stay exec_lt pc
  dispatch Instruction.gt = stay exec_gt pc
  dispatch Instruction.s_lt = stay exec_s_lt pc
  dispatch Instruction.s_gt = stay exec_s_gt pc
  dispatch Instruction.eq = stay exec_eq pc
  dispatch Instruction.is_zero = stay exec_is_zero pc
  dispatch Instruction.and = stay exec_and pc
  dispatch Instruction.or = stay exec_or pc
  dispatch Instruction.xor = stay exec_xor pc
  dispatch Instruction.not = stay exec_not pc
  dispatch Instruction.byte = stay exec_byte pc
  dispatch Instruction.shl = unimplemented
  dispatch Instruction.shr = stay exec_shr pc
  dispatch Instruction.sar = unimplemented
  dispatch Instruction.keccak256 = stay exec_keccak256 pc
  dispatch Instruction.address = stay exec_address pc
  dispatch Instruction.balance = stay exec_balance pc
  dispatch Instruction.origin = stay exec_zero pc
  dispatch Instruction.caller = stay exec_zero pc
  dispatch Instruction.call_value = stay exec_call_value pc
  dispatch Instruction.call_data_load = stay exec_call_data_load pc
  dispatch Instruction.call_data_size = stay exec_call_data_size pc
  dispatch Instruction.call_data_copy = stay exec_call_data_copy pc
  dispatch Instruction.code_size = stay (exec_code_size code) pc
  dispatch Instruction.code_copy = stay (exec_code_copy code) pc
  dispatch Instruction.gas_price = stay exec_zero pc
  dispatch Instruction.ext_code_size = pure pc
  dispatch Instruction.ext_code_copy = pure pc
  dispatch Instruction.return_data_size = stay exec_return_data_size pc
  dispatch Instruction.return_data_copy = stay exec_return_data_copy pc
  dispatch Instruction.block_hash = stay (exec_block_hash block) pc
  dispatch Instruction.coinbase = stay exec_zero pc
  dispatch Instruction.timestamp = stay (exec_timestamp block) pc
  dispatch Instruction.number = stay (exec_number block) pc
  dispatch Instruction.difficulty = stay (exec_difficulty block) pc
  dispatch Instruction.gas_limit = stay exec_gas_limit pc
  dispatch Instruction.chain_id = unimplemented
  dispatch Instruction.base_fee = unimplemented
  dispatch Instruction.pop = stay exec_pop pc
  dispatch Instruction.m_load = stay exec_m_load pc
  dispatch Instruction.m_store = stay exec_m_store pc
  dispatch Instruction.m_store8 = stay exec_m_store8 pc
  dispatch Instruction.s_load = stay exec_s_load pc
  dispatch Instruction.s_store = stay exec_s_store pc
  dispatch Instruction.jump = exec_jump
  dispatch Instruction.jump_i = exec_jump_i pc
  dispatch Instruction.get_pc = stay (exec_get_pc pc) pc
  dispatch Instruction.m_size = stay exec_zero pc
  dispatch Instruction.gas = stay exec_zero pc
  dispatch Instruction.jump_dest = pure pc
  dispatch Instruction.push1 = exec_push code opcode pc
  dispatch Instruction.push2 = exec_push code opcode pc
  dispatch Instruction.push3 = exec_push code opcode pc
  dispatch Instruction.push4 = exec_push code opcode pc
  dispatch Instruction.push5 = exec_push code opcode pc
  dispatch Instruction.push6 = exec_push code opcode pc
  dispatch Instruction.push7 = exec_push code opcode pc
  dispatch Instruction.push8 = exec_push code opcode pc
  dispatch Instruction.push9 = exec_push code opcode pc
  dispatch Instruction.push10 = exec_push code opcode pc
  dispatch Instruction.push11 = exec_push code opcode pc
  dispatch Instruction.push12 = exec_push code opcode pc
  dispatch Instruction.push13 = exec_push code opcode pc
  dispatch Instruction.push14 = exec_push code opcode pc
  dispatch Instruction.push15 = exec_push code opcode pc
  dispatch Instruction.push16 = exec_push code opcode pc
  dispatch Instruction.push17 = exec_push code opcode pc
  dispatch Instruction.push18 = exec_push code opcode pc
  dispatch Instruction.push19 = exec_push code opcode pc
  dispatch Instruction.push20 = exec_push code opcode pc
  dispatch Instruction.push21 = exec_push code opcode pc
  dispatch Instruction.push22 = exec_push code opcode pc
  dispatch Instruction.push23 = exec_push code opcode pc
  dispatch Instruction.push24 = exec_push code opcode pc
  dispatch Instruction.push25 = exec_push code opcode pc
  dispatch Instruction.push26 = exec_push code opcode pc
  dispatch Instruction.push27 = exec_push code opcode pc
  dispatch Instruction.push28 = exec_push code opcode pc
  dispatch Instruction.push29 = exec_push code opcode pc
  dispatch Instruction.push30 = exec_push code opcode pc
  dispatch Instruction.push31 = exec_push code opcode pc
  dispatch Instruction.push32 = exec_push code opcode pc
  dispatch Instruction.dup1 = stay (exec_dup opcode) pc
  dispatch Instruction.dup2 = stay (exec_dup opcode) pc
  dispatch Instruction.dup3 = stay (exec_dup opcode) pc
  dispatch Instruction.dup4 = stay (exec_dup opcode) pc
  dispatch Instruction.dup5 = stay (exec_dup opcode) pc
  dispatch Instruction.dup6 = stay (exec_dup opcode) pc
  dispatch Instruction.dup7 = stay (exec_dup opcode) pc
  dispatch Instruction.dup8 = stay (exec_dup opcode) pc
  dispatch Instruction.dup9 = stay (exec_dup opcode) pc
  dispatch Instruction.dup10 = stay (exec_dup opcode) pc
  dispatch Instruction.dup11 = stay (exec_dup opcode) pc
  dispatch Instruction.dup12 = stay (exec_dup opcode) pc
  dispatch Instruction.dup13 = stay (exec_dup opcode) pc
  dispatch Instruction.dup14 = stay (exec_dup opcode) pc
  dispatch Instruction.dup15 = stay (exec_dup opcode) pc
  dispatch Instruction.dup16 = stay (exec_dup opcode) pc
  dispatch Instruction.swap1 = stay (exec_swap opcode) pc
  dispatch Instruction.swap2 = stay (exec_swap opcode) pc
  dispatch Instruction.swap3 = stay (exec_swap opcode) pc
  dispatch Instruction.swap4 = stay (exec_swap opcode) pc
  dispatch Instruction.swap5 = stay (exec_swap opcode) pc
  dispatch Instruction.swap6 = stay (exec_swap opcode) pc
  dispatch Instruction.swap7 = stay (exec_swap opcode) pc
  dispatch Instruction.swap8 = stay (exec_swap opcode) pc
  dispatch Instruction.swap9 = stay (exec_swap opcode) pc
  dispatch Instruction.swap10 = stay (exec_swap opcode) pc
  dispatch Instruction.swap11 = stay (exec_swap opcode) pc
  dispatch Instruction.swap12 = stay (exec_swap opcode) pc
  dispatch Instruction.swap13 = stay (exec_swap opcode) pc
  dispatch Instruction.swap14 = stay (exec_swap opcode) pc
  dispatch Instruction.swap15 = stay (exec_swap opcode) pc
  dispatch Instruction.swap16 = stay (exec_swap opcode) pc
  dispatch Instruction.log0 = pure pc
  dispatch Instruction.log1 = pure pc
  dispatch Instruction.log2 = pure pc
  dispatch Instruction.log3 = pure pc
  dispatch Instruction.log4 = pure pc
  dispatch Instruction.create = pure pc
  dispatch Instruction.call = stay (exec_call nested code block) pc
  dispatch Instruction.call_code = stay (exec_delegate_call nested code block) pc
  dispatch Instruction.return = exec_return
  dispatch Instruction.delegate_call = stay (exec_delegate_call nested code block) pc
  dispatch Instruction.create2 = unimplemented
  dispatch Instruction.revert = exec_revert
  dispatch Instruction.static_call = unimplemented
  dispatch Instruction.self_destruct = unimplemented
