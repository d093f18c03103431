-- ===== src/Evm/Invariant/Dispatch.antt =====
-- Every dispatched instruction keeps the invariant.
use em.Base.{ℕ, List, arith}
use em.Evm.Primitives.{Primitives}
use em.Evm.Primitives.Laws.{Lawful, IsU256}
use em.Evm.Storage.{Storage}
use em.Evm.Instruction.{Instruction}
use em.Evm.Machine.{BlockInfo, Action}
use em.Evm.Machine.Keeps.{Keeps, Keeps-bind, Keeps-pure}
use em.Evm.Ops.Calls.{Nested}
use em.Evm.Dispatch.{stay, unimplemented, dispatch}
use em.Evm.Invariant.{Invariant, IsCode, IsBlock}
use em.Evm.Invariant.Rules.{Done}
use em.Evm.Invariant.Arithmetic.{
  exec_add-Keeps, exec_sub-Keeps, exec_mul-Keeps, exec_div-Keeps, exec_s_div-Keeps,
  exec_modulo-Keeps, exec_s_mod-Keeps, exec_add_mod-Keeps, exec_mul_mod-Keeps, exec_exp-Keeps,
  exec_sign_extend-Keeps, exec_lt-Keeps, exec_gt-Keeps, exec_eq-Keeps, exec_is_zero-Keeps,
  exec_s_lt-Keeps, exec_s_gt-Keeps, exec_shr-Keeps, exec_and-Keeps, exec_or-Keeps, exec_xor-Keeps,
  exec_not-Keeps, exec_byte-Keeps,
}
use em.Evm.Invariant.Values.{
  exec_address-Keeps, exec_call_value-Keeps, exec_call_data_size-Keeps, exec_return_data_size-Keeps,
  exec_balance-Keeps, exec_zero-Keeps, exec_gas_limit-Keeps, exec_code_size-Keeps,
  exec_block_hash-Keeps, exec_timestamp-Keeps, exec_number-Keeps, exec_difficulty-Keeps,
}
use em.Evm.Invariant.Buffers.{
  exec_keccak256-Keeps, exec_call_data_load-Keeps, exec_m_load-Keeps, exec_m_store-Keeps,
  exec_m_store8-Keeps, exec_call_data_copy-Keeps, exec_code_copy-Keeps, exec_return_data_copy-Keeps,
}
use em.Evm.Invariant.Effects.{
  IsPc, exec_pop-Keeps, exec_get_pc-Keeps, exec_dup-Keeps, exec_swap-Keeps, exec_s_load-Keeps,
  exec_s_store-Keeps, exec_revert-Keeps, exec_jump-Keeps, exec_jump_i-Keeps, exec_push-Keeps,
  exec_return-Keeps,
}
use em.Evm.Invariant.Calls.{IsKeeping, exec_delegate_call-Keeps, exec_call-Keeps}

module _ {s : Storage} {owner : ℕ} where
  stay-Keeps :
      (act : Action (Unit {0})) (pc : ℕ)
      → Keeps (Invariant s owner) Done act
      → IsPc pc
      → Keeps (Invariant s owner) IsPc (stay act pc)
  unfolding stay
  stay-Keeps act pc h k = Keeps-bind h λ _ _. Keeps-pure pc k

  unimplemented-Keeps : Keeps (Invariant s owner) IsPc unimplemented
  unfolding unimplemented
  unimplemented-Keeps = record { at = λ m inv. tt }

IsPc-IsU256 : (pc : ℕ) → IsPc pc → IsU256 pc
IsPc-IsU256 pc h = omega arith

ruleset arms = (
  stay-Keeps, unimplemented-Keeps, Keeps-pure, IsPc-IsU256, exec_add-Keeps, exec_sub-Keeps,
  exec_mul-Keeps, exec_div-Keeps, exec_s_div-Keeps, exec_modulo-Keeps, exec_s_mod-Keeps,
  exec_add_mod-Keeps, exec_mul_mod-Keeps, exec_exp-Keeps, exec_sign_extend-Keeps, exec_lt-Keeps,
  exec_gt-Keeps, exec_eq-Keeps, exec_is_zero-Keeps, exec_s_lt-Keeps, exec_s_gt-Keeps,
  exec_shr-Keeps, exec_and-Keeps, exec_or-Keeps, exec_xor-Keeps, exec_not-Keeps, exec_byte-Keeps,
  exec_address-Keeps, exec_call_value-Keeps, exec_call_data_size-Keeps, exec_return_data_size-Keeps,
  exec_balance-Keeps, exec_zero-Keeps, exec_gas_limit-Keeps, exec_code_size-Keeps,
  exec_block_hash-Keeps, exec_timestamp-Keeps, exec_number-Keeps, exec_difficulty-Keeps,
  exec_keccak256-Keeps, exec_call_data_load-Keeps, exec_m_load-Keeps, exec_m_store-Keeps,
  exec_m_store8-Keeps, exec_call_data_copy-Keeps, exec_code_copy-Keeps, exec_return_data_copy-Keeps,
  exec_pop-Keeps, exec_get_pc-Keeps, exec_dup-Keeps, exec_swap-Keeps, exec_s_load-Keeps,
  exec_s_store-Keeps, exec_revert-Keeps, exec_jump-Keeps, exec_jump_i-Keeps, exec_push-Keeps,
  exec_return-Keeps, exec_delegate_call-Keeps, exec_call-Keeps,
)

module _ ⦃p : Primitives⦄ (lawful : Lawful p) {s : Storage} {owner : ℕ} where
  pub dispatch-Keeps :
      (nested : Nested) (code : List ℕ) (block : BlockInfo) (opcode pc : ℕ)
      → IsKeeping nested
      → IsCode code
      → IsBlock block
      → IsPc pc
      → (i : Instruction) → Keeps (Invariant s owner) IsPc (dispatch nested code block opcode pc i)
  unfolding dispatch
  dispatch-Keeps nested code block opcode pc keeping hc hb hp Instruction.stop = Keeps-pure pc hp
  dispatch-Keeps nested code block opcode pc keeping hc hb hp _ = search arms
