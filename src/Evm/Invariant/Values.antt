-- ===== src/Evm/Invariant/Values.antt =====
-- The arms that read the context, and those that read and write the memory, keep the invariant.
use em.Base.{ℕ, List, length, arith}
use em.Evm.Storage.{Storage}
use em.Evm.Machine.{BlockInfo}
use em.Evm.Machine.Keeps.{Keeps, Keeps-bind, Keeps-get}
use em.Evm.Invariant.{Invariant, IsCode, IsBlock}
use em.Evm.Invariant.Rules.{Done, push-Keeps}
use em.Evm.Invariant.Arithmetic.{Keeps-pop}
use em.Evm.Ops.Context.{
  exec_address, exec_call_value, exec_call_data_size, exec_return_data_size, exec_balance,
  exec_zero, exec_code_size, exec_block_hash, exec_timestamp, exec_number, exec_difficulty,
  exec_gas_limit,
}

module _ {s : Storage} {owner : ℕ} where
  pub exec_address-Keeps : Keeps (Invariant s owner) Done exec_address
  unfolding exec_address
  exec_address-Keeps =
      Keeps-bind Keeps-get
        λ m inv. push-Keeps m.owner (ground (arith, inv.owner_fits, inv.same_owner))

  pub exec_call_value-Keeps : Keeps (Invariant s owner) Done exec_call_value
  unfolding exec_call_value
  exec_call_value-Keeps = Keeps-bind Keeps-get λ m inv. push-Keeps m.state inv.state_fits

  pub exec_call_data_size-Keeps : Keeps (Invariant s owner) Done exec_call_data_size
  unfolding exec_call_data_size
  exec_call_data_size-Keeps =
      Keeps-bind Keeps-get λ m inv. push-Keeps (length m.input) (omega (arith, inv.input_fits.1))

  pub exec_return_data_size-Keeps : Keeps (Invariant s owner) Done exec_return_data_size
  unfolding exec_return_data_size
  exec_return_data_size-Keeps =
      Keeps-bind Keeps-get λ m inv. push-Keeps (length m.result) (omega (arith, inv.result_size))

  pub exec_balance-Keeps : Keeps (Invariant s owner) Done exec_balance
  unfolding exec_balance
  exec_balance-Keeps = Keeps-pop λ a h. push-Keeps 0 (omega arith)

  pub exec_zero-Keeps : Keeps (Invariant s owner) Done exec_zero
  unfolding exec_zero
  exec_zero-Keeps = push-Keeps 0 (omega arith)

  pub exec_gas_limit-Keeps : Keeps (Invariant s owner) Done exec_gas_limit
  unfolding exec_gas_limit
  exec_gas_limit-Keeps = push-Keeps _ (omega arith)

  pub exec_code_size-Keeps :
      (code : List ℕ) → IsCode code → Keeps (Invariant s owner) Done (exec_code_size code)
  unfolding exec_code_size
  exec_code_size-Keeps code h = push-Keeps (length code) (omega (arith, h.1))

  pub exec_block_hash-Keeps :
      (b : BlockInfo) → IsBlock b → Keeps (Invariant s owner) Done (exec_block_hash b)
  unfolding exec_block_hash
  exec_block_hash-Keeps b h = push-Keeps _ h.block_hash_fits

  pub exec_timestamp-Keeps :
      (b : BlockInfo) → IsBlock b → Keeps (Invariant s owner) Done (exec_timestamp b)
  unfolding exec_timestamp
  exec_timestamp-Keeps b h = push-Keeps _ h.timestamp_fits

  pub exec_number-Keeps :
      (b : BlockInfo) → IsBlock b → Keeps (Invariant s owner) Done (exec_number b)
  unfolding exec_number
  exec_number-Keeps b h = push-Keeps _ h.number_fits

  pub exec_difficulty-Keeps :
      (b : BlockInfo) → IsBlock b → Keeps (Invariant s owner) Done (exec_difficulty b)
  unfolding exec_difficulty
  exec_difficulty-Keeps b h = push-Keeps _ h.difficulty_fits
