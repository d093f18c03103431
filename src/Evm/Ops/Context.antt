-- ===== src/Evm/Ops/Context.antt =====
-- The arms that push a value of the machine, the block or the loop, or that read the input or the
-- storage by a key.
pub mod Store
use em.Base.{ℕ, ◌+◌, ◌%◌, List, length, leb, if◌then◌else◌, slice, resize, min}
use em.Evm.Primitives.{Primitives, usize_mod}
use em.Evm.Storage
use em.Evm.Machine.{BlockInfo, next, Action, ◌>>=◌, unwrap, get, push, pop}

-- Address, CallValue, CallDataSize and ReturnDataSize.
unfoldable pub exec_address : Action (Unit {0})
exec_address = do m ← get; push m.owner

unfoldable pub exec_call_value : Action (Unit {0})
exec_call_value = do m ← get; push m.state

unfoldable pub exec_call_data_size : Action (Unit {0})
exec_call_data_size = do m ← get; push (length m.input)

unfoldable pub exec_return_data_size : Action (Unit {0})
exec_return_data_size = do m ← get; push (length m.result)

-- Balance.
unfoldable pub exec_balance : Action (Unit {0})
exec_balance = do _ ← pop; push 0

-- Origin, Caller, and MSize, Gas, GasPrice and Coinbase.
unfoldable pub exec_zero : Action (Unit {0})
exec_zero = push 0

-- CodeSize.
unfoldable pub exec_code_size : List ℕ → Action (Unit {0})
exec_code_size code = push (length code)

-- BlockHash, Timestamp, Number and Difficulty; GasLimit is `U256::MAX`.
unfoldable pub exec_block_hash : BlockInfo → Action (Unit {0})
exec_block_hash block = push block.block_hash

unfoldable pub exec_timestamp : BlockInfo → Action (Unit {0})
exec_timestamp block = push block.timestamp

unfoldable pub exec_number : BlockInfo → Action (Unit {0})
exec_number block = push block.number

unfoldable pub exec_difficulty : BlockInfo → Action (Unit {0})
exec_difficulty block = push block.difficulty

unfoldable pub exec_gas_limit : Action (Unit {0})
exec_gas_limit = push 0xffffffffffffffffffffffffffffffffffffffffffffffffffffffffffffffff

-- Pop.
unfoldable pub exec_pop : Action (Unit {0})
exec_pop = do _ ← pop; next tt

-- SLoad and SStore, under the owner's account.
unfoldable pub exec_s_load : Action (Unit {0})
exec_s_load = do
  offset ← pop
  m ← get
  value ← unwrap (Storage.get m.owner offset m.storage)
  push value

abbrev pub put_storage : Storage.Storage → Action (Unit {0})
put_storage s m = next tt (record m { storage = s })

unfoldable pub exec_s_store : Action (Unit {0})
exec_s_store = do
  offset ← pop
  val ← pop
  m ← get
  s ← unwrap (Storage.insert m.owner offset val m.storage)
  put_storage s

module _ ⦃p : Primitives⦄ where
  -- Keccak256. `offset + size` is an addition of `usize`.
  unfoldable pub exec_keccak256 : Action (Unit {0})
  exec_keccak256 = do
    offset ← pop
    size ← pop
    m ← get
    let start = p.low_u64 offset
    bytes ← unwrap (slice m.memory start ((start + p.low_u64 size) % usize_mod))
    hash ← unwrap (p.from_slice (p.keccak256 bytes))
    push hash

  -- CallDataLoad.
  unfoldable pub exec_call_data_load : Action (Unit {0})
  exec_call_data_load = do
    offset ← pop
    m ← get
    let start = if leb usize_mod offset then length m.input else p.low_u64 offset
    let end = min ((start + 32) % usize_mod) (length m.input)
    bytes ← unwrap (slice m.input start end)
    word ← unwrap (p.from_slice (resize bytes 32 0))
    push word
