-- ===== src/Evm/Ops/Copies.antt =====
-- The arms CallDataCopy, CodeCopy and ReturnDataCopy. The sums of offsets are additions of `usize`.
use em.Base.{
  ℕ, ◌+◌, ◌%◌, ◌||◌, List, Option, none, some, length, ltb, if◌then◌else◌, get_elem?, put, slice,
  resize, copy_from_slice, for_range, min,
}
use em.Evm.Primitives.{Primitives, usize_mod}
use em.Evm.Machine.{
  Action, ◌>>=◌, pure, unwrap, finish, get, put_memory, pop, panic, ExecutionState,
}

-- A body of the loops of CodeCopy and ReturnDataCopy: a zero where `i > bytes.len()`, else
-- `bytes[i]`.
unfoldable pub copy_byte : List ℕ → ℕ → ℕ → List ℕ → Option (List ℕ)
copy_byte bytes mem_offset i memory =
    if ltb (length bytes) i
    then put memory ((mem_offset + i) % usize_mod) 0
    else elim (get_elem? bytes i) [
      | none ↦ none
      | some b ↦ put memory ((mem_offset + i) % usize_mod) b
    ]

-- The memory is extended to `mem_offset + 32` bytes, and 32 bytes are written.
unfoldable pub copy_word : List ℕ → ℕ → Action (Unit {0})
copy_word bytes mem_offset = do
  m ← get
  let end = (mem_offset + 32) % usize_mod
  let memory = if ltb (length m.memory) end then resize m.memory end 0 else m.memory
  memory' ← unwrap (for_range 32 0 (copy_byte bytes mem_offset) memory)
  put_memory memory'

module _ ⦃p : Primitives⦄ where
  -- The early return for an offset behind the input, or a sum that overflows a `U256`.
  unfoldable pub exec_call_data_copy : Action (Unit {0})
  exec_call_data_copy = do
    top ← pop
    data_offset ← pop
    data_size ← pop
    m ← get
    if ltb (length m.input) data_offset || (p.overflowing_add data_offset data_size).1
        then finish ExecutionState.ok
        else (do
          let offset = p.low_u64 data_offset
          let end = min ((offset + p.low_u64 data_size) % usize_mod) (length m.input)
          bytes ← unwrap (slice m.input offset end)
          let mem_offset = p.low_u64 top
          let mem_end = (mem_offset + 32) % usize_mod
          memory ← unwrap (copy_from_slice m.memory mem_offset mem_end (resize bytes 32 0))
          put_memory memory)

  -- The test is against the length of the input.
  unfoldable pub exec_code_copy : List ℕ → Action (Unit {0})
  exec_code_copy code = do
    top ← pop
    second ← pop
    third ← pop
    m ← get
    let code_offset = p.low_u64 second
    if ltb code_offset (length m.input)
        then (do
          bytes ← unwrap (slice code code_offset ((code_offset + p.low_u64 third) % usize_mod))
          copy_word bytes (p.low_u64 top))
        else pure tt

  unfoldable pub exec_return_data_copy : Action (Unit {0})
  exec_return_data_copy = do
    top ← pop
    second ← pop
    third ← pop
    m ← get
    let data_offset = p.low_u64 second
    let end = (data_offset + p.low_u64 third) % usize_mod
    if ltb (length m.result) end
        then (λ _. panic)
        else (do bytes ← unwrap (slice m.result data_offset end); copy_word bytes (p.low_u64 top))
