-- ===== src/Evm/Ops/Memory.antt =====
-- The arms MLoad, MStore and MStore8. The sums of offsets are additions of `usize`.
pub mod Bytes
pub mod Load
use em.Base.{
  ℕ, ◌+◌, ◌-◌, ◌%◌, List, Option, none, some, length, leb, if◌then◌else◌, get_elem?, put, resize,
  replicate, for_range, min,
}
use em.Evm.Primitives.{Primitives, usize_mod}
use em.Evm.Machine.{Action, ◌>>=◌, unwrap, get, put_memory, push, pop}

abbrev pub opt_bind : Option ℕ → (ℕ → Option (List ℕ)) → Option (List ℕ)
opt_bind none f = none
opt_bind (some a) f = f a

-- A body of MLoad's loop: `data[idx] = self.memory[mem_ptr]`.
unfoldable pub load_byte : List ℕ → ℕ → ℕ → List ℕ → Option (List ℕ)
load_byte memory len idx word = opt_bind (get_elem? memory (len + idx)) (put word idx)

module _ ⦃p : Primitives⦄ where
  -- The loop runs over `(0..len).zip(len..len + 32)`, where `len` is the offset.
  unfoldable pub exec_m_load : Action (Unit {0})
  exec_m_load = do
    offset ← pop
    m ← get
    let len = p.low_u64 offset
    let rounds = min len ((len + 32) % usize_mod - len)
    bytes ← unwrap (for_range rounds 0 (load_byte m.memory len) (replicate 32 0))
    word ← unwrap (p.from_slice bytes)
    push word

  -- A body of MStore's loop: `self.memory[offset + i] = val.byte(4 * 8 - 1 - i)`.
  unfoldable pub store_byte : ℕ → ℕ → ℕ → List ℕ → Option (List ℕ)
  store_byte val offset i memory =
      opt_bind (p.byte val (31 - i)) (put memory ((offset + i) % usize_mod))

  unfoldable pub exec_m_store : Action (Unit {0})
  exec_m_store = do
    top ← pop
    val ← pop
    m ← get
    let offset = p.low_u64 top
    let end = (offset + 32) % usize_mod
    let memory = if leb (length m.memory) end then resize m.memory end 0 else m.memory
    memory' ← unwrap (for_range 32 0 (store_byte val offset) memory)
    put_memory memory'

  unfoldable pub exec_m_store8 : Action (Unit {0})
  exec_m_store8 = do
    offset ← pop
    val ← pop
    m ← get
    let mem_ptr = p.low_u64 offset
    let memory =
        if leb (length m.memory) mem_ptr
        then resize m.memory ((mem_ptr + 32) % usize_mod) 0
        else m.memory
    byte ← unwrap (p.byte val 0)
    memory' ← unwrap (put memory mem_ptr byte)
    put_memory memory'
