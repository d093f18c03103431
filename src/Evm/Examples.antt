-- ===== src/Evm/Examples.antt =====
-- Concrete cases of what is shown of crates/evm.
use em.Evm.Ops.Memory.{exec_m_load, exec_m_store}
use em.Evm.Ops.Memory.Load.{exec_m_store-exec_m_load, exec_m_load-zero}
use em.Base.{List}
use em.Evm.Ops.Arithmetic.{exec_s_mod, exec_s_div}
use em.Evm.Ops.Arithmetic.Signed.{exec_s_mod-signed_remainder, exec_s_div-magnitude}
use em.Base.{ℕ, ◌-◌, ◌^◌, ◌≡◌, ◌↔◌, refl, some, [], ◌∷◌, arith}
use em.Base.Map
use em.Base.Map.{ℕ_eq}
use em.Evm.Instruction.{Instruction, try_from, discriminant}
use em.Evm.Instruction.Codes.{try_from-discriminant_iff}
use em.Evm.Primitives.Numbers.{numbers, numbers-Lawful}
use em.Evm.Storage
use em.Evm.Storage.{Storage, from_raw, raw}
use em.Evm.Storage.Lookups.{pick}
use em.Evm.Storage.RoundTrip.{from_raw-raw}
use em.Evm.Machine.{Machine, new, new_with_data, next, BlockInfo}
use em.Evm.Ops.Compare.{exec_s_lt, exec_s_gt}
use em.Evm.Ops.Compare.Signed.{exec_s_lt-biased}
use em.Evm.Ops.Context.{exec_s_store, exec_s_load}
use em.Evm.Ops.Context.Store.{exec_s_store-exec_s_load}
use em.Base.Attempt.{done}
use em.Evm.Execute.{run}
use em.Evm.Invariant.{Invariant, IsBlock}
use em.Evm.Invariant.Calls.{Ends}
use em.Evm.Invariant.Run.{run-Invariant}

abbrev machine : Machine
unfolding new new_with_data Storage.new
machine = new (λ _. 0)

try_from-discriminant_iff_example :
    (try_from 0x01 ≡ some Instruction.add) ↔ (discriminant Instruction.add ≡ 0x01)
try_from-discriminant_iff_example = try_from-discriminant_iff 0x01 Instruction.add

-- Minus one is less than one.
exec_s_lt-biased_example :
    (exec_s_lt (record machine { stack = (2 ^ 256 - 1) ∷ 1 ∷ [] })
      ≡ next tt (record machine { stack = 1 ∷ [] }))
    × (exec_s_gt (record machine { stack = (2 ^ 256 - 1) ∷ 1 ∷ [] })
        ≡ next tt (record machine { stack = 0 ∷ [] }))
exec_s_lt-biased_example =
    exec_s_lt-biased numbers-Lawful (2 ^ 256 - 1) 1 [] machine (omega arith) (omega arith)

-- Minus seven leaves the remainder minus one by three.
exec_s_mod-signed_remainder_example :
    exec_s_mod (record machine { stack = (2 ^ 256 - 7) ∷ 3 ∷ [] })
    ≡ next tt (record machine { stack = (2 ^ 256 - 1) ∷ [] })
exec_s_mod-signed_remainder_example =
    exec_s_mod-signed_remainder numbers-Lawful (2 ^ 256 - 7) 3 [] machine (omega arith)
      (omega arith)

-- Minus six by three is left as two.
exec_s_div-magnitude_example :
    exec_s_div (record machine { stack = (2 ^ 256 - 6) ∷ 3 ∷ [] })
    ≡ next tt (record machine { stack = 2 ∷ [] })
exec_s_div-magnitude_example =
    exec_s_div-magnitude numbers-Lawful (2 ^ 256 - 6) 3 [] machine (omega arith) (omega arith)
      (omega arith) (omega arith)

exec_m_store-exec_m_load_example :
    (memory : List ℕ) × (exec_m_store (record machine { stack = 64 ∷ 9 ∷ [] })
      ≡ next tt (record machine { stack = []; memory = memory }))
    × (exec_m_load (record machine { stack = 64 ∷ []; memory = memory })
        ≡ next tt (record machine { stack = 9 ∷ []; memory = memory }))
exec_m_store-exec_m_load_example =
    exec_m_store-exec_m_load numbers-Lawful 64 9 [] [] machine (omega arith) (omega arith)
      (omega arith)

-- The memory starts with a byte 1.
exec_m_load-zero_example :
    exec_m_load (record machine { stack = 0 ∷ []; memory = 1 ∷ [] })
    ≡ next tt (record machine { stack = 0 ∷ []; memory = 1 ∷ [] })
exec_m_load-zero_example = exec_m_load-zero numbers-Lawful [] (record machine { memory = 1 ∷ [] })

exec_s_store-exec_s_load_example :
    (s' : Storage) × (exec_s_store (record machine { stack = 7 ∷ 9 ∷ [] })
      ≡ next tt (record machine { stack = []; storage = s' }))
    × (exec_s_load (record machine { stack = 7 ∷ []; storage = s' })
        ≡ next tt (record machine { stack = 9 ∷ []; storage = s' }))
unfolding Storage.get Map.lookup Map.insert new new_with_data Storage.new
exec_s_store-exec_s_load_example = exec_s_store-exec_s_load 7 9 7 0 [] [] machine refl

abbrev block : BlockInfo
block = record { timestamp = 0; difficulty = 0; block_hash = 0; number = 0 }

block-IsBlock : IsBlock block
block-IsBlock = record {
  timestamp_fits = omega arith;
  difficulty_fits = omega arith;
  block_hash_fits = omega arith;
  number_fits = omega arith;
}

machine-Invariant : Invariant (Storage.new 0) 0 machine
unfolding new new_with_data Storage.new Map.insert Map.lookup
machine-Invariant = record {
  stack_fits = tt;
  state_fits = omega arith;
  memory_fits = tt;
  result_fits = tt;
  result_size = omega arith;
  input_fits = (tt, omega arith);
  owner_fits = omega arith;
  same_owner = refl;
  entries_fit = (tt, tt);
  account = ([], refl);
  others = λ a h. refl;
  fetcher = λ a c e. cc;
}

-- PUSH1 1, PUSH1 2, ADD.
run-Invariant_example :
    Ends (Invariant (Storage.new 0) 0) (run 10 (0x60 ∷ 1 ∷ 0x60 ∷ 2 ∷ 0x01 ∷ []) block 0 machine)
run-Invariant_example =
    run-Invariant numbers-Lawful 10 (0x60 ∷ 1 ∷ 0x60 ∷ 2 ∷ 0x01 ∷ []) block 0 machine
      (Storage.new 0) 0
      ((omega arith, (omega arith, (omega arith, (omega arith, (omega arith, tt))))), omega arith)
      block-IsBlock machine-Invariant

-- One account with one entry.
abbrev stored : Storage
stored = record { inner = (5, (7, 9) ∷ []) ∷ [] }

from_raw-raw_example :
    (s' : Storage) × (from_raw (raw stored) ≡ done s')
    × ((account key : ℕ)
        → Storage.get account key s'
          ≡ pick (Storage.get account key stored) (Storage.get account key (Storage.new 0)))
unfolding Map.lookup
from_raw-raw_example =
    from_raw-raw numbers-Lawful stored
      ((omega arith, ((omega arith, omega arith), tt), omega arith), tt) (refl, tt) ((refl, tt), tt)
