-- ===== src/Wasm/Tests.antt =====
-- crates/wasm/lib.rs: the theorems at a small guest.
use em.Base.{slice}
use em.Base.Bytes.{from_le_bytes}
use em.Wasm.ReadState.{read_state, read_state_lem}
use em.Base.{ℕ, ◌+◌, Option, none, some, List, [], ◌∷◌, inl, inr, ◌≡◌, refl, arith, replicate}
use em.Base.Int.{ℤ, pos}
use em.Base.Outcome.{ok, err}
use em.Executor.Runtimes.{InteractionContext}
use em.Metering.Operators.{Operator, Instruction}
use em.Metering.Operators.Mapping.{map_operator}
use em.Metering.Code.{map_all, meter}
use em.Wasm.Memory.{region}
use em.Wasm.Runtime.{Instance, Guest, Frame, run_handle, call}
use em.Wasm.Regions.{call_lem, call-terminated}
use em.Wasm.Cost.{get_cost, run_line, get_cost-meter}

-- A guest whose allocator goes upwards, and whose handler throws.
abbrev bump : ℕ → Instance ℕ → Option ℕ × Instance ℕ
bump n i = (some i.guest, record i { guest = i.guest + n })

abbrev thrower : Guest ℕ
thrower = record { alloc = bump; handle = λ a b c d e f i. (none, i); get_len = λ i. (some 0, i) }

abbrev instance_at : ℕ → Instance ℕ
instance_at n = record { memory = replicate 8 0; cost = 0; guest = n }

abbrev frame : Frame ℕ
frame = record { instance_of = instance_at 0; state = 1 ∷ 2 ∷ []; action = 3 ∷ [] }

abbrev context : InteractionContext
context = record {
  transaction = record { id = ""; owner = ""; tags = []; target = ""; quantity = ""; reward = "" };
  block = record { height = 0; indep_hash = ""; timestamp = 0 };
}

call_lem_example :
    (m : List ℕ) × (region m 2 2 ≡ 1 ∷ 2 ∷ [])
    × (region m 4 1 ≡ 3 ∷ [])
    × (region m 0 2 ≡ 123 ∷ 125 ∷ [])
    × (call thrower (λ c. some (123 ∷ 125 ∷ [])) context frame
        ≡ run_handle thrower 2 4 0 2 (record {
          instance_of = record (instance_at 5) { memory = m };
          state = 0 ∷ 0 ∷ [];
          action = 0 ∷ [];
        }))
call_lem_example =
    call_lem thrower (λ c. some (123 ∷ 125 ∷ [])) context (123 ∷ 125 ∷ []) frame (instance_at 2)
      (instance_at 4) (instance_at 5) 0 2 4 refl refl refl refl (omega arith) (omega arith)
      (omega arith) (inl (omega arith)) (inr (omega arith)) (inr (omega arith))

call-terminated_example :
    ((call thrower (λ c. some (123 ∷ 125 ∷ [])) context frame).0 ≡ err)
    × ((call thrower (λ c. some (123 ∷ 125 ∷ [])) context frame).1.state ≡ 0 ∷ 0 ∷ [])
call-terminated_example =
    call-terminated thrower (λ c. some (123 ∷ 125 ∷ [])) context (123 ∷ 125 ∷ []) frame
      (instance_at 2) (instance_at 4) (instance_at 5) 0 2 4 refl refl refl refl (omega arith)
      (omega arith) (omega arith) (inl (omega arith)) (inr (omega arith)) (inr (omega arith))
      λ ns na i. refl

abbrev seven : Instruction → ℤ
seven i = pos 7

map_body :
    map_all (map_operator (some 1)) (Operator.nop ∷ Operator.end ∷ [])
    ≡ ok (Instruction.nop ∷ Instruction.end ∷ [])
unfolding map_all map_operator
map_body = refl

get_cost-meter_example :
    (is : List Instruction) × (meter seven 1 (Operator.nop ∷ Operator.end ∷ []) ≡ ok is)
    × (get_cost (run_line 1 0 is (instance_at 0)) ≡ 14)
get_cost-meter_example =
    get_cost-meter ℕ 1 seven (Operator.nop ∷ Operator.end ∷ [])
      (Instruction.nop ∷ Instruction.end ∷ []) (instance_at 0) refl map_body refl (omega arith)

-- The contract at the bytes 0, 0 has the state 9, 9.
read_state_lem_example :
    (read_state thrower (λ id. some (9 ∷ 9 ∷ [])) 0 2 0 (instance_at 4)
      ≡ (ok 4, record (instance_at 6) { memory = 2 ∷ 0 ∷ 0 ∷ 0 ∷ 9 ∷ 9 ∷ 0 ∷ 0 ∷ [] }))
    × (region (2 ∷ 0 ∷ 0 ∷ 0 ∷ 9 ∷ 9 ∷ 0 ∷ 0 ∷ []) 4 2 ≡ 9 ∷ 9 ∷ [])
    × (from_le_bytes (region (2 ∷ 0 ∷ 0 ∷ 0 ∷ 9 ∷ 9 ∷ 0 ∷ 0 ∷ []) 0 4) ≡ 2)
unfolding slice
read_state_lem_example =
    read_state_lem thrower (λ id. some (9 ∷ 9 ∷ [])) 0 2 0 4 (0 ∷ 0 ∷ []) (9 ∷ 9 ∷ [])
      (instance_at 4) (record (instance_at 6) { memory = 2 ∷ 0 ∷ 0 ∷ 0 ∷ 0 ∷ 0 ∷ 0 ∷ 0 ∷ [] }) refl
      refl (omega arith) (omega arith) refl refl (omega arith) (inl (omega arith))
