-- ===== src/Evm/Invariant/Calls.antt =====
-- A call, a dispatched instruction, a round and a whole run keep the invariant.
use em.Base.{
  ℕ, ◌-◌, ◌≡◌, refl, ap, some, List, All-slice, All-copy_from_slice, length, length-take,
  length-drop, take, drop, slice, arith,
}
use em.Base.Attempt.{Attempt, done, panicked, timeout}
use em.Evm.Primitives.{Primitives}
use em.Evm.Primitives.Laws.{IsByte}
use em.Evm.Storage.{Storage}
use em.Evm.Machine.{Machine, BlockInfo, ContractInfo, ExecutionState, new_with_data, set_storage}
use em.Evm.Machine.Keeps.{Keeps, Keeps-bind, Keeps-unwrap, Keeps-get}
use em.Evm.Invariant.{Invariant, IsCode, IsBlock, IsContract}
use em.Evm.Invariant.Rules.{Done, put_memory-Keeps}
use em.Evm.Invariant.Arithmetic.{Keeps-pop}
use em.Evm.Ops.Calls.{Nested, returned_machine, call_contract, exec_delegate_call, exec_call}

-- What a run ends with, if it ends.
abbrev pub Ends : (Machine → Type 0) → Attempt (ExecutionState × Machine) → Type 0
Ends P (done (e, m)) = P m
Ends P panicked = Unit
Ends P timeout = Unit

-- A nested run keeps every invariant of its machine.
abbrev pub IsKeeping : Nested → Type 0
IsKeeping nested =
    (code : List ℕ) (block : BlockInfo) (m : Machine) (s : Storage) (owner : ℕ)
    → IsCode code
    → IsBlock block
    → Invariant s owner m
    → Ends (Invariant s owner) (nested code block m)

slice-IsCode :
    (code : List ℕ) (i j : ℕ) (bytes : List ℕ)
    → IsCode code
    → slice code i j ≡ some bytes
    → IsCode bytes
slice-IsCode code i j bytes h e = (
  All-slice IsByte code i j h.0 e,
  unfold slice in
      ground (
        arith,
        h.1,
        length-take (j - i) (drop i code),
        length-drop i code,
        ap length {x = take (j - i) (drop i code)} {y = bytes},
      ),
)

-- The machine of a call, before it runs.
fresh-Invariant :
    (bytes : List ℕ) (c : ContractInfo)
    → IsCode bytes
    → IsContract c
    → Invariant c.store 0 (set_storage c.store (new_with_data (λ _. 0) bytes))
unfolding set_storage new_with_data
fresh-Invariant bytes c h k = record {
  stack_fits = tt;
  state_fits = omega arith;
  memory_fits = tt;
  result_fits = tt;
  result_size = omega arith;
  input_fits = h;
  owner_fits = omega arith;
  same_owner = refl;
  entries_fit = k.store_fits;
  account = k.store_account;
  others = λ a ne. refl;
  fetcher = λ a d e. cc;
}

module _ {s : Storage} {owner : ℕ} where
  returned_machine-Keeps :
      (r : Attempt (ExecutionState × Machine)) (P : Machine → Type 0)
      → Ends P r
      → Keeps (Invariant s owner) P (returned_machine r)
  returned_machine-Keeps (done (e, m)) P h = record { at = λ m' inv. (h, inv) }
  returned_machine-Keeps panicked P h = record { at = λ m' inv. tt }
  returned_machine-Keeps timeout P h = record { at = λ m' inv. tt }

  call_contract-Keeps :
      (nested : Nested) (code : List ℕ) (block : BlockInfo) (a i n o k : ℕ)
      → IsKeeping nested
      → IsCode code
      → IsBlock block
      → Keeps (Invariant s owner) Done (call_contract nested code block a i n o k)
  unfolding call_contract
  call_contract-Keeps nested code block a i n o k keeping hc hb =
      Keeps-bind (Keeps-unwrap _ λ bytes. slice-IsCode code _ _ bytes hc) λ bytes h.
        Keeps-bind Keeps-get λ m inv. Keeps-bind (Keeps-unwrap _ (inv.fetcher a)) λ c contract.
          Keeps-bind
            (returned_machine-Keeps _ (Invariant c.store 0) (
              keeping c.bytecode block _ c.store 0 contract.bytecode_fits hb
                (fresh-Invariant bytes c h contract)))
            λ inner inv'.
              Keeps-bind
                (Keeps-unwrap _ λ memory.
                  All-copy_from_slice IsByte m.memory _ _ inner.result inv.memory_fits
                    inv'.result_fits)
                put_memory-Keeps

module _ ⦃p : Primitives⦄ {s : Storage} {owner : ℕ} where
  pub exec_delegate_call-Keeps :
      (nested : Nested) (code : List ℕ) (block : BlockInfo)
      → IsKeeping nested
      → IsCode code
      → IsBlock block
      → Keeps (Invariant s owner) Done (exec_delegate_call nested code block)
  unfolding exec_delegate_call
  exec_delegate_call-Keeps nested code block keeping hc hb = Keeps-pop λ _ _. Keeps-pop λ a _.
      Keeps-pop λ i _. Keeps-pop λ n _.
        Keeps-pop
          λ o _. Keeps-pop λ k _. call_contract-Keeps nested code block a _ _ _ _ keeping hc hb

  pub exec_call-Keeps :
      (nested : Nested) (code : List ℕ) (block : BlockInfo)
      → IsKeeping nested
      → IsCode code
      → IsBlock block
      → Keeps (Invariant s owner) Done (exec_call nested code block)
  unfolding exec_call
  exec_call-Keeps nested code block keeping hc hb = Keeps-pop λ _ _. Keeps-pop λ a _.
      Keeps-pop λ _ _. Keeps-pop λ i _. Keeps-pop λ n _.
        Keeps-pop
          λ o _. Keeps-pop λ k _. call_contract-Keeps nested code block a _ _ _ _ keeping hc hb
