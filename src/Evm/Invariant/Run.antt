-- ===== src/Evm/Invariant/Run.antt =====
-- A whole run keeps the invariant, whatever the code does.
use em.Base.{
  ℕ, zero, suc, ◌+◌, ◌<◌, ◌≡◌, Bool, Option, none, some, List, [], ◌∷◌, length, get_elem?, ltb,
  arith, true, false,
}
use em.Base.Attempt.{Attempt}
use em.Evm.Primitives.{Primitives}
use em.Evm.Primitives.Laws.{Lawful}
use em.Evm.Storage.{Storage}
use em.Evm.Instruction.{Instruction, try_from}
use em.Evm.Machine.{Machine, BlockInfo, ExecutionState, Flow, next, stop, panic, exhausted}
use em.Evm.Machine.Keeps.{
  Keeps, Leaves, Keeps-bind, Keeps-pure, Keeps-finish, Keeps-unwrap, Keeps-unwrap_any, Keeps-get,
}
use em.Evm.Ops.Calls.{Nested}
use em.Evm.Execute.{charge, exec_instruction, round, resume, run}
use em.Evm.Invariant.{Invariant, IsCode, IsBlock}
use em.Evm.Invariant.Rules.{Done, with_gas}
use em.Evm.Invariant.Effects.{IsPc}
use em.Evm.Invariant.Calls.{Ends, IsKeeping}
use em.Evm.Invariant.Dispatch.{dispatch-Keeps}

get_elem?-lt {ℓ} :
    {A : Type ℓ} (xs : List A) (i : ℕ) (a : A) → get_elem? xs i ≡ some a → i < length xs
get_elem?-lt [] i a e = cc
get_elem?-lt (x ∷ xs) zero a e = omega arith
get_elem?-lt (x ∷ xs) (suc i) a e = omega (arith, get_elem?-lt xs i a e)

module _ ⦃p : Primitives⦄ (lawful : Lawful p) {s : Storage} {owner : ℕ} where
  charge-Keeps : (cost : ℕ) → Keeps (Invariant s owner) Done (charge cost)
  unfolding charge
  charge-Keeps cost = Keeps-bind Keeps-get λ m _.
      Keeps-bind (Keeps-unwrap_any _) λ total _. record { at = λ m' inv. (tt, with_gas total inv) }

  exec_instruction-Keeps :
      (nested : Nested) (code : List ℕ) (block : BlockInfo) (opcode pc : ℕ)
      → IsKeeping nested
      → IsCode code
      → IsBlock block
      → IsPc pc
      → (o : Option Instruction)
      → Keeps (Invariant s owner) IsPc (exec_instruction nested code block opcode pc o)
  unfolding exec_instruction
  exec_instruction-Keeps nested code block opcode pc keeping hc hb hp none = Keeps-finish _
  exec_instruction-Keeps nested code block opcode pc keeping hc hb hp (some i) =
      Keeps-bind Keeps-get λ m _.
        Keeps-bind (dispatch-Keeps lawful nested code block opcode pc keeping hc hb hp i)
          λ pc' hp'. Keeps-bind (charge-Keeps (m.cost_fn i)) λ _ _. Keeps-pure pc' hp'

  round-Keeps :
      (nested : Nested) (code : List ℕ) (block : BlockInfo) (pc : ℕ)
      → IsKeeping nested
      → IsCode code
      → IsBlock block
      → Keeps (Invariant s owner) IsPc (round nested code block pc)
  unfolding round
  round-Keeps nested code block pc keeping hc hb =
      Keeps-bind (Keeps-unwrap (get_elem? code pc) (get_elem?-lt code pc)) λ opcode h.
        exec_instruction-Keeps nested code block opcode (pc + 1) keeping hc hb (omega (arith, hc.1))
          (try_from opcode)

resume-Ends :
    (P : Machine → Type 0) (rest : ℕ → Machine → Attempt (ExecutionState × Machine)) (flow : Flow ℕ)
    → Leaves P IsPc flow
    → ((pc : ℕ) (m : Machine) → P m → Ends P (rest pc m))
    → Ends P (resume rest flow)
resume-Ends P rest (next pc m) l k = k pc m l.1
resume-Ends P rest (stop e m) l k = l
resume-Ends P rest panic l k = tt
resume-Ends P rest exhausted l k = tt

-- However a run ends, the words on the stack, in the context and in the storage are of the type
-- `U256`, memory, input and result are bytes, and of the storage that it began with only the
-- owner's account has changed; in particular the owner still has an account. The code and the block
-- are in range, and the contracts that the fetcher gives are as well.
pub run-Invariant :
    ⦃p : Primitives⦄
    → Lawful p
    → (fuel : ℕ) (code : List ℕ) (block : BlockInfo) (pc : ℕ) (m : Machine) (s : Storage)
      (owner : ℕ)
    → IsCode code
    → IsBlock block
    → Invariant s owner m
    → Ends (Invariant s owner) (run fuel code block pc m)
unfolding run
run-Invariant lawful zero code block pc m s owner hc hb inv = tt
run-Invariant lawful (suc fuel) code block pc m s owner hc hb inv = step (ltb pc (length code)) (
    resume-Ends (Invariant s owner) (run fuel code block)
      (round (λ code' block'. run fuel code' block' 0) code block pc m)
      ((round-Keeps lawful (λ code' block'. run fuel code' block' 0) code block pc
          (λ code' block' m' t o. run-Invariant lawful fuel code' block' 0 m' t o) hc hb).at
        m inv)
      λ pc' m'. run-Invariant lawful fuel code block pc' m' s owner hc hb)
  where
    step :
        (b : Bool)
        → Ends (Invariant s owner) (
            resume
              (run fuel code block)
              (round (λ code' block'. run fuel code' block' 0) code block pc m))
        → Ends (Invariant s owner) (elim b [
          | false ↦ Attempt.done (ExecutionState.ok, m)
          | true ↦
              resume
                (run fuel code block)
                (round (λ code' block'. run fuel code' block' 0) code block pc m)
        ])
    step false h = inv
    step true h = h
