-- ===== src/Evm/Machine.antt =====
-- crates/evm/lib.rs: the machine, its stack, and the actions of which `execute` is made. An action
-- goes on with a value, ends the run with an execution state, panics, or runs out of fuel.
pub mod Keeps
use em.Base.{
  ℕ, ◌+◌, ◌-◌, Bool, true, false, Option, none, some, List, [], ◌∷◌, length, get_elem?, set, ltb,
  ◌==◌, if◌then◌else◌,
}
use em.Evm.Instruction.{Instruction}
use em.Evm.Storage
use em.Evm.Storage.{Storage}

pub data AbortError : Type 0 where
  div_zero invalid_opcode : AbortError

pub data ExecutionState : Type 0 where
  abort : AbortError → ExecutionState
  revert ok : ExecutionState

pub record BlockInfo : Type 0 where
  pub timestamp : ℕ
  pub difficulty : ℕ
  pub block_hash : ℕ
  pub number : ℕ

pub record ContractInfo : Type 0 where
  pub store : Storage
  pub bytecode : List ℕ

-- The stack has its top, which is the end of the source's `Vec`, at the head.
pub record Machine : Type 0 where
  pub stack : List ℕ
  pub state : ℕ
  pub memory : List ℕ
  pub result : List ℕ
  pub cost_fn : Instruction → ℕ
  pub fetch_contract : ℕ → Option ContractInfo
  pub gas_used : ℕ
  pub input : List ℕ
  pub storage : Storage
  pub owner : ℕ

-- `Machine::new_with_data`; `input` is the field `data`.
unfoldable pub new_with_data : (Instruction → ℕ) → List ℕ → Machine
unfolding Storage.new
new_with_data cost_fn input = record {
  stack = [];
  state = 0;
  memory = [];
  result = [];
  cost_fn = cost_fn;
  fetch_contract = λ _. none;
  gas_used = 0;
  input = input;
  storage = Storage.new 0;
  owner = 0;
}

-- `Machine::new`
unfoldable pub new : (Instruction → ℕ) → Machine
unfolding new_with_data
new cost_fn = new_with_data cost_fn []

unfoldable pub set_storage : Storage → Machine → Machine
set_storage s m = record m { storage = s }

unfoldable pub set_fetcher : (ℕ → Option ContractInfo) → Machine → Machine
set_fetcher f m = record m { fetch_contract = f }

pub data Flow (A : Type 0) : Type 0 where
  next : A → Machine → Flow A
  stop : ExecutionState → Machine → Flow A
  panic exhausted : Flow A

abbrev pub Action : Type 0 → Type 0
Action A = Machine → Flow A

unfoldable pub pure : {A : Type 0} → A → Action A
pure a m = next a m

abbrev pub continue : {A B : Type 0} → Flow A → (A → Action B) → Flow B
continue (next a m) f = f a m
continue (stop e m) f = stop e m
continue panic f = panic
continue exhausted f = exhausted

-- `return state;` in the middle of `execute`.
unfoldable pub finish : {A : Type 0} → ExecutionState → Action A
finish e m = stop e m

-- The value of an operation that panics.
unfoldable pub unwrap : {A : Type 0} → Option A → Action A
unwrap none m = panic
unwrap (some a) m = next a m

unfoldable pub get : Action Machine
get m = next m m

unfoldable pub put_memory : List ℕ → Action (Unit {0})
put_memory bytes m = next tt (record m { memory = bytes })

-- `Stack::push`, `Stack::pop` with its `unwrap`, and `Stack::peek`.
unfoldable pub push : ℕ → Action (Unit {0})
push v m = next tt (record m { stack = v ∷ m.stack })

abbrev pub pop_from : List ℕ → Action ℕ
pop_from [] m = panic
pop_from (v ∷ vs) m = next v (record m { stack = vs })

unfoldable pub pop : Action ℕ
pop m = pop_from m.stack m

unfoldable pub peek : Action ℕ
peek m = unwrap (get_elem? m.stack 0) m

-- `Stack::swap`: on an empty stack `len() - 1` is out of range whatever it wraps to.
abbrev pub swap_from : List ℕ → ℕ → Option (List ℕ)
swap_from [] index = none
swap_from (v ∷ vs) index = elim (get_elem? (v ∷ vs) index) [
  | none ↦ some (v ∷ vs)
  | some w ↦ some (set (set (v ∷ vs) 0 w) index v)
]

unfoldable pub swap : ℕ → Action (Unit {0})
swap index m =
    continue (unwrap (swap_from m.stack index) m) λ vs m'. next tt (record m' { stack = vs })

-- `Stack::dup`: the item `index` places below the end.
unfoldable pub dup : ℕ → Action (Unit {0})
dup index m = if index == 0 then panic else continue (unwrap (get_elem? m.stack (index - 1)) m) push

infixl 5 ◌>>=◌ ◌>>◌
-- Opening this opens the actions above too.
unfoldable pub ◌>>=◌ : {A B : Type 0} → Action A → (A → Action B) → Action B
unfolding pure finish unwrap get put_memory push pop peek swap dup
◌>>=◌ act f m = continue (act m) f

abbrev pub ◌>>◌ : {B : Type 0} → Action (Unit {0}) → Action B → Action B
act >> rest = act >>= λ _. rest
