-- ===== src/Js/Call.antt =====
-- crates/js/lib.rs, `Runtime::call`.
use em.Base.{Bool, true, false, Option, none, some, is_some}
use Prim.Native.String.{String}
use em.Base.Outcome.{Outcome, ok, err, panicked}
use em.Executor.Runtimes.{InteractionContext}
use em.Js.Engine.{Engine, Promise}
use em.Js.Run.{Run, ◌>>=◌, return, try, unwrap, modify}

pub data CallResult (X : Type 0) : Type 0 where
  evolve : String → CallResult X
  result : X → CallResult X

-- The engine `rt`, and handles of values in it: the contract's state is an object that lives in the
-- engine, and that what runs there may change.
pub record Runtime (X H : Type 0) : Type 0 where
  pub rt : H
  pub module_value : X
  pub is_promise : Option Bool
  pub contract_state : X

-- What `contract_state` reads as, by `serde_v8::from_v8`.
unfoldable pub get_contract_state : {X H V : Type 0} → (X → H → Option V) → Runtime X H → Option V
get_contract_state from_v8 r = from_v8 r.contract_state r.rt

module _ {X H : Type 0} (v8 : Engine X H) where
  -- An operation of the engine on the runtime, whose failure is an error, or a panic.
  abbrev pub tried : {A : Type 0} → (H → Option A × H) → Run (Runtime X H) A
  tried op r = try (op r.rt).0 (record r { rt = (op r.rt).1 })

  abbrev pub unwrapped : {A : Type 0} → (H → Option A × H) → Run (Runtime X H) A
  unwrapped op r = unwrap (op r.rt).0 (record r { rt = (op r.rt).1 })

  unfoldable pub with_interaction : Option InteractionContext → Runtime X H → Runtime X H
  with_interaction none r = r
  with_interaction (some context) r = record r { rt = v8.set_interaction context r.rt }

  -- Whether the value is taken for a promise: the first call decides.
  unfoldable pub latched : Option Bool → Option (Promise X) → Bool
  latched none promise = is_some promise
  latched (some flag) promise = flag

  -- The flag and the value after the look at the promise.
  unfoldable pub settled : Bool → X → Option (Promise X) → Outcome (Bool × X)
  settled false local promise = ok (false, local)
  settled true local none = panicked
  settled true local (some Promise.pending) = ok (true, local)
  settled true local (some (Promise.fulfilled v)) = ok (false, v)
  settled true local (some (Promise.rejected v)) = ok (false, v)

  abbrev pub keep_flag : Outcome (Bool × X) → Run (Runtime X H) X
  keep_flag (ok (flag, local)) r = (ok local, record r { is_promise = some flag })
  keep_flag err r = (err, r)
  keep_flag panicked r = (panicked, r)

  unfoldable pub settle : X → Run (Runtime X H) X
  unfolding latched settled
  settle local r =
      keep_flag
        (settled (latched r.is_promise (v8.promise local r.rt)) local (v8.promise local r.rt)) r

  -- The block that calls the handler.
  unfoldable pub call_handler : X → Option InteractionContext → Run (Runtime X H) X
  unfolding with_interaction settle
  call_handler action interaction_data = do
    _ ← modify (with_interaction interaction_data)
    func ← λ r. unwrap (v8.handle r.module_value r.rt) r
    local ← λ r. tried (v8.call func r.contract_state action) r
    settle local

  -- The wish to evolve, if the state says that it can.
  unfoldable pub evolution : X → Bool → Run (Runtime X H) (Option (CallResult X))
  evolution state false = return none
  evolution state true = do
    source ← unwrapped (v8.get state "evolve")
    λ r. return (some (CallResult.evolve (v8.to_rust_string_lossy source r.rt))) r

  -- A new state, if it is an object.
  unfoldable pub update : X → Option X → Run (Runtime X H) (Option (CallResult X))
  unfolding evolution
  update state_obj none = return none
  update state_obj (some state) = do
    _ ← modify (λ r. record r { contract_state = state_obj })
    can_evolve ← unwrapped (v8.get state "canEvolve")
    evolution state (v8.boolean_value can_evolve)

  -- A return value, where it is given: then the state is not looked at.
  unfoldable pub respond : X → X → Bool → Run (Runtime X H) (Option (CallResult X))
  unfolding update
  respond state value false = return (some (CallResult.result value))
  respond state value true = do
    state_obj ← unwrapped (v8.get state "state")
    update state_obj (v8.to_object state_obj)

  -- The block that reads what the handler gave.
  unfoldable pub read_answer : X → Run (Runtime X H) (Option (CallResult X))
  unfolding respond
  read_answer local = do
    global ← tried (v8.resolve_value local)
    state ← try (v8.to_object global)
    value ← unwrapped (v8.get state "result")
    respond state value (v8.is_null_or_undefined value)

  unfoldable pub call : X → Option InteractionContext → Run (Runtime X H) (Option (CallResult X))
  unfolding call_handler read_answer
  call action interaction_data = do local ← call_handler action interaction_data; read_answer local
