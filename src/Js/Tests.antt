-- ===== src/Js/Tests.antt =====
-- crates/js/lib.rs: runs over a small engine, and the theorems at concrete runtimes.
use em.Base.{ℕ, ◌+◌, Bool, true, false, Option, none, some, ◌≡◌, refl, if◌then◌else◌}
use Prim.Native.String.{String}
use text.Mathlib.Text.{◌==◌}
use em.Base.Outcome.{ok, err}
use em.Js.Engine.{Engine, Promise}
use em.Js.Call.{
  CallResult, Runtime, get_contract_state, evolution, with_interaction, latched, settled, settle,
  call_handler, update, respond, read_answer, call,
}
use em.Js.Keeps.{IsUntouched, call-Kept}
use em.Js.Promises.{call-rejected}

-- A value is nothing, a number, an object with a state, a result and a source to evolve to, an error,
-- or a promise that is rejected with an error.
data Value : Type 0 where
  undefined thrown rejection : Value
  number : ℕ → Value
  answer : ℕ → Value → Value

abbrev property : Value → String → Value
property (Value.answer state value) key =
    if key == "state"
    then Value.answer state Value.undefined
    else if key == "result"
    then value
    else Value.undefined
property _ key = Value.undefined

abbrev object_of : Value → Option Value
object_of Value.undefined = none
object_of v = some v

abbrev settled_value : Value → Option Value
settled_value Value.rejection = none
settled_value v = some v

abbrev promise_of : Value → Option (Promise Value)
promise_of Value.rejection = some (Promise.rejected Value.thrown)
promise_of _ = none

abbrev absent : Value → Bool
absent Value.undefined = true
absent _ = false

-- The handler gives its action back.
abbrev engine : Engine Value ℕ
engine = record {
  set_interaction = λ c h. h;
  handle = λ m h. some m;
  call = λ f s a h. (some a, h + 1);
  promise = λ v h. promise_of v;
  resolve_value = λ v h. (settled_value v, h);
  to_object = object_of;
  get = λ v k h. (some (property v k), h);
  is_null_or_undefined = absent;
  boolean_value = λ v. false;
  to_rust_string_lossy = λ v h. "";
}

abbrev runtime : Runtime Value ℕ
runtime = record {
  rt = 0;
  module_value = Value.undefined;
  is_promise = none;
  contract_state = Value.number 1;
}

-- A state is kept for the next call.
call_state :
    (call engine (Value.answer 5 Value.undefined) none runtime).1.contract_state
    ≡ Value.answer 5 Value.undefined
unfolding call call_handler settle settled latched with_interaction read_answer respond update
    evolution
call_state = refl

-- With a result beside it the state is dropped.
call_result :
    (call engine (Value.answer 5 (Value.number 2)) none runtime).0
    ≡ ok (some (CallResult.result (Value.number 2)))
unfolding call call_handler settle settled latched with_interaction read_answer respond update
    evolution
call_result = refl

-- A handle is the value itself.
abbrev from_v8 : Value → ℕ → Option Value
from_v8 v h = some v

runtime-IsUntouched :
    IsUntouched engine from_v8 Value.undefined (Value.number 1) (Value.answer 5 (Value.number 2))
runtime-IsUntouched = record {
  set_interaction = λ c h. refl;
  call = λ func h e. refl;
  resolve_value = λ v h. refl;
  get = λ v key h. refl;
}

call-Kept_example :
    get_contract_state from_v8 (call engine (Value.answer 5 (Value.number 2)) none runtime).1
    ≡ get_contract_state from_v8 runtime
unfolding call call_handler settle settled latched with_interaction read_answer respond update
    evolution
call-Kept_example =
    call-Kept engine from_v8 (Value.answer 5 (Value.number 2)) none runtime runtime-IsUntouched

call-rejected_example :
    ((call engine Value.rejection none (record runtime { is_promise = none })).0 ≡ ok none)
    × ((call engine Value.rejection none (record runtime { is_promise = some false })).0 ≡ err)
call-rejected_example =
    call-rejected engine Value.rejection Value.undefined Value.rejection Value.thrown Value.thrown
      Value.undefined runtime 1 refl refl refl refl refl refl refl refl refl refl
