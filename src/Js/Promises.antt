-- ===== src/Js/Promises.antt =====
-- crates/js/lib.rs, `Runtime::call`: a handler whose promise is rejected.
use em.Base.{true, false, none, some, ◌≡◌, refl}
use em.Base.Outcome.{ok, err}
use em.Js.Engine.{Engine, Promise}
use em.Js.Call.{
  Runtime, with_interaction, latched, settled, settle, call_handler, update, respond, read_answer,
  call,
}

module _ {X H : Type 0} (v8 : Engine X H) where
  -- If the handler's promise is rejected with an object that has no result and no state, which
  -- the engine resolves to itself, the first call of a runtime succeeds with no result, while a
  -- call after a settled promise is an error.
  pub call-rejected :
      (action func promise error object undefined : X) (r : Runtime X H) (h : H)
      → v8.handle r.module_value r.rt ≡ some func
      → v8.call func r.contract_state action r.rt ≡ (some promise, h)
      → v8.promise promise h ≡ some (Promise.rejected error)
      → v8.resolve_value promise h ≡ (none, h)
      → v8.resolve_value error h ≡ (some error, h)
      → v8.to_object error ≡ some object
      → v8.get object "result" h ≡ (some undefined, h)
      → v8.get object "state" h ≡ (some undefined, h)
      → v8.is_null_or_undefined undefined ≡ true
      → v8.to_object undefined ≡ none
      → ((call v8 action none (record r { is_promise = none })).0 ≡ ok none)
        × ((call v8 action none (record r { is_promise = some false })).0 ≡ err)
  unfolding call call_handler settle settled latched with_interaction read_answer respond update
  call-rejected action func promise error object undefined r h h₁ h₂ h₃ h₄ h₅ h₆ h₇ h₈ h₉ h₁₀ =
      (rw (h₁, h₂, h₃, h₅, h₆, h₇, h₉, h₈, h₁₀) refl, rw (h₁, h₂, h₄) refl)
