-- ===== src/Js/Keeps.antt =====
-- crates/js/lib.rs, `Runtime::call`: when the contract's state changes.
use em.Base.{Bool, true, false, Option, none, some, ◌≡◌, refl, ap, sym, ◌∙◌}
use Prim.Native.String.{String}
use em.Base.Outcome.{Outcome, ok, err}
use em.Executor.Runtimes.{InteractionContext}
use em.Js.Engine.{Engine, Promise}
use em.Js.Run.{Ends, Ends-then, try-then, unwrap-then}
use em.Js.Call.{
  CallResult, Runtime, get_contract_state, with_interaction, latched, settled, keep_flag, settle,
  call_handler, update, evolution, respond, read_answer, call,
}

module _ {X H V : Type 0} (v8 : Engine X H) (from_v8 : X → H → Option V) where
  -- What runs in the engine for a call with `action` does not change what the object `state` reads as:
  -- neither the module's handler nor the code that a promise or a property runs writes to it.
  pub record IsUntouched (module_value state action : X) : Type 0 where
    pub set_interaction :
        (c : InteractionContext) (h : H) → from_v8 state (v8.set_interaction c h) ≡ from_v8 state h
    pub call :
        (func : X) (h : H)
        → v8.handle module_value h ≡ some func
        → from_v8 state (v8.call func state action h).1 ≡ from_v8 state h
    pub resolve_value : (v : X) (h : H) → from_v8 state (v8.resolve_value v h).1 ≡ from_v8 state h
    pub get : (v : X) (key : String) (h : H) → from_v8 state (v8.get v key h).1 ≡ from_v8 state h

  -- The state of the contract reads as before, if the call gives a result or fails with an error.
  abbrev pub Kept : Option V → Outcome (Option (CallResult X)) → Runtime X H → Type 0
  Kept read (ok (some (CallResult.result v))) r = get_contract_state from_v8 r ≡ read
  Kept read err r = get_contract_state from_v8 r ≡ read
  Kept read _ r = Unit

  -- The runtime behind an operation of the engine.
  abbrev moved : {A : Type 0} → (H → Option A × H) → Runtime X H → Runtime X H
  moved op r = record r { rt = (op r.rt).1 }

  module _ (m s action : X) (u : IsUntouched m s action) (read : Option V) where
    -- The handle is the same, and reads the same.
    abbrev Same : Runtime X H → Type 0
    Same r = (r.contract_state ≡ s) × (from_v8 s r.rt ≡ read)

    Same-read : (r : Runtime X H) → Same r → get_contract_state from_v8 r ≡ read
    unfolding get_contract_state
    Same-read r h = ap (λ x. from_v8 x r.rt) h.0 ∙ h.1

    get-Same : (v : X) (key : String) (r : Runtime X H) → Same r → Same (moved (v8.get v key) r)
    get-Same v key r h = (h.0, u.get v key r.rt ∙ h.1)

    evolution-Kept :
        (state : X) (can : Bool) (r : Runtime X H) → Ends (Kept read) (evolution v8 state can r)
    unfolding evolution
    evolution-Kept state false r = tt
    evolution-Kept state true r =
        unwrap-then (Kept read) (v8.get state "evolve" r.rt).0 (moved (v8.get state "evolve") r) _
          tt λ source e. tt

    update-Kept :
        (state_obj : X) (state : Option X) (r : Runtime X H)
        → Ends (Kept read) (update v8 state_obj state r)
    unfolding update evolution
    update-Kept state_obj none r = tt
    update-Kept state_obj (some state) r =
        unwrap-then (Kept read) (v8.get state "canEvolve" r.rt).0
          (moved (v8.get state "canEvolve") (record r { contract_state = state_obj })) _ tt
          λ can e. evolution-Kept state (v8.boolean_value can) _

    respond-Kept :
        (state value : X) (absent : Bool) (r : Runtime X H)
        → Same r
        → Ends (Kept read) (respond v8 state value absent r)
    unfolding respond
    respond-Kept state value false r h = Same-read r h
    respond-Kept state value true r h =
        unwrap-then (Kept read) (v8.get state "state" r.rt).0 (moved (v8.get state "state") r) _ tt
          λ state_obj e. update-Kept state_obj (v8.to_object state_obj) _

    read_answer-Kept :
        (local : X) (r : Runtime X H) → Same r → Ends (Kept read) (read_answer v8 local r)
    unfolding read_answer
    read_answer-Kept local r h =
        let r₁ = moved (v8.resolve_value local) r in
        let h₁ : Same r₁ = (h.0, u.resolve_value local r.rt ∙ h.1) in
        try-then (Kept read) (v8.resolve_value local r.rt).0 r₁ _ (Same-read r₁ h₁) λ global e.
          try-then (Kept read) (v8.to_object global) r₁ _ (Same-read r₁ h₁) λ state e.
            unwrap-then (Kept read) (v8.get state "result" r₁.rt).0
              (moved (v8.get state "result") r₁) _ tt
              λ value e.
                respond-Kept state value (v8.is_null_or_undefined value)
                  (moved (v8.get state "result") r₁) (get-Same state "result" r₁ h₁)

    -- The handler's own part of a call.
    abbrev Handled : Outcome X → Runtime X H → Type 0
    Handled o r = Same r

    settle-Same : (local : X) (r : Runtime X H) → Same r → Ends Handled (settle v8 local r)
    unfolding settle settled
    settle-Same local r h =
        go (latched v8 r.is_promise (v8.promise local r.rt)) (v8.promise local r.rt)
      where
        go :
            (b : Bool) (o : Option (Promise X))
            → Ends Handled (keep_flag v8 (settled v8 b local o) r)
        go false o = h
        go true none = h
        go true (some Promise.pending) = h
        go true (some (Promise.fulfilled v)) = h
        go true (some (Promise.rejected v)) = h

    with_interaction-Same :
        (i : Option InteractionContext) (r : Runtime X H) → Same r → Same (with_interaction v8 i r)
    unfolding with_interaction
    with_interaction-Same none r h = h
    with_interaction-Same (some c) r h = (h.0, u.set_interaction c r.rt ∙ h.1)

    call-Same :
        (func : X) (r : Runtime X H)
        → v8.handle m r.rt ≡ some func
        → Same r
        → Same (moved (v8.call func r.contract_state action) r)
    call-Same func r e h =
        (h.0, ap (λ x. from_v8 s (v8.call func x action r.rt).1) h.0 ∙ u.call func r.rt e ∙ h.1)

    with_interaction-module :
        (i : Option InteractionContext) (r : Runtime X H)
        → (with_interaction v8 i r).module_value ≡ r.module_value
    unfolding with_interaction
    with_interaction-module none r = refl
    with_interaction-module (some c) r = refl

    call_handler-Same :
        (i : Option InteractionContext) (r : Runtime X H)
        → r.module_value ≡ m
        → Same r
        → Ends Handled (call_handler v8 action i r)
    unfolding call_handler
    call_handler-Same i r k h =
        let r₁ = with_interaction v8 i r in
        let h₁ = with_interaction-Same i r h in
        unwrap-then Handled (v8.handle r₁.module_value r₁.rt) r₁ _ h₁ λ func e.
          let e₁ = ap (λ x. v8.handle x r₁.rt) (sym (with_interaction-module i r ∙ k)) ∙ e in
          let h₂ = call-Same func r₁ e₁ h₁ in
          try-then Handled (v8.call func r₁.contract_state action r₁.rt).0
            (moved (v8.call func r₁.contract_state action) r₁) _ h₂
            λ local e. settle-Same local (moved (v8.call func r₁.contract_state action) r₁) h₂

  -- A call of a JavaScript contract that gives a result, or fails with an error, leaves the
  -- contract's state as it was, as get_contract_state reads it, if what runs in the engine during the
  -- call does not write to that state's object: the state beside a result is dropped.
  pub call-Kept :
      (action : X) (interaction : Option InteractionContext) (r : Runtime X H)
      → IsUntouched r.module_value r.contract_state action
      → Ends (Kept (get_contract_state from_v8 r)) (call v8 action interaction r)
  unfolding call get_contract_state
  call-Kept action i r u =
      let read = from_v8 r.contract_state r.rt in
      Ends-then (Kept read) (Handled r.module_value r.contract_state action u read)
        (call_handler v8 action i r) _
        (call_handler-Same r.module_value r.contract_state action u read i r refl (refl, refl))
        (λ t q. Same-read r.module_value r.contract_state action u read t q) (λ t q. tt)
        λ local t q. read_answer-Kept r.module_value r.contract_state action u read local t q
