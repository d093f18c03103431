-- ===== src/Js/Engine.antt =====
-- crates/js/lib.rs: what the runtime takes from V8 and deno_core.
use em.Base.{Bool, Option}
use Prim.Native.String.{String}
use em.Executor.Runtimes.{InteractionContext}

pub data Promise (X : Type 0) : Type 0 where
  pending : Promise X
  fulfilled rejected : X → Promise X

-- The values `X`, and the isolate `H`, which holds the objects and the globals.
pub record Engine (X H : Type 0) : Type 0 where
  -- The global `currentInteraction` is set.
  pub set_interaction : InteractionContext → H → H
  -- The function `handle` of a module, if it is one.
  pub handle : X → H → Option X
  -- A call of a function with a state and an action: `none` if it is terminated or throws.
  pub call : X → X → X → H → Option X × H
  -- A promise, if the value is one.
  pub promise : X → H → Option (Promise X)
  -- The event loop runs until the value, if it is a promise, is settled: `none` is an error.
  pub resolve_value : X → H → Option X × H
  pub to_object : X → Option X
  -- A property: `none` if reading it throws.
  pub get : X → String → H → Option X × H
  pub is_null_or_undefined : X → Bool
  pub boolean_value : X → Bool
  pub to_rust_string_lossy : X → H → String
