-- ===== src/Executor/Raw/States.antt =====
-- crates/executor/executor.rs, `raw_execute_contract`: what it writes to the cache of states.
use em.Base.{Bool, true, false, Option, none, some, List, [], ◌∷◌, if◌then◌else◌, ◌≡◌, refl, ◌∙◌}
use Prim.Native.String.{String}
use text.Mathlib.Text.{◌==◌}
use em.Evm.Primitives.{Primitives}
use em.Evm.Storage.{Storage}
use em.Arweave.Cache.{CacheExt, IsCache, StateResult}
use em.Arweave.Codecs.{Codecs}
use em.Arweave.Contract.{LoadedContract}
use em.Arweave.Gateway.{Gateway, Fetched, unwrap}
use em.Arweave.Gateway.Yields.{Yields, Yields-bind, Yields-then, Yields-unwrap}
use em.Arweave.Gql.{GqlEdgeInterface}
use em.Arweave.Load.{load_contract, load_fresh, load_bundled, cached_or, ok_or}
use em.Executor.Context.{generate_interaction_context}
use em.Executor.Runtimes.{Json, IndexMap, JsRuntime, CallResult, Texts, InteractionContext}
use em.Executor.Raw.Loops.{js_outcome, js_interactions, call_input}
use em.Executor.Raw.{World, ExecuteResult}

module _ {V T C : Type 0} (cx : CacheExt V T C) (i : String) where
  -- The cache has the same state for `i`.
  abbrev pub SameState : C → C → Type 0
  SameState s s' = (cx.find_state i s').0 ≡ (cx.find_state i s).0

  -- The calls of a JavaScript runtime leave the state of `i` in the cache as it is.
  abbrev pub CallsKeep : {J : Type 0} → JsRuntime V C J → Type 0
  CallsKeep {J} js =
      (input : V) (context : InteractionContext) (rt : J) (s : C)
      → SameState s (js.call input context rt s).2

  module _ (laws : IsCache cx) (c : Codecs) (g : Gateway) where
    cached_or-SameState :
        (o : Option LoadedContract) (simulated : Bool) (state : Option String) (s₀ s : C)
        (fresh : Fetched LoadedContract)
        → SameState s₀ s
        → Yields (λ r. SameState s₀ r.1) (cached_or c g cx o simulated state s fresh)
    unfolding cached_or
    cached_or-SameState (some l) simulated state s₀ s fresh h = h
    cached_or-SameState none simulated state s₀ s fresh h =
        Yields-bind (λ r. SameState s₀ r.1) fresh _ λ l. laws.find_state-cache_contract i l s ∙ h

    -- A contract that is loaded changes no state.
    pub load_contract-SameState :
        (id : String) (src ty state : Option String) (cache simulated in_bundle : Bool) (s : C)
        → Yields
            (λ r. SameState s r.1)
            (load_contract c g cx id src ty state cache simulated in_bundle s)
    unfolding load_contract
    load_contract-SameState id src ty state cache simulated true s =
        Yields-bind (λ r. SameState s r.1) (load_bundled c g id) _ λ l. refl
    load_contract-SameState id src ty state false simulated false s =
        Yields-bind (λ r. SameState s r.1) (load_fresh c g id src ty state) _ λ l. refl
    load_contract-SameState id src ty state true simulated false s =
        cached_or-SameState (cx.find_contract id s).0 simulated state s (cx.find_contract id s).1
          (load_fresh c g id src ty state) (laws.find_state-find_contract id i s)

    module _ {J : Type 0} (j : Json V) (t : IndexMap V T) (js : JsRuntime V C J) (x : Texts)
        (id : String) (errors : Bool) where
      js_outcome-SameState :
          (r : CallResult) (rt : J) (s₀ s : C)
          → SameState s₀ s
          → Yields (λ o. SameState s₀ o.2) (js_outcome j t js x c g cx id errors (r, rt, s))
      unfolding js_outcome
      js_outcome-SameState CallResult.updated rt s₀ s h = h
      js_outcome-SameState CallResult.result rt s₀ s h = h
      js_outcome-SameState (CallResult.error e) rt s₀ s h = h
      js_outcome-SameState (CallResult.evolve src) rt s₀ s h =
          Yields-then (λ o. SameState s₀ o.2) (λ r. SameState s r.1)
            (unwrap (load_contract c g cx id (some src) none none true false false s)) _
            (Yields-unwrap (λ r. SameState s r.1) _
              (load_contract-SameState id (some src) none none true false false s))
            λ r k.
              Yields-bind (λ o. SameState s₀ o.2) (unwrap (ok_or (js.get_contract_state rt))) _
                λ state.
                  Yields-bind (λ o. SameState s₀ o.2)
                    (unwrap (ok_or (js.new (x.from_utf8_lossy r.0.contract_src) state))) _
                    λ rt'. k ∙ h

      pub js_interactions-SameState :
          CallsKeep js
          → (es : List GqlEdgeInterface) (rt : J) (validity : T) (s₀ s : C) → SameState s₀ s
          → Yields
              (λ o. SameState s₀ o.2)
              (js_interactions j t js x c g cx id errors es rt validity s)
      unfolding js_interactions
      js_interactions-SameState keep [] rt validity s₀ s h = h
      js_interactions-SameState keep (e ∷ es) rt validity s₀ s h =
          Yields-bind (λ o. SameState s₀ o.2) (call_input j t e.node) _
            λ input.
              Yields-bind (λ o. SameState s₀ o.2)
                (unwrap (ok_or (generate_interaction_context e.node))) _
                λ context.
                  let (r, rt', s') = js.call input context rt s in
                  Yields-then (λ o. SameState s₀ o.2) (λ o. SameState s₀ o.2)
                    (js_outcome j t js x c g cx id errors (r, rt', s')) _
                    (js_outcome-SameState r rt' s₀ s' (keep input context rt s ∙ h))
                    λ o.
                      js_interactions-SameState keep es o.0 (t.insert e.node.id o.1 validity) s₀ o.2

module _ {V T C J W : Type 0} ⦃p : Primitives⦄ (w : World V T C J W) (laws : IsCache w.caches) where
  -- What the cache of states holds for `j` after a result for `id`, where it held `old`.
  abbrev pub written :
      Bool
      → String
      → String
      → ExecuteResult V T
      → Option (StateResult V T)
      → Option (StateResult V T)
  written false id j r old = old
  written true id j (ExecuteResult.v8 v t) old =
      if id == j then some (record { state = v; validity = t }) else old
  written true id j (ExecuteResult.evm store bytes t) old = old

  module _ (j : String) where
    abbrev pub Written : Bool → String → C → ExecuteResult V T × C → Type 0
    Written stored id s o =
        (w.caches.find_state j o.1).0 ≡ written stored id j o.0 (w.caches.find_state j s).0
