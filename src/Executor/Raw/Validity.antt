-- ===== src/Executor/Raw/Validity.antt =====
-- crates/executor/executor.rs, `raw_execute_contract`: the table of validity.
use em.Base.{
  ℕ, Bool, true, false, ◌||◌, Option, some, List, [], ◌∷◌, is_some, ◌≡◌, refl, ◌∙◌, Bool-cases, inl,
  inr,
}
use mathlib.Core.Path.{subst}
use Prim.Native.String.{String}
use text.Mathlib.Text.{◌==◌}
use em.Evm.Primitives.{Primitives}
use em.Evm.Storage.{Storage}
use em.Evm.Machine.{Machine, ExecutionState, new_with_data, set_storage, set_fetcher}
use em.Evm.Execute.{execute}
use em.Arweave.Cache.{CacheExt}
use em.Arweave.Codecs.{Codecs}
use em.Arweave.Contract.{LoadedContract, ContractType}
use em.Arweave.Gateway.{Gateway, Fetched, ok, unwrap}
use em.Arweave.Gateway.Yields.{Yields, Yields-bind, Yields-then, Yields-map, Yields-ok}
use em.Arweave.Gql.{GqlEdgeInterface}
use em.Arweave.Load.{ok_or}
use em.Executor.Context.{generate_interaction_context, get_input_from_interaction}
use em.Executor.Runtimes.{Json, IndexMap, IsIndexMap, JsRuntime, WasmRuntime, Texts}
use em.Executor.Raw.Loops.{
  js_outcome, js_interactions, call_input, wasm_outcome, wasm_interactions, attempted, evm_outcome,
  evm_interactions, storage_of, block_info_of, fetch_contract, answer,
}
use em.Executor.Raw.{
  World, ExecuteResult, raw_execute_contract, execute_js, execute_wasm, execute_evm, decode_hex,
}

-- Whether one of the interactions has an id.
abbrev pub mentions : String → List GqlEdgeInterface → Bool
mentions i [] = false
mentions i (e ∷ es) = (e.node.id == i) || mentions i es

module _ {V T : Type 0} (t : IndexMap V T) where
  -- A table has an entry for each interaction, and otherwise the entries of the table before.
  abbrev pub Entered : List GqlEdgeInterface → T → T → Type 0
  Entered es before after =
      (i : String)
      → (mentions i es ≡ false → t.get i after ≡ t.get i before)
        × (mentions i es ≡ true → (v : V) × (t.get i after ≡ some v))

  module _ (laws : IsIndexMap t) where
    Entered-cons :
        (e : GqlEdgeInterface) (es : List GqlEdgeInterface) (v : V) (before after : T)
        → Entered es (t.insert e.node.id v before) after
        → Entered (e ∷ es) before after
    Entered-cons e es v before after h i = elim (Bool-cases (e.node.id == i)) [
      | inl same ↦ elim (Bool-cases (mentions i es)) [
        | inl later ↦ (λ k. cc, λ k. (h i).1 later)
        | inr last ↦
            (λ k. cc, λ k. (v, (h i).0 last ∙ laws.get-insert e.node.id i v before ∙ rw same refl))
      ]
      | inr other ↦ (
        λ k. (h i).0 (rw other at k) ∙ laws.get-insert e.node.id i v before ∙ rw other refl,
        λ k. (h i).1 (rw other at k),
      )
    ]

    Entered-nil : (before : T) → Entered [] before before
    Entered-nil before i = (λ k. refl, λ k. cc)

    module _ (j : Json V) where
      module _ {C J : Type 0} (js : JsRuntime V C J) (x : Texts) (c : Codecs) (g : Gateway)
          (cx : CacheExt V T C) (id : String) (errors : Bool) where
        js_interactions-Entered :
            (es : List GqlEdgeInterface) (rt : J) (validity : T) (s : C)
            → Yields
                (λ o. Entered es validity o.1)
                (js_interactions j t js x c g cx id errors es rt validity s)
        unfolding js_interactions
        js_interactions-Entered [] rt validity s = Entered-nil validity
        js_interactions-Entered (e ∷ es) rt validity s =
            Yields-bind (λ o. Entered (e ∷ es) validity o.1) (call_input j t e.node) _
              λ input.
                Yields-bind (λ o. Entered (e ∷ es) validity o.1)
                  (unwrap (ok_or (generate_interaction_context e.node))) _
                  λ context.
                    Yields-bind (λ o. Entered (e ∷ es) validity o.1)
                      (js_outcome j t js x c g cx id errors (js.call input context rt s)) _
                      λ o.
                        Yields-map (λ r. Entered es (t.insert e.node.id o.1 validity) r.1)
                          (λ r. Entered (e ∷ es) validity r.1) _
                          (λ r. Entered-cons e es o.1 validity r.1)
                          (js_interactions-Entered es o.0 (t.insert e.node.id o.1 validity) o.2)

      module _ {W : Type 0} (ws : WasmRuntime W) (errors : Bool) where
        wasm_interactions-Entered :
            (es : List GqlEdgeInterface) (state : List ℕ) (rt : W) (validity : T)
            → Yields
                (λ o. Entered es validity o.1)
                (wasm_interactions j t ws errors es state rt validity)
        unfolding wasm_interactions
        wasm_interactions-Entered [] state rt validity = Entered-nil validity
        wasm_interactions-Entered (e ∷ es) state rt validity =
            Yields-bind (λ o. Entered (e ∷ es) validity o.1) (call_input j t e.node) _
              λ input.
                Yields-bind (λ o. Entered (e ∷ es) validity o.1)
                  (unwrap (ok_or (generate_interaction_context e.node))) _
                  λ context.
                    let (exec, left, rt') = ws.call state (j.to_vec input) context rt in
                    let (state', valid) = wasm_outcome j t ws errors exec left in
                    Yields-map (λ r. Entered es (t.insert e.node.id valid validity) r.1)
                      (λ r. Entered (e ∷ es) validity r.1) _
                      (λ r. Entered-cons e es valid validity r.1)
                      (wasm_interactions-Entered es state' rt' (t.insert e.node.id valid validity))

      module _ {C : Type 0} ⦃p : Primitives⦄ (x : Texts) (c : Codecs) (g : Gateway)
          (cx : CacheExt V T C) (fuel : ℕ) (bytecode : List ℕ) (cache : Bool) (s : C) where
        -- The table after an interaction of the machine, which every way to end writes.
        evm_outcome-insert :
            (id : String) (final : ExecutionState × Machine) (store : Storage) (bytes : List ℕ)
            (validity : T)
            → (b : Bool) × ((evm_outcome j t x c g cx fuel id final store bytes validity).2
                ≡ t.insert id (j.bool b) validity)
        unfolding evm_outcome
        evm_outcome-insert id (ExecutionState.abort e, m) store bytes validity = (false, refl)
        evm_outcome-insert id (ExecutionState.revert, m) store bytes validity = (false, refl)
        evm_outcome-insert id (ExecutionState.ok, m) store bytes validity = (true, refl)

        evm_interactions-Entered :
            (es : List GqlEdgeInterface) (store : Storage) (bytes : List ℕ) (validity : T)
            → Yields
                (λ o. Entered es validity o.2)
                (evm_interactions j t x c g cx fuel bytecode cache s es store bytes validity)
        unfolding evm_interactions
        evm_interactions-Entered [] store bytes validity = Entered-nil validity
        evm_interactions-Entered (e ∷ es) store bytes validity =
            Yields-bind Q (unwrap (g.transaction_block e.node.id)) _ λ b.
              Yields-bind Q (block_info_of j t x c g cx fuel b) _ λ block.
                Yields-bind Q
                  (unwrap (ok_or (x.hex_decode (x.as_bytes (get_input_from_interaction e.node))))) _
                  λ call_data.
                    Yields-bind Q
                      (attempted (
                        execute fuel bytecode block (
                          set_fetcher
                            (λ address.
                              answer j t x c g cx fuel
                                (fetch_contract j t x c g cx fuel cache s address))
                            (set_storage store (new_with_data (λ _. 0) call_data)))))
                      _
                      λ final.
                        let (b', same) = evm_outcome-insert e.node.id final store bytes validity in
                        let o =
                          evm_outcome j t x c g cx fuel e.node.id final store bytes validity in
                        Yields-map (λ r. Entered es o.2 r.2) Q _
                          (λ r h.
                            Entered-cons e es (j.bool b') validity r.2
                              (subst (λ table. Entered es table r.2) same h))
                          (evm_interactions-Entered es o.0 o.1 o.2)
          where
            Q : Storage × List ℕ × T → Type 0
            Q o = Entered (e ∷ es) validity o.2

abbrev pub table_of : {V T : Type 0} → ExecuteResult V T → T
table_of (ExecuteResult.v8 v t) = t
table_of (ExecuteResult.evm store bytes t) = t

module _ {V T C J W : Type 0} ⦃p : Primitives⦄ (w : World V T C J W)
    (laws : IsIndexMap w.table) where
  abbrev pub HasTable : List GqlEdgeInterface → T → ExecuteResult V T × C → Type 0
  HasTable es validity o = Entered w.table es validity (table_of o.0)

  execute_js-HasTable :
      (id : String) (loaded : LoadedContract) (es : List GqlEdgeInterface) (validity : T)
      (cache_state : Option V) (errors : Bool) (s : C)
      → Yields (HasTable es validity) (execute_js w id loaded es validity cache_state errors s)
  unfolding execute_js
  execute_js-HasTable id loaded es validity cache_state errors s = Yields-bind Q _ _ λ state.
      Yields-bind Q (unwrap (ok_or (w.texts.from_utf8 loaded.contract_src))) _ λ source.
        Yields-bind Q (unwrap (ok_or (w.js.new source state))) _ λ rt.
          Yields-then Q (λ o. Entered w.table es validity o.1)
            (js_interactions w.json w.table w.js w.texts w.codecs w.gateway w.caches id errors es rt
              validity s)
            _
            (js_interactions-Entered w.table laws w.json w.js w.texts w.codecs w.gateway w.caches id
              errors es rt validity s)
            λ o h. Yields-bind Q (unwrap (ok_or (w.js.get_contract_state o.0))) _ λ v. h
    where
      Q : ExecuteResult V T × C → Type 0
      Q = HasTable es validity

  execute_wasm-HasTable :
      (id : String) (loaded : LoadedContract) (es : List GqlEdgeInterface) (validity : T)
      (cache_state : Option V) (errors : Bool) (s : C)
      → Yields (HasTable es validity) (execute_wasm w id loaded es validity cache_state errors s)
  unfolding execute_wasm
  execute_wasm-HasTable id loaded es validity cache_state errors s =
      Yields-bind Q (unwrap (ok_or (w.wasm.new loaded.contract_src))) _ λ rt.
        Yields-then Q (λ o. Entered w.table es validity o.1) _ _
          (wasm_interactions-Entered w.table laws w.json w.wasm errors es _ rt validity)
          λ o h. Yields-bind Q (unwrap (ok_or (w.json.from_slice o.0))) _ λ v. h
    where
      Q : ExecuteResult V T × C → Type 0
      Q = HasTable es validity

  execute_evm-HasTable :
      (loaded : LoadedContract) (es : List GqlEdgeInterface) (validity : T) (cache : Bool) (s : C)
      → Yields (HasTable es validity) (execute_evm w loaded es validity cache s)
  unfolding execute_evm
  execute_evm-HasTable loaded es validity cache s =
      Yields-bind Q (decode_hex w loaded.contract_src) _ λ bytecode.
        Yields-bind Q (decode_hex w (w.texts.as_bytes loaded.init_state)) _ λ raw.
          Yields-bind Q (storage_of raw) _ λ store.
            Yields-then Q (λ o. Entered w.table es validity o.2) _ _
              (evm_interactions-Entered w.table laws w.json w.texts w.codecs w.gateway w.caches
                w.fuel bytecode cache s es store [] validity)
              λ o h. h
    where
      Q : ExecuteResult V T × C → Type 0
      Q = HasTable es validity

  raw-HasTable :
      (id : String) (loaded : LoadedContract) (es : List GqlEdgeInterface) (validity : T)
      (cache_state : Option V) (errors : Bool)
      (on_cached : T → Option V → Fetched (ExecuteResult V T)) (s : C) (ty : ContractType)
      → loaded.contract_type ≡ ty
      → Yields
          (HasTable es validity)
          (raw_execute_contract w id loaded es validity cache_state true errors on_cached s)
  unfolding raw_execute_contract
  raw-HasTable id loaded es validity cache_state errors on_cached s ContractType.javascript e =
      rw e (execute_js-HasTable id loaded es validity cache_state errors s)
  raw-HasTable id loaded es validity cache_state errors on_cached s ContractType.wasm e =
      rw e (execute_wasm-HasTable id loaded es validity cache_state errors s)
  raw-HasTable id loaded es validity cache_state errors on_cached s ContractType.evm e =
      rw e (execute_evm-HasTable loaded es validity (is_some cache_state) s)

  -- When the interactions are processed and there is a result, its table of validity has an entry for
  -- the id of each interaction, whether its call went well or failed, and for every other id what the
  -- table had before.
  pub raw_execute_contract-Entered :
      (id : String) (loaded : LoadedContract) (es : List GqlEdgeInterface) (validity : T)
      (cache_state : Option V) (errors : Bool)
      (on_cached : T → Option V → Fetched (ExecuteResult V T)) (s s' : C) (r : ExecuteResult V T)
      → raw_execute_contract w id loaded es validity cache_state true errors on_cached s
        ≡ ok (r, s')
      → Entered w.table es validity (table_of r)
  raw_execute_contract-Entered id loaded es validity cache_state errors on_cached s s' r h =
      Yields-ok (HasTable es validity)
        (raw_execute_contract w id loaded es validity cache_state true errors on_cached s)
        (raw-HasTable id loaded es validity cache_state errors on_cached s loaded.contract_type
          refl)
        h
