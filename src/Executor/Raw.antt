-- ===== src/Executor/Raw.antt =====
-- crates/executor/executor.rs: `raw_execute_contract`, which runs the interactions of a contract, and
-- `process_execution`. The cache of crates/arweave is passed along, also through the calls of a
-- JavaScript runtime, which may run and store other contracts.
pub mod Loops
pub mod States
pub mod Validity
use em.Base.{ℕ, Bool, true, false, Option, none, some, List, [], ◌∷◌, if◌then◌else◌, is_some}
use mathlib.Core.Option
use Prim.Native.String.{String}
use em.Evm.Primitives.{Primitives}
use em.Evm.Storage.{Storage, raw}
use em.Arweave.Cache.{CacheExt, StateResult}
use em.Arweave.Codecs.{Codecs}
use em.Arweave.Contract.{LoadedContract, ContractType}
use em.Arweave.Gateway.{Gateway, Fetched, ok, err, panicked, timeout, unwrap, ◌>>=◌}
use em.Arweave.Gql.{GqlEdgeInterface}
use em.Arweave.Load.{ok_or}
use em.Executor.Runtimes.{Json, IndexMap, JsRuntime, WasmRuntime, Texts}
use em.Executor.Raw.Loops.{js_interactions, wasm_interactions, evm_interactions, storage_of}

pub data ExecuteResult (V T : Type 0) : Type 0 where
  v8 : V → T → ExecuteResult V T
  evm : Storage → List ℕ → T → ExecuteResult V T

-- What the code runs in: the libraries, the gateway, the cache, the runtimes, and the fuel of a run of
-- the machine.
pub record World (V T C J W : Type 0) : Type 0 where
  pub json : Json V
  pub table : IndexMap V T
  -- The table as a JSON value
  pub table_value : T → V
  pub js : JsRuntime V C J
  pub wasm : WasmRuntime W
  pub texts : Texts
  pub codecs : Codecs
  pub gateway : Gateway
  pub caches : CacheExt V T C
  pub fuel : ℕ

module _ {V T C J W : Type 0} ⦃p : Primitives⦄ (w : World V T C J W) where
  -- The text of hexadecimal digits, or a panic.
  unfoldable pub decode_hex : List ℕ → Fetched (List ℕ)
  decode_hex text = unwrap (ok_or (w.texts.hex_decode text))

  -- `if cache { get_cache()….cache_states(…) }`
  unfoldable pub store_state : Bool → String → V → T → C → C
  store_state cache contract_id state validity s =
      if cache
      then w.caches.cache_states contract_id (record { state = state; validity = validity }) s
      else s

  -- The three arms. `cache_state` is the state to start from.
  unfoldable pub execute_js :
      String
      → LoadedContract
      → List GqlEdgeInterface
      → T
      → Option V
      → Bool
      → C
      → Fetched (ExecuteResult V T × C)
  unfolding store_state
  execute_js contract_id loaded interactions validity cache_state show_errors s = do
    state ← (elim cache_state [
      | some state ↦ ok state
      | none ↦ unwrap (ok_or (w.json.from_str loaded.init_state))
    ])
    source ← unwrap (ok_or (w.texts.from_utf8 loaded.contract_src))
    rt ← unwrap (ok_or (w.js.new source state))
    (rt', validity', s') ←
        js_interactions w.json w.table w.js w.texts w.codecs w.gateway w.caches contract_id
          show_errors interactions rt validity s
    state_val ← unwrap (ok_or (w.js.get_contract_state rt'))
    ok (
      v8 state_val validity',
      store_state (is_some cache_state) contract_id state_val validity' s',
    )

  unfoldable pub execute_wasm :
      String
      → LoadedContract
      → List GqlEdgeInterface
      → T
      → Option V
      → Bool
      → C
      → Fetched (ExecuteResult V T × C)
  unfolding store_state
  execute_wasm contract_id loaded interactions validity cache_state show_errors s = do
    let state =
        w.texts.as_bytes
          (elim cache_state [ some state ↦ w.json.to_string state | none ↦ loaded.init_state ])
    rt ← unwrap (ok_or (w.wasm.new loaded.contract_src))
    (state', validity') ←
        wasm_interactions w.json w.table w.wasm show_errors interactions state rt validity
    value ← unwrap (ok_or (w.json.from_slice state'))
    ok (v8 value validity', store_state (is_some cache_state) contract_id value validity' s)

  unfoldable pub execute_evm :
      LoadedContract → List GqlEdgeInterface → T → Bool → C → Fetched (ExecuteResult V T × C)
  unfolding decode_hex
  execute_evm loaded interactions validity cache s = do
    bytecode ← decode_hex loaded.contract_src
    store ← decode_hex (w.texts.as_bytes loaded.init_state)
    account_store ← storage_of store
    (store', result, validity') ←
        evm_interactions w.json w.table w.texts w.codecs w.gateway w.caches w.fuel bytecode cache s
          interactions account_store [] validity
    ok (evm store' result validity', s)

  -- `raw_execute_contract`; `on_cached` may panic.
  unfoldable pub raw_execute_contract :
      String
      → LoadedContract
      → List GqlEdgeInterface
      → T
      → Option V
      → Bool
      → Bool
      → (T → Option V → Fetched (ExecuteResult V T))
      → C
      → Fetched (ExecuteResult V T × C)
  unfolding execute_js execute_wasm execute_evm
  raw_execute_contract contract_id loaded interactions validity cache_state needs_processing
        show_errors on_cached s =
      elim loaded.contract_type [
        | ContractType.javascript ↦
            if needs_processing
            then execute_js contract_id loaded interactions validity cache_state show_errors s
            else (do r ← on_cached validity cache_state; ok (r, s))
        | ContractType.wasm ↦
            if needs_processing
            then execute_wasm contract_id loaded interactions validity cache_state show_errors s
            else (do r ← on_cached validity cache_state; ok (r, s))
        | ContractType.evm ↦ execute_evm loaded interactions validity (is_some cache_state) s
      ]

  -- `process_execution`
  unfoldable pub process_execution : ExecuteResult V T → Bool → V
  process_execution (v8 value validity_table) show_validity =
      if show_validity
      then w.json.object (("state", value) ∷ ("validity", w.table_value validity_table) ∷ [])
      else value
  process_execution (evm store result validity_table) show_validity =
      let r = w.json.string (w.texts.hex_encode result) in
      let st = w.json.string (w.texts.hex_encode (raw store)) in
      if show_validity
      then w.json.object
          (("result", r) ∷ ("store", st) ∷ ("validity", w.table_value validity_table) ∷ [])
      else w.json.object (("result", r) ∷ ("store", st) ∷ [])
