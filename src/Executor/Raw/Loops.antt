-- ===== src/Executor/Raw/Loops.antt =====
-- crates/executor/executor.rs: the loops over the interactions in `raw_execute_contract`, one for each
-- type of contract.
use em.Base.{ℕ, Bool, true, false, Option, none, some, List, [], ◌∷◌, if◌then◌else◌}
use em.Base.Attempt.{Attempt}
use Prim.Native.String.{String}
use em.Evm.Primitives.{Primitives}
use em.Evm.Storage.{Storage, from_raw}
use em.Evm.Machine.{
  Machine, BlockInfo, ContractInfo, ExecutionState, new_with_data, set_storage, set_fetcher,
}
use em.Evm.Execute.{execute}
use em.Arweave.Cache.{CacheExt}
use em.Arweave.Codecs.{Codecs}
use em.Arweave.Gateway.{
  Gateway, Fetched, TransactionBlock, ok, err, panicked, timeout, unwrap, ◌>>=◌,
}
use em.Arweave.Gql.{GqlEdgeInterface, GqlNodeInterface}
use em.Arweave.Load.{ok_or, load_contract}
use em.Executor.Context.{generate_interaction_context, get_input_from_interaction}
use em.Executor.Runtimes.{Json, IndexMap, JsRuntime, CallResult, WasmRuntime, WasmResult, Texts}

-- A run that ends, panics, or is given too little fuel.
abbrev pub attempted {ℓ} : {A : Type ℓ} → Attempt A → Fetched A
attempted (Attempt.done a) = ok a
attempted Attempt.panicked = panicked
attempted Attempt.timeout = timeout

unfoldable pub storage_of : ⦃p : Primitives⦄ → List ℕ → Fetched Storage
storage_of raw = attempted (from_raw raw)

module _ {V T : Type 0} (j : Json V) (t : IndexMap V T) where
  -- The value that a call is given; an input that is no JSON panics.
  unfoldable pub call_input : GqlNodeInterface → Fetched V
  call_input tx = do
    input ← unwrap (ok_or (j.from_str (get_input_from_interaction tx)))
    ok (j.object (("input", input) ∷ ("caller", j.string tx.owner.address) ∷ []))

  -- The entry of a failed call.
  unfoldable pub failed_entry : Bool → String → V
  failed_entry show_errors e = if show_errors then j.string e else j.bool false

  module _ {C J : Type 0} (js : JsRuntime V C J) (x : Texts) (c : Codecs) (g : Gateway)
      (cx : CacheExt V T C) (contract_id : String) (show_errors : Bool) where
    -- The entry of a call, and the runtime and the cache after it. A wish to evolve loads the new
    -- source and starts a runtime with the state so far.
    unfoldable pub js_outcome : CallResult × J × C → Fetched (J × V × C)
    unfolding failed_entry
    js_outcome (CallResult.updated, rt, s) = ok (rt, j.bool true, s)
    js_outcome (CallResult.result, rt, s) = ok (rt, j.bool true, s)
    js_outcome ((CallResult.error e), rt, s) = ok (rt, failed_entry show_errors e, s)
    js_outcome ((CallResult.evolve src), rt, s) = do
      (contract, s') ←
          unwrap (load_contract c g cx contract_id (some src) none none true false false s)
      state ← unwrap (ok_or (js.get_contract_state rt))
      rt' ← unwrap (ok_or (js.new (x.from_utf8_lossy contract.contract_src) state))
      ok (rt', j.bool true, s')

    unfoldable pub js_interactions : List GqlEdgeInterface → J → T → C → Fetched (J × T × C)
    unfolding call_input js_outcome
    js_interactions [] rt validity s = ok (rt, validity, s)
    js_interactions (e ∷ es) rt validity s = do
      let tx = e.node
      input ← call_input tx
      context ← unwrap (ok_or (generate_interaction_context tx))
      (rt', valid, s') ← js_outcome (js.call input context rt s)
      js_interactions es rt' (t.insert tx.id valid validity) s'

  module _ {W : Type 0} (ws : WasmRuntime W) (show_errors : Bool) where
    -- The state and the entry after a call: a failed call leaves what the buffer of the state holds.
    unfoldable pub wasm_outcome : WasmResult → List ℕ → List ℕ × V
    unfolding failed_entry
    wasm_outcome (WasmResult.state new_state) left = (new_state, j.bool true)
    wasm_outcome (WasmResult.error e) left = (left, failed_entry show_errors e)

    unfoldable pub wasm_interactions : List GqlEdgeInterface → List ℕ → W → T → Fetched (List ℕ × T)
    unfolding call_input wasm_outcome
    wasm_interactions [] state rt validity = ok (state, validity)
    wasm_interactions (e ∷ es) state rt validity = do
      let tx = e.node
      input ← call_input tx
      context ← unwrap (ok_or (generate_interaction_context tx))
      let (exec, left, rt') = ws.call state (j.to_vec input) context rt
      let (state', valid) = wasm_outcome exec left
      wasm_interactions es state' rt' (t.insert tx.id valid validity)

  module _ {C : Type 0} ⦃p : Primitives⦄ (x : Texts) (c : Codecs) (g : Gateway)
      (cx : CacheExt V T C) (fuel : ℕ) where
    -- The block of an interaction. A hash that is longer than 32 bytes panics.
    unfoldable pub block_info_of : TransactionBlock → Fetched BlockInfo
    block_info_of b = do
      difficulty ← unwrap (ok_or (x.from_str_radix b.diff))
      block_hash ← unwrap (ok_or (p.from_slice (x.as_bytes b.indep_hash)))
      ok (record {
        timestamp = b.timestamp;
        difficulty = difficulty;
        block_hash = block_hash;
        number = b.height;
      })

    -- The contract of an address, which `load_contract` finds. The cache is the one that the run
    -- starts with; `none` is a panic, which a call of the fetcher makes of it.
    unfoldable pub fetch_contract : Bool → C → ℕ → Fetched ContractInfo
    unfolding storage_of
    fetch_contract cache s address = do
      (contract, s') ← unwrap (
          load_contract c g cx (x.from_utf8_lossy (p.to_bytes address)) none none none cache false
            false s)
      bytecode ← unwrap (ok_or (x.hex_decode contract.contract_src))
      raw ← unwrap (ok_or (x.hex_decode (x.as_bytes contract.init_state)))
      store ← storage_of raw
      ok (record { store = store; bytecode = bytecode })

    abbrev pub answer : Fetched ContractInfo → Option ContractInfo
    answer (ok info) = some info
    answer err = none
    answer panicked = none
    answer timeout = none

    -- The store, the result and the table after a run.
    unfoldable pub evm_outcome :
        String → ExecutionState × Machine → Storage → List ℕ → T → Storage × List ℕ × T
    evm_outcome id (ExecutionState.abort e, m) store bytes validity =
        (store, bytes, t.insert id (j.bool false) validity)
    evm_outcome id (ExecutionState.revert, m) store bytes validity =
        (store, bytes, t.insert id (j.bool false) validity)
    evm_outcome id (ExecutionState.ok, m) store bytes validity =
        (m.storage, m.result, t.insert id (j.bool true) validity)

    unfoldable pub evm_interactions :
        List ℕ
        → Bool
        → C
        → List GqlEdgeInterface
        → Storage
        → List ℕ
        → T
        → Fetched (Storage × List ℕ × T)
    unfolding block_info_of fetch_contract evm_outcome
    evm_interactions bytecode cache s [] account_store bytes validity =
        ok (account_store, bytes, validity)
    evm_interactions bytecode cache s (e ∷ es) account_store bytes validity = do
      let tx = e.node
      b ← unwrap (g.transaction_block tx.id)
      block ← block_info_of b
      call_data ← unwrap (ok_or (x.hex_decode (x.as_bytes (get_input_from_interaction tx))))
      let machine =
          set_fetcher (λ address. answer (fetch_contract cache s address))
            (set_storage account_store (new_with_data (λ _. 0) call_data))
      final ← attempted (execute fuel bytecode block machine)
      let (store', bytes', validity') = evm_outcome tx.id final account_store bytes validity
      evm_interactions bytecode cache s es store' bytes' validity'
