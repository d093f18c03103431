-- ===== src/Napi/Result.antt =====
-- js/napi/src/lib.rs: what a caller is told of a contract that cannot be processed.
use em.Base.{ℕ, Bool, Option, List, ◌≢◌}
use em.Base.Int.{ℤ}
use Prim.Native.String.{String}
use em.Evm.Primitives.{Primitives}
use em.Arweave.Cache.Lru.{LruCache}
use em.Arweave.Gateway.{Fetched, ok, err, panicked, timeout}
use em.Arweave.Http.{Network}
use em.Executor.Contracts.{Shared}
use em.Executor.Raw.{World, ExecuteResult, v8, evm}
use em.Executor.Sort.{Ordering}
use em.Napi.{
  ExecuteConfig, SimulateInput, get_result, answer, napi_simulate_contract, napi_execute_contract,
}

module _ {V T : Type 0} where
  get_result-ne : (r : Fetched (ExecuteResult V T)) → answer (get_result r) ≢ err
  unfolding get_result
  get_result-ne (ok (v8 state validity)) h = cc
  get_result-ne (ok (evm store result validity)) h = cc
  get_result-ne err h = cc
  get_result-ne panicked h = cc
  get_result-ne timeout h = cc

module _ {V T C J W L : Type 0} ⦃p : Primitives⦄ (w : World V T (Shared C L) J W)
    (lru : LruCache (ExecuteResult V T) L) (strcoll : String → String → Ordering) (requests : ℕ)
    (port_text : ℤ → String) (network : Network) where
  -- Neither simulate_contract nor execute_contract of the crate for Node.js gives its error:
  -- what is no result is a panic, or too little fuel.
  pub napi-ne :
      (parse : String → Option ℕ) (id : String) (interactions : List (SimulateInput V))
      (init_state : Option String) (config : Option ExecuteConfig) (cache bundled : Option Bool)
      (s : Shared C L) (height : Option ℕ) (g : Shared C L)
      → (napi_simulate_contract w lru strcoll requests port_text network parse id interactions
            init_state config cache bundled s
          ≢ err)
        × (napi_execute_contract w lru strcoll requests port_text network id height config g ≢ err)
  unfolding napi_simulate_contract napi_execute_contract
  napi-ne parse id interactions init_state config cache bundled s height g =
      (get_result-ne _, get_result-ne _)
