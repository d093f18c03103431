-- ===== src/Napi.antt =====
-- js/napi/src/lib.rs: the functions of the crate for Node.js, over the executor.
pub mod Result
mod Tests
use em.Base.{ℕ, Bool, true, false, Option, none, some, List, map}
use mathlib.Core.Option
use em.Base.Int.{ℤ, pos}
use Prim.Native.String.{String}
use em.Evm.Primitives.{Primitives}
use em.Arweave.Cache.Lru.{LruCache}
use em.Arweave.Gateway.{Fetched, ok, err, panicked, timeout, ◌>>=◌}
use em.Arweave.Gql.{GqlEdgeInterface, GqlTagInterface}
use em.Arweave.Http.{Arweave, Network, new_no_cache, gateway}
use em.Executor.Contracts.{Shared, execute_contract, simulate_contract}
use em.Executor.Raw.{World, ExecuteResult, v8, evm}
use em.Executor.Simulated.{create_simulated_transaction}
use em.Executor.Sort.{Ordering}

pub record ExecuteContractResult (V T : Type 0) : Type 0 where
  pub state : V
  pub validity : T

pub record ExecuteConfig : Type 0 where
  pub host : String
  pub port : ℤ
  pub protocol : String

pub record Tag : Type 0 where
  pub name : String
  pub value : String

pub record Block : Type 0 where
  pub height : String
  pub indep_hash : String
  pub timestamp : String

pub record SimulateInput (V : Type 0) : Type 0 where
  pub id : String
  pub owner : String
  pub quantity : String
  pub reward : String
  pub target : Option String
  pub tags : List Tag
  pub block : Option Block
  pub input : V

-- The client; whether the cache is set besides is `use_cache`, true by default.
unfoldable pub get_gateway : Option ExecuteConfig → Arweave
unfolding new_no_cache
get_gateway none = new_no_cache (pos 443) "arweave.net" "https"
get_gateway (some config) = new_no_cache config.port config.host config.protocol

abbrev to_tag : Tag → GqlTagInterface
to_tag t = record { name = t.name; value = t.value }

-- The text of a number is read by `parse`, the text of the input made by `to_string`.
unfoldable pub simulated :
    {V : Type 0} → (String → Option ℕ) → (V → String) → SimulateInput V → GqlEdgeInterface
unfolding create_simulated_transaction
simulated parse to_string i =
    create_simulated_transaction parse i.id i.owner i.quantity i.reward i.target (map to_tag i.tags)
      (Option.map (λ b. b.height) i.block) (Option.map (λ b. b.indep_hash) i.block)
      (Option.map (λ b. b.timestamp) i.block) (to_string i.input)

module _ {V T : Type 0} where
  abbrev result_of : ExecuteResult V T → Fetched (Option (ExecuteContractResult V T))
  result_of (v8 state validity) = ok (some (record { state = state; validity = validity }))
  result_of (evm store result validity) = panicked

  -- `get_result`: an error is unwrapped.
  unfoldable pub get_result :
      Fetched (ExecuteResult V T) → Fetched (Option (ExecuteContractResult V T))
  get_result (ok r) = result_of r
  get_result err = panicked
  get_result panicked = panicked
  get_result timeout = timeout

  -- What the caller gets: nothing is "Contract could not be processed".
  abbrev answer : Fetched (Option (ExecuteContractResult V T)) → Fetched (ExecuteContractResult V T)
  answer (ok (some r)) = ok r
  answer (ok none) = err
  answer err = err
  answer panicked = panicked
  answer timeout = timeout

abbrev value {ℓ} : {A : Type ℓ} {B : Type 0} → Fetched (A × B) → Fetched A
value r = do (a, b) ← r; ok a

module _ {V T C J W L : Type 0} ⦃p : Primitives⦄ (w : World V T (Shared C L) J W)
    (lru : LruCache (ExecuteResult V T) L) (strcoll : String → String → Ordering) (requests : ℕ)
    (port_text : ℤ → String) (network : Network) where
  abbrev world_at : Option ExecuteConfig → World V T (Shared C L) J W
  world_at config = record w { gateway = gateway port_text network (get_gateway config) }

  unfoldable pub napi_simulate_contract :
      (String → Option ℕ)
      → String
      → List (SimulateInput V)
      → Option String
      → Option ExecuteConfig
      → Option Bool
      → Option Bool
      → Shared C L
      → Fetched (ExecuteContractResult V T)
  unfolding get_gateway simulated get_result simulate_contract
  napi_simulate_contract parse contract_id interactions init_state config cache bundled s = answer (
      get_result (
        value (
          simulate_contract (world_at config) strcoll requests contract_id init_state
            (map (simulated parse w.json.to_string) interactions) cache bundled s)))

  unfoldable pub napi_execute_contract :
      String → Option ℕ → Option ExecuteConfig → Shared C L → Fetched (ExecuteContractResult V T)
  unfolding get_gateway get_result execute_contract
  napi_execute_contract tx height config g = answer (
      get_result (
        value (
          execute_contract (world_at config) lru strcoll requests tx height true false none none
            g)))
