-- ===== src/Arweave/Cache.antt =====
-- crates/arweave/cache.rs, the trait `CacheExt`, and crates/arweave/lru_cache.rs, its
-- implementation in memory. A lookup takes `&mut self`, so it gives the cache back.
pub mod Lru
pub mod Files
use em.Base.{◌≡◌, Option, none, some, List, if◌then◌else◌}
use Prim.Native.String.{String}
use text.Mathlib.Text.{◌==◌}
use em.Arweave.Gql.{GqlEdgeInterface}
use em.Arweave.Contract.{LoadedContract}

-- The final state of a contract with its validity table, for the types of JSON values and of tables.
pub record StateResult (V T : Type 0) : Type 0 where
  pub state : V
  pub validity : T

pub record CacheExt (V T C : Type 0) : Type 0 where
  pub find_contract : String → C → Option LoadedContract × C
  pub find_interactions : String → C → Option (List GqlEdgeInterface) × C
  pub find_state : String → C → Option (StateResult V T) × C
  pub cache_contract : LoadedContract → C → C
  pub cache_interactions : String → List GqlEdgeInterface → C → C
  pub cache_states : String → StateResult V T → C → C

-- What the clients rely on: a table gives what was put last, writes to the other tables change no
-- state, and a lookup changes no contract and no state.
pub record IsCache {V T C : Type 0} (c : CacheExt V T C) : Type 0 where
  pub find_contract-cache_contract :
      (l : LoadedContract) (j : String) (s : C)
      → (c.find_contract j (c.cache_contract l s)).0
        ≡ (if l.id == j then some l else (c.find_contract j s).0)
  pub find_contract-find_contract :
      (i j : String) (s : C)
      → (c.find_contract j (c.find_contract i s).1).0 ≡ (c.find_contract j s).0
  pub find_interactions-cache_interactions :
      (i j : String) (es : List GqlEdgeInterface) (s : C)
      → (c.find_interactions j (c.cache_interactions i es s)).0
        ≡ (if i == j then some es else (c.find_interactions j s).0)
  pub find_state-cache_states :
      (i j : String) (r : StateResult V T) (s : C)
      → (c.find_state j (c.cache_states i r s)).0
        ≡ (if i == j then some r else (c.find_state j s).0)
  pub find_state-cache_contract :
      (j : String) (l : LoadedContract) (s : C)
      → (c.find_state j (c.cache_contract l s)).0 ≡ (c.find_state j s).0
  pub find_state-cache_interactions :
      (i j : String) (es : List GqlEdgeInterface) (s : C)
      → (c.find_state j (c.cache_interactions i es s)).0 ≡ (c.find_state j s).0
  pub find_state-find_contract :
      (i j : String) (s : C) → (c.find_state j (c.find_contract i s).1).0 ≡ (c.find_state j s).0
  pub find_state-find_interactions :
      (i j : String) (s : C) → (c.find_state j (c.find_interactions i s).1).0 ≡ (c.find_state j s).0
  pub find_state-find_state :
      (i j : String) (s : C) → (c.find_state j (c.find_state i s).1).0 ≡ (c.find_state j s).0
