-- ===== src/Arweave/Cache/Lru.antt =====
-- crates/arweave/lru_cache.rs: three unbounded caches of the crate `lru`, which is a parameter.
pub mod Latest
use em.Base.{◌≡◌, Option, none, some, List, if◌then◌else◌, refl}
use Prim.Native.String.{String}
use text.Mathlib.Text.{◌==◌}
use em.Arweave.Gql.{GqlEdgeInterface}
use em.Arweave.Contract.{LoadedContract}
use em.Arweave.Cache.{StateResult, CacheExt, IsCache}

-- The crate's `LruCache<String, A>`, as a type `L` with its operations.
pub record LruCache (A L : Type 0) : Type 0 where
  pub unbounded : L
  pub get_mut : String → L → Option A × L
  pub put : String → A → L → L

-- An unbounded cache evicts nothing.
pub record IsUnbounded {A L : Type 0} (c : LruCache A L) : Type 0 where
  pub get_mut-unbounded : (k : String) → (c.get_mut k c.unbounded).0 ≡ none
  pub get_mut-put :
      (k j : String) (a : A) (l : L)
      → (c.get_mut j (c.put k a l)).0 ≡ (if k == j then some a else (c.get_mut j l).0)
  pub get_mut-get_mut :
      (k j : String) (l : L) → (c.get_mut j (c.get_mut k l).1).0 ≡ (c.get_mut j l).0

pub record ArweaveLruCache (L M N : Type 0) : Type 0 where
  pub contracts : L
  pub interactions : M
  pub states : N

module _ {V T L M N : Type 0} (lc : LruCache LoadedContract L)
    (li : LruCache (List GqlEdgeInterface) M) (ls : LruCache (StateResult V T) N) where
  -- `ArweaveLruCache::new`
  unfoldable pub new : ArweaveLruCache L M N
  new = record { contracts = lc.unbounded; interactions = li.unbounded; states = ls.unbounded }

  -- The methods of `impl CacheExt for ArweaveLruCache`.
  unfoldable pub lru_cache : CacheExt V T (ArweaveLruCache L M N)
  lru_cache = record {
    find_contract = λ i s. let (r, l) = lc.get_mut i s.contracts in (r, record s { contracts = l });
    find_interactions =
        λ i s. let (r, l) = li.get_mut i s.interactions in (r, record s { interactions = l });
    find_state = λ i s. let (r, l) = ls.get_mut i s.states in (r, record s { states = l });
    cache_contract = λ l s. record s { contracts = lc.put l.id l s.contracts };
    cache_interactions = λ i es s. record s { interactions = li.put i es s.interactions };
    cache_states = λ i r s. record s { states = ls.put i r s.states };
  }

  -- Over unbounded LRU caches, the cache in memory is what the clients of a cache rely on.
  pub lru_cache-IsCache : IsUnbounded lc → IsUnbounded li → IsUnbounded ls → IsCache lru_cache
  unfolding lru_cache
  lru_cache-IsCache hc hi hs = record {
    find_contract-cache_contract = λ l j s. hc.get_mut-put l.id j l s.contracts;
    find_contract-find_contract = λ i j s. hc.get_mut-get_mut i j s.contracts;
    find_interactions-cache_interactions = λ i j es s. hi.get_mut-put i j es s.interactions;
    find_state-cache_states = λ i j r s. hs.get_mut-put i j r s.states;
    find_state-cache_contract = λ j l s. refl;
    find_state-cache_interactions = λ i j es s. refl;
    find_state-find_contract = λ i j s. refl;
    find_state-find_interactions = λ i j s. refl;
    find_state-find_state = λ i j s. hs.get_mut-get_mut i j s.states;
  }
