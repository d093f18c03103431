-- ===== src/Executor/Contracts.antt =====
-- crates/executor/lib.rs: `execute_contract` and `simulate_contract`. The results of contracts are kept
-- in `LRU_CACHE`, one for the process.
pub mod Answers
use em.Base.{
  ℕ, Bool, true, false, ◌&&◌, Option, none, some, List, [], if◌then◌else◌, is_some, drop, leb,
  length,
}
use mathlib.Core.Option
use Prim.Native.String.{String}
use em.Evm.Primitives.{Primitives}
use em.Arweave.Cache.{CacheExt, StateResult}
use em.Arweave.Cache.Lru.{LruCache}
use em.Arweave.Gateway.{Fetched, ok, err, panicked, timeout, unwrap, ◌>>=◌}
use em.Arweave.Gql.{GqlEdgeInterface}
use em.Arweave.Interactions.{get_interactions}
use em.Arweave.Load.{ok_or, load_contract}
use em.Executor.Raw.{World, ExecuteResult, raw_execute_contract}
use em.Executor.Sort.{Ordering, sort_interactions}

-- The state that outlives a call: the results, and the cache of crates/arweave. A JavaScript contract
-- that reads another one calls `execute_contract` for it while it runs, so the calls of its runtime may
-- change both.
pub record Shared (C L : Type 0) : Type 0 where
  pub results : L
  pub cached : C

-- The cache of crates/arweave as a part of this state.
abbrev pub shared_cache : {V T C L : Type 0} → CacheExt V T C → CacheExt V T (Shared C L)
shared_cache cx = record {
  find_contract = λ i g. let (r, s) = cx.find_contract i g.cached in (r, record g { cached = s });
  find_interactions =
      λ i g. let (r, s) = cx.find_interactions i g.cached in (r, record g { cached = s });
  find_state = λ i g. let (r, s) = cx.find_state i g.cached in (r, record g { cached = s });
  cache_contract = λ l g. record g { cached = cx.cache_contract l g.cached };
  cache_interactions = λ i es g. record g { cached = cx.cache_interactions i es g.cached };
  cache_states = λ i r g. record g { cached = cx.cache_states i r g.cached };
}

-- What the cached state makes of the start: the table, the state, and whether to process.
pub record Start (V T : Type 0) : Type 0 where
  pub validity : T
  pub cache_state : Option V
  pub needs_processing : Bool

-- `&interactions[index..]`, which panics past the end.
unfoldable pub slice_from {ℓ} : {A : Type ℓ} → ℕ → List A → Fetched (List A)
slice_from index xs = if leb index (length xs) then ok (drop index xs) else panicked

module _ {V T C L : Type 0} where
  -- A result is put in `LRU_CACHE`.
  unfoldable pub hold :
      LruCache (ExecuteResult V T) L
      → String
      → Fetched (ExecuteResult V T × Shared C L)
      → Fetched (ExecuteResult V T × Shared C L)
  hold lru contract_id fresh = do
    (result, g) ← fresh
    ok (result, record g { results = lru.put contract_id result g.results })

  -- What `LRU_CACHE` has, or the rest.
  unfoldable pub answer_or :
      Option (ExecuteResult V T)
      → Shared C L
      → Fetched (ExecuteResult V T × Shared C L)
      → Fetched (ExecuteResult V T × Shared C L)
  answer_or (some result) g rest = ok (result, g)
  answer_or none g rest = rest

module _ {V T C J W : Type 0} ⦃p : Primitives⦄ (w : World V T C J W)
    (strcoll : String → String → Ordering) (requests : ℕ) where
  -- The callback of both.
  unfoldable pub cached_result : T → Option V → Fetched (ExecuteResult V T)
  cached_result validity_table cache_state =
      unwrap (ok_or (Option.map (λ v. ExecuteResult.v8 v validity_table) cache_state))

  unfoldable pub simulate_contract :
      String
      → Option String
      → List GqlEdgeInterface
      → Option Bool
      → Option Bool
      → C
      → Fetched (ExecuteResult V T × C)
  unfolding cached_result
  simulate_contract contract_id init_state interactions maybe_cache maybe_bundled s = do
    (loaded, s') ←
        load_contract w.codecs w.gateway w.caches contract_id none none init_state
          (Option.get_or maybe_cache false) true (Option.get_or maybe_bundled false) s
    raw_execute_contract w contract_id loaded interactions w.table.empty none true false
        cached_result s'

  -- The start without a cached state, and with the one found.
  unfoldable pub start_of : Option (StateResult V T) → Bool → Start V T
  start_of none are_there_new = record {
    validity = w.table.empty;
    cache_state = none;
    needs_processing = true;
  }
  start_of (some found) are_there_new = record {
    validity = found.validity;
    cache_state = some found.state;
    needs_processing = are_there_new;
  }

  unfoldable pub find_start : String → Bool → Bool → C → Start V T × C
  unfolding start_of
  find_start contract_id cache are_there_new s = elim cache [
    | true ↦
        let (found, s') = w.caches.find_state contract_id s in (start_of found are_there_new, s')
    | false ↦ (start_of none are_there_new, s)
  ]

  -- After the lookup in `LRU_CACHE`: load the contract and the interactions, sort these, and run them,
  -- or those that are new. Of the two loads, which the source joins, the contract's comes first.
  unfoldable pub execute_fresh :
      String
      → Option ℕ
      → Bool
      → Bool
      → Option String
      → Option String
      → C
      → Fetched (ExecuteResult V T × C)
  unfolding find_start slice_from cached_result
  execute_fresh contract_id height cache show_errors src ty s = do
    (loaded, s₁) ←
        load_contract w.codecs w.gateway w.caches contract_id src ty none cache false false s
    ((found, new_index, are_new), s₂) ←
        get_interactions w.caches w.gateway requests contract_id height cache s₁
    sorted ← unwrap (ok_or (sort_interactions w.codecs strcoll found))
    let (start, s₃) = find_start contract_id cache are_new s₂
    interactions ←
        (if cache && (is_some start.cache_state && are_new)
          then slice_from new_index sorted
          else ok sorted)
    raw_execute_contract w contract_id loaded interactions start.validity start.cache_state
        start.needs_processing show_errors cached_result s₃

module _ {V T C J W L : Type 0} ⦃p : Primitives⦄ (w : World V T (Shared C L) J W)
    (lru : LruCache (ExecuteResult V T) L) (strcoll : String → String → Ordering)
    (requests : ℕ) where
  -- `execute_contract`, in a world whose cache is a part of the shared state.
  unfoldable pub execute_contract :
      String
      → Option ℕ
      → Bool
      → Bool
      → Option String
      → Option String
      → Shared C L
      → Fetched (ExecuteResult V T × Shared C L)
  unfolding execute_fresh hold answer_or
  execute_contract contract_id height cache show_errors src ty g =
      let (found, results) = lru.get_mut contract_id g.results in
      let g₁ = record g { results = results } in
      answer_or found g₁ (
        hold lru contract_id
          (execute_fresh w strcoll requests contract_id height cache show_errors src ty g₁))
