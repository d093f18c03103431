-- ===== src/Arweave/Cache/Lru/Latest.antt =====
-- crates/arweave/lru_cache.rs: what the cache in memory gives after any calls of its methods, and that
-- the cache on files, crates/arweave/cache.rs, gives the same.
use em.Base.{some, List, [], ◌∷◌, if◌then◌else◌, ◌≡◌, ap, sym, ◌∙◌}
use em.Base.Attempt.{done}
use Prim.Native.String.{String}
use text.Mathlib.Text.{◌==◌}
use em.Arweave.Gql.{GqlEdgeInterface}
use em.Arweave.Contract.{LoadedContract}
use em.Arweave.Cache.{StateResult, CacheExt}
use em.Arweave.Cache.Files.{Serde, IsSerde, find_contract, find_interactions, find_state, in_dir}
use em.Arweave.Cache.Files.Latest.{
  Write, latest_contract, latest_interactions, latest_state, write_all, find-write_all,
}
use em.Arweave.Cache.Lru.{LruCache, IsUnbounded, ArweaveLruCache, new, lru_cache}

-- A call of a method: a write, or a lookup.
pub data Call (V T : Type 0) : Type 0 where
  write : Write V T → Call V T
  lookup_contract lookup_interactions lookup_state : String → Call V T

-- The writes among the calls.
abbrev pub writes : {V T : Type 0} → List (Call V T) → List (Write V T)
writes [] = []
writes (Call.write w ∷ calls) = w ∷ writes calls
writes (_ ∷ calls) = writes calls

module _ {V T C : Type 0} (cx : CacheExt V T C) where
  abbrev pub call : Call V T → C → C
  call (Call.write (Write.contract l)) s = cx.cache_contract l s
  call (Call.write (Write.interactions i es)) s = cx.cache_interactions i es s
  call (Call.write (Write.states i r)) s = cx.cache_states i r s
  call (Call.lookup_contract i) s = (cx.find_contract i s).1
  call (Call.lookup_interactions i) s = (cx.find_interactions i s).1
  call (Call.lookup_state i) s = (cx.find_state i s).1

  -- The cache after the calls, of which the last is the head.
  abbrev pub call_all : List (Call V T) → C → C
  call_all [] s = s
  call_all (c ∷ calls) s = call c (call_all calls s)

module _ {V T L M N : Type 0} (lc : LruCache LoadedContract L)
    (li : LruCache (List GqlEdgeInterface) M) (ls : LruCache (StateResult V T) N)
    (hc : IsUnbounded lc) (hi : IsUnbounded li) (hs : IsUnbounded ls) where
  After : List (Call V T) → ArweaveLruCache L M N
  After calls = call_all (lru_cache lc li ls) calls (new lc li ls)

  contracts-latest :
      (calls : List (Call V T)) (j : String)
      → (lc.get_mut j (After calls).contracts).0 ≡ latest_contract (writes calls) j
  unfolding After lru_cache new
  contracts-latest [] j = hc.get_mut-unbounded j
  contracts-latest (Call.write (Write.contract l) ∷ calls) j =
      hc.get_mut-put l.id j l _
      ∙ ap (λ o. if l.id == j then some l else o) (contracts-latest calls j)
  contracts-latest (Call.write (Write.interactions i es) ∷ calls) j = contracts-latest calls j
  contracts-latest (Call.write (Write.states i r) ∷ calls) j = contracts-latest calls j
  contracts-latest (Call.lookup_contract i ∷ calls) j =
      hc.get_mut-get_mut i j _ ∙ contracts-latest calls j
  contracts-latest (Call.lookup_interactions i ∷ calls) j = contracts-latest calls j
  contracts-latest (Call.lookup_state i ∷ calls) j = contracts-latest calls j

  interactions-latest :
      (calls : List (Call V T)) (j : String)
      → (li.get_mut j (After calls).interactions).0 ≡ latest_interactions (writes calls) j
  unfolding After lru_cache new
  interactions-latest [] j = hi.get_mut-unbounded j
  interactions-latest (Call.write (Write.interactions i es) ∷ calls) j =
      hi.get_mut-put i j es _
      ∙ ap (λ o. if i == j then some es else o) (interactions-latest calls j)
  interactions-latest (Call.write (Write.contract l) ∷ calls) j = interactions-latest calls j
  interactions-latest (Call.write (Write.states i r) ∷ calls) j = interactions-latest calls j
  interactions-latest (Call.lookup_interactions i ∷ calls) j =
      hi.get_mut-get_mut i j _ ∙ interactions-latest calls j
  interactions-latest (Call.lookup_contract i ∷ calls) j = interactions-latest calls j
  interactions-latest (Call.lookup_state i ∷ calls) j = interactions-latest calls j

  states-latest :
      (calls : List (Call V T)) (j : String)
      → (ls.get_mut j (After calls).states).0 ≡ latest_state (writes calls) j
  unfolding After lru_cache new
  states-latest [] j = hs.get_mut-unbounded j
  states-latest (Call.write (Write.states i r) ∷ calls) j =
      hs.get_mut-put i j r _ ∙ ap (λ o. if i == j then some r else o) (states-latest calls j)
  states-latest (Call.write (Write.contract l) ∷ calls) j = states-latest calls j
  states-latest (Call.write (Write.interactions i es) ∷ calls) j = states-latest calls j
  states-latest (Call.lookup_state i ∷ calls) j = hs.get_mut-get_mut i j _ ∙ states-latest calls j
  states-latest (Call.lookup_contract i ∷ calls) j = states-latest calls j
  states-latest (Call.lookup_interactions i ∷ calls) j = states-latest calls j

  -- Over LRU caches that evict nothing, after any writes and lookups of the cache in memory each of its
  -- three tables gives what was written last under the id, or nothing: no lookup and no write to
  -- another table or under another id changes an answer.
  pub find-call_all :
      (calls : List (Call V T)) (j : String)
      → (((lru_cache lc li ls).find_contract j
            (call_all (lru_cache lc li ls) calls (new lc li ls))).0
          ≡ latest_contract (writes calls) j)
        × (((lru_cache lc li ls).find_interactions j
              (call_all (lru_cache lc li ls) calls (new lc li ls))).0
            ≡ latest_interactions (writes calls) j)
        × (((lru_cache lc li ls).find_state j
              (call_all (lru_cache lc li ls) calls (new lc li ls))).0
            ≡ latest_state (writes calls) j)
  unfolding After lru_cache
  find-call_all calls j =
      (contracts-latest calls j, interactions-latest calls j, states-latest calls j)

  module _ {X : Type 0} (sc : Serde X LoadedContract) (si : Serde X (List GqlEdgeInterface))
      (ss : Serde X (StateResult V T)) (dir : String) where
    -- The two implementations of CacheExt answer alike: after the same calls of their methods, from a
    -- new cache in memory and an empty cache directory, each table of the cache on files gives what
    -- that of the cache in memory gives, if the LRU caches evict nothing and serde_json reads back
    -- what it writes.
    pub files-find_all :
        IsSerde sc
        → IsSerde si
        → IsSerde ss
        → (calls : List (Call V T)) (j : String)
        → (find_contract sc si ss (in_dir dir) j (write_all sc si ss dir (writes calls))
            ≡ done
                ((lru_cache lc li ls).find_contract j
                  (call_all (lru_cache lc li ls) calls (new lc li ls))).0)
          × (find_interactions sc si ss (in_dir dir) j (write_all sc si ss dir (writes calls))
              ≡ done
                  ((lru_cache lc li ls).find_interactions j
                    (call_all (lru_cache lc li ls) calls (new lc li ls))).0)
          × (find_state sc si ss (in_dir dir) j (write_all sc si ss dir (writes calls))
              ≡ done
                  ((lru_cache lc li ls).find_state j
                    (call_all (lru_cache lc li ls) calls (new lc li ls))).0)
    files-find_all kc ki ks calls j =
        let (f₁, f₂, f₃) = find-write_all sc si ss dir kc ki ks (writes calls) j in
        let (m₁, m₂, m₃) = find-call_all calls j in
        (f₁ ∙ ap done (sym m₁), f₂ ∙ ap done (sym m₂), f₃ ∙ ap done (sym m₃))
