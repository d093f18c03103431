-- ===== src/Arweave/Load/Cached.antt =====
-- crates/arweave/arweave.rs, `load_contract`: what it gives of a cached contract.
use em.Base.{
  Bool, true, false, Bool-cases, inl, inr, Option, none, some, ◌≡◌, refl, ap, ◌∙◌, if◌then◌else◌,
}
use Prim.Native.String.{String}
use text.Mathlib.Text.{◌==◌}
use text.Mathlib.TextEquality.{eq_iff}
use em.Arweave.Cache.{CacheExt, IsCache}
use em.Arweave.Codecs.{Codecs}
use em.Arweave.Contract.{LoadedContract, or_else, get_tag, get_contract_type}
use em.Arweave.Gateway.{Gateway, Fetched, ok}
use em.Arweave.Gateway.Yields.{Yields, Yields-bind, Yields-then, Yields-ok}
use em.Arweave.Load.{
  load_bundled, ok_or, init_state_of, load_contract, load_fresh, simulated_state, cached_or,
}

module _ {V T C : Type 0} (c : Codecs) (g : Gateway) (cx : CacheExt V T C) where
  -- Whatever comes from the gateway has the id that was asked for.
  load_fresh-id :
      (id : String) (src ty state : Option String)
      → Yields (λ (l : LoadedContract). l.id ≡ id) (load_fresh c g id src ty state)
  unfolding load_fresh
  load_fresh-id id src ty state = Yields-bind Q (g.transaction id) _ λ tx.
      Yields-bind Q (ok_or (or_else src (get_tag c tx "Contract-Src"))) _ λ contract_src.
        Yields-bind Q (g.transaction contract_src) _ λ src_tx.
          Yields-bind Q (g.transaction_data src_tx.id) _ λ bytes.
            Yields-bind Q (init_state_of c g state tx) _
              λ init. Yields-bind Q (ok_or (get_contract_type c ty tx src_tx)) _ λ t. refl
    where
      Q : LoadedContract → Type 0
      Q l = l.id ≡ id

  -- The caches that calls of `load_contract` which give a contract lead to, for any ids, sources,
  -- content types, initial states and flags.
  pub data Loads (s : C) : C → Type 0 where
    here : Loads s s
    load :
        (id : String) (src ty state : Option String) (cache simulated in_bundle : Bool)
        (l : LoadedContract) {s₁ s₂ : C}
        → Loads s s₁
        → load_contract c g cx id src ty state cache simulated in_bundle s₁ ≡ ok (l, s₂)
        → Loads s s₂

  module _ (laws : IsCache cx) (id : String) where
    -- What the cache has for `id`.
    Has : LoadedContract → C → Type 0
    Has l s = (cx.find_contract id s).0 ≡ some l

    cached-Has : (l : LoadedContract) (s : C) → l.id ≡ id → Has l (cx.cache_contract l s)
    unfolding Has
    cached-Has l s e =
        laws.find_contract-cache_contract l id s
        ∙ ap (λ b. if b then some l else (cx.find_contract id s).0) ((eq_iff l.id id).1 e)

    cached_or-Has :
        (o : Option LoadedContract) (state : Option String) (s : C) (fresh : Fetched LoadedContract)
        → (cx.find_contract id s).0 ≡ o
        → Yields (λ (l : LoadedContract). l.id ≡ id) fresh
        → Yields (λ r. Has r.0 r.1) (cached_or c g cx o false state s fresh)
    unfolding cached_or simulated_state Has
    cached_or-Has (some l) none s fresh e k = e
    cached_or-Has (some l) (some state) s fresh e k = e
    cached_or-Has none state s fresh e k =
        Yields-then (λ r. Has r.0 r.1) (λ l. l.id ≡ id) fresh _ k λ l e'. cached-Has l s e'

    -- A contract that is cached stays when the cache is asked for another or the same id.
    cached_or-keeps :
        (l : LoadedContract) (id' : String) (o : Option LoadedContract) (simulated : Bool)
        (state : Option String) (s : C) (fresh : Fetched LoadedContract)
        → (cx.find_contract id' s).0 ≡ o
        → Yields (λ (l : LoadedContract). l.id ≡ id') fresh
        → Has l s
        → Yields (λ r. Has l r.1) (cached_or c g cx o simulated state s fresh)
    unfolding cached_or Has
    cached_or-keeps l id' (some l') simulated state s fresh e k h = h
    cached_or-keeps l id' none simulated state s fresh e k h =
        Yields-then (λ r. Has l r.1) (λ l'. l'.id ≡ id') fresh _ k
          λ l' e'.
            laws.find_contract-cache_contract l' id s
            ∙ ap (λ b. if b then some l' else (cx.find_contract id s).0) (other l' e')
            ∙ h
      where
        other : (l' : LoadedContract) → l'.id ≡ id' → (l'.id == id) ≡ false
        other l' e' = elim (Bool-cases (l'.id == id)) [
          | inl same ↦ let q = (eq_iff l'.id id).0 same in cc
          | inr differs ↦ differs
        ]

    load_contract-keeps :
        (l : LoadedContract) (id' : String) (src ty state : Option String)
        (cache simulated in_bundle : Bool) (s : C)
        → Has l s
        → Yields
            (λ r. Has l r.1)
            (load_contract c g cx id' src ty state cache simulated in_bundle s)
    unfolding load_contract Has
    load_contract-keeps l id' src ty state cache simulated true s h =
        Yields-bind (λ r. Has l r.1) (load_bundled c g id') _ λ _. h
    load_contract-keeps l id' src ty state false simulated false s h =
        Yields-bind (λ r. Has l r.1) (load_fresh c g id' src ty state) _ λ _. h
    load_contract-keeps l id' src ty state true simulated false s h =
        cached_or-keeps l id' (cx.find_contract id' s).0 simulated state (cx.find_contract id' s).1
          (load_fresh c g id' src ty state) (laws.find_contract-find_contract id' id' s)
          (load_fresh-id id' src ty state) (laws.find_contract-find_contract id' id s ∙ h)

    Loads-keep : (l : LoadedContract) (s : C) {s' : C} → Loads s s' → Has l s → Has l s'
    Loads-keep l s here h = h
    Loads-keep l s (load id' src ty state cache simulated in_bundle l' {s₁} before e) h =
        Yields-ok (λ r. Has l r.1)
          (load_contract c g cx id' src ty state cache simulated in_bundle s₁)
          (load_contract-keeps l id' src ty state cache simulated in_bundle s₁
            (Loads-keep l s before h))
          e

    -- Over a cache that keeps what is put in it, a contract that is loaded through the cache, and not
    -- simulated, is what every later load of its id through the cache gives, after any other loads that
    -- give a contract, also with another source, another content type and another initial state; only a
    -- simulated load with an initial state has that state in its place.
    pub load_contract-again :
        (src src' ty ty' state state' : Option String) (simulated' : Bool) (s s' s'' : C)
        (l : LoadedContract)
        → load_contract c g cx id src ty state true false false s ≡ ok (l, s')
        → Loads s' s''
        → load_contract c g cx id src' ty' state' true simulated' false s''
          ≡ ok (simulated_state c g cx l simulated' state', (cx.find_contract id s'').1)
    unfolding load_contract cached_or Has
    load_contract-again src src' ty ty' state state' simulated' s s' s'' l h later =
        ap
          (λ o.
            cached_or c g cx o simulated' state' (cx.find_contract id s'').1
              (load_fresh c g id src' ty' state'))
          (Loads-keep l s' later (
            Yields-ok (λ r. Has r.0 r.1) (load_contract c g cx id src ty state true false false s)
              (cached_or-Has (cx.find_contract id s).0 state (cx.find_contract id s).1
                (load_fresh c g id src ty state) (laws.find_contract-find_contract id id s)
                (load_fresh-id id src ty state))
              h))
