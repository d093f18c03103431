-- ===== src/Executor/Contracts/Answers.antt =====
-- crates/executor/lib.rs, `execute_contract`: what `LRU_CACHE` answers.
use em.Base.{ℕ, Bool, Option, none, some, if◌then◌else◌, ◌≡◌, refl, sym, ap, ◌∙◌}
use Prim.Native.String.{String}
use text.Mathlib.TextEquality.{eq_iff}
use em.Evm.Primitives.{Primitives}
use em.Arweave.Cache.Lru.{LruCache, IsUnbounded}
use em.Arweave.Gateway.{Fetched, ok, err, panicked, timeout}
use em.Executor.Raw.{World, ExecuteResult}
use em.Executor.Sort.{Ordering}
use em.Executor.Contracts.{Shared, execute_contract, execute_fresh, hold, answer_or}

ok-result {ℓ κ} :
    {A : Type ℓ} {B : Type κ} {a a' : A} {b b' : B}
    → ◌≡◌ {A = Fetched (A × B)} (ok (a, b)) (ok (a', b'))
    → (a ≡ a') × (b ≡ b')
ok-result h = (cc, cc)

module _ {V T L : Type 0} (lru : LruCache (ExecuteResult V T) L) (u : IsUnbounded lru)
    (id : String) where
  put-held : (l : L) (r : ExecuteResult V T) → (lru.get_mut id (lru.put id r l)).0 ≡ some r
  put-held l r =
      u.get_mut-put id id r l
      ∙ ap (λ b. if b then some r else (lru.get_mut id l).0) ((eq_iff id id).1 refl)

  answer_or-held :
      {C : Type 0} (o : Option (ExecuteResult V T)) (g g' : Shared C L)
      (fresh : Fetched (ExecuteResult V T × Shared C L)) (r : ExecuteResult V T)
      → (lru.get_mut id g.results).0 ≡ o
      → answer_or o g (hold lru id fresh) ≡ ok (r, g')
      → (lru.get_mut id g'.results).0 ≡ some r
  unfolding answer_or hold
  answer_or-held {C} (some r') g g' fresh r e h =
      let (e₁, e₂) = ok-result h in
      ap (λ (s : Shared C L). (lru.get_mut id s.results).0) (sym e₂) ∙ e ∙ ap some e₁
  answer_or-held {C} none g g' (ok (r', s)) r e h =
      let (e₁, e₂) = ok-result h in
      ap (λ (s : Shared C L). (lru.get_mut id s.results).0) (sym e₂)
      ∙ put-held s.results r'
      ∙ ap some e₁
  answer_or-held none g g' err r e h = cc
  answer_or-held none g g' panicked r e h = cc
  answer_or-held none g g' timeout r e h = cc

answer_or-some :
    {V T C L : Type 0} (r : ExecuteResult V T) (g : Shared C L)
    (rest : Fetched (ExecuteResult V T × Shared C L))
    → answer_or (some r) g rest ≡ ok (r, g)
unfolding answer_or
answer_or-some r g rest = refl

module _ {V T C J W L : Type 0} ⦃p : Primitives⦄ (w : World V T (Shared C L) J W)
    (lru : LruCache (ExecuteResult V T) L) (strcoll : String → String → Ordering)
    (requests : ℕ) where
  -- Once a call has given a result for a contract, the next call for that contract gives the same
  -- result, and leaves the cache of crates/arweave as it is, whatever its height, its flags, its
  -- source and its content type.
  pub execute_contract-again :
      IsUnbounded lru
      → (id : String) (height height' : Option ℕ) (cache cache' errors errors' : Bool)
        (src src' ty ty' : Option String) (g g' : Shared C L) (r : ExecuteResult V T)
      → execute_contract w lru strcoll requests id height cache errors src ty g ≡ ok (r, g')
      → execute_contract w lru strcoll requests id height' cache' errors' src' ty' g'
        ≡ ok (r, record g' { results = (lru.get_mut id g'.results).1 })
  unfolding execute_contract
  execute_contract-again u id height height' cache cache' errors errors' src src' ty ty' g g' r h =
      let g₁ = record g { results = (lru.get_mut id g.results).1 } in
      let g₂ = record g' { results = (lru.get_mut id g'.results).1 } in
      let fresh = execute_fresh w strcoll requests id height' cache' errors' src' ty' g₂ in
      ap (λ o. answer_or o g₂ (hold lru id fresh))
        (answer_or-held lru u id (lru.get_mut id g.results).0 g₁ g'
          (execute_fresh w strcoll requests id height cache errors src ty g₁) r
          (u.get_mut-get_mut id id g.results) h)
      ∙ answer_or-some r g₂ (hold lru id fresh)
