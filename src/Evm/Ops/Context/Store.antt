-- ===== src/Evm/Ops/Context/Store.antt =====
-- crates/evm/lib.rs, SStore and SLoad: what is stored is loaded again.
use em.Base.{ℕ, Option, none, some, List, ◌∷◌, ◌==◌, if◌then◌else◌, ◌≡◌, refl, arith}
use em.Base.Map
use em.Base.Map.{ℕ_eq, lookup-insert, Eq}
use mathlib.Core.Option
use em.Evm.Storage
use em.Evm.Storage.{Storage}
use em.Evm.Machine.{Machine, next, ◌>>=◌}
use em.Evm.Ops.Context.{exec_s_load, exec_s_store}

-- After an insertion the key reads as the value, and every other key of every account as before.
get-insert :
    (account key value : ℕ) (s s' : Storage) (other key' : ℕ)
    → Storage.insert account key value s ≡ some s'
    → Storage.get other key' s' ≡ (
        if other == account
        then (if key' == key then some value else Storage.get other key' s)
        else Storage.get other key' s)
unfolding Storage.insert Storage.get
get-insert account key value s s' other key' h = go (Map.lookup account s.inner) refl h
  where
    go :
        (o : Option (List (ℕ × ℕ)))
        → Map.lookup account s.inner ≡ o
        → Option.map
            (λ (entries : List (ℕ × ℕ)). record s {
              inner = Map.insert account (Map.insert key value entries) s.inner;
            })
            o
          ≡ some s'
        → Option.map
            (λ entries. Option.get_or (Map.lookup key' entries) 0)
            (Map.lookup other s'.inner)
          ≡ (if other == account
              then (if key' == key
                  then some value
                  else Option.map
                      (λ entries. Option.get_or (Map.lookup key' entries) 0)
                      (Map.lookup other s.inner))
              else Option.map
                  (λ entries. Option.get_or (Map.lookup key' entries) 0)
                  (Map.lookup other s.inner))
    go none e h = cc
    go (some entries) e h = ground (
      arith,
      Map.lookup-insert account other (Map.insert key value entries) s.inner,
      Map.lookup-insert key key' value entries,
      e,
      h,
    )

-- An account that can be read can be written.
insert-some :
    (account key value key' old : ℕ) (s : Storage)
    → Storage.get account key' s ≡ some old
    → (s' : Storage) × (Storage.insert account key value s ≡ some s')
unfolding Storage.insert Storage.get
insert-some account key value key' old s h = go (Map.lookup account s.inner) h
  where
    go :
        (o : Option (List (ℕ × ℕ)))
        → Option.map (λ entries. Option.get_or (Map.lookup key' entries) 0) o ≡ some old
        → (s' : Storage) × (Option.map
              (λ (entries : List (ℕ × ℕ)). record s {
                inner = Map.insert account (Map.insert key value entries) s.inner;
              })
              o
            ≡ some s')
    go none h = absurd (Option.none-ne-some old h)
    go (some entries) h =
        (record s { inner = Map.insert account (Map.insert key value entries) s.inner }, refl)

get-stored :
    (account key value key' old : ℕ) (s s' : Storage)
    → Storage.insert account key value s ≡ some s'
    → Storage.get account key' s ≡ some old
    → Storage.get account key' s' ≡ some (if key' == key then value else old)
get-stored account key value key' old s s' h k =
    ground (arith, get-insert account key value s s' account key' h, k)

-- SStore of a key and a value, in an account that the storage has, takes both from the stack and goes
-- on; SLoad of any key then gives the value for that key, and what it gave before for another.
pub exec_s_store-exec_s_load :
    (key value key' old : ℕ) (vs ws : List ℕ) (m : Machine)
    → Storage.get m.owner key' m.storage ≡ some old
    → (s' : Storage) × (exec_s_store (record m { stack = key ∷ value ∷ vs })
        ≡ next tt (record m { stack = vs; storage = s' }))
      × (exec_s_load (record m { stack = key' ∷ ws; storage = s' })
          ≡ next tt (record m { stack = (if key' == key then value else old) ∷ ws; storage = s' }))
unfolding exec_s_store exec_s_load ◌>>=◌
exec_s_store-exec_s_load key value key' old vs ws m h =
    let (s', e) = insert-some m.owner key value key' old m.storage h in
    (s', rw e refl, rw (get-stored m.owner key value key' old m.storage s' e h) refl)
