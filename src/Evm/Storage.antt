-- ===== src/Evm/Storage.antt =====
-- crates/evm/storage.rs: the accounts and their stores, and the encoding of both as bytes.
-- A `HashMap` is the list of its entries, in the order in which it is iterated.
pub mod Words
pub mod Lookups
pub mod RoundTrip
use em.Base.{ℕ, zero, suc, ◌+◌, Option, List, [], ◌∷◌, ◌++◌, ltb, length, slice, true, false}
use em.Base.Map
use em.Base.Map.{ℕ_eq}
use em.Base.Attempt.{Attempt, done, timeout, unwrap, ◌>>=◌}
use em.Evm.Primitives.{Primitives}
use mathlib.Core.Option

pub record Storage : Type 0 where
  pub inner : List (ℕ × List (ℕ × ℕ))

-- `Storage::new`
unfoldable pub new : ℕ → Storage
new owner = record { inner = Map.insert owner [] [] }

-- `Storage::insert`: `none` is the panic for an account that is not there.
unfoldable pub insert : ℕ → ℕ → ℕ → Storage → Option Storage
insert account key value s =
    Option.map
      (λ (entries : List (ℕ × ℕ)). record s {
        inner = Map.insert account (Map.insert key value entries) s.inner;
      })
      (Map.lookup account s.inner)

-- `Storage::get`: a missing key reads as zero.
unfoldable pub get : ℕ → ℕ → Storage → Option ℕ
get account key s =
    Option.map (λ entries. Option.get_or (Map.lookup key entries) 0) (Map.lookup account s.inner)

module _ ⦃p : Primitives⦄ where
  -- `U256::from(&raw[offset..offset + 32])`
  unfoldable pub read_word : List ℕ → ℕ → Attempt ℕ
  read_word raw offset = do
    bytes ← unwrap (slice raw offset (offset + 32))
    unwrap (p.from_slice bytes)

  -- The inner loop of `from_raw`, with the rounds left, the offset and the map read so far.
  unfoldable pub read_entries : ℕ → List ℕ → ℕ → List (ℕ × ℕ) → Attempt (ℕ × List (ℕ × ℕ))
  read_entries zero raw offset entries = done (offset, entries)
  read_entries (suc n) raw offset entries = do
    key ← read_word raw offset
    value ← read_word raw (offset + 32)
    read_entries n raw (offset + 32 + 32) (Map.insert key value entries)

  -- The body of the outer loop: the new offset, the account and its entries.
  unfoldable pub read_account : List ℕ → ℕ → Attempt (ℕ × ℕ × List (ℕ × ℕ))
  unfolding read_word read_entries
  read_account raw offset = do
    account ← read_word raw offset
    key_count ← read_word raw (offset + 32)
    count ← unwrap (p.as_usize key_count)
    (offset', entries) ← read_entries count raw (offset + 32 + 32) []
    done (offset', account, entries)

  -- The outer loop of `from_raw`, on fuel.
  unfoldable pub read_accounts : ℕ → List ℕ → ℕ → Storage → Attempt Storage
  unfolding read_account
  read_accounts zero raw offset s = timeout
  read_accounts (suc fuel) raw offset s = elim (ltb offset (length raw)) [
    | false ↦ done s
    | true ↦ do
      (offset', account, entries) ← read_account raw offset
      read_accounts fuel raw offset' (record s { inner = Map.insert account entries s.inner })
  ]

  -- `Storage::from_raw`: each account takes 64 bytes at least.
  unfoldable pub from_raw : List ℕ → Attempt Storage
  unfolding read_accounts new
  from_raw raw = read_accounts (suc (length raw)) raw 0 (new 0)

  unfoldable pub raw_entries : List (ℕ × ℕ) → List ℕ
  raw_entries [] = []
  raw_entries ((key, value) ∷ entries) = p.to_bytes key ++ (p.to_bytes value ++ raw_entries entries)

  unfoldable pub raw_accounts : List (ℕ × List (ℕ × ℕ)) → List ℕ
  unfolding raw_entries
  raw_accounts [] = []
  raw_accounts ((account, entries) ∷ rest) =
      p.to_bytes account
      ++ (p.to_bytes (length entries) ++ (raw_entries entries ++ raw_accounts rest))

  -- `Storage::raw`
  unfoldable pub raw : Storage → List ℕ
  unfolding raw_accounts
  raw s = raw_accounts s.inner
