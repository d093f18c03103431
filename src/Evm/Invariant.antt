-- ===== src/Evm/Invariant.antt =====
-- The invariant of a machine under `execute`: its words and bytes are in range, and only the
-- owner's account is written.
pub mod Rules
pub mod Arithmetic
pub mod Values
pub mod Buffers
pub mod Effects
pub mod Calls
pub mod Dispatch
pub mod Run
use em.Base.{ℕ, ◌<◌, ◌≡◌, ◌≢◌, Option, none, some, List, All, length}
use em.Base.Map
use em.Base.Map.{ℕ_eq}
use em.Evm.Primitives.{usize_mod}
use em.Evm.Primitives.Laws.{IsU256, IsByte}
use em.Evm.Storage.{Storage}
use em.Evm.Machine.{Machine, BlockInfo, ContractInfo}

-- Keys and values of every account are of the type `U256`.
abbrev pub IsEntry : ℕ × ℕ → Type 0
IsEntry e = IsU256 e.0 × IsU256 e.1

abbrev pub Fits : Storage → Type 0
Fits s = All (λ (a : ℕ × List (ℕ × ℕ)). All IsEntry a.1) s.inner

abbrev pub HasAccount : ℕ → Storage → Type 0
HasAccount a s = (entries : List (ℕ × ℕ)) × (Map.lookup a s.inner ≡ some entries)

-- Two storages agree on every account but `owner`.
abbrev pub SameOthers : ℕ → Storage → Storage → Type 0
SameOthers owner s t = (a : ℕ) → a ≢ owner → Map.lookup a s.inner ≡ Map.lookup a t.inner

-- Code is a slice of bytes, and a slice has fewer than 2 ^ 64 of them.
abbrev pub IsCode : List ℕ → Type 0
IsCode code = All IsByte code × (length code < usize_mod)

pub record IsBlock (b : BlockInfo) : Type 0 where
  pub timestamp_fits : IsU256 b.timestamp
  pub difficulty_fits : IsU256 b.difficulty
  pub block_hash_fits : IsU256 b.block_hash
  pub number_fits : IsU256 b.number

-- What the fetcher gives: code, and a storage with the account zero, which `Storage::from_raw`
-- makes.
pub record IsContract (c : ContractInfo) : Type 0 where
  pub bytecode_fits : IsCode c.bytecode
  pub store_fits : Fits c.store
  pub store_account : HasAccount 0 c.store

pub record Invariant (s : Storage) (owner : ℕ) (m : Machine) : Type 0 where
  pub stack_fits : All IsU256 m.stack
  pub state_fits : IsU256 m.state
  pub memory_fits : All IsByte m.memory
  pub result_fits : All IsByte m.result
  pub result_size : length m.result < usize_mod
  pub input_fits : IsCode m.input
  pub owner_fits : IsU256 owner
  pub same_owner : m.owner ≡ owner
  pub entries_fit : Fits m.storage
  pub account : HasAccount owner m.storage
  pub others : SameOthers owner m.storage s
  pub fetcher : (a : ℕ) (c : ContractInfo) → m.fetch_contract a ≡ some c → IsContract c
