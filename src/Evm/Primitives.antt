-- ===== src/Evm/Primitives.antt =====
-- What crates/evm takes from the crates `primitive_types` (`U256`) and `tiny_keccak`. A `U256` is
-- the number that it stands for; the operations are parameters, and `none` is a panic.
pub mod Laws
pub mod Words
pub mod Numbers
use em.Base.{ℕ, ◌^◌, Bool, Option, List}

-- The number of values of a `U256`, and of a `usize` or `u64`.
abbrev pub u256_mod : ℕ
u256_mod = 2 ^ 256

abbrev pub usize_mod : ℕ
usize_mod = 2 ^ 64

pub record Primitives : Type 0 where
  -- the operators `+ - * / %`, which panic
  pub add : ℕ → ℕ → Option ℕ
  pub sub : ℕ → ℕ → Option ℕ
  pub mul : ℕ → ℕ → Option ℕ
  pub div : ℕ → ℕ → Option ℕ
  pub rem : ℕ → ℕ → Option ℕ
  -- the `checked_` operations, where `none` is Rust's `None`
  pub checked_add : ℕ → ℕ → Option ℕ
  pub checked_mul : ℕ → ℕ → Option ℕ
  pub checked_rem : ℕ → ℕ → Option ℕ
  pub overflowing_add : ℕ → ℕ → ℕ × Bool
  pub overflowing_pow : ℕ → ℕ → ℕ × Bool
  -- `!`, `&`, `|`, `^`, `<<`, `>>`
  pub complement : ℕ → ℕ
  pub bitand : ℕ → ℕ → ℕ
  pub bitor : ℕ → ℕ → ℕ
  pub bitxor : ℕ → ℕ → ℕ
  pub shl : ℕ → ℕ → ℕ
  pub shr : ℕ → ℕ → ℕ
  -- bit `i` and byte `i`, counted from the least significant
  pub bit : ℕ → ℕ → Option Bool
  pub byte : ℕ → ℕ → Option ℕ
  pub low_u64 : ℕ → ℕ
  pub as_u64 : ℕ → Option ℕ
  pub as_usize : ℕ → Option ℕ
  -- `U256::from(&[u8])` and `<[u8; 32]>::from(U256)`, both big endian
  pub from_slice : List ℕ → Option ℕ
  pub to_bytes : ℕ → List ℕ
  -- Keccak-256 of a message
  pub keccak256 : List ℕ → List ℕ
