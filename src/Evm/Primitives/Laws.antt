-- ===== src/Evm/Primitives/Laws.antt =====
-- The documented behaviour of the operations of `Primitives`, which theorems take as a hypothesis.
use em.Base.{
  ℕ, ◌+◌, ◌-◌, ◌*◌, ◌/◌, ◌%◌, ◌^◌, ◌<◌, ◌≡◌, none, some, List, [], ◌∷◌, ltb, leb, ◌==◌,
  if◌then◌else◌, length, All,
}
use em.Evm.Primitives.{Primitives, u256_mod, usize_mod}

-- A value of the type `U256`, and one of the type `u8`.
abbrev pub IsU256 : ℕ → Type 0
IsU256 n = n < u256_mod

abbrev pub IsByte : ℕ → Type 0
IsByte n = n < 256

-- The number that bytes stand for, the most significant first.
abbrev pub big_endian : ℕ → List ℕ → ℕ
big_endian acc [] = acc
big_endian acc (b ∷ bs) = big_endian (acc * 256 + b) bs

pub record Lawful (p : Primitives) : Type 0 where
  pub add_lem : (a b : ℕ) → p.add a b ≡ (if ltb (a + b) u256_mod then some (a + b) else none)
  pub sub_lem : (a b : ℕ) → p.sub a b ≡ (if leb b a then some (a - b) else none)
  pub mul_lem : (a b : ℕ) → p.mul a b ≡ (if ltb (a * b) u256_mod then some (a * b) else none)
  pub div_lem : (a b : ℕ) → p.div a b ≡ (if b == 0 then none else some (a / b))
  pub rem_lem : (a b : ℕ) → p.rem a b ≡ (if b == 0 then none else some (a % b))
  pub checked_add_lem :
      (a b : ℕ) → p.checked_add a b ≡ (if ltb (a + b) u256_mod then some (a + b) else none)
  pub checked_mul_lem :
      (a b : ℕ) → p.checked_mul a b ≡ (if ltb (a * b) u256_mod then some (a * b) else none)
  pub checked_rem_lem : (a b : ℕ) → p.checked_rem a b ≡ (if b == 0 then none else some (a % b))
  pub overflowing_add_lem :
      (a b : ℕ) → p.overflowing_add a b ≡ ((a + b) % u256_mod, leb u256_mod (a + b))
  pub overflowing_pow_lem : (a b : ℕ) → (p.overflowing_pow a b).0 ≡ a ^ b % u256_mod
  pub complement_lem : (a : ℕ) → IsU256 a → p.complement a ≡ u256_mod - 1 - a
  pub bitand-lt : (a b : ℕ) → IsU256 a → IsU256 b → IsU256 (p.bitand a b)
  pub bitor-lt : (a b : ℕ) → IsU256 a → IsU256 b → IsU256 (p.bitor a b)
  pub bitxor-lt : (a b : ℕ) → IsU256 a → IsU256 b → IsU256 (p.bitxor a b)
  pub shl_lem : (a k : ℕ) → k < 256 → p.shl a k ≡ a * 2 ^ k % u256_mod
  pub shr_lem : (a k : ℕ) → k < 256 → p.shr a k ≡ a / 2 ^ k
  pub bit_lem : (a i : ℕ) → p.bit a i ≡ (if ltb i 256 then some (a / 2 ^ i % 2 == 1) else none)
  pub byte_lem : (a i : ℕ) → p.byte a i ≡ (if ltb i 32 then some (a / 256 ^ i % 256) else none)
  pub low_u64_lem : (a : ℕ) → p.low_u64 a ≡ a % usize_mod
  pub as_u64_lem : (a : ℕ) → p.as_u64 a ≡ (if ltb a usize_mod then some a else none)
  pub as_usize_lem : (a : ℕ) → p.as_usize a ≡ (if ltb a usize_mod then some a else none)
  pub from_slice_lem :
      (bs : List ℕ)
      → All IsByte bs
      → p.from_slice bs ≡ (if leb (length bs) 32 then some (big_endian 0 bs) else none)
  pub length-to_bytes : (a : ℕ) → length (p.to_bytes a) ≡ 32
  pub to_bytes-IsByte : (a : ℕ) → All IsByte (p.to_bytes a)
  pub to_bytes_lem : (a : ℕ) → IsU256 a → big_endian 0 (p.to_bytes a) ≡ a
  pub length-keccak256 : (bs : List ℕ) → length (p.keccak256 bs) ≡ 32
  pub keccak256-IsByte : (bs : List ℕ) → All IsByte (p.keccak256 bs)
