-- ===== src/Evm/Primitives/Numbers.antt =====
-- Operations on numbers that obey the laws: the assumptions can be met, and examples can run.
use em.Base.{
  ℕ, zero, suc, ◌+◌, ◌-◌, ◌*◌, ◌/◌, ◌%◌, ◌^◌, ◌<◌, ◌≡◌, refl, ap, ◌∙◌, Option, none, some, List, [],
  ◌∷◌, ◌++◌, ltb, leb, ◌==◌, if◌then◌else◌, length, All, All-append, length-append, arith,
  replicate, length-replicate, All-replicate,
}
use Prim.Native.Nat.{bit_and, bit_or, bit_xor}
use native.Mathlib.Nat.{
  add-mul-mod_self_left, mod-eq_of_lt, mod-lt, div-add-mod, one-le-pow, pow-suc,
}
use em.Evm.Primitives.{Primitives, u256_mod, usize_mod}
use em.Evm.Primitives.Laws.{Lawful, IsByte, big_endian}

bytes_of : ℕ → ℕ → List ℕ
bytes_of zero a = []
bytes_of (suc n) a = bytes_of n (a / 256) ++ (a % 256 ∷ [])

abbrev fits : ℕ → Option ℕ
fits n = if ltb n u256_mod then some n else none

instance unfoldable pub numbers : Primitives
unfolding bytes_of
numbers = record {
  add = λ a b. fits (a + b);
  sub = λ a b. if leb b a then some (a - b) else none;
  mul = λ a b. fits (a * b);
  div = λ a b. if b == 0 then none else some (a / b);
  rem = λ a b. if b == 0 then none else some (a % b);
  checked_add = λ a b. fits (a + b);
  checked_mul = λ a b. fits (a * b);
  checked_rem = λ a b. if b == 0 then none else some (a % b);
  overflowing_add = λ a b. ((a + b) % u256_mod, leb u256_mod (a + b));
  overflowing_pow = λ a b. (a ^ b % u256_mod, leb u256_mod (a ^ b));
  complement = λ a. u256_mod - 1 - a;
  bitand = λ a b. bit_and a b % u256_mod;
  bitor = λ a b. bit_or a b % u256_mod;
  bitxor = λ a b. bit_xor a b % u256_mod;
  shl = λ a k. a * 2 ^ k % u256_mod;
  shr = λ a k. a / 2 ^ k;
  bit = λ a i. if ltb i 256 then some (a / 2 ^ i % 2 == 1) else none;
  byte = λ a i. if ltb i 32 then some (a / 256 ^ i % 256) else none;
  low_u64 = λ a. a % usize_mod;
  as_u64 = λ a. if ltb a usize_mod then some a else none;
  as_usize = λ a. if ltb a usize_mod then some a else none;
  from_slice = λ bs. if leb (length bs) 32 then some (big_endian 0 bs) else none;
  to_bytes = bytes_of 32;
  keccak256 = λ bs. replicate 32 (length bs % 256);
}

length-bytes_of : (n a : ℕ) → length (bytes_of n a) ≡ n
unfolding bytes_of
length-bytes_of zero a = refl
length-bytes_of (suc n) a =
    omega (arith, length-append (bytes_of n (a / 256)) (a % 256 ∷ []), length-bytes_of n (a / 256))

bytes_of-IsByte : (n a : ℕ) → All IsByte (bytes_of n a)
unfolding bytes_of
bytes_of-IsByte zero a = tt
bytes_of-IsByte (suc n) a =
    All-append IsByte (bytes_of n (a / 256)) (a % 256 ∷ []) (bytes_of-IsByte n (a / 256))
      (omega arith)

big_endian-append :
    (acc : ℕ) (xs ys : List ℕ) → big_endian acc (xs ++ ys) ≡ big_endian (big_endian acc xs) ys
big_endian-append acc [] ys = refl
big_endian-append acc (x ∷ xs) ys = big_endian-append (acc * 256 + x) xs ys

-- A remainder by `p * 256`, from the quotient by 256.
mod-mul_256 : (p a : ℕ) → 0 < p → a / 256 % p * 256 + a % 256 ≡ a % (p * 256)
mod-mul_256 p a h = rw (split, add-mul-mod_self_left, mod-eq_of_lt below)
  where
    q : ℕ
    q = a / 256

    below : a / 256 % p * 256 + a % 256 < p * 256
    below = omega (arith, mod-lt (a / 256) h)

    split : a % (p * 256) ≡ (a / 256 % p * 256 + a % 256 + p * 256 * (a / 256 / p)) % (p * 256)
    split = ap (λ (t : ℕ). t % (p * 256)) (omega (arith, div-add-mod (a / 256) p))

big_endian-bytes_of : (n a : ℕ) → big_endian 0 (bytes_of n a) ≡ a % 256 ^ n
unfolding bytes_of
big_endian-bytes_of zero a = omega arith
big_endian-bytes_of (suc n) a =
    rw (big_endian-append, big_endian-bytes_of n (a / 256), pow-suc)
      (mod-mul_256 (256 ^ n) a (one-le-pow n 256 (omega arith)))

pub numbers-Lawful : Lawful numbers
unfolding numbers
numbers-Lawful = record {
  add_lem = λ a b. refl;
  sub_lem = λ a b. refl;
  mul_lem = λ a b. refl;
  div_lem = λ a b. refl;
  rem_lem = λ a b. refl;
  checked_add_lem = λ a b. refl;
  checked_mul_lem = λ a b. refl;
  checked_rem_lem = λ a b. refl;
  overflowing_add_lem = λ a b. refl;
  overflowing_pow_lem = λ a b. refl;
  complement_lem = λ a h. refl;
  bitand-lt = λ a b h k. omega arith;
  bitor-lt = λ a b h k. omega arith;
  bitxor-lt = λ a b h k. omega arith;
  shl_lem = λ a k h. refl;
  shr_lem = λ a k h. refl;
  bit_lem = λ a i. refl;
  byte_lem = λ a i. refl;
  low_u64_lem = λ a. refl;
  as_u64_lem = λ a. refl;
  as_usize_lem = λ a. refl;
  from_slice_lem = λ bs h. refl;
  length-to_bytes = length-bytes_of 32;
  to_bytes-IsByte = bytes_of-IsByte 32;
  to_bytes_lem = λ a h. big_endian-bytes_of 32 a ∙ mod-eq_of_lt h;
  length-keccak256 = λ bs. length-replicate 32 (length bs % 256);
  keccak256-IsByte = λ bs. All-replicate IsByte 32 (length bs % 256) (omega arith);
}
