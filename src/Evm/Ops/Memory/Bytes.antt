-- ===== src/Evm/Ops/Memory/Bytes.antt =====
-- The bytes of a 256-bit word as MStore of crates/evm/lib.rs writes them, and lists that hold them.
use em.Base.{
  ℕ, zero, suc, ◌+◌, ◌-◌, ◌*◌, ◌/◌, ◌%◌, ◌^◌, ◌<◌, some, List, [], ◌∷◌, ◌++◌, length, set,
  get_elem?, put, lt→ltb, ◌≡◌, refl, ap, ◌∙◌, arith, length-append, All,
}
use native.Mathlib.Nat.{
  pow-suc, add-mul-mod_self_left, mod-eq_of_lt, mod-lt, div-add-mod, one-le-pow,
}
use em.Evm.Primitives.Laws.{IsByte, big_endian}

-- The lower `n` bytes of a word, the most significant first.
abbrev pub digit : ℕ → ℕ → ℕ
digit v n = v / 256 ^ n % 256

abbrev pub word_bytes : ℕ → ℕ → List ℕ
word_bytes zero v = []
word_bytes (suc n) v = digit v n ∷ word_bytes n v

pub word_bytes-IsByte : (n v : ℕ) → All IsByte (word_bytes n v)
word_bytes-IsByte zero v = tt
word_bytes-IsByte (suc n) v = (omega arith, word_bytes-IsByte n v)

pub length-word_bytes : (n v : ℕ) → length (word_bytes n v) ≡ n
length-word_bytes zero v = refl
length-word_bytes (suc n) v = ap suc (length-word_bytes n v)

mod-mul_256 : (p a : ℕ) → 0 < p → a / p % 256 * p + a % p ≡ a % (p * 256)
mod-mul_256 p a h = rw (split, add-mul-mod_self_left, mod-eq_of_lt below) refl
  where
    total : (p d r s q a : ℕ) → p * q + s ≡ a → q ≡ 256 * d + r → a ≡ r * p + s + p * 256 * d
    total p d r s q a h k = omega (arith, ap (λ x. p * x) k)

    bound : (r p s : ℕ) → r < 256 → s < p → r * p + s < p * 256
    bound r p s h k = grind arith

    below : a / p % 256 * p + a % p < p * 256
    below = bound (a / p % 256) p (a % p) (omega arith) (mod-lt a h)

    split : a % (p * 256) ≡ (a / p % 256 * p + a % p + p * 256 * (a / p / 256)) % (p * 256)
    split =
        ap (λ (t : ℕ). t % (p * 256))
          (total p (a / p / 256) (a / p % 256) (a % p) (a / p) a (div-add-mod a p) (omega arith))

pub big_endian-word_bytes :
    (n acc v : ℕ) → big_endian acc (word_bytes n v) ≡ acc * 256 ^ n + v % 256 ^ n
big_endian-word_bytes zero acc v = omega arith
big_endian-word_bytes (suc n) acc v =
    big_endian-word_bytes n (acc * 256 + digit v n) v
    ∙ (rw pow-suc (
        join acc (digit v n) (256 ^ n) (v % 256 ^ n) (v % (256 ^ n * 256))
          (mod-mul_256 (256 ^ n) v (one-le-pow n 256 (omega arith)))))
  where
    join : (acc d p s t : ℕ) → d * p + s ≡ t → (acc * 256 + d) * p + s ≡ acc * (p * 256) + t
    join acc d p s t h = grind arith

pub get_elem?-word_bytes :
    (n j v : ℕ) → j < n → get_elem? (word_bytes n v) j ≡ some (digit v (n - 1 - j))
get_elem?-word_bytes zero j v h = absurd (omega arith)
get_elem?-word_bytes (suc n) zero v h = ap (λ k. some (digit v k)) (omega arith)
get_elem?-word_bytes (suc n) (suc j) v h =
    get_elem?-word_bytes n j v (omega arith) ∙ ap (λ k. some (digit v k)) (omega arith)

pub get_elem?-append_right :
    (xs ys : List ℕ) (j : ℕ) → get_elem? (xs ++ ys) (length xs + j) ≡ get_elem? ys j
get_elem?-append_right [] ys j = ap (get_elem? ys) (omega arith)
get_elem?-append_right (x ∷ xs) ys j =
    ap (get_elem? (x ∷ (xs ++ ys))) (suc_add (length xs) j) ∙ get_elem?-append_right xs ys j
  where
    suc_add : (n j : ℕ) → suc n + j ≡ suc (n + j)
    suc_add n j = omega arith

pub get_elem?-append_left :
    (xs ys : List ℕ) (j : ℕ) → j < length xs → get_elem? (xs ++ ys) j ≡ get_elem? xs j
get_elem?-append_left [] ys j h = absurd (omega arith)
get_elem?-append_left (x ∷ xs) ys zero h = refl
get_elem?-append_left (x ∷ xs) ys (suc j) h = get_elem?-append_left xs ys j (omega arith)

set-append : (xs ys : List ℕ) (x d : ℕ) → set (xs ++ (x ∷ ys)) (length xs) d ≡ xs ++ (d ∷ ys)
set-append [] ys x d = refl
set-append (y ∷ xs) ys x d = ap (λ r. y ∷ r) (set-append xs ys x d)

pub put-append :
    (xs ys : List ℕ) (x d k : ℕ) → k ≡ length xs → put (xs ++ (x ∷ ys)) k d ≡ some (xs ++ (d ∷ ys))
unfolding put
put-append xs ys x d k h =
    ap (λ i. put (xs ++ (x ∷ ys)) i d) h
    ∙ (rw (lt→ltb (length xs) (length (xs ++ (x ∷ ys))) (omega (arith, length-append xs (x ∷ ys))))
        (ap some (set-append xs ys x d)))
