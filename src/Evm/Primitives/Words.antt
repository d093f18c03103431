-- ===== src/Evm/Primitives/Words.antt =====
-- What a word read from bytes can be: a `U256`.
use em.Base.{
  ℕ, zero, suc, ◌+◌, ◌*◌, ◌^◌, ◌≤◌, ◌<◌, ◌≡◌, ap, some, List, [], ◌∷◌, All, length, arith,
}
use native.Mathlib.Nat.{one-le-pow, pow-suc}
use em.Evm.Primitives.{Primitives}
use em.Evm.Primitives.Laws.{Lawful, IsByte, IsU256, big_endian}

pub big_endian-lt :
    (bound n acc : ℕ) (bs : List ℕ)
    → acc < bound
    → All IsByte bs
    → length bs ≤ n
    → big_endian acc bs < bound * 256 ^ n
big_endian-lt bound n acc [] h b l = grind (arith, one-le-pow n 256)
big_endian-lt bound zero acc (x ∷ bs) h b l = absurd (omega arith)
big_endian-lt bound (suc n) acc (x ∷ bs) h b l = omega (
  arith,
  big_endian-lt (bound * 256) n (acc * 256 + x) bs (omega arith) b.1 (omega arith),
  ap (λ (t : ℕ). bound * t) (pow-suc 256 n),
)

module _ ⦃p : Primitives⦄ (lawful : Lawful p) where
  pub from_slice-IsU256 :
      (bs : List ℕ) (w : ℕ) → All IsByte bs → p.from_slice bs ≡ some w → IsU256 w
  from_slice-IsU256 bs w h e =
      ground (arith, lawful.from_slice_lem bs h, big_endian-lt 1 32 0 bs (omega arith) h)

  pub byte-IsByte : (v i b : ℕ) → p.byte v i ≡ some b → IsByte b
  byte-IsByte v i b e = ground (arith, lawful.byte_lem v i)
