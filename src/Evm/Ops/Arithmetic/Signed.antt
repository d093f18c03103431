-- ===== src/Evm/Ops/Arithmetic/Signed.antt =====
-- crates/evm/lib.rs, SMod and SDiv: what they leave in terms of sign and absolute value.
use em.Base.{
  ℕ, ◌-◌, ◌/◌, ◌%◌, ◌^◌, ◌<◌, ◌≤◌, false, some, List, ◌∷◌, ◌==◌, if◌then◌else◌, ◌≡◌, refl, ◌∙◌,
  arith, Bool-cases, inl, inr,
}
use mathlib.Core.Bool.{xor, and-false}
use em.Evm.Primitives.{Primitives, u256_mod}
use em.Evm.Primitives.Laws.{Lawful, IsU256}
use em.Evm.Machine.{Machine, next, ◌>>=◌}
use em.Evm.Ops.Arithmetic.{exec_s_mod, exec_s_div, signed_quotient}
use em.Evm.Ops.Compare.Signed.{negative, magnitude, bit-negative, to_signed-magnitude}

-- The remainder of the absolute values, with the sign of the dividend.
abbrev pub signed_remainder : ℕ → ℕ → ℕ
signed_remainder a b =
    if magnitude b == 0
    then 0
    else if negative a
    then (u256_mod - magnitude a % magnitude b) % u256_mod
    else magnitude a % magnitude b

magnitude-le : (a : ℕ) → IsU256 a → magnitude a ≤ 2 ^ 255
magnitude-le a h = ground arith

rem_lt : (x y : ℕ) → (y == 0) ≡ false → x % y < y
rem_lt x y h = ground arith

module _ ⦃p : Primitives⦄ (lawful : Lawful p) where
  rem-some : (a b : ℕ) → (b == 0) ≡ false → p.rem a b ≡ some (a % b)
  rem-some a b h = lawful.rem_lem a b ∙ (rw h refl)

  negate : (r : ℕ) → IsU256 r → (p.overflowing_add (p.complement r) 1).0 ≡ (u256_mod - r) % u256_mod
  negate r h =
      ground (arith, lawful.complement_lem r h, lawful.overflowing_add_lem (p.complement r) 1)

  rem-IsU256 :
      (a b : ℕ) → IsU256 b → (magnitude b == 0) ≡ false → IsU256 (magnitude a % magnitude b)
  rem-IsU256 a b k e =
      below (magnitude a % magnitude b) (magnitude b) (rem_lt (magnitude a) (magnitude b) e)
        (magnitude-le b k)
    where
      below : (r y : ℕ) → r < y → y ≤ 2 ^ 255 → r < u256_mod
      below r y l u = omega arith

  -- SMod of two words leaves zero if the divisor is zero, and otherwise the remainder of the
  -- absolute values with the sign of the dividend, in two's complement.
  pub exec_s_mod-signed_remainder :
      (a b : ℕ) (vs : List ℕ) (m : Machine)
      → IsU256 a
      → IsU256 b
      → exec_s_mod (record m { stack = a ∷ b ∷ vs })
        ≡ next tt (record m { stack = signed_remainder a b ∷ vs })
  unfolding exec_s_mod ◌>>=◌
  exec_s_mod-signed_remainder a b vs m h k =
      rw
        (
          to_signed-magnitude lawful a (record m { stack = b ∷ vs }) h,
          bit-negative lawful a h,
          to_signed-magnitude lawful b (record m { stack = vs }) k,
        )
        (elim (Bool-cases (magnitude b == 0)) [
          | inl e ↦ rw e refl
          | inr e ↦
              rw
                (
                  e,
                  rem-some (magnitude a) (magnitude b) e,
                  negate (magnitude a % magnitude b) (rem-IsU256 a b k e),
                )
                refl
        ])

  bit-small : (a : ℕ) → a < 2 ^ 255 → p.bit a 255 ≡ some false
  bit-small a h = ground (arith, lawful.bit_lem a 255)

  largest : p.sub (p.shl 1 255) 1 ≡ some (2 ^ 255 - 1)
  largest = ground (arith, lawful.shl_lem 1 255 (omega arith), lawful.sub_lem (p.shl 1 255) 1)

  div-some : (a b : ℕ) → (b == 0) ≡ false → p.div a b ≡ some (a / b)
  div-some a b h = lawful.div_lem a b ∙ (rw h refl)

  not_minus_two : (b : ℕ) → b < 2 ^ 255 → (b == p.complement 1) ≡ false
  not_minus_two b h = ground (arith, lawful.complement_lem 1 (omega arith))

  signed_quotient-small :
      (x y : ℕ) (m : Machine)
      → x < 2 ^ 255
      → y < 2 ^ 255
      → (y == 0) ≡ false
      → signed_quotient x y m ≡ next (x / y) m
  unfolding signed_quotient xor ◌>>=◌
  signed_quotient-small x y m h k e =
      rw (largest, not_minus_two y k, bit-small x h, bit-small y k, div-some x y e, and-false) refl

  -- SDiv of two words other than -2^255 leaves the quotient of their absolute values, or zero
  -- if the divisor is zero.
  pub exec_s_div-magnitude :
      (a b : ℕ) (vs : List ℕ) (m : Machine)
      → IsU256 a
      → IsU256 b
      → magnitude a < 2 ^ 255
      → magnitude b < 2 ^ 255
      → exec_s_div (record m { stack = a ∷ b ∷ vs })
        ≡ next tt
            (record m { stack = (if magnitude b == 0 then 0 else magnitude a / magnitude b) ∷ vs })
  unfolding exec_s_div ◌>>=◌
  exec_s_div-magnitude a b vs m h k l n =
      rw
        (
          to_signed-magnitude lawful a (record m { stack = b ∷ vs }) h,
          to_signed-magnitude lawful b (record m { stack = vs }) k,
        )
        (elim (Bool-cases (magnitude b == 0)) [
          | inl e ↦ rw e refl
          | inr e ↦
              rw
                (
                  e,
                  signed_quotient-small (magnitude a) (magnitude b) (record m { stack = vs }) l n e,
                )
                refl
        ])
