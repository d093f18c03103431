-- ===== src/Evm/Ops/Compare/Signed.antt =====
-- crates/evm/lib.rs, SLt and SGt: the order of two's complement numbers.
use em.Base.{
  ℕ, ◌+◌, ◌-◌, ◌%◌, ◌^◌, Bool, true, some, List, ◌∷◌, ltb, leb, if◌then◌else◌, ◌≡◌, refl, ap, ◌∙◌,
  arith, Bool-cases, inl, inr,
}
use em.Evm.Primitives.{Primitives, u256_mod}
use em.Evm.Primitives.Laws.{Lawful, IsU256}
use em.Evm.Machine.{Machine, next, ◌>>=◌}
use em.Evm.Ops.Arithmetic.{to_signed}
use em.Evm.Ops.Compare.{flag, s_lt_of, s_gt_of, exec_signed, exec_s_lt, exec_s_gt}

-- The sign and the absolute value of a word.
abbrev pub negative : ℕ → Bool
negative a = leb (2 ^ 255) a

abbrev pub magnitude : ℕ → ℕ
magnitude a = if negative a then u256_mod - a else a

-- A word with its sign bit turned: two's complement numbers are ordered as these are.
abbrev pub biased : ℕ → ℕ
biased a = (a + 2 ^ 255) % u256_mod

s_lt_of-biased :
    (a b : ℕ)
    → IsU256 a
    → IsU256 b
    → s_lt_of (negative a) (negative b) (magnitude a) (magnitude b) ≡ ltb (biased a) (biased b)
s_lt_of-biased a b h k = ground arith

s_gt_of-biased :
    (a b : ℕ)
    → IsU256 a
    → IsU256 b
    → s_gt_of (negative a) (negative b) (magnitude a) (magnitude b) ≡ ltb (biased b) (biased a)
s_gt_of-biased a b h k = ground arith

module _ ⦃p : Primitives⦄ (lawful : Lawful p) where
  pub bit-negative : (a : ℕ) → IsU256 a → p.bit a 255 ≡ some (negative a)
  bit-negative a h = ground (arith, lawful.bit_lem a 255)

  complement-magnitude :
      (a : ℕ)
      → IsU256 a
      → leb (2 ^ 255) a ≡ true
      → (p.overflowing_add (p.complement a) 1).0 ≡ u256_mod - a
  complement-magnitude a h k =
      ground (arith, lawful.complement_lem a h, lawful.overflowing_add_lem (p.complement a) 1)

  value-magnitude :
      (a : ℕ)
      → IsU256 a
      → (if negative a then (p.overflowing_add (p.complement a) 1).0 else a) ≡ magnitude a
  value-magnitude a h = elim (Bool-cases (leb (2 ^ 255) a)) [
    | inl e ↦ rw e (complement-magnitude a h e)
    | inr e ↦ rw e refl
  ]

  pub to_signed-magnitude : (a : ℕ) (m : Machine) → IsU256 a → to_signed a m ≡ next (magnitude a) m
  unfolding to_signed ◌>>=◌
  to_signed-magnitude a m h = rw (bit-negative a h) (ap (λ v. next v m) (value-magnitude a h))

  exec_signed-magnitude :
      (test : Bool → Bool → ℕ → ℕ → Bool) (a b : ℕ) (vs : List ℕ) (m : Machine)
      → IsU256 a
      → IsU256 b
      → exec_signed test (record m { stack = a ∷ b ∷ vs })
        ≡ next tt (record m {
          stack = flag (test (negative a) (negative b) (magnitude a) (magnitude b)) ∷ vs;
        })
  unfolding exec_signed ◌>>=◌
  exec_signed-magnitude test a b vs m h k =
      rw
        (
          bit-negative a h,
          to_signed-magnitude a (record m { stack = b ∷ vs }) h,
          bit-negative b k,
          to_signed-magnitude b (record m { stack = vs }) k,
        )
        refl

  -- On a stack with two words on top, SLt leaves one in place of both: 1 if the first is less than the
  -- second as two's complement numbers, which is to say once their sign bits are turned, and 0
  -- otherwise. SGt does so for the converse order.
  pub exec_s_lt-biased :
      (a b : ℕ) (vs : List ℕ) (m : Machine)
      → IsU256 a
      → IsU256 b
      → (exec_s_lt (record m { stack = a ∷ b ∷ vs })
          ≡ next tt (record m { stack = flag (ltb (biased a) (biased b)) ∷ vs }))
        × (exec_s_gt (record m { stack = a ∷ b ∷ vs })
            ≡ next tt (record m { stack = flag (ltb (biased b) (biased a)) ∷ vs }))
  unfolding exec_s_lt exec_s_gt
  exec_s_lt-biased a b vs m h k = (
    exec_signed-magnitude s_lt_of a b vs m h k
        ∙ ap (λ t. next tt (record m { stack = flag t ∷ vs })) (s_lt_of-biased a b h k),
    exec_signed-magnitude s_gt_of a b vs m h k
        ∙ ap (λ t. next tt (record m { stack = flag t ∷ vs })) (s_gt_of-biased a b h k),
  )
