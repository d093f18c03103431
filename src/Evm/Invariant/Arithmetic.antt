-- ===== src/Evm/Invariant/Arithmetic.antt =====
-- The arms of arithmetic, comparison and bits keep the invariant: what they push is a `U256`.
use em.Base.{
  ℕ, ◌<◌, ◌≡◌, refl, Bool, Option, none, some, ltb, ◌==◌, if◌then◌else◌, ◌&&◌, ltb→lt, arith, true,
  false,
}
use em.Evm.Primitives.{Primitives}
use em.Evm.Primitives.Laws.{Lawful, IsU256}
use em.Evm.Storage.{Storage}
use em.Evm.Machine.{Action, pop, ◌>>=◌}
use em.Evm.Machine.Keeps.{
  Keeps, Keeps-bind, Keeps-pure, Keeps-finish, Keeps-unwrap, Keeps-unwrap_any, Keeps-if,
}
use em.Evm.Invariant.{Invariant}
use em.Evm.Invariant.Rules.{Done, push-Keeps, pop-Keeps}
use em.Evm.Ops.Arithmetic.{
  to_signed, exec_add, exec_sub, exec_mul, exec_div, signed_quotient, exec_s_div, exec_modulo,
  exec_s_mod, reduced, exec_add_mod, exec_mul_mod, exec_exp, exec_sign_extend,
}
use em.Evm.Ops.Compare.{
  flag, exec_lt, exec_gt, exec_eq, exec_is_zero, exec_signed, exec_s_lt, exec_s_gt,
}
use em.Evm.Ops.Bits.{exec_shr, exec_and, exec_or, exec_xor, exec_not, exec_byte}

module _ {s : Storage} {owner : ℕ} {B : Type 0} {Q : B → Type 0} where
  pub Keeps-pop :
      {f : ℕ → Action B}
      → ((a : ℕ) → IsU256 a → Keeps (Invariant s owner) Q (f a))
      → Keeps (Invariant s owner) Q (pop >>= f)
  Keeps-pop k = Keeps-bind pop-Keeps k

flag-IsU256 : (b : Bool) → IsU256 (flag b)
flag-IsU256 true = omega arith
flag-IsU256 false = omega arith

module _ ⦃p : Primitives⦄ (lawful : Lawful p) where
  div-fits : (a b c : ℕ) → IsU256 a → p.div a b ≡ some c → IsU256 c
  div-fits a b c h e = ground (arith, lawful.div_lem a b)

  rem-fits : (a b c : ℕ) → IsU256 a → p.rem a b ≡ some c → IsU256 c
  rem-fits a b c h e = ground (arith, lawful.rem_lem a b)

  mask-fits : (k c : ℕ) → k < 256 → p.sub (p.shl 1 k) 1 ≡ some c → IsU256 c
  mask-fits k c h e = ground (arith, lawful.sub_lem (p.shl 1 k) 1, lawful.shl_lem 1 k h)

  sign_extended-fits :
      (bit : Bool) (v mask rest : ℕ)
      → IsU256 v
      → IsU256 mask
      → IsU256 rest
      → IsU256 (if bit then p.bitor v rest else p.bitand v mask)
  sign_extended-fits true v mask rest h k l = lawful.bitor-lt v rest h l
  sign_extended-fits false v mask rest h k l = lawful.bitand-lt v mask h k

  bit-in_range : (v k : ℕ) (b : Bool) → p.bit v k ≡ some b → k < 256
  bit-in_range v k b e = ground (arith, lawful.bit_lem v k)

module _ ⦃p : Primitives⦄ (lawful : Lawful p) {s : Storage} {owner : ℕ} where
  to_signed-Keeps : (v : ℕ) → IsU256 v → Keeps (Invariant s owner) IsU256 (to_signed v)
  unfolding to_signed
  to_signed-Keeps v h =
      Keeps-bind (Keeps-unwrap_any (p.bit v 255))
        λ negative _. Keeps-pure _ (ground (arith, lawful.overflowing_add_lem (p.complement v) 1))

  pub exec_add-Keeps : Keeps (Invariant s owner) Done exec_add
  unfolding exec_add
  exec_add-Keeps = Keeps-pop λ a ha.
      Keeps-pop
        λ b hb. Keeps-bind (Keeps-unwrap _ λ c e. ground (arith, lawful.add_lem a b)) push-Keeps

  pub exec_sub-Keeps : Keeps (Invariant s owner) Done exec_sub
  unfolding exec_sub
  exec_sub-Keeps = Keeps-pop λ a ha.
      Keeps-pop
        λ b hb. Keeps-bind (Keeps-unwrap _ λ c e. ground (arith, lawful.sub_lem a b)) push-Keeps

  pub exec_mul-Keeps : Keeps (Invariant s owner) Done exec_mul
  unfolding exec_mul
  exec_mul-Keeps = Keeps-pop λ a ha.
      Keeps-pop
        λ b hb. Keeps-bind (Keeps-unwrap _ λ c e. ground (arith, lawful.mul_lem a b)) push-Keeps

  pub exec_div-Keeps : Keeps (Invariant s owner) Done exec_div
  unfolding exec_div
  exec_div-Keeps = Keeps-pop λ a ha. Keeps-pop λ b hb.
      Keeps-if (b == 0) (λ _. Keeps-finish _)
        (λ _. Keeps-bind (Keeps-unwrap _ λ c. div-fits lawful a b c ha) push-Keeps)

  signed_quotient-Keeps :
      (a b : ℕ) → IsU256 a → Keeps (Invariant s owner) IsU256 (signed_quotient a b)
  unfolding signed_quotient
  signed_quotient-Keeps a b ha =
      Keeps-bind
        (Keeps-unwrap (p.sub (p.shl 1 255) 1)
          λ c e. ground (arith, lawful.sub_lem (p.shl 1 255) 1, lawful.shl_lem 1 255))
        λ least hm.
          Keeps-if (a == least && b == p.complement 1) (λ _. Keeps-pure least hm)
            λ _. Keeps-bind (Keeps-unwrap_any _) λ l _. Keeps-bind (Keeps-unwrap_any _) λ r _.
              Keeps-bind (Keeps-unwrap _ λ c. div-fits lawful a b c ha)
                λ q hq. Keeps-pure _ (ground (arith, lawful.complement_lem q hq))

  pub exec_s_div-Keeps : Keeps (Invariant s owner) Done exec_s_div
  unfolding exec_s_div
  exec_s_div-Keeps = Keeps-pop λ top h. Keeps-bind (to_signed-Keeps top h) λ a ha.
      Keeps-pop λ second k. Keeps-bind (to_signed-Keeps second k) λ b hb.
        Keeps-bind
          (Keeps-if (b == 0) (λ _. Keeps-pure 0 (omega arith)) (λ _. signed_quotient-Keeps a b ha))
          push-Keeps

  pub exec_modulo-Keeps : Keeps (Invariant s owner) Done exec_modulo
  unfolding exec_modulo
  exec_modulo-Keeps =
      Keeps-pop λ a ha. Keeps-pop λ b hb. push-Keeps _ (ground (arith, lawful.checked_rem_lem a b))

  pub exec_s_mod-Keeps : Keeps (Invariant s owner) Done exec_s_mod
  unfolding exec_s_mod
  exec_s_mod-Keeps = Keeps-pop λ a ha. Keeps-bind (to_signed-Keeps a ha) λ left hl.
      Keeps-bind (Keeps-unwrap_any _) λ sign _. Keeps-pop λ b hb.
        Keeps-bind (to_signed-Keeps b hb) λ right hr.
          Keeps-if (right == 0) (λ _. push-Keeps 0 (omega arith))
            λ _.
              Keeps-bind (Keeps-unwrap _ λ c. rem-fits lawful left right c hl)
                λ v hv. push-Keeps _ (ground (arith, lawful.overflowing_add_lem (p.complement v) 1))

  reduced-Keeps :
      (o : Option ℕ) (c : ℕ)
      → ((a : ℕ) → o ≡ some a → IsU256 a)
      → Keeps (Invariant s owner) IsU256 (reduced o c)
  unfolding reduced
  reduced-Keeps none c h = Keeps-pure 0 (omega arith)
  reduced-Keeps (some a) c h = Keeps-unwrap _ λ r. rem-fits lawful a c r (h a refl)

  pub exec_add_mod-Keeps : Keeps (Invariant s owner) Done exec_add_mod
  unfolding exec_add_mod
  exec_add_mod-Keeps = Keeps-pop λ a ha. Keeps-pop λ b hb. Keeps-pop λ c hc.
      Keeps-bind (reduced-Keeps _ c λ r e. ground (arith, lawful.checked_add_lem a b)) push-Keeps

  pub exec_mul_mod-Keeps : Keeps (Invariant s owner) Done exec_mul_mod
  unfolding exec_mul_mod
  exec_mul_mod-Keeps = Keeps-pop λ a ha. Keeps-pop λ b hb. Keeps-pop λ c hc.
      Keeps-bind (reduced-Keeps _ c λ r e. ground (arith, lawful.checked_mul_lem a b)) push-Keeps

  pub exec_exp-Keeps : Keeps (Invariant s owner) Done exec_exp
  unfolding exec_exp
  exec_exp-Keeps =
      Keeps-pop
        λ a ha. Keeps-pop λ b hb. push-Keeps _ (ground (arith, lawful.overflowing_pow_lem a b))

  pub exec_sign_extend-Keeps : Keeps (Invariant s owner) Done exec_sign_extend
  unfolding exec_sign_extend
  exec_sign_extend-Keeps = Keeps-pop λ pos hp. Keeps-pop λ v hv.
      Keeps-if (ltb 32 pos) (λ _. push-Keeps v hv)
        λ _. Keeps-bind (Keeps-unwrap _ (bit-in_range lawful v _)) λ bit k.
          Keeps-bind (Keeps-unwrap _ λ c. mask-fits lawful _ c k) λ mask h. push-Keeps _ (
            sign_extended-fits lawful bit v mask (p.complement mask) hv h
              (omega (arith, lawful.complement_lem mask h)))

  pub exec_lt-Keeps : Keeps (Invariant s owner) Done exec_lt
  unfolding exec_lt
  exec_lt-Keeps = Keeps-pop λ a _. Keeps-pop λ b _. push-Keeps _ (flag-IsU256 _)

  pub exec_gt-Keeps : Keeps (Invariant s owner) Done exec_gt
  unfolding exec_gt
  exec_gt-Keeps = Keeps-pop λ a _. Keeps-pop λ b _. push-Keeps _ (flag-IsU256 _)

  pub exec_eq-Keeps : Keeps (Invariant s owner) Done exec_eq
  unfolding exec_eq
  exec_eq-Keeps = Keeps-pop λ a _. Keeps-pop λ b _. push-Keeps _ (flag-IsU256 _)

  pub exec_is_zero-Keeps : Keeps (Invariant s owner) Done exec_is_zero
  unfolding exec_is_zero
  exec_is_zero-Keeps = Keeps-pop λ a _. push-Keeps _ (flag-IsU256 _)

  exec_signed-Keeps :
      (test : Bool → Bool → ℕ → ℕ → Bool) → Keeps (Invariant s owner) Done (exec_signed test)
  unfolding exec_signed
  exec_signed-Keeps test = Keeps-pop λ a ha. Keeps-bind (Keeps-unwrap_any _) λ l _.
      Keeps-bind (to_signed-Keeps a ha) λ x _. Keeps-pop λ b hb.
        Keeps-bind (Keeps-unwrap_any _)
          λ r _. Keeps-bind (to_signed-Keeps b hb) λ y _. push-Keeps _ (flag-IsU256 _)

  pub exec_s_lt-Keeps : Keeps (Invariant s owner) Done exec_s_lt
  unfolding exec_s_lt
  exec_s_lt-Keeps = exec_signed-Keeps _

  pub exec_s_gt-Keeps : Keeps (Invariant s owner) Done exec_s_gt
  unfolding exec_s_gt
  exec_s_gt-Keeps = exec_signed-Keeps _

  pub exec_shr-Keeps : Keeps (Invariant s owner) Done exec_shr
  unfolding exec_shr
  exec_shr-Keeps = Keeps-pop λ k hk. Keeps-pop λ a ha.
      Keeps-if (ltb k 256) (λ e. push-Keeps _ (omega (arith, lawful.shr_lem a k (ltb→lt k 256 e))))
        (λ _. push-Keeps 0 (omega arith))

  pub exec_and-Keeps : Keeps (Invariant s owner) Done exec_and
  unfolding exec_and
  exec_and-Keeps = Keeps-pop λ a ha. Keeps-pop λ b hb. push-Keeps _ (lawful.bitand-lt a b ha hb)

  pub exec_or-Keeps : Keeps (Invariant s owner) Done exec_or
  unfolding exec_or
  exec_or-Keeps = Keeps-pop λ a ha. Keeps-pop λ b hb. push-Keeps _ (lawful.bitor-lt a b ha hb)

  pub exec_xor-Keeps : Keeps (Invariant s owner) Done exec_xor
  unfolding exec_xor
  exec_xor-Keeps = Keeps-pop λ a ha. Keeps-pop λ b hb. push-Keeps _ (lawful.bitxor-lt a b ha hb)

  pub exec_not-Keeps : Keeps (Invariant s owner) Done exec_not
  unfolding exec_not
  exec_not-Keeps = Keeps-pop λ a ha. push-Keeps _ (omega (arith, lawful.complement_lem a ha))

  pub exec_byte-Keeps : Keeps (Invariant s owner) Done exec_byte
  unfolding exec_byte
  exec_byte-Keeps = Keeps-pop λ i hi. Keeps-pop λ a ha.
      Keeps-if (ltb 32 i) (λ _. push-Keeps 0 (omega arith))
        λ _. Keeps-bind (Keeps-unwrap_any _) λ index _.
          Keeps-bind (Keeps-unwrap _ λ b e. ground (arith, lawful.byte_lem a index)) push-Keeps
