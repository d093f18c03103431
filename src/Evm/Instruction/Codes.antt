-- ===== src/Evm/Instruction/Codes.antt =====
-- The bytes of the instructions are distinct, so `try_from` inverts them.
use em.Base.{
  ℕ, ◌≡◌, refl, ◌↔◌, ◌∙◌, sym, ap, List, [], ◌∷◌, some, Bool-cases, inl, inr, ◌==◌, ==_iff,
}
use em.Evm.Instruction.{Instruction, stop, discriminant, variants, first_with, try_from}

try_from-discriminant : (i : Instruction) → try_from (discriminant i) ≡ some i
unfolding try_from
try_from-discriminant stop = refl
try_from-discriminant _ = refl

first_with_sound :
    (v : ℕ) (is : List Instruction) (i : Instruction)
    → first_with v is ≡ some i
    → discriminant i ≡ v
unfolding first_with
first_with_sound v [] i h = cc
first_with_sound v (j ∷ is) i h = elim (Bool-cases (discriminant j == v)) [
  | inl found ↦
      let e : some j ≡ some i = rw found at h in
      let same : i ≡ j = cc in ap discriminant same ∙ (==_iff (discriminant j) v).0 found
  | inr other ↦ first_with_sound v is i (rw other at h)
]

-- Decoding a byte gives an instruction exactly when the byte is that instruction's discriminant:
-- every instruction decodes to itself, and no byte decodes to another instruction.
pub try_from-discriminant_iff :
    (v : ℕ) (i : Instruction) → (try_from v ≡ some i) ↔ (discriminant i ≡ v)
try_from-discriminant_iff v i = (
  (λ h. unfold try_from in first_with_sound v variants i h),
  (λ h. ap try_from (sym h) ∙ try_from-discriminant i),
)
