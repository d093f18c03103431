-- ===== src/Base/Map/Laws.antt =====
-- What holds of every entry holds of what `lookup` finds, and is kept by `insert`.
use em.Base.{◌≡◌, sym, Bool-cases, inl, inr, some, List, [], ◌∷◌, All}
use em.Base.Map.{Eq, lookup, insert}
use mathlib.Core.Path.{subst}

module _ {ℓ κ} {K : Type ℓ} ⦃e : Eq K⦄ {V : Type κ} (P : K × V → Type 0) where
  pub All-insert : (k : K) (v : V) (m : List (K × V)) → P (k, v) → All P m → All P (insert k v m)
  unfolding insert
  All-insert k v [] h a = (h, tt)
  All-insert k v ((j, w) ∷ m) h a = elim (Bool-cases (e.beq j k)) [
    | inl found ↦
        let same : k ≡ j = sym ((e.beq_iff j k).0 found) in
        rw found (subst (λ i. P (i, v)) same h, a.1)
    | inr other ↦ rw other (a.0, All-insert k v m h a.1)
  ]

  pub All-lookup : (k : K) (v : V) (m : List (K × V)) → All P m → lookup k m ≡ some v → P (k, v)
  unfolding lookup
  All-lookup k v [] a h = cc
  All-lookup k v ((j, w) ∷ m) a h = elim (Bool-cases (e.beq j k)) [
    | inl found ↦
        let e₁ : j ≡ k = (e.beq_iff j k).0 found in
        let e₂ : some w ≡ some v = rw found at h in
        let e₃ : w ≡ v = cc in subst (λ i. P (i, v)) e₁ (subst (λ x. P (j, x)) e₃ a.0)
    | inr other ↦ All-lookup k v m a.1 (rw other at h)
  ]
