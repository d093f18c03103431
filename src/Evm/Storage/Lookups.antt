-- ===== src/Evm/Storage/Lookups.antt =====
-- crates/evm/storage.rs: what the maps have that are read from bytes, entry by entry.
use em.Base.{ℕ, Option, none, some, List, [], ◌∷◌, ◌≡◌, refl, Bool-cases, inl, inr, ==_iff, ◌==◌}
use em.Base.Map
use em.Base.Map.{ℕ_eq, lookup-insert}
use mathlib.Core.Path.{subst}

abbrev pub pick {ℓ} : {A : Type ℓ} → Option A → Option A → Option A
pick none b = b
pick (some a) b = some a

module _ {V : Type 0} where
  -- A hash map has one entry for a key.
  abbrev pub IsMap : List (ℕ × V) → Type 0
  IsMap [] = Unit
  IsMap ((k, v) ∷ m) = (Map.lookup k m ≡ none) × IsMap m

  -- An entry goes in front of what is found otherwise, where its key comes once.
  pub pick-insert :
      (j k : ℕ) (v : V) (m old : List (ℕ × V))
      → Map.lookup k m ≡ none
      → pick (Map.lookup j m) (Map.lookup j (Map.insert k v old))
        ≡ pick (Map.lookup j ((k, v) ∷ m)) (Map.lookup j old)
  unfolding Map.lookup
  pick-insert j k v m old h = elim (Bool-cases (k == j)) [
    | inl same ↦
        let none_j : Map.lookup j m ≡ none =
          subst (λ i. Map.lookup i m ≡ none) ((==_iff k j).0 same) h in
        rw (none_j, lookup-insert k j v old, same) refl
    | inr other ↦ rw (lookup-insert k j v old, other) refl
  ]
