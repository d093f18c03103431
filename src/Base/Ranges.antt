-- ===== src/Base/Ranges.antt =====
-- What Rust does with ranges of a `Vec`: slices, `resize`, a write by index, and a counted loop
-- whose body may panic. `none` is a panic.
use Prim.Native.Nat.{ℕ, zero, suc, ◌+◌, ◌-◌}
use mathlib.Core.Path.{◌≡◌, refl}
use mathlib.Core.Bool.{◌&&◌}
use mathlib.Core.List.{List, ◌++◌}
use mathlib.Core.Option.{Option, none, some}
use native.Mathlib.Omega.{arith}
use em.Base.Tests.{ltb, leb, if◌then◌else◌}
use em.Base.Lists.{
  length, set, take, drop, replicate, All, All-append, All-take, All-drop, All-replicate, All-set,
}

module _ {ℓ} {A : Type ℓ} where
  -- `&xs[start..end]`
  unfoldable pub slice : List A → ℕ → ℕ → Option (List A)
  slice xs start end =
      if leb start end && leb end (length xs)
      then some (take (end - start) (drop start xs))
      else none

  -- `xs.resize(n, v)`
  unfoldable pub resize : List A → ℕ → A → List A
  resize xs n v = take n xs ++ replicate (n - length xs) v

  -- `xs[i] = v`
  unfoldable pub put : List A → ℕ → A → Option (List A)
  put xs i v = if ltb i (length xs) then some (set xs i v) else none

  -- `xs[start..end].copy_from_slice(ys)`, which wants equal lengths
  unfoldable pub copy_from_slice : List A → ℕ → ℕ → List A → Option (List A)
  copy_from_slice xs start end ys =
      if leb start end
        && (leb end (length xs) && (leb (end - start) (length ys) && leb (length ys) (end - start)))
      then some (take start xs ++ (ys ++ drop end xs))
      else none

module _ {ℓ} {S : Type ℓ} where
  -- `for i in first..first + rounds { s = body(i, s) }`
  unfoldable pub for_range : ℕ → ℕ → (ℕ → S → Option S) → S → Option S
  for_range zero i body s = some s
  for_range (suc n) i body s = elim (body i s) [
    | none ↦ none
    | some s' ↦ for_range n (i + 1) body s'
  ]

  pub for_range_inv {κ} :
      (P : S → Type κ) (body : ℕ → S → Option S)
      → ((i : ℕ) (s s' : S) → P s → body i s ≡ some s' → P s')
      → (n i : ℕ) (s : S) {r : S} → P s
      → for_range n i body s ≡ some r
      → P r
  unfolding for_range
  for_range_inv P body keep zero i s h e = ground arith
  for_range_inv P body keep (suc n) i s {r} h e =
      go (body i s) refl e (λ s'. for_range_inv P body keep n (i + 1) s')
    where
      go :
          (o : Option S)
          → body i s ≡ o
          → (elim o [ none ↦ none | some s' ↦ for_range n (i + 1) body s' ]) ≡ some r
          → ((s' : S) → P s' → for_range n (i + 1) body s' ≡ some r → P r)
          → P r
      go none q e' ih = cc
      go (some s') q e' ih = ih s' (keep i s s' h q) e'

module _ {ℓ κ} {A : Type ℓ} (P : A → Type κ) where
  pub All-slice :
      (xs : List A) (i j : ℕ) {ys : List A} → All P xs → slice xs i j ≡ some ys → All P ys
  unfolding slice
  All-slice xs i j h e = ground (arith, All-take P (j - i) (drop i xs) (All-drop P i xs h))

  pub All-resize : (xs : List A) (n : ℕ) (v : A) → All P xs → P v → All P (resize xs n v)
  unfolding resize
  All-resize xs n v h k = All-append P _ _ (All-take P n xs h) (All-replicate P _ v k)

  pub All-put :
      (xs : List A) (i : ℕ) (v : A) {ys : List A} → All P xs → P v → put xs i v ≡ some ys → All P ys
  unfolding put
  All-put xs i v h k e = ground (arith, All-set P xs i v h k)

  pub All-copy_from_slice :
      (xs : List A) (i j : ℕ) (ys : List A) {zs : List A}
      → All P xs
      → All P ys
      → copy_from_slice xs i j ys ≡ some zs
      → All P zs
  unfolding copy_from_slice
  All-copy_from_slice xs i j ys h k e = ground (
    arith,
    All-append P (take i xs) (ys ++ drop j xs) (All-take P i xs h)
        (All-append P ys (drop j xs) k (All-drop P j xs h)),
  )
