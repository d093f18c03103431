-- ===== src/Wasm/Memory.antt =====
-- crates/wasm/lib.rs, `get_backing_store_slice_mut` and `swap_with_slice`: regions of the memory of an
-- instance. `none` is a panic.
use em.Base.{
  ℕ, zero, suc, ◌+◌, ◌-◌, ◌≤◌, Option, none, some, List, [], ◌∷◌, ◌++◌, ◌⊎◌, inl, inr, length, take,
  drop, slice, copy_from_slice, le→leb, ◌≡◌, refl, ap, ◌∙◌, arith, take-append, length-append,
  length-drop,
}

abbrev exchanged : Option (List ℕ) → Option (List ℕ) → Option (List ℕ × List ℕ)
exchanged (some old) (some new) = some (new, old)
exchanged _ _ = none

-- What the memory holds after the exchange, and what the buffer holds.
unfoldable pub swap_with_slice : List ℕ → ℕ → List ℕ → Option (List ℕ × List ℕ)
unfolding slice copy_from_slice
swap_with_slice memory ptr buffer =
    exchanged (slice memory ptr (ptr + length buffer))
      (copy_from_slice memory ptr (ptr + length buffer) buffer)

-- Regions that share no byte.
abbrev pub Apart : ℕ → ℕ → ℕ → ℕ → Type 0
Apart p n q k = (q + k ≤ p) ⊎ (p + n ≤ q)

-- The memory after a write.
abbrev pub splice : ℕ → List ℕ → List ℕ → List ℕ
splice zero m b = b ++ drop (length b) m
splice (suc p) [] b = b
splice (suc p) (x ∷ m) b = x ∷ splice p m b

drop-add : (p n x : ℕ) (m : List ℕ) → drop (suc p + n) (x ∷ m) ≡ drop (p + n) m
drop-add p n x m = ap (λ k. drop k (x ∷ m)) (s_add p n)
  where
    s_add : (p n : ℕ) → suc p + n ≡ suc (p + n)
    s_add p n = omega arith

splice_lem :
    (p : ℕ) (m b : List ℕ) → p ≤ length m → take p m ++ (b ++ drop (p + length b) m) ≡ splice p m b
splice_lem zero m b h = ap (λ k. b ++ drop k m) (omega arith)
splice_lem (suc p) [] b h = absurd (omega arith)
splice_lem (suc p) (x ∷ m) b h =
    ap (λ r. x ∷ (take p m ++ (b ++ r))) (drop-add p (length b) x m)
    ∙ ap (λ r. x ∷ r) (splice_lem p m b (omega arith))

read-splice : (p : ℕ) (m b : List ℕ) → p ≤ length m → take (length b) (drop p (splice p m b)) ≡ b
read-splice zero m b h = take-append b (drop (length b) m)
read-splice (suc p) [] b h = absurd (omega arith)
read-splice (suc p) (x ∷ m) b h = read-splice p m b (omega arith)

read-below :
    (q k p : ℕ) (m b : List ℕ)
    → q + k ≤ p
    → p ≤ length m
    → take k (drop q (splice p m b)) ≡ take k (drop q m)
read-below zero zero p m b h l = refl
read-below zero (suc k) zero m b h l = absurd (omega arith)
read-below zero (suc k) (suc p) [] b h l = absurd (omega arith)
read-below zero (suc k) (suc p) (x ∷ m) b h l =
    ap (λ t. x ∷ t) (read-below zero k p m b (omega arith) (omega arith))
read-below (suc q) k zero m b h l = absurd (omega arith)
read-below (suc q) k (suc p) [] b h l = absurd (omega arith)
read-below (suc q) k (suc p) (x ∷ m) b h l = read-below q k p m b (omega arith) (omega arith)

drop-over :
    (q : ℕ) (m b : List ℕ)
    → length b ≤ q
    → length b ≤ length m
    → drop q (b ++ drop (length b) m) ≡ drop q m
drop-over q m [] h l = refl
drop-over zero m (c ∷ b) h l = absurd (omega arith)
drop-over (suc q) [] (c ∷ b) h l = absurd (omega arith)
drop-over (suc q) (x ∷ m) (c ∷ b) h l = drop-over q m b (omega arith) (omega arith)

drop-above :
    (p q : ℕ) (m b : List ℕ)
    → p + length b ≤ q
    → p + length b ≤ length m
    → drop q (splice p m b) ≡ drop q m
drop-above zero q m b h l = drop-over q m b (omega arith) (omega arith)
drop-above (suc p) zero m b h l = absurd (omega arith)
drop-above (suc p) (suc q) [] b h l = absurd (omega arith)
drop-above (suc p) (suc q) (x ∷ m) b h l = drop-above p q m b (omega arith) (omega arith)

pub length-splice :
    (p : ℕ) (m b : List ℕ) → p + length b ≤ length m → length (splice p m b) ≡ length m
length-splice zero m b h =
    omega (arith, length-append b (drop (length b) m), length-drop (length b) m)
length-splice (suc p) [] b h = absurd (omega arith)
length-splice (suc p) (x ∷ m) b h = ap suc (length-splice p m b (omega arith))

-- The region of `n` bytes at `p`.
abbrev pub region : List ℕ → ℕ → ℕ → List ℕ
region m p n = take n (drop p m)

-- A write is read back, and changes no region apart from it.
pub region-splice :
    (p : ℕ) (m b : List ℕ) → p + length b ≤ length m → region (splice p m b) p (length b) ≡ b
region-splice p m b h = read-splice p m b (omega arith)

pub region-splice-Apart :
    (p q k : ℕ) (m b : List ℕ)
    → p + length b ≤ length m
    → Apart p (length b) q k
    → region (splice p m b) q k ≡ region m q k
region-splice-Apart p q k m b h (inl l) = read-below q k p m b l (omega arith)
region-splice-Apart p q k m b h (inr r) = ap (take k) (drop-above p q m b r h)

-- Within the memory, the exchange succeeds.
pub swap_with_slice_lem :
    (m : List ℕ) (p : ℕ) (b : List ℕ)
    → p + length b ≤ length m
    → swap_with_slice m p b ≡ some (splice p m b, region m p (length b))
unfolding swap_with_slice slice copy_from_slice
swap_with_slice_lem m p b h =
    rw
      (
        le→leb p (p + length b) (omega arith),
        le→leb (p + length b) (length m) h,
        add_sub_self p (length b),
        le→leb (length b) (length b) (omega arith),
        splice_lem p m b (omega arith),
      )
      refl
  where
    add_sub_self : (p n : ℕ) → p + n - p ≡ n
    add_sub_self p n = omega arith
