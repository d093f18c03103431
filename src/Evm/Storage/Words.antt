-- ===== src/Evm/Storage/Words.antt =====
-- crates/evm/storage.rs: the words in the bytes of a storage.
use em.Base.{
  ℕ, zero, suc, ◌+◌, ◌-◌, ◌≤◌, ◌≡◌, refl, sym, ap, ◌∙◌, some, List, [], ◌∷◌, ◌++◌, length, take,
  drop, slice, length-append, take-append, drop-append, length-drop, arith, le→leb,
}
use em.Base.Attempt.{done}
use em.Evm.Primitives.{Primitives}
use em.Evm.Primitives.Laws.{Lawful, IsU256}
use em.Evm.Storage.{read_word}

-- From an offset on, the bytes are `rest`.
abbrev pub At : List ℕ → ℕ → List ℕ → Type 0
At raw offset rest = (drop offset raw ≡ rest) × (offset ≤ length raw)

drop_nil {ℓ} : {A : Type ℓ} (n : ℕ) → drop {A = A} n [] ≡ []
drop_nil zero = refl
drop_nil (suc n) = refl

drop_add {ℓ} : {A : Type ℓ} (m n : ℕ) (xs : List A) → drop (m + n) xs ≡ drop n (drop m xs)
drop_add zero n xs = ap (λ k. drop k xs) (omega arith)
drop_add (suc m) n [] = drop_nil (suc m + n) ∙ sym (drop_nil n)
drop_add (suc m) n (x ∷ xs) =
    let e : suc m + n ≡ suc (m + n) = omega arith in ap (λ k. drop k (x ∷ xs)) e ∙ drop_add m n xs

module _ ⦃p : Primitives⦄ (lawful : Lawful p) where
  pub At-size :
      (raw : List ℕ) (offset w : ℕ) (rest : List ℕ)
      → At raw offset (p.to_bytes w ++ rest)
      → offset + 32 ≤ length raw
  At-size raw offset w rest h = omega (
    arith,
    ap length h.0,
    length-drop offset raw,
    length-append (p.to_bytes w) rest,
    lawful.length-to_bytes w,
    h.1,
  )

  pub At-word :
      (raw : List ℕ) (offset w : ℕ) (rest : List ℕ)
      → At raw offset (p.to_bytes w ++ rest)
      → At raw (offset + 32) rest
  At-word raw offset w rest h = (
    drop_add offset 32 raw
        ∙ ap (drop 32) h.0
        ∙ ap (λ k. drop k (p.to_bytes w ++ rest)) (sym (lawful.length-to_bytes w))
        ∙ drop-append (p.to_bytes w) rest,
    At-size raw offset w rest h,
  )

  slice-At :
      (raw : List ℕ) (offset w : ℕ) (rest : List ℕ)
      → At raw offset (p.to_bytes w ++ rest)
      → slice raw offset (offset + 32) ≡ some (p.to_bytes w)
  unfolding slice
  slice-At raw offset w rest h =
      let size : offset + 32 - offset ≡ length (p.to_bytes w) =
        omega (arith, lawful.length-to_bytes w) in
      rw
        (
          le→leb offset (offset + 32) (omega arith),
          le→leb (offset + 32) (length raw) (At-size raw offset w rest h),
        )
        (ap some (
          ap (λ k. take k (drop offset raw)) size
          ∙ ap (take (length (p.to_bytes w))) h.0
          ∙ take-append (p.to_bytes w) rest))

  from_slice-to_bytes : (w : ℕ) → IsU256 w → p.from_slice (p.to_bytes w) ≡ some w
  from_slice-to_bytes w h = ground (
    arith,
    lawful.from_slice_lem (p.to_bytes w) (lawful.to_bytes-IsByte w),
    lawful.length-to_bytes w,
    lawful.to_bytes_lem w h,
  )

  pub read_word-At :
      (raw : List ℕ) (offset w : ℕ) (rest : List ℕ)
      → IsU256 w
      → At raw offset (p.to_bytes w ++ rest)
      → read_word raw offset ≡ done w
  unfolding read_word
  read_word-At raw offset w rest h k =
      rw (slice-At raw offset w rest k, from_slice-to_bytes w h) refl
