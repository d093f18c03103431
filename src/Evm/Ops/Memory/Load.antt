-- ===== src/Evm/Ops/Memory/Load.antt =====
-- crates/evm/lib.rs, MStore and MLoad: a word that is stored is loaded again.
use em.Base.{
  ℕ, zero, suc, ◌+◌, ◌-◌, ◌%◌, ◌<◌, ◌≤◌, Option, some, List, [], ◌∷◌, ◌++◌, length, take, drop,
  replicate, get_elem?, put, resize, for_range, min, leb, lt→ltb, Bool-cases, inl, inr,
  length-replicate, if◌then◌else◌, ◌≡◌, refl, sym, ap, ◌∙◌, arith, length-append, length-take,
  length-drop,
}
use mathlib.Core.List.{append_assoc}
use em.Evm.Ops.Memory.Bytes.{
  digit, word_bytes, word_bytes-IsByte, length-word_bytes, big_endian-word_bytes,
  get_elem?-word_bytes, get_elem?-append_right, get_elem?-append_left, put-append,
}
use em.Evm.Primitives.{Primitives, usize_mod}
use em.Evm.Primitives.Laws.{Lawful, IsU256}
use em.Evm.Machine.{Machine, next, ◌>>=◌}
use em.Evm.Ops.Memory.{opt_bind, load_byte, store_byte, exec_m_load, exec_m_store}

for_range-step :
    (n i : ℕ) (body : ℕ → List ℕ → Option (List ℕ)) (s s' : List ℕ)
    → body i s ≡ some s'
    → for_range (suc n) i body s ≡ for_range n (i + 1) body s'
unfolding for_range
for_range-step n i body s s' h = rw (h, for_range) refl

-- MStore's loop writes the bytes of the word over as many bytes of the memory.
module _ ⦃p : Primitives⦄ (lawful : Lawful p) (v offset : ℕ) (fits : offset + 32 < usize_mod) where
  byte_digit : (n i : ℕ) → i + suc n ≡ 32 → p.byte v (31 - i) ≡ some (digit v n)
  byte_digit n i h =
      lawful.byte_lem v (31 - i)
      ∙ (rw (lt→ltb (31 - i) 32 (omega arith)) (ap (λ k. some (digit v k)) (omega arith)))

  store_byte-some :
      (n i : ℕ) (memory : List ℕ)
      → i + suc n ≡ 32
      → store_byte v offset i memory ≡ put memory (offset + i) (digit v n)
  unfolding store_byte
  store_byte-some n i memory h =
      rw (byte_digit n i h) (ap (λ k. put memory k (digit v n)) (omega arith))

  store_loop :
      (n i : ℕ) (xs ys : List ℕ)
      → i + n ≡ 32
      → length xs ≡ offset + i
      → n ≤ length ys
      → for_range n i (store_byte v offset) (xs ++ ys) ≡ some (xs ++ (word_bytes n v ++ drop n ys))
  unfolding for_range
  store_loop zero i xs ys h l b = refl
  store_loop (suc n) i xs [] h l b = absurd (omega arith)
  store_loop (suc n) i xs (y ∷ ys) h l b =
      for_range-step n i (store_byte v offset) (xs ++ (y ∷ ys)) (xs ++ (digit v n ∷ ys)) (
        store_byte-some n i (xs ++ (y ∷ ys)) h
        ∙ put-append xs ys y (digit v n) (offset + i) (sym l))
      ∙ ap (for_range n (i + 1) (store_byte v offset)) (sym (append_assoc xs (digit v n ∷ []) ys))
      ∙ store_loop n (i + 1) (xs ++ (digit v n ∷ [])) ys (omega arith)
          (omega (arith, length-append xs (digit v n ∷ []))) (omega arith)
      ∙ ap some (append_assoc xs (digit v n ∷ []) (word_bytes n v ++ drop n ys))

-- MLoad's loop reads them into the word.
load_loop :
    (v offset : ℕ) (memory : List ℕ) (n i : ℕ) (xs : List ℕ)
    → i + n ≡ 32
    → length xs ≡ i
    → ((j k : ℕ) → j + suc k ≡ 32 → get_elem? memory (offset + j) ≡ some (digit v k))
    → for_range n i (load_byte memory offset) (xs ++ replicate n 0) ≡ some (xs ++ word_bytes n v)
unfolding for_range load_byte
load_loop v offset memory zero i xs h l r = refl
load_loop v offset memory (suc n) i xs h l r =
    for_range-step n i (load_byte memory offset) (xs ++ replicate (suc n) 0)
      (xs ++ (digit v n ∷ replicate n 0))
      (ap (λ o. opt_bind o (put (xs ++ replicate (suc n) 0) i)) (r i n h)
        ∙ put-append xs (replicate n 0) 0 (digit v n) i (sym l))
    ∙ ap (for_range n (i + 1) (load_byte memory offset))
        (sym (append_assoc xs (digit v n ∷ []) (replicate n 0)))
    ∙ load_loop v offset memory n (i + 1) (xs ++ (digit v n ∷ [])) (omega arith)
        (omega (arith, length-append xs (digit v n ∷ []))) r
    ∙ ap some (append_assoc xs (digit v n ∷ []) (word_bytes n v))

-- The memory after MStore, and what MLoad then finds in it.
abbrev stored : List ℕ → ℕ → ℕ → List ℕ
stored memory offset v = take offset memory ++ (word_bytes 32 v ++ drop 32 (drop offset memory))

get_elem?-stored :
    (memory : List ℕ) (offset v : ℕ)
    → offset ≤ length memory
    → (j k : ℕ) → j + suc k ≡ 32
    → get_elem? (stored memory offset v) (offset + j) ≡ some (digit v k)
get_elem?-stored memory offset v b j k h =
    ap (λ o. get_elem? (stored memory offset v) (o + j)) (omega (arith, length-take offset memory))
    ∙ get_elem?-append_right (take offset memory) _ j
    ∙ get_elem?-append_left (word_bytes 32 v) (drop 32 (drop offset memory)) j
        (omega (arith, length-word_bytes 32 v))
    ∙ get_elem?-word_bytes 32 j v (omega arith)
    ∙ ap (λ i. some (digit v i)) (omega arith)

abbrev grown : List ℕ → ℕ → List ℕ
grown memory end = if leb (length memory) end then resize memory end 0 else memory

length-grown : (memory : List ℕ) (end : ℕ) → end ≤ length (grown memory end)
unfolding resize
length-grown memory end = elim (Bool-cases (leb (length memory) end)) [
  | inl e ↦ rw e (
      omega (
        arith,
        length-append (take end memory) (replicate (end - length memory) 0),
        length-take end memory,
        length-replicate {A = ℕ} (end - length memory) 0,
      ))
  | inr e ↦ rw e (ground arith)
]

take-drop : (n : ℕ) (xs : List ℕ) → take n xs ++ drop n xs ≡ xs
take-drop zero xs = refl
take-drop (suc n) [] = refl
take-drop (suc n) (x ∷ xs) = ap (λ r. x ∷ r) (take-drop n xs)

module _ ⦃p : Primitives⦄ (lawful : Lawful p) where
  -- The loops on a memory that has the word's place.
  store_word :
      (memory : List ℕ) (v offset : ℕ)
      → offset + 32 < usize_mod
      → offset + 32 ≤ length memory
      → for_range 32 0 (store_byte v offset) memory ≡ some (stored memory offset v)
  store_word memory v offset fits b =
      ap (for_range 32 0 (store_byte v offset)) (sym (take-drop offset memory))
      ∙ store_loop lawful v offset fits 32 0 (take offset memory) (drop offset memory) (omega arith)
          (omega (arith, length-take offset memory)) (omega (arith, length-drop offset memory))

  load_word :
      (memory : List ℕ) (v offset : ℕ)
      → offset + 32 ≤ length memory
      → for_range 32 0 (load_byte (stored memory offset v) offset) (replicate 32 0)
        ≡ some (word_bytes 32 v)
  load_word memory v offset b =
      load_loop v offset (stored memory offset v) 32 0 [] (omega arith) refl
        (get_elem?-stored memory offset v (omega arith))

  from_slice-word_bytes : (v : ℕ) → IsU256 v → p.from_slice (word_bytes 32 v) ≡ some v
  from_slice-word_bytes v h =
      lawful.from_slice_lem (word_bytes 32 v) (word_bytes-IsByte 32 v)
      ∙ ap some (big_endian-word_bytes 32 0 v ∙ omega arith)

  -- After MStore of a word at an offset from 32 on, below the end of the address range, MLoad
  -- at that offset gives the word.
  pub exec_m_store-exec_m_load :
      (offset v : ℕ) (vs ws : List ℕ) (m : Machine)
      → IsU256 v
      → 32 ≤ offset
      → offset + 32 < usize_mod
      → (memory : List ℕ) × (exec_m_store (record m { stack = offset ∷ v ∷ vs })
          ≡ next tt (record m { stack = vs; memory = memory }))
        × (exec_m_load (record m { stack = offset ∷ ws; memory = memory })
            ≡ next tt (record m { stack = v ∷ ws; memory = memory }))
  unfolding exec_m_store exec_m_load ◌>>=◌
  exec_m_store-exec_m_load offset v vs ws m h b fits = (
    stored (grown m.memory (offset + 32)) offset v,
    rw
        (
          low,
          end_at,
          store_word (grown m.memory (offset + 32)) v offset fits
              (length-grown m.memory (offset + 32)),
        )
        refl,
    rw
        (
          low,
          end_at,
          rounds,
          load_word (grown m.memory (offset + 32)) v offset (length-grown m.memory (offset + 32)),
          from_slice-word_bytes v h,
        )
        refl,
  )
    where
      low : p.low_u64 offset ≡ offset
      low = lawful.low_u64_lem offset ∙ (omega arith)

      end_at : (offset + 32) % usize_mod ≡ offset + 32
      end_at = omega arith

      rounds : min offset (offset + 32 - offset) ≡ 32
      rounds = omega arith

  -- MLoad at the offset 0 leaves 0, whatever the memory holds.
  pub exec_m_load-zero :
      (vs : List ℕ) (m : Machine)
      → exec_m_load (record m { stack = 0 ∷ vs }) ≡ next tt (record m { stack = 0 ∷ vs })
  unfolding exec_m_load ◌>>=◌ for_range
  exec_m_load-zero vs m = rw (low, rounds, from_slice-zeros) refl
    where
      low : p.low_u64 0 ≡ 0
      low = lawful.low_u64_lem 0 ∙ (omega arith)

      rounds : min 0 ((0 + 32) % usize_mod - 0) ≡ 0
      rounds = omega arith

      from_slice-zeros : p.from_slice (replicate 32 0) ≡ some 0
      from_slice-zeros = from_slice-word_bytes 0 (omega arith)
