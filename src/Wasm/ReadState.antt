-- ===== src/Wasm/ReadState.antt =====
-- crates/wasm/lib.rs, the import `smartweave_read_state`: the state of another contract is put in the
-- memory of the guest, and its length where the guest says.
use em.Base.{
  ℕ, ◌+◌, ◌%◌, ◌^◌, ◌<◌, ◌≤◌, Option, none, some, List, length, slice, ◌≡◌, refl, ap, ◌∙◌, arith,
}
use em.Base.Bytes.{to_le_bytes, from_le_bytes, from_le_bytes-cast}
use em.Base.Outcome.{ok, panicked}
use em.Js.Run.{Run, ◌>>=◌, return, unwrap}
use em.Wasm.Memory.{
  swap_with_slice, swap_with_slice_lem, region, region-splice, region-splice-Apart, splice,
  length-splice, Apart,
}
use em.Wasm.Runtime.{Instance, Guest, with_memory}

module _ {G : Type 0} (g : Guest G) where
  abbrev kept : Option (List ℕ × List ℕ) → Run (Instance G) (Unit {0})
  kept none i = (panicked, i)
  kept (some (memory, buffer)) i = (ok tt, with_memory g memory i)

  -- A region takes the bytes; what was there is dropped.
  unfoldable pub put_region : ℕ → List ℕ → Run (Instance G) (Unit {0})
  put_region ptr bytes i = kept (swap_with_slice i.memory ptr bytes) i

  unfoldable pub alloc_in : ℕ → Run (Instance G) ℕ
  alloc_in len i = unwrap (g.alloc len i).0 (g.alloc len i).1

  -- `read_contract_state` gives the JSON text of the state of the contract of that id; `none` is a panic.
  unfoldable pub read_state : (List ℕ → Option (List ℕ)) → ℕ → ℕ → ℕ → Run (Instance G) ℕ
  unfolding put_region alloc_in
  read_state read_contract_state tx_id_ptr tx_id_len length_ptr = do
    tx_bytes ← λ i. unwrap (slice i.memory tx_id_ptr (tx_id_ptr + tx_id_len)) i
    state ← unwrap (read_contract_state tx_bytes)
    _ ← put_region length_ptr (to_le_bytes (length state % 2 ^ 32))
    state_ptr ← alloc_in (length state)
    _ ← put_region state_ptr state
    return state_ptr

  -- If the id and the regions are in the memory and apart, the state is read and shorter than
  -- 2^32 bytes, and the allocator leaves the memory, smartweave_read_state gives the pointer of
  -- a region that holds the state, with its length as four bytes at the guest's pointer.
  pub read_state_lem :
      (read_contract_state : List ℕ → Option (List ℕ)) (tx_ptr tx_len length_ptr ptr : ℕ)
      (id state : List ℕ) (i j : Instance G)
      → slice i.memory tx_ptr (tx_ptr + tx_len) ≡ some id
      → read_contract_state id ≡ some state
      → length state < 2 ^ 32
      → length_ptr + 4 ≤ length i.memory
      → g.alloc
          (length state)
          (record i { memory = splice length_ptr i.memory (to_le_bytes (length state % 2 ^ 32)) })
        ≡ (some ptr, j)
      → j.memory ≡ splice length_ptr i.memory (to_le_bytes (length state % 2 ^ 32))
      → ptr + length state ≤ length i.memory
      → Apart ptr (length state) length_ptr 4
      → (read_state read_contract_state tx_ptr tx_len length_ptr i
          ≡ (ok ptr, record j { memory = splice ptr j.memory state }))
        × (region (splice ptr j.memory state) ptr (length state) ≡ state)
        × (from_le_bytes (region (splice ptr j.memory state) length_ptr 4) ≡ length state)
  unfolding read_state put_region alloc_in
  read_state_lem read_contract_state tx_ptr tx_len length_ptr ptr id state i j hs hr small hl ha hm
        hp apart =
      (
        rw
            (
              hs,
              hr,
              swap_with_slice_lem i.memory length_ptr bytes hl,
              ha,
              swap_with_slice_lem j.memory ptr state fits,
            )
            refl,
        region-splice ptr j.memory state fits,
        ap from_le_bytes (
              region-splice-Apart ptr length_ptr 4 j.memory state fits apart
              ∙ ap (λ m. region m length_ptr 4) hm
              ∙ region-splice length_ptr i.memory bytes hl)
            ∙ from_le_bytes-cast (length state) small,
      )
    where
      bytes : List ℕ
      bytes = to_le_bytes (length state % 2 ^ 32)

      fits : ptr + length state ≤ length j.memory
      fits = omega (arith, ap length hm, length-splice length_ptr i.memory bytes hl)
