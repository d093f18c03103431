-- ===== src/Wasm/Regions.antt =====
-- crates/wasm/lib.rs, `WasmRuntime::call`: what the handler finds in the memory, and what is left in the
-- caller's buffers.
use em.Base.{ℕ, ◌+◌, ◌≤◌, Option, none, some, List, inl, inr, length, ◌≡◌, refl, ap, ◌∙◌, arith}
use em.Base.Outcome.{err}
use em.Executor.Runtimes.{InteractionContext}
use em.Wasm.Memory.{
  swap_with_slice_lem, region, region-splice, region-splice-Apart, splice, length-splice, Apart,
}
use em.Wasm.Runtime.{
  Instance, Guest, Frame, wasm_alloc, swap_state, swap_action, swap_interaction, run_handle, call,
}

-- Three regions of a memory, and what is written to them.
module _ (m s a i : List ℕ) (ps pa pi : ℕ) (bs : ps + length s ≤ length m)
    (ba : pa + length a ≤ length m) (bi : pi + length i ≤ length m)
    (sa : Apart pa (length a) ps (length s)) (si : Apart pi (length i) ps (length s))
    (ia : Apart pi (length i) pa (length a)) where
  abbrev m₁ : List ℕ
  m₁ = splice ps m s

  abbrev m₂ : List ℕ
  m₂ = splice pa m₁ a

  abbrev written : List ℕ
  written = splice pi m₂ i

  fits₁ : pa + length a ≤ length m₁
  fits₁ = omega (arith, length-splice ps m s bs)

  fits₂ : pi + length i ≤ length m₂
  fits₂ = omega (arith, length-splice pa m₁ a fits₁, length-splice ps m s bs)

  written-state : region written ps (length s) ≡ s
  written-state =
      region-splice-Apart pi ps (length s) m₂ i fits₂ si
      ∙ region-splice-Apart pa ps (length s) m₁ a fits₁ sa
      ∙ region-splice ps m s bs

  written-action : region written pa (length a) ≡ a
  written-action = region-splice-Apart pi pa (length a) m₂ i fits₂ ia ∙ region-splice pa m₁ a fits₁

  written-interaction : region written pi (length i) ≡ i
  written-interaction = region-splice pi m₂ i fits₂

module _ {G : Type 0} (g : Guest G) where
  -- If the allocations and the encoding of the context succeed and the three regions are in the
  -- memory and apart, call runs the handler on a memory that holds the state, the action and
  -- the context there, and the buffers then hold what the memory held.
  pub call_lem :
      (encode : InteractionContext → Option (List ℕ)) (context : InteractionContext)
      (interaction : List ℕ) (f : Frame G) (i₁ i₂ i₃ : Instance G) (pi ps pa : ℕ)
      → encode context ≡ some interaction
      → g.alloc (length interaction) f.instance_of ≡ (some pi, i₁)
      → g.alloc (length f.state) i₁ ≡ (some ps, i₂)
      → g.alloc (length f.action) i₂ ≡ (some pa, i₃)
      → ps + length f.state ≤ length i₃.memory
      → pa + length f.action ≤ length i₃.memory
      → pi + length interaction ≤ length i₃.memory
      → Apart pa (length f.action) ps (length f.state)
      → Apart pi (length interaction) ps (length f.state)
      → Apart pi (length interaction) pa (length f.action)
      → (m : List ℕ) × (region m ps (length f.state) ≡ f.state)
        × (region m pa (length f.action) ≡ f.action)
        × (region m pi (length interaction) ≡ interaction)
        × (call g encode context f
            ≡ run_handle g ps pa pi (length interaction) (record {
              instance_of = record i₃ { memory = m };
              state = region i₃.memory ps (length f.state);
              action = region i₃.memory pa (length f.action);
            }))
  unfolding call wasm_alloc swap_state swap_action swap_interaction
  call_lem encode context i f i₁ i₂ i₃ pi ps pa he h₁ h₂ h₃ bs ba bi sa si ia = (
    written i₃.memory f.state f.action i ps pa pi bs ba bi sa si ia,
    written-state i₃.memory f.state f.action i ps pa pi bs ba bi sa si ia,
    written-action i₃.memory f.state f.action i ps pa pi bs ba bi sa si ia,
    written-interaction i₃.memory f.state f.action i ps pa pi bs ba bi sa si ia,
    rw
        (
          he,
          h₁,
          h₂,
          h₃,
          swap_with_slice_lem i₃.memory ps f.state bs,
          swap_with_slice_lem (splice ps i₃.memory f.state) pa f.action
              (fits₁ i₃.memory f.state f.action i ps pa pi bs ba bi sa si ia),
          swap_with_slice_lem (splice pa (splice ps i₃.memory f.state) f.action) pi i
              (fits₂ i₃.memory f.state f.action i ps pa pi bs ba bi sa si ia),
          region-splice-Apart ps pa (length f.action) i₃.memory f.state bs (flip sa),
        )
        refl,
  )
    where
      flip :
          Apart pa (length f.action) ps (length f.state)
          → Apart ps (length f.state) pa (length f.action)
      flip (inl h) = inr h
      flip (inr h) = inl h

  run_handle-terminated :
      (ps pa pi n : ℕ) (f : Frame G)
      → ((ns na : ℕ) (i : Instance G) → (g.handle ps ns pa na pi n i).0 ≡ none)
      → ((run_handle g ps pa pi n f).0 ≡ err) × ((run_handle g ps pa pi n f).1.state ≡ f.state)
  unfolding run_handle
  run_handle-terminated ps pa pi n f t = (
    rw (t (length f.state) (length f.action) f.instance_of) refl,
    rw (t (length f.state) (length f.action) f.instance_of) refl,
  )

  -- Under the conditions on the regions, a handler that is terminated makes call an error, and
  -- the caller's buffer of the state then holds what the memory held at its region.
  pub call-terminated :
      (encode : InteractionContext → Option (List ℕ)) (context : InteractionContext)
      (interaction : List ℕ) (f : Frame G) (i₁ i₂ i₃ : Instance G) (pi ps pa : ℕ)
      → encode context ≡ some interaction
      → g.alloc (length interaction) f.instance_of ≡ (some pi, i₁)
      → g.alloc (length f.state) i₁ ≡ (some ps, i₂)
      → g.alloc (length f.action) i₂ ≡ (some pa, i₃)
      → ps + length f.state ≤ length i₃.memory
      → pa + length f.action ≤ length i₃.memory
      → pi + length interaction ≤ length i₃.memory
      → Apart pa (length f.action) ps (length f.state)
      → Apart pi (length interaction) ps (length f.state)
      → Apart pi (length interaction) pa (length f.action)
      → ((ns na : ℕ) (i : Instance G) → (g.handle ps ns pa na pi (length interaction) i).0 ≡ none)
      → ((call g encode context f).0 ≡ err)
        × ((call g encode context f).1.state ≡ region i₃.memory ps (length f.state))
  call-terminated encode context i f i₁ i₂ i₃ pi ps pa he h₁ h₂ h₃ bs ba bi sa si ia t =
      let (m, rs, ra, ri, e) =
        call_lem encode context i f i₁ i₂ i₃ pi ps pa he h₁ h₂ h₃ bs ba bi sa si ia in
      let (stopped, kept) = run_handle-terminated ps pa pi (length i) _ t in
      (ap (λ r. r.0) e ∙ stopped, ap (λ r. r.1.state) e ∙ kept)
