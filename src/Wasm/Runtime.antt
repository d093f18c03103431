-- ===== src/Wasm/Runtime.antt =====
-- crates/wasm/lib.rs, `WasmRuntime::call`. The backing store of the memory is taken before the handler
-- runs: what the guest leaves in it is what the memory of an `Instance` holds after a call of the guest.
use em.Base.{ℕ, ◌+◌, Option, none, some, List, length, slice}
use em.Base.Outcome.{ok, panicked}
use em.Executor.Runtimes.{InteractionContext}
use em.Js.Run.{Run, ◌>>=◌, try, unwrap}
use em.Wasm.Memory.{swap_with_slice}

-- The memory of the instance, the global `COST`, and the rest of the guest's state `G`.
pub record Instance (G : Type 0) : Type 0 where
  pub memory : List ℕ
  pub cost : ℕ
  pub guest : G

-- The exports of the guest, which is not part of the source; `none` if a call throws. A pointer is what
-- `uint32_value` reads of the number returned.
pub record Guest (G : Type 0) : Type 0 where
  pub alloc : ℕ → Instance G → Option ℕ × Instance G
  pub handle : ℕ → ℕ → ℕ → ℕ → ℕ → ℕ → Instance G → Option ℕ × Instance G
  pub get_len : Instance G → Option ℕ × Instance G

-- The instance, and the two buffers that the caller lends.
pub record Frame (G : Type 0) : Type 0 where
  pub instance_of : Instance G
  pub state : List ℕ
  pub action : List ℕ

module _ {G : Type 0} (g : Guest G) where
  abbrev pub on_guest : (Instance G → Option ℕ × Instance G) → Frame G → Frame G
  on_guest op f = record f { instance_of = (op f.instance_of).1 }

  -- `wasm_alloc!`
  unfoldable pub wasm_alloc : ℕ → Run (Frame G) ℕ
  wasm_alloc len f = unwrap (g.alloc len f.instance_of).0 (on_guest (g.alloc len) f)

  abbrev pub with_memory : List ℕ → Instance G → Instance G
  with_memory memory i = record i { memory = memory }

  -- An exchange of a region of the memory with a buffer, which is put back where it was.
  abbrev pub exchange :
      Option (List ℕ × List ℕ) → (List ℕ → Frame G → Frame G) → Run (Frame G) (Unit {0})
  exchange none keep f = (panicked, f)
  exchange (some (memory, buffer)) keep f =
      (ok tt, keep buffer (record f { instance_of = with_memory memory f.instance_of }))

  unfoldable pub swap_state : ℕ → Run (Frame G) (Unit {0})
  swap_state ptr f =
      exchange (swap_with_slice f.instance_of.memory ptr f.state) (λ b f'. record f' { state = b })
        f

  unfoldable pub swap_action : ℕ → Run (Frame G) (Unit {0})
  swap_action ptr f =
      exchange (swap_with_slice f.instance_of.memory ptr f.action)
        (λ b f'. record f' { action = b }) f

  unfoldable pub swap_interaction : ℕ → List ℕ → Run (Frame G) (Unit {0})
  swap_interaction ptr interaction f =
      exchange (swap_with_slice f.instance_of.memory ptr interaction) (λ b f'. f') f

  -- The handler, and the bytes of its result.
  unfoldable pub run_handle : ℕ → ℕ → ℕ → ℕ → Run (Frame G) (List ℕ)
  run_handle state_ptr action_ptr interaction_ptr interaction_len = do
    result_ptr ← λ f.
        try
          (g.handle state_ptr (length f.state) action_ptr (length f.action) interaction_ptr
            interaction_len f.instance_of).0
          (on_guest
            (g.handle state_ptr (length f.state) action_ptr (length f.action) interaction_ptr
              interaction_len)
            f)
    result_len ← λ f. unwrap (g.get_len f.instance_of).0 (on_guest g.get_len f)
    λ f. unwrap (slice f.instance_of.memory result_ptr (result_ptr + result_len)) f

  -- `serde_json::to_vec` of the context is the argument `encode`.
  unfoldable pub call :
      (InteractionContext → Option (List ℕ)) → InteractionContext → Run (Frame G) (List ℕ)
  unfolding wasm_alloc swap_state swap_action swap_interaction run_handle
  call encode context = do
    interaction ← try (encode context)
    interaction_ptr ← wasm_alloc (length interaction)
    state_ptr ← λ f. wasm_alloc (length f.state) f
    action_ptr ← λ f. wasm_alloc (length f.action) f
    _ ← swap_state state_ptr
    _ ← swap_action action_ptr
    _ ← swap_interaction interaction_ptr interaction
    run_handle state_ptr action_ptr interaction_ptr (length interaction)
