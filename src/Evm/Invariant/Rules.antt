-- ===== src/Evm/Invariant/Rules.antt =====
-- The primitive actions keep the invariant: a write to a field, a push, a pop and the moves on the
-- stack.
use em.Base.{
  ℕ, ◌<◌, ◌≡◌, refl, Option, none, some, List, [], ◌∷◌, All, All-set, All-get_elem?, length,
  get_elem?, set, ◌==◌, Bool-cases, inl, inr, ◌-◌,
}
use mathlib.Core.Path.{subst}
use em.Evm.Primitives.{usize_mod}
use em.Evm.Primitives.Laws.{IsU256, IsByte}
use em.Evm.Storage.{Storage}
use em.Evm.Machine.{
  Machine, pop_from, swap_from, pop, push, swap, dup, put_memory, unwrap, continue, next,
}
use em.Evm.Machine.Keeps.{Keeps, Leaves}
use em.Evm.Invariant.{Invariant, Fits, HasAccount, SameOthers}

-- The value of an action that has none.
abbrev pub Done : Unit {0} → Type 0
Done _ = Unit

swap_from-fits :
    (vs : List ℕ) (index : ℕ) (ws : List ℕ)
    → All IsU256 vs
    → swap_from vs index ≡ some ws
    → All IsU256 ws
swap_from-fits [] index ws h e = cc
swap_from-fits (v ∷ vs) index ws h e = go (get_elem? (v ∷ vs) index) refl e
  where
    go :
        (o : Option ℕ)
        → get_elem? (v ∷ vs) index ≡ o
        → (elim o [ none ↦ some (v ∷ vs) | some w ↦ some (set (set (v ∷ vs) 0 w) index v) ])
          ≡ some ws
        → All IsU256 ws
    go none q e' = let same : v ∷ vs ≡ ws = cc in subst (All IsU256) same h
    go (some w) q e' =
        let same : set (set (v ∷ vs) 0 w) index v ≡ ws = cc in
        rw same at (
          All-set IsU256 (set (v ∷ vs) 0 w) index v
            (All-set IsU256 (v ∷ vs) 0 w h (All-get_elem? IsU256 (v ∷ vs) index h q)) h.0)

module _ {s : Storage} {owner : ℕ} where
  pub with_stack :
      {m : Machine} {vs : List ℕ}
      → All IsU256 vs
      → Invariant s owner m
      → Invariant s owner (record m { stack = vs })
  with_stack h inv = record {
    stack_fits = h;
    state_fits = inv.state_fits;
    memory_fits = inv.memory_fits;
    result_fits = inv.result_fits;
    result_size = inv.result_size;
    input_fits = inv.input_fits;
    owner_fits = inv.owner_fits;
    same_owner = inv.same_owner;
    entries_fit = inv.entries_fit;
    account = inv.account;
    others = inv.others;
    fetcher = inv.fetcher;
  }

  pub with_memory :
      {m : Machine} {bytes : List ℕ}
      → All IsByte bytes
      → Invariant s owner m
      → Invariant s owner (record m { memory = bytes })
  with_memory h inv = record {
    stack_fits = inv.stack_fits;
    state_fits = inv.state_fits;
    memory_fits = h;
    result_fits = inv.result_fits;
    result_size = inv.result_size;
    input_fits = inv.input_fits;
    owner_fits = inv.owner_fits;
    same_owner = inv.same_owner;
    entries_fit = inv.entries_fit;
    account = inv.account;
    others = inv.others;
    fetcher = inv.fetcher;
  }

  pub with_result :
      {m : Machine} {bytes : List ℕ}
      → All IsByte bytes
      → length bytes < usize_mod
      → Invariant s owner m
      → Invariant s owner (record m { result = bytes })
  with_result h k inv = record {
    stack_fits = inv.stack_fits;
    state_fits = inv.state_fits;
    memory_fits = inv.memory_fits;
    result_fits = h;
    result_size = k;
    input_fits = inv.input_fits;
    owner_fits = inv.owner_fits;
    same_owner = inv.same_owner;
    entries_fit = inv.entries_fit;
    account = inv.account;
    others = inv.others;
    fetcher = inv.fetcher;
  }

  pub with_gas :
      {m : Machine} (total : ℕ)
      → Invariant s owner m
      → Invariant s owner (record m { gas_used = total })
  with_gas total inv = record {
    stack_fits = inv.stack_fits;
    state_fits = inv.state_fits;
    memory_fits = inv.memory_fits;
    result_fits = inv.result_fits;
    result_size = inv.result_size;
    input_fits = inv.input_fits;
    owner_fits = inv.owner_fits;
    same_owner = inv.same_owner;
    entries_fit = inv.entries_fit;
    account = inv.account;
    others = inv.others;
    fetcher = inv.fetcher;
  }

  pub with_storage :
      {m : Machine} {t : Storage}
      → Fits t
      → HasAccount owner t
      → SameOthers owner t s
      → Invariant s owner m
      → Invariant s owner (record m { storage = t })
  with_storage h a o inv = record {
    stack_fits = inv.stack_fits;
    state_fits = inv.state_fits;
    memory_fits = inv.memory_fits;
    result_fits = inv.result_fits;
    result_size = inv.result_size;
    input_fits = inv.input_fits;
    owner_fits = inv.owner_fits;
    same_owner = inv.same_owner;
    entries_fit = h;
    account = a;
    others = o;
    fetcher = inv.fetcher;
  }

  pub push-Keeps : (v : ℕ) → IsU256 v → Keeps (Invariant s owner) Done (push v)
  unfolding push
  push-Keeps v h = record { at = λ m inv. (tt, with_stack (h, inv.stack_fits) inv) }

  pub put_memory-Keeps :
      (bytes : List ℕ) → All IsByte bytes → Keeps (Invariant s owner) Done (put_memory bytes)
  unfolding put_memory
  put_memory-Keeps bytes h = record { at = λ m inv. (tt, with_memory h inv) }

  pop_from-Leaves :
      (vs : List ℕ) (m : Machine)
      → All IsU256 vs
      → Invariant s owner m
      → Leaves (Invariant s owner) IsU256 (pop_from vs m)
  pop_from-Leaves [] m h inv = tt
  pop_from-Leaves (v ∷ vs) m h inv = (h.0, with_stack h.1 inv)

  pub pop-Keeps : Keeps (Invariant s owner) IsU256 pop
  unfolding pop
  pop-Keeps = record { at = λ m inv. pop_from-Leaves m.stack m inv.stack_fits inv }

  swap-Leaves :
      (m : Machine) (o : Option (List ℕ))
      → ((vs : List ℕ) → o ≡ some vs → All IsU256 vs)
      → Invariant s owner m
      → Leaves
          (Invariant s owner)
          Done
          (continue (unwrap o m) λ vs m'. next tt (record m' { stack = vs }))
  unfolding unwrap
  swap-Leaves m none h inv = tt
  swap-Leaves m (some vs) h inv = (tt, with_stack (h vs refl) inv)

  pub swap-Keeps : (index : ℕ) → Keeps (Invariant s owner) Done (swap index)
  unfolding swap unwrap
  swap-Keeps index = record {
    at = λ m inv.
        swap-Leaves m (swap_from m.stack index)
          (λ vs. swap_from-fits m.stack index vs inv.stack_fits) inv;
  }

  dup-Leaves :
      (m : Machine) (o : Option ℕ)
      → ((v : ℕ) → o ≡ some v → IsU256 v)
      → Invariant s owner m
      → Leaves (Invariant s owner) Done (continue (unwrap o m) push)
  unfolding unwrap
  dup-Leaves m none h inv = tt
  dup-Leaves m (some v) h inv = (push-Keeps v (h v refl)).at m inv

  pub dup-Keeps : (index : ℕ) → Keeps (Invariant s owner) Done (dup index)
  unfolding dup unwrap
  dup-Keeps index = record {
    at = λ m inv. elim (Bool-cases (index == 0)) [
      | inl e ↦ rw e tt
      | inr e ↦ rw e (
          dup-Leaves m (get_elem? m.stack (index - 1))
            (λ v. All-get_elem? IsU256 m.stack (index - 1) inv.stack_fits) inv)
    ];
  }
