-- ===== src/Evm/Invariant/Effects.antt =====
-- The arms that touch the storage, that move `pc`, that end the run or call another contract keep
-- the invariant.
use em.Base.{
  ℕ, zero, suc, ◌+◌, ◌-◌, ◌<◌, ◌≡◌, refl, sym, ◌∙◌, ap, Option, none, some, List, All, All-slice,
  All-get_elem?, length, get_elem?, slice, arith,
}
use em.Base.Map
use em.Base.Map.{ℕ_eq}
use em.Base.Map.Laws.{All-insert, All-lookup}
use mathlib.Core.Path.{subst}
use mathlib.Core.Option
use em.Evm.Primitives.{Primitives, usize_mod}
use em.Evm.Primitives.Laws.{Lawful, IsU256, IsByte}
use em.Evm.Primitives.Words.{from_slice-IsU256}
use em.Evm.Storage
use em.Evm.Storage.{Storage}
use em.Evm.Machine.{Machine}
use em.Evm.Machine.Keeps.{Keeps, Keeps-bind, Keeps-pure, Keeps-finish, Keeps-unwrap, Keeps-get}
use em.Evm.Invariant.{Invariant, IsCode, IsEntry, Fits, HasAccount, SameOthers}
use em.Evm.Invariant.Rules.{Done, with_storage, with_result, push-Keeps, dup-Keeps, swap-Keeps}
use em.Evm.Invariant.Arithmetic.{Keeps-pop}
use em.Evm.Ops.Context.{exec_pop, exec_s_load, exec_s_store, put_storage}
use em.Evm.Ops.Control.{
  exec_get_pc, exec_dup, exec_swap, exec_revert, returned, exec_jump, exec_jump_i, exec_push,
  exec_return, put_result,
}

-- A stored word fits, and a missing one is zero.
get-IsU256 : (a k v : ℕ) (t : Storage) → Fits t → Storage.get a k t ≡ some v → IsU256 v
unfolding Storage.get
get-IsU256 a k v t h e = go (Map.lookup a t.inner) refl e
  where
    read :
        (entries : List (ℕ × ℕ)) (o : Option ℕ)
        → All IsEntry entries
        → Map.lookup k entries ≡ o
        → IsU256 (Option.get_or o 0)
    read entries none g q = omega arith
    read entries (some w) g q = (All-lookup IsEntry k w entries g q).1

    go :
        (o : Option (List (ℕ × ℕ)))
        → Map.lookup a t.inner ≡ o
        → Option.map (λ entries. Option.get_or (Map.lookup k entries) 0) o ≡ some v
        → IsU256 v
    go none q e' = cc
    go (some entries) q e' =
        let same : Option.get_or (Map.lookup k entries) 0 ≡ v = cc in
        let fits : All IsEntry entries =
          All-lookup (λ (x : ℕ × List (ℕ × ℕ)). All IsEntry x.1) a entries t.inner h q in
        subst IsU256 same (read entries (Map.lookup k entries) fits refl)

-- A write to the account `a` leaves the other accounts as they were.
insert-effect :
    (a k v : ℕ) (t t' : Storage)
    → Fits t
    → IsU256 k
    → IsU256 v
    → Storage.insert a k v t ≡ some t'
    → Fits t' × HasAccount a t' × SameOthers a t' t
unfolding Storage.insert
insert-effect a k v t t' h hk hv e = go (Map.lookup a t.inner) refl e
  where
    written : List (ℕ × ℕ) → Storage
    written entries = record t { inner = Map.insert a (Map.insert k v entries) t.inner }

    others : (entries : List (ℕ × ℕ)) → SameOthers a (written entries) t
    others entries b ne =
        Map.lookup-insert a b (Map.insert k v entries) t.inner
        ∙ ground (arith, λ (x : a ≡ b). ne (sym x))

    go :
        (o : Option (List (ℕ × ℕ)))
        → Map.lookup a t.inner ≡ o
        → Option.map written o ≡ some t'
        → Fits t' × HasAccount a t' × SameOthers a t' t
    go none q e' = cc
    go (some entries) q e' =
        let same : written entries ≡ t' = cc in
        let fits : All IsEntry entries =
          All-lookup (λ (x : ℕ × List (ℕ × ℕ)). All IsEntry x.1) a entries t.inner h q in
        subst (λ u. Fits u × HasAccount a u × SameOthers a u t) same
          (
            All-insert (λ (x : ℕ × List (ℕ × ℕ)). All IsEntry x.1) a (Map.insert k v entries)
                t.inner (All-insert IsEntry k v entries (hk, hv) fits) h,
            (
              Map.insert k v entries,
              Map.lookup-insert a a (Map.insert k v entries) t.inner ∙ ground arith,
            ),
            others entries,
          )

module _ {s : Storage} {owner : ℕ} where
  pub exec_pop-Keeps : Keeps (Invariant s owner) Done exec_pop
  unfolding exec_pop
  exec_pop-Keeps = Keeps-pop λ a h. record { at = λ m inv. (tt, inv) }

  pub exec_get_pc-Keeps : (pc : ℕ) → IsU256 pc → Keeps (Invariant s owner) Done (exec_get_pc pc)
  unfolding exec_get_pc
  exec_get_pc-Keeps pc h = push-Keeps pc h

  pub exec_dup-Keeps : (opcode : ℕ) → Keeps (Invariant s owner) Done (exec_dup opcode)
  unfolding exec_dup
  exec_dup-Keeps opcode = dup-Keeps _

  pub exec_swap-Keeps : (opcode : ℕ) → Keeps (Invariant s owner) Done (exec_swap opcode)
  unfolding exec_swap
  exec_swap-Keeps opcode = swap-Keeps _

  pub exec_s_load-Keeps : Keeps (Invariant s owner) Done exec_s_load
  unfolding exec_s_load
  exec_s_load-Keeps = Keeps-pop λ key _. Keeps-bind Keeps-get λ m inv.
      Keeps-bind (Keeps-unwrap _ λ v. get-IsU256 m.owner key v m.storage inv.entries_fit) push-Keeps

  put_storage-Keeps :
      (t : Storage)
      → Fits t
      → HasAccount owner t
      → SameOthers owner t s
      → Keeps (Invariant s owner) Done (put_storage t)
  put_storage-Keeps t h a o = record { at = λ m inv. (tt, with_storage h a o inv) }

  written-effect :
      (m : Machine) (key v : ℕ) (t : Storage)
      → Invariant s owner m
      → IsU256 key
      → IsU256 v
      → Storage.insert m.owner key v m.storage ≡ some t
      → Fits t × HasAccount owner t × SameOthers owner t s
  written-effect m key v t inv hk hv e =
      let (fits, account, others) =
        insert-effect owner key v m.storage t inv.entries_fit hk hv
          (subst (λ o. Storage.insert o key v m.storage ≡ some t) inv.same_owner e) in
      (fits, account, λ a ne. others a ne ∙ inv.others a ne)

  pub exec_s_store-Keeps : Keeps (Invariant s owner) Done exec_s_store
  unfolding exec_s_store
  exec_s_store-Keeps = Keeps-pop λ key hk. Keeps-pop λ v hv. Keeps-bind Keeps-get λ m inv.
      Keeps-bind (Keeps-unwrap _ λ t. written-effect m key v t inv hk hv)
        λ t h. put_storage-Keeps t h.0 h.1 h.2

  put_result-Keeps :
      (bytes : List ℕ)
      → All IsByte bytes
      → length bytes < usize_mod
      → Keeps (Invariant s owner) Done (put_result bytes)
  put_result-Keeps bytes h k = record { at = λ m inv. (tt, with_result h k inv) }

-- The next `pc` is a `usize`.
abbrev pub IsPc : ℕ → Type 0
IsPc pc = pc < usize_mod

length-returned : (n i : ℕ) (memory : List ℕ) → length (returned n i memory) ≡ n
unfolding returned
length-returned zero i memory = refl
length-returned (suc n) i memory = ap suc (length-returned n (i + 1) memory)

returned-IsByte : (n i : ℕ) (memory : List ℕ) → All IsByte memory → All IsByte (returned n i memory)
unfolding returned
returned-IsByte zero i memory h = tt
returned-IsByte (suc n) i memory h =
    (read (get_elem? memory i) refl, returned-IsByte n (i + 1) memory h)
  where
    read : (o : Option ℕ) → get_elem? memory i ≡ o → IsByte (elim o [ none ↦ 0 | some b ↦ b ])
    read none q = omega arith
    read (some b) q = All-get_elem? IsByte memory i h q

module _ {s : Storage} {owner : ℕ} where
  pub exec_revert-Keeps : Keeps (Invariant s owner) IsPc exec_revert
  unfolding exec_revert
  exec_revert-Keeps = Keeps-finish _

low-IsPc : ⦃p : Primitives⦄ → Lawful p → (n : ℕ) → IsPc (p.low_u64 n)
low-IsPc lawful n = omega (arith, lawful.low_u64_lem n)

module _ ⦃p : Primitives⦄ (lawful : Lawful p) {s : Storage} {owner : ℕ} where
  pub exec_jump-Keeps : Keeps (Invariant s owner) IsPc exec_jump
  unfolding exec_jump
  exec_jump-Keeps = Keeps-pop λ offset _. Keeps-pure _ (low-IsPc lawful offset)

  pub exec_jump_i-Keeps : (pc : ℕ) → IsPc pc → Keeps (Invariant s owner) IsPc (exec_jump_i pc)
  unfolding exec_jump_i
  exec_jump_i-Keeps pc h =
      Keeps-pop
        λ offset _. Keeps-pop λ condition _. Keeps-pure _ (ground (arith, low-IsPc lawful offset))

  pub exec_push-Keeps :
      (code : List ℕ) (opcode pc : ℕ)
      → IsCode code
      → Keeps (Invariant s owner) IsPc (exec_push code opcode pc)
  unfolding exec_push
  exec_push-Keeps code opcode pc h =
      Keeps-bind {R = λ bytes. All IsByte bytes × IsPc (pc + (opcode - 0x60 + 1))}
        (Keeps-unwrap _ λ bytes e. (All-slice IsByte code _ _ h.0 e, slice_end bytes e))
        λ bytes b.
          Keeps-bind (Keeps-unwrap _ λ w. from_slice-IsU256 lawful bytes w b.0)
            λ w hw. Keeps-bind (push-Keeps w hw) λ _ _. Keeps-pure _ b.1
    where
      slice_end :
          (bytes : List ℕ)
          → slice code pc (pc + (opcode - 0x60 + 1)) ≡ some bytes
          → IsPc (pc + (opcode - 0x60 + 1))
      slice_end bytes e = unfold slice in ground (arith, h.1)

  pub exec_return-Keeps : Keeps (Invariant s owner) IsPc exec_return
  unfolding exec_return
  exec_return-Keeps = Keeps-pop λ top _. Keeps-pop λ second _. Keeps-bind Keeps-get λ m inv.
      Keeps-bind
        (put_result-Keeps _ (returned-IsByte _ _ m.memory inv.memory_fits)
          (omega (arith, length-returned _ (p.low_u64 top) m.memory)))
        λ _ _. Keeps-finish _
