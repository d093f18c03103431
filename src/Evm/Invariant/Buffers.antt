-- ===== src/Evm/Invariant/Buffers.antt =====
-- The arms that read and write bytes keep the invariant.
use em.Base.{
  ℕ, ◌+◌, ◌-◌, ◌%◌, ◌≡◌, refl, Bool, Option, none, some, List, All, All-slice, All-resize, All-put,
  All-copy_from_slice, All-replicate, All-get_elem?, for_range_inv, length, ltb, if◌then◌else◌,
  get_elem?, put, resize, arith, ◌||◌, true, false,
}
use em.Evm.Primitives.{Primitives, usize_mod}
use em.Evm.Primitives.Laws.{Lawful, IsByte}
use em.Evm.Primitives.Words.{from_slice-IsU256, byte-IsByte}
use em.Evm.Storage.{Storage}
use em.Evm.Machine.Keeps.{
  Keeps, Keeps-bind, Keeps-pure, Keeps-finish, Keeps-unwrap, Keeps-if, Keeps-get,
}
use em.Evm.Invariant.{Invariant, IsCode}
use em.Evm.Invariant.Rules.{Done, push-Keeps, put_memory-Keeps}
use em.Evm.Invariant.Arithmetic.{Keeps-pop}
use em.Evm.Ops.Context.{exec_keccak256, exec_call_data_load}
use em.Evm.Ops.Memory.{opt_bind, load_byte, store_byte, exec_m_load, exec_m_store, exec_m_store8}
use em.Evm.Ops.Copies.{
  copy_byte, copy_word, exec_call_data_copy, exec_code_copy, exec_return_data_copy,
}

grown-fits :
    (b : Bool) (memory : List ℕ) (n : ℕ)
    → All IsByte memory
    → All IsByte (if b then resize memory n 0 else memory)
grown-fits true memory n h = All-resize IsByte memory n 0 h (omega arith)
grown-fits false memory n h = h

load_byte-fits :
    (memory : List ℕ) (len i : ℕ) (word word' : List ℕ)
    → All IsByte memory
    → All IsByte word
    → load_byte memory len i word ≡ some word'
    → All IsByte word'
unfolding load_byte
load_byte-fits memory len i word word' h k e = go (get_elem? memory (len + i)) refl e
  where
    go :
        (o : Option ℕ)
        → get_elem? memory (len + i) ≡ o
        → opt_bind o (put word i) ≡ some word'
        → All IsByte word'
    go none q e' = cc
    go (some b) q e' = All-put IsByte word i b k (All-get_elem? IsByte memory (len + i) h q) e'

copy_byte-fits :
    (bytes : List ℕ) (start i : ℕ) (memory memory' : List ℕ)
    → All IsByte bytes
    → All IsByte memory
    → copy_byte bytes start i memory ≡ some memory'
    → All IsByte memory'
unfolding copy_byte
copy_byte-fits bytes start i memory memory' h k e =
    go (ltb (length bytes) i) (get_elem? bytes i) refl e
  where
    go :
        (b : Bool) (o : Option ℕ)
        → get_elem? bytes i ≡ o
        → (if b
            then put memory ((start + i) % usize_mod) 0
            else elim o [ none ↦ none | some x ↦ put memory ((start + i) % usize_mod) x ])
          ≡ some memory'
        → All IsByte memory'
    go true o q e' = All-put IsByte memory _ 0 k (omega arith) e'
    go false none q e' = cc
    go false (some x) q e' = All-put IsByte memory _ x k (All-get_elem? IsByte bytes i h q) e'

module _ ⦃p : Primitives⦄ (lawful : Lawful p) where
  store_byte-fits :
      (val offset i : ℕ) (memory memory' : List ℕ)
      → All IsByte memory
      → store_byte val offset i memory ≡ some memory'
      → All IsByte memory'
  unfolding store_byte
  store_byte-fits val offset i memory memory' k e = go (p.byte val (31 - i)) refl e
    where
      go :
          (o : Option ℕ)
          → p.byte val (31 - i) ≡ o
          → opt_bind o (put memory ((offset + i) % usize_mod)) ≡ some memory'
          → All IsByte memory'
      go none q e' = cc
      go (some b) q e' = All-put IsByte memory _ b k (byte-IsByte lawful val (31 - i) b q) e'

module _ {s : Storage} {owner : ℕ} where
  copy_word-Keeps :
      (bytes : List ℕ) (start : ℕ)
      → All IsByte bytes
      → Keeps (Invariant s owner) Done (copy_word bytes start)
  unfolding copy_word
  copy_word-Keeps bytes start h = Keeps-bind Keeps-get λ m inv.
      Keeps-bind
        (Keeps-unwrap _ λ memory e.
          for_range_inv (All IsByte) (copy_byte bytes start)
            (λ i x y k. copy_byte-fits bytes start i x y h k) 32 0 _
            (grown-fits _ m.memory _ inv.memory_fits) e)
        put_memory-Keeps

module _ ⦃p : Primitives⦄ (lawful : Lawful p) {s : Storage} {owner : ℕ} where
  pub exec_keccak256-Keeps : Keeps (Invariant s owner) Done exec_keccak256
  unfolding exec_keccak256
  exec_keccak256-Keeps = Keeps-pop λ offset _. Keeps-pop λ size _. Keeps-bind Keeps-get λ m inv.
      Keeps-bind (Keeps-unwrap _ λ bytes. All-slice IsByte m.memory _ _ inv.memory_fits) λ bytes h.
        Keeps-bind
          (Keeps-unwrap _ λ w. from_slice-IsU256 lawful _ w (lawful.keccak256-IsByte bytes))
          push-Keeps

  pub exec_call_data_load-Keeps : Keeps (Invariant s owner) Done exec_call_data_load
  unfolding exec_call_data_load
  exec_call_data_load-Keeps = Keeps-pop λ offset _. Keeps-bind Keeps-get λ m inv.
      Keeps-bind (Keeps-unwrap _ λ bytes. All-slice IsByte m.input _ _ inv.input_fits.0) λ bytes h.
        Keeps-bind
          (Keeps-unwrap _
            λ w. from_slice-IsU256 lawful _ w (All-resize IsByte bytes 32 0 h (omega arith)))
          push-Keeps

  pub exec_m_load-Keeps : Keeps (Invariant s owner) Done exec_m_load
  unfolding exec_m_load
  exec_m_load-Keeps = Keeps-pop λ offset _. Keeps-bind Keeps-get λ m inv.
      Keeps-bind
        (Keeps-unwrap _ λ bytes e.
          for_range_inv (All IsByte) (load_byte m.memory (p.low_u64 offset))
            (λ i x y k. load_byte-fits m.memory _ i x y inv.memory_fits k) _ 0 _
            (All-replicate IsByte 32 0 (omega arith)) e)
        λ bytes h. Keeps-bind (Keeps-unwrap _ λ w. from_slice-IsU256 lawful bytes w h) push-Keeps

  pub exec_m_store-Keeps : Keeps (Invariant s owner) Done exec_m_store
  unfolding exec_m_store
  exec_m_store-Keeps = Keeps-pop λ offset _. Keeps-pop λ val _. Keeps-bind Keeps-get λ m inv.
      Keeps-bind
        (Keeps-unwrap _ λ memory e.
          for_range_inv (All IsByte) (store_byte val (p.low_u64 offset))
            (λ i x y k. store_byte-fits lawful val _ i x y k) 32 0 _
            (grown-fits _ m.memory _ inv.memory_fits) e)
        put_memory-Keeps

  pub exec_m_store8-Keeps : Keeps (Invariant s owner) Done exec_m_store8
  unfolding exec_m_store8
  exec_m_store8-Keeps = Keeps-pop λ offset _. Keeps-pop λ val _. Keeps-bind Keeps-get λ m inv.
      Keeps-bind (Keeps-unwrap _ (byte-IsByte lawful val 0)) λ b h.
        Keeps-bind
          (Keeps-unwrap _ λ memory.
            All-put IsByte _ (p.low_u64 offset) b (grown-fits _ m.memory _ inv.memory_fits) h)
          put_memory-Keeps

  pub exec_call_data_copy-Keeps : Keeps (Invariant s owner) Done exec_call_data_copy
  unfolding exec_call_data_copy
  exec_call_data_copy-Keeps = Keeps-pop λ top _. Keeps-pop λ offset _. Keeps-pop λ size _.
      Keeps-bind Keeps-get λ m inv.
        Keeps-if (ltb (length m.input) offset || (p.overflowing_add offset size).1)
          (λ _. Keeps-finish _)
          λ _.
            Keeps-bind (Keeps-unwrap _ λ bytes. All-slice IsByte m.input _ _ inv.input_fits.0)
              λ bytes h.
                Keeps-bind
                  (Keeps-unwrap _ λ memory.
                    All-copy_from_slice IsByte m.memory _ _ _ inv.memory_fits
                      (All-resize IsByte bytes 32 0 h (omega arith)))
                  put_memory-Keeps

  pub exec_code_copy-Keeps :
      (code : List ℕ) → IsCode code → Keeps (Invariant s owner) Done (exec_code_copy code)
  unfolding exec_code_copy
  exec_code_copy-Keeps code fits = Keeps-pop λ top _. Keeps-pop λ offset _. Keeps-pop λ size _.
      Keeps-bind Keeps-get λ m inv.
        Keeps-if (ltb (p.low_u64 offset) (length m.input))
          (λ _.
            Keeps-bind (Keeps-unwrap _ λ bytes. All-slice IsByte code _ _ fits.0)
              λ bytes h. copy_word-Keeps bytes (p.low_u64 top) h)
          (λ _. Keeps-pure tt tt)

  pub exec_return_data_copy-Keeps : Keeps (Invariant s owner) Done exec_return_data_copy
  unfolding exec_return_data_copy
  exec_return_data_copy-Keeps = Keeps-pop λ top _. Keeps-pop λ offset _. Keeps-pop λ size _.
      Keeps-bind Keeps-get λ m inv.
        Keeps-if (ltb (length m.result) ((p.low_u64 offset + p.low_u64 size) % usize_mod))
          (λ _. record { at = λ m' inv'. tt })
          (λ _.
            Keeps-bind (Keeps-unwrap _ λ bytes. All-slice IsByte m.result _ _ inv.result_fits)
              λ bytes h. copy_word-Keeps bytes (p.low_u64 top) h)
