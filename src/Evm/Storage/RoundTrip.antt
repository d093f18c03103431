-- ===== src/Evm/Storage/RoundTrip.antt =====
-- crates/evm/storage.rs: a storage that is encoded is decoded again.
use em.Base.{
  ℕ, zero, suc, ◌+◌, ◌<◌, ◌≤◌, ◌≡◌, refl, ap, ◌∙◌, some, List, [], ◌∷◌, ◌++◌, All, length,
  length-append, length-drop, arith, le→ltb, lt→ltb, Bool-cases, inl, inr, ◌==◌, Option, none,
}
use em.Base.Map
use em.Base.Map.{ℕ_eq}
use em.Base.Map.Laws.{All-lookup}
use mathlib.Core.List.{append_assoc}
use mathlib.Core.Option
use em.Base.Attempt.{done}
use em.Evm.Primitives.{Primitives, usize_mod}
use em.Evm.Primitives.Laws.{Lawful, IsU256}
use em.Evm.Storage
use em.Evm.Storage.{
  Storage, read_entries, read_account, read_accounts, from_raw, raw_entries, raw_accounts, raw,
}
use em.Evm.Storage.Lookups.{pick, IsMap, pick-insert}
use em.Evm.Storage.Words.{At, At-size, At-word, read_word-At}

-- The entries of a list put into a map, one after the other.
abbrev pub insert_entries : List (ℕ × ℕ) → List (ℕ × ℕ) → List (ℕ × ℕ)
insert_entries [] m = m
insert_entries ((k, v) ∷ es) m = insert_entries es (Map.insert k v m)

abbrev pub insert_accounts :
    List (ℕ × List (ℕ × ℕ)) → List (ℕ × List (ℕ × ℕ)) → List (ℕ × List (ℕ × ℕ))
insert_accounts [] m = m
insert_accounts ((a, es) ∷ accounts) m =
    insert_accounts accounts (Map.insert a (insert_entries es []) m)

-- What the types of the source say of a storage.
abbrev pub IsWords : ℕ × ℕ → Type 0
IsWords e = IsU256 e.0 × IsU256 e.1

abbrev pub IsAccount : ℕ × List (ℕ × ℕ) → Type 0
IsAccount a = IsU256 a.0 × All IsWords a.1 × (length a.1 < usize_mod)

module _ ⦃p : Primitives⦄ (lawful : Lawful p) where
  read_entries-At :
      (es acc : List (ℕ × ℕ)) (bytes : List ℕ) (offset : ℕ) (rest : List ℕ)
      → All IsWords es
      → At bytes offset (raw_entries es ++ rest)
      → (end : ℕ) × (read_entries (length es) bytes offset acc ≡ done (end, insert_entries es acc))
        × At bytes end rest
  unfolding read_entries raw_entries
  read_entries-At [] acc bytes offset rest h k = (offset, refl, k)
  read_entries-At ((key, value) ∷ es) acc bytes offset rest h k =
      let assoc : (p.to_bytes key ++ (p.to_bytes value ++ raw_entries es)) ++ rest
          ≡ p.to_bytes key ++ (p.to_bytes value ++ (raw_entries es ++ rest)) =
        append_assoc (p.to_bytes key) (p.to_bytes value ++ raw_entries es) rest
        ∙ ap (λ bs. p.to_bytes key ++ bs) (append_assoc (p.to_bytes value) (raw_entries es) rest) in
      let at_key : At bytes offset
          (p.to_bytes key ++ (p.to_bytes value ++ (raw_entries es ++ rest))) =
        (k.0 ∙ assoc, k.1) in
      let at_value =
        At-word lawful bytes offset key (p.to_bytes value ++ (raw_entries es ++ rest)) at_key in
      let at_rest = At-word lawful bytes (offset + 32) value (raw_entries es ++ rest) at_value in
      let (end, e, at_end) =
        read_entries-At es (Map.insert key value acc) bytes (offset + 32 + 32) rest h.1 at_rest in
      (
        end,
        rw
            (
              read_word-At lawful bytes offset key _ h.0.0 at_key,
              read_word-At lawful bytes (offset + 32) value _ h.0.1 at_value,
            )
            e,
        at_end,
      )

  read_account-At :
      (account : ℕ) (es : List (ℕ × ℕ)) (bytes : List ℕ) (offset : ℕ) (rest : List ℕ)
      → IsAccount (account, es)
      → At bytes offset (p.to_bytes account ++ (p.to_bytes (length es) ++ (raw_entries es ++ rest)))
      → (end : ℕ) × (read_account bytes offset ≡ done (end, account, insert_entries es []))
        × At bytes end rest
  unfolding read_account
  read_account-At account es bytes offset rest (h, hs, size) k =
      let fits : IsU256 (length es) = omega (arith, size) in
      let at_count = At-word lawful bytes offset account _ k in
      let at_entries = At-word lawful bytes (offset + 32) (length es) _ at_count in
      let (end, e, at_end) = read_entries-At es [] bytes (offset + 32 + 32) rest hs at_entries in
      (
        end,
        rw
            (
              read_word-At lawful bytes offset account _ h k,
              read_word-At lawful bytes (offset + 32) (length es) _ fits at_count,
              as_usize-some (length es) size,
              e,
            )
            refl,
        at_end,
      )
    where
      as_usize-some : (n : ℕ) → n < usize_mod → p.as_usize n ≡ some n
      as_usize-some n h = ground (arith, lawful.as_usize_lem n)

  read_accounts-At :
      (fuel : ℕ) (accounts : List (ℕ × List (ℕ × ℕ))) (bytes : List ℕ) (offset : ℕ) (s : Storage)
      → All IsAccount accounts
      → At bytes offset (raw_accounts accounts)
      → length accounts < fuel
      → read_accounts fuel bytes offset s
        ≡ done (record { inner = insert_accounts accounts s.inner })
  unfolding read_accounts raw_accounts
  read_accounts-At zero accounts bytes offset s h k l = absurd (omega arith)
  read_accounts-At (suc fuel) [] bytes offset s h k l =
      rw
        (
          le→ltb offset (length bytes) (omega (arith, ap length k.0, length-drop offset bytes)),
          read_accounts,
        )
        refl
  read_accounts-At (suc fuel) ((account, es) ∷ accounts) bytes offset s h k l =
      let (end, e, at_end) =
        read_account-At account es bytes offset (raw_accounts accounts) h.0 k in
      rw
        (
          lt→ltb offset (length bytes) (omega (arith, At-size lawful bytes offset account _ k)),
          e,
          read_accounts,
        )
        (read_accounts-At fuel accounts bytes end
          (record s { inner = Map.insert account (insert_entries es []) s.inner }) h.1 at_end
          (omega arith))

  length-raw_accounts :
      (accounts : List (ℕ × List (ℕ × ℕ))) → length accounts ≤ length (raw_accounts accounts)
  unfolding raw_accounts
  length-raw_accounts [] = omega arith
  length-raw_accounts ((account, es) ∷ accounts) = omega (
    arith,
    length-raw_accounts accounts,
    lawful.length-to_bytes account,
    lawful.length-to_bytes (length es),
    length-append (p.to_bytes account)
        (p.to_bytes (length es) ++ (raw_entries es ++ raw_accounts accounts)),
    length-append (p.to_bytes (length es)) (raw_entries es ++ raw_accounts accounts),
    length-append (raw_entries es) (raw_accounts accounts),
  )

  from_raw-raw_accounts :
      (s : Storage)
      → All IsAccount s.inner
      → from_raw (raw s) ≡ done (record { inner = insert_accounts s.inner (Storage.new 0).inner })
  unfolding from_raw raw
  from_raw-raw_accounts s h =
      read_accounts-At (suc (length (raw_accounts s.inner))) s.inner (raw_accounts s.inner) 0
        (Storage.new 0) h (refl, omega arith) (omega (arith, length-raw_accounts s.inner))

entries-lookup :
    (j : ℕ) (es m : List (ℕ × ℕ))
    → IsMap es
    → Map.lookup j (insert_entries es m) ≡ pick (Map.lookup j es) (Map.lookup j m)
unfolding Map.lookup
entries-lookup j [] m h = refl
entries-lookup j ((k, v) ∷ es) m h =
    entries-lookup j es (Map.insert k v m) h.1 ∙ pick-insert j k v es m h.0

-- Each account with its entries put into an empty map.
abbrev rebuilt : List (ℕ × List (ℕ × ℕ)) → List (ℕ × List (ℕ × ℕ))
rebuilt [] = []
rebuilt ((a, es) ∷ accounts) = (a, insert_entries es []) ∷ rebuilt accounts

rebuilt-lookup :
    (j : ℕ) (accounts : List (ℕ × List (ℕ × ℕ)))
    → Map.lookup j (rebuilt accounts)
      ≡ Option.map (λ es. insert_entries es []) (Map.lookup j accounts)
unfolding Map.lookup
rebuilt-lookup j [] = refl
rebuilt-lookup j ((a, es) ∷ accounts) = elim (Bool-cases (a == j)) [
  | inl same ↦ rw same refl
  | inr other ↦ rw other (rebuilt-lookup j accounts)
]

accounts-lookup :
    (j : ℕ) (accounts m : List (ℕ × List (ℕ × ℕ)))
    → IsMap accounts
    → Map.lookup j (insert_accounts accounts m)
      ≡ pick (Map.lookup j (rebuilt accounts)) (Map.lookup j m)
unfolding Map.lookup
accounts-lookup j [] m h = refl
accounts-lookup j ((a, es) ∷ accounts) m h =
    accounts-lookup j accounts (Map.insert a (insert_entries es []) m) h.1
    ∙ pick-insert j a (insert_entries es []) (rebuilt accounts) m
        (rebuilt-lookup a accounts ∙ ap (Option.map (λ es. insert_entries es [])) h.0)

pick-none {ℓ} : {A : Type ℓ} (o : Option A) → pick o none ≡ o
pick-none none = refl
pick-none (some a) = refl

-- The value of a key among entries, where a missing key reads as zero.
abbrev value_of : ℕ → List (ℕ × ℕ) → ℕ
value_of key es = Option.get_or (Map.lookup key es) 0

rebuilt-value_of :
    (key : ℕ) (es : List (ℕ × ℕ)) → IsMap es → value_of key (insert_entries es []) ≡ value_of key es
unfolding Map.lookup
rebuilt-value_of key es h =
    ap (λ o. Option.get_or o 0) (entries-lookup key es [] h ∙ pick-none (Map.lookup key es))

get-rebuilt :
    (account key : ℕ) (s : Storage)
    → IsMap s.inner
    → All (λ (a : ℕ × List (ℕ × ℕ)). IsMap a.1) s.inner
    → Storage.get account key (record { inner = insert_accounts s.inner (Storage.new 0).inner })
      ≡ pick (Storage.get account key s) (Storage.get account key (Storage.new 0))
unfolding Storage.get
get-rebuilt account key s h hs =
    ap (Option.map (value_of key)) (
      accounts-lookup account s.inner (Storage.new 0).inner h
      ∙ ap (λ o. pick o (Map.lookup account (Storage.new 0).inner))
          (rebuilt-lookup account s.inner))
    ∙ go (Map.lookup account s.inner) (λ es e. All-lookup (λ a. IsMap a.1) account es s.inner hs e)
        (Map.lookup account (Storage.new 0).inner)
  where
    go :
        (o : Option (List (ℕ × ℕ)))
        → ((es : List (ℕ × ℕ)) → o ≡ some es → IsMap es)
        → (old : Option (List (ℕ × ℕ)))
        → Option.map (value_of key) (pick (Option.map (λ es. insert_entries es []) o) old)
          ≡ pick (Option.map (value_of key) o) (Option.map (value_of key) old)
    go none f old = refl
    go (some es) f old = ap some (rebuilt-value_of key es (f es refl))

-- What a storage encodes is decoded again: where the accounts and the keys are those of maps and words,
-- and no account has more entries than a `usize` counts, `from_raw` of `raw` gives a storage that reads
-- each key of each account as before, and has the empty account zero besides, if that was not there.
pub from_raw-raw :
    ⦃p : Primitives⦄
    → Lawful p
    → (s : Storage) → All IsAccount s.inner
    → IsMap s.inner
    → All (λ (a : ℕ × List (ℕ × ℕ)). IsMap a.1) s.inner
    → (s' : Storage) × (from_raw (raw s) ≡ done s')
      × ((account key : ℕ)
          → Storage.get account key s'
            ≡ pick (Storage.get account key s) (Storage.get account key (Storage.new 0)))
from_raw-raw lawful s h hm hs = (
  record { inner = insert_accounts s.inner (Storage.new 0).inner },
  from_raw-raw_accounts lawful s h,
  λ account key. get-rebuilt account key s hm hs,
)
