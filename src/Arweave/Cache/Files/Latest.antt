-- ===== src/Arweave/Cache/Files/Latest.antt =====
-- crates/arweave/cache.rs: what the files give after any writes.
use em.Base.{
  Bool, true, false, Option, none, some, List, [], ◌∷◌, if◌then◌else◌, ◌≡◌, refl, sym, ap, ◌∙◌,
}
use em.Base.Attempt.{done}
use Prim.Native.String.{String, ◌++◌}
use text.Mathlib.Text.{◌==◌}
use text.Mathlib.TextEquality.{eq_iff}
use text.Mathlib.TextLemmas.{append_cancel_left, append_cancel_right}
use em.Arweave.Gql.{GqlEdgeInterface}
use em.Arweave.Contract.{LoadedContract}
use em.Arweave.Cache.{StateResult}
use em.Arweave.Cache.Files.{
  Serde, IsSerde, Files, create, from_reader, folder_of, in_dir, cache_file, cache_state_file,
  find_contract, find_interactions, find_state, cache_contract, cache_interactions, cache_states,
}

Bool-ext : (a b : Bool) → (a ≡ true → b ≡ true) → (b ≡ true → a ≡ true) → a ≡ b
Bool-ext true b f g = sym (f refl)
Bool-ext false true f g = g refl
Bool-ext false false f g = refl

append-eq_right : (i j e : String) → ((j ++ e) == (i ++ e)) ≡ (i == j)
append-eq_right i j e =
    Bool-ext ((j ++ e) == (i ++ e)) (i == j)
      (λ h. (eq_iff i j).1 (sym (append_cancel_right j i e ((eq_iff (j ++ e) (i ++ e)).0 h))))
      (λ h. (eq_iff (j ++ e) (i ++ e)).1 (ap (λ s. s ++ e) (sym ((eq_iff i j).0 h))))

append-eq_left : (d a b : String) → ((d ++ a) == (d ++ b)) ≡ (a == b)
append-eq_left d a b =
    Bool-ext ((d ++ a) == (d ++ b)) (a == b)
      (λ h. (eq_iff a b).1 (append_cancel_left d a b ((eq_iff (d ++ a) (d ++ b)).0 h)))
      (λ h. (eq_iff (d ++ a) (d ++ b)).1 (ap (λ s. d ++ s) ((eq_iff a b).0 h)))

-- Two folders of the cache are the same if their names are.
folder_of-eq : (d a b : String) → (folder_of d a == folder_of d b) ≡ (a == b)
folder_of-eq d a b = append-eq_left d ("/3em/" ++ a) ("/3em/" ++ b) ∙ append-eq_left "/3em/" a b

same_file :
    {X : Type 0} (d a i e : String) (text : X) (files : Files X) (j : String)
    → create (folder_of d a) (i ++ e) text files (folder_of d a) (j ++ e)
      ≡ (if i == j then some text else files (folder_of d a) (j ++ e))
unfolding create
same_file d a i e text files j =
    rw ((eq_iff (folder_of d a) (folder_of d a)).1 refl, append-eq_right i j e) refl

other_file :
    {X : Type 0} (d a b i : String) (text : X) (files : Files X) (j : String)
    → (b == a) ≡ false
    → create (folder_of d a) i text files (folder_of d b) j ≡ files (folder_of d b) j
unfolding create
other_file d a b i text files j h = rw (folder_of-eq d b a, h) refl

-- A write, and what was written last under an id in each table: the head is the last write.
pub data Write (V T : Type 0) : Type 0 where
  contract : LoadedContract → Write V T
  interactions : String → List GqlEdgeInterface → Write V T
  states : String → StateResult V T → Write V T

module _ {V T : Type 0} where
  abbrev pub latest_contract : List (Write V T) → String → Option LoadedContract
  latest_contract [] j = none
  latest_contract (Write.contract l ∷ ws) j = if l.id == j then some l else latest_contract ws j
  latest_contract (_ ∷ ws) j = latest_contract ws j

  abbrev pub latest_interactions : List (Write V T) → String → Option (List GqlEdgeInterface)
  latest_interactions [] j = none
  latest_interactions (Write.interactions i es ∷ ws) j =
      if i == j then some es else latest_interactions ws j
  latest_interactions (_ ∷ ws) j = latest_interactions ws j

  abbrev pub latest_state : List (Write V T) → String → Option (StateResult V T)
  latest_state [] j = none
  latest_state (Write.states i r ∷ ws) j = if i == j then some r else latest_state ws j
  latest_state (_ ∷ ws) j = latest_state ws j

module _ {X A : Type 0} (c : Serde X A) (h : IsSerde c) where
  from_reader-if :
      (b : Bool) (a : A) (o : Option X) (r : Option A)
      → from_reader c o ≡ done r
      → from_reader c (if b then some (c.to_text a) else o) ≡ done (if b then some a else r)
  unfolding from_reader
  from_reader-if true a o r k = rw (h.from_text-to_text a) refl
  from_reader-if false a o r k = k

module _ {X V T : Type 0} (sc : Serde X LoadedContract) (si : Serde X (List GqlEdgeInterface))
    (ss : Serde X (StateResult V T)) (dir : String) where
  abbrev pub write : Write V T → Files X → Files X
  write (Write.contract l) = cache_contract sc si ss (in_dir dir) l
  write (Write.interactions i es) = cache_interactions sc si ss (in_dir dir) i es
  write (Write.states i r) = cache_states sc si ss (in_dir dir) i r

  -- The files after the writes, of which the last is the head, in an empty folder.
  abbrev pub write_all : List (Write V T) → Files X
  write_all [] = λ folder name. none
  write_all (w ∷ ws) = write w (write_all ws)

  module _ (hc : IsSerde sc) (hi : IsSerde si) (hs : IsSerde ss) where
    find_contract-latest :
        (ws : List (Write V T)) (j : String)
        → find_contract sc si ss (in_dir dir) j (write_all ws) ≡ done (latest_contract ws j)
    unfolding find_contract cache_contract cache_interactions cache_states from_reader
    find_contract-latest [] j = refl
    find_contract-latest (Write.contract l ∷ ws) j =
        ap (from_reader sc) (same_file dir "contracts" l.id ".json" (sc.to_text l) (write_all ws) j)
        ∙ from_reader-if sc hc (l.id == j) l _ _ (find_contract-latest ws j)
    find_contract-latest (Write.interactions i es ∷ ws) j =
        ap (from_reader sc) (
          other_file dir "interactions" "contracts" (cache_file i) (si.to_text es) (write_all ws)
            (cache_file j) refl)
        ∙ find_contract-latest ws j
    find_contract-latest (Write.states i r ∷ ws) j =
        ap (from_reader sc) (
          other_file dir "states" "contracts" (cache_state_file i) (ss.to_text r) (write_all ws)
            (cache_file j) refl)
        ∙ find_contract-latest ws j

    find_interactions-latest :
        (ws : List (Write V T)) (j : String)
        → find_interactions sc si ss (in_dir dir) j (write_all ws) ≡ done (latest_interactions ws j)
    unfolding find_interactions cache_contract cache_interactions cache_states from_reader
    find_interactions-latest [] j = refl
    find_interactions-latest (Write.interactions i es ∷ ws) j =
        ap (from_reader si)
          (same_file dir "interactions" i ".json" (si.to_text es) (write_all ws) j)
        ∙ from_reader-if si hi (i == j) es _ _ (find_interactions-latest ws j)
    find_interactions-latest (Write.contract l ∷ ws) j =
        ap (from_reader si) (
          other_file dir "contracts" "interactions" (cache_file l.id) (sc.to_text l) (write_all ws)
            (cache_file j) refl)
        ∙ find_interactions-latest ws j
    find_interactions-latest (Write.states i r ∷ ws) j =
        ap (from_reader si) (
          other_file dir "states" "interactions" (cache_state_file i) (ss.to_text r) (write_all ws)
            (cache_file j) refl)
        ∙ find_interactions-latest ws j

    find_state-latest :
        (ws : List (Write V T)) (j : String)
        → find_state sc si ss (in_dir dir) j (write_all ws) ≡ done (latest_state ws j)
    unfolding find_state cache_contract cache_interactions cache_states from_reader
    find_state-latest [] j = refl
    find_state-latest (Write.states i r ∷ ws) j =
        ap (from_reader ss)
          (same_file dir "states" i "_result.json" (ss.to_text r) (write_all ws) j)
        ∙ from_reader-if ss hs (i == j) r _ _ (find_state-latest ws j)
    find_state-latest (Write.contract l ∷ ws) j =
        ap (from_reader ss) (
          other_file dir "contracts" "states" (cache_file l.id) (sc.to_text l) (write_all ws)
            (cache_state_file j) refl)
        ∙ find_state-latest ws j
    find_state-latest (Write.interactions i es ∷ ws) j =
        ap (from_reader ss) (
          other_file dir "interactions" "states" (cache_file i) (si.to_text es) (write_all ws)
            (cache_state_file j) refl)
        ∙ find_state-latest ws j

    -- If serde_json reads back what it writes, then after any writes into an empty cache
    -- directory each table of the cache on files gives what was written last under the id, or
    -- nothing, and no read panics.
    pub find-write_all :
        (ws : List (Write V T)) (j : String)
        → (find_contract sc si ss (in_dir dir) j (write_all ws) ≡ done (latest_contract ws j))
          × (find_interactions sc si ss (in_dir dir) j (write_all ws)
              ≡ done (latest_interactions ws j))
          × (find_state sc si ss (in_dir dir) j (write_all ws) ≡ done (latest_state ws j))
    find-write_all ws j =
        (find_contract-latest ws j, find_interactions-latest ws j, find_state-latest ws j)
