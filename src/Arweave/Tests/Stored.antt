-- ===== src/Arweave/Tests/Stored.antt =====
-- crates/arweave: the theorems on the cache on files and the cache in memory, at a few writes and
-- lookups.
use em.Base.{Option, none, some, List, [], ◌∷◌, ◌≡◌, refl}
use em.Base.Map.{string_eq}
use Prim.Native.String.{String}
use em.Base.Attempt.{done}
use em.Arweave.Cache.Files.{Serde, in_dir, find_contract, find_interactions, find_state}
use em.Arweave.Cache.Files.Latest.{Write, write_all, find-write_all}
use em.Arweave.Cache.{StateResult}
use em.Arweave.Cache.Lru.{new}
use em.Arweave.Cache.Lru.Latest.{Call, call_all, find-call_all, files-find_all}
use em.Arweave.Contract.{LoadedContract}
use em.Arweave.Gql.{GqlEdgeInterface}
use em.Arweave.Tests.{Table, list_lru, list_lru-IsUnbounded, caches, empty, loaded}

-- What a file holds, without a text: the value itself.
data Content : Type 0 where
  contract : LoadedContract → Content
  interactions : List GqlEdgeInterface → Content
  states : StateResult String (Table String) → Content

abbrev contract_of : Content → Option LoadedContract
contract_of (Content.contract l) = some l
contract_of _ = none

abbrev interactions_of : Content → Option (List GqlEdgeInterface)
interactions_of (Content.interactions es) = some es
interactions_of _ = none

abbrev states_of : Content → Option (StateResult String (Table String))
states_of (Content.states r) = some r
states_of _ = none

abbrev contract_serde : Serde Content LoadedContract
contract_serde = record { to_text = Content.contract; from_text = contract_of }

abbrev interactions_serde : Serde Content (List GqlEdgeInterface)
interactions_serde = record { to_text = Content.interactions; from_text = interactions_of }

abbrev states_serde : Serde Content (StateResult String (Table String))
states_serde = record { to_text = Content.states; from_text = states_of }

abbrev files_written : List (Write String (Table String))
files_written = Write.interactions "contract" [] ∷ Write.contract loaded ∷ []

find-write_all_example :
    (find_contract contract_serde interactions_serde states_serde
        (in_dir "cache")
        "contract"
        (write_all contract_serde interactions_serde states_serde "cache" files_written)
      ≡ done (some loaded))
    × (find_interactions contract_serde interactions_serde states_serde
          (in_dir "cache")
          "contract"
          (write_all contract_serde interactions_serde states_serde "cache" files_written)
        ≡ done (some []))
    × (find_state contract_serde interactions_serde states_serde
          (in_dir "cache")
          "contract"
          (write_all contract_serde interactions_serde states_serde "cache" files_written)
        ≡ done none)
unfolding loaded
find-write_all_example =
    find-write_all contract_serde interactions_serde states_serde "cache"
      (record { from_text-to_text = λ l. refl }) (record { from_text-to_text = λ l. refl })
      (record { from_text-to_text = λ l. refl }) files_written "contract"

-- Writes and lookups; the last is the head.
abbrev calls : List (Call String (Table String))
calls =
    Call.lookup_state "contract"
    ∷ Call.write (Write.interactions "contract" [])
    ∷ Call.lookup_contract "contract"
    ∷ Call.write (Write.contract loaded)
    ∷ Call.lookup_contract "contract"
    ∷ []

find-call_all_example :
    ((caches.find_contract "contract" (call_all caches calls empty)).0 ≡ some loaded)
    × ((caches.find_interactions "contract" (call_all caches calls empty)).0 ≡ some [])
    × ((caches.find_state "contract" (call_all caches calls empty)).0 ≡ none)
unfolding new loaded
find-call_all_example =
    find-call_all (list_lru LoadedContract) (list_lru (List GqlEdgeInterface))
      (list_lru (StateResult String (Table String))) (list_lru-IsUnbounded LoadedContract)
      (list_lru-IsUnbounded (List GqlEdgeInterface))
      (list_lru-IsUnbounded (StateResult String (Table String))) calls "contract"

files-find_all_example :
    (find_contract contract_serde interactions_serde states_serde
        (in_dir "cache")
        "contract"
        (write_all contract_serde interactions_serde states_serde "cache" files_written)
      ≡ done (caches.find_contract "contract" (call_all caches calls empty)).0)
    × (find_interactions contract_serde interactions_serde states_serde
          (in_dir "cache")
          "contract"
          (write_all contract_serde interactions_serde states_serde "cache" files_written)
        ≡ done (caches.find_interactions "contract" (call_all caches calls empty)).0)
    × (find_state contract_serde interactions_serde states_serde
          (in_dir "cache")
          "contract"
          (write_all contract_serde interactions_serde states_serde "cache" files_written)
        ≡ done (caches.find_state "contract" (call_all caches calls empty)).0)
unfolding new
files-find_all_example =
    files-find_all (list_lru LoadedContract) (list_lru (List GqlEdgeInterface))
      (list_lru (StateResult String (Table String))) (list_lru-IsUnbounded LoadedContract)
      (list_lru-IsUnbounded (List GqlEdgeInterface))
      (list_lru-IsUnbounded (StateResult String (Table String))) contract_serde interactions_serde
      states_serde "cache" (record { from_text-to_text = λ l. refl })
      (record { from_text-to_text = λ l. refl }) (record { from_text-to_text = λ l. refl }) calls
      "contract"
