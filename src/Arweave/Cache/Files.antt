-- ===== src/Arweave/Cache/Files.antt =====
-- crates/arweave/cache.rs, `ArweaveCache`: three folders of JSON files. serde_json is a parameter; a file
-- that does not parse is a panic.
pub mod Latest
use em.Base.{Bool, true, false, ◌&&◌, Option, none, some, List, if◌then◌else◌, ◌≡◌}
use em.Base.Attempt.{Attempt, done, panicked, unwrap, ◌>>=◌}
use Prim.Native.String.{String, ◌++◌}
use text.Mathlib.Text.{◌==◌}
use em.Arweave.Gql.{GqlEdgeInterface}
use em.Arweave.Contract.{LoadedContract}
use em.Arweave.Cache.{StateResult}

-- `to_writer` and `from_reader` of serde_json, for one type; `X` is what a file holds.
pub record Serde (X A : Type 0) : Type 0 where
  pub to_text : A → X
  pub from_text : X → Option A

pub record IsSerde {X A : Type 0} (c : Serde X A) : Type 0 where
  pub from_text-to_text : (a : A) → c.from_text (c.to_text a) ≡ some a

-- The files, by folder and name.
abbrev pub Files : Type 0 → Type 0
Files X = String → String → Option X

-- `File::create`, with what is written.
unfoldable pub create : {X : Type 0} → String → String → X → Files X → Files X
create folder name text files f n = if f == folder && n == name then some text else files f n

unfoldable pub remove : {X : Type 0} → String → String → Files X → Files X
remove folder name files f n = if f == folder && n == name then none else files f n

-- What is read of a file, if it can be opened.
unfoldable pub from_reader : {X A : Type 0} → Serde X A → Option X → Attempt (Option A)
from_reader c none = done none
from_reader c (some text) = do a ← unwrap (c.from_text text); done (some a)

pub record ArweaveCache : Type 0 where
  pub contracts_cache_folder : String
  pub interactions_cache_folder : String
  pub states_cache_folder : String

-- `cache_dir.join("3em").join(name)`
abbrev pub folder_of : String → String → String
folder_of cache_dir name = cache_dir ++ ("/3em/" ++ name)

abbrev pub in_dir : String → ArweaveCache
in_dir cache_dir = record {
  contracts_cache_folder = folder_of cache_dir "contracts";
  interactions_cache_folder = folder_of cache_dir "interactions";
  states_cache_folder = folder_of cache_dir "states";
}

-- `ArweaveCache::new`, but for the making of the folders.
unfoldable pub new : Option String → Attempt ArweaveCache
new none = panicked
new (some cache_dir) = done (in_dir cache_dir)

abbrev pub cache_file : String → String
cache_file contract_id = contract_id ++ ".json"

abbrev pub cache_state_file : String → String
cache_state_file contract_id = contract_id ++ "_result.json"

module _ {X V T : Type 0} (sc : Serde X LoadedContract) (si : Serde X (List GqlEdgeInterface))
    (ss : Serde X (StateResult V T)) (c : ArweaveCache) where
  unfoldable pub find_contract : String → Files X → Attempt (Option LoadedContract)
  find_contract i files = from_reader sc (files c.contracts_cache_folder (cache_file i))

  unfoldable pub find_interactions : String → Files X → Attempt (Option (List GqlEdgeInterface))
  find_interactions i files = from_reader si (files c.interactions_cache_folder (cache_file i))

  unfoldable pub find_state : String → Files X → Attempt (Option (StateResult V T))
  find_state i files = from_reader ss (files c.states_cache_folder (cache_state_file i))

  unfoldable pub cache_contract : LoadedContract → Files X → Files X
  cache_contract l = create c.contracts_cache_folder (cache_file l.id) (sc.to_text l)

  unfoldable pub cache_interactions : String → List GqlEdgeInterface → Files X → Files X
  cache_interactions i es = create c.interactions_cache_folder (cache_file i) (si.to_text es)

  unfoldable pub cache_states : String → StateResult V T → Files X → Files X
  cache_states i r = create c.states_cache_folder (cache_state_file i) (ss.to_text r)

  -- `remove_file` of a file that is not there is a panic.
  abbrev removed : Option X → Files X → Attempt (Files X)
  removed none files = panicked
  removed (some text) files = done files

  unfoldable pub delete_cache_interactions : String → Files X → Attempt (Files X)
  delete_cache_interactions i files =
      removed (files c.interactions_cache_folder (cache_file i))
        (remove c.interactions_cache_folder (cache_file i) files)
