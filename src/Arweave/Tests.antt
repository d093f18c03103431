-- ===== src/Arweave/Tests.antt =====
-- A cache, a gateway and its answers for the tests of crates/arweave and crates/executor.
pub mod Stored
use em.Base.Int.{ℤ, pos}
use em.Arweave.Http.{get_host, info_host, new_no_cache, get_host-info_host}
use em.Base.{inr, true, false, Option, none, some, List, [], ◌∷◌, ◌≡◌, refl, arith}
use em.Base.Map.{string_eq, lookup, insert, lookup-insert}
use mathlib.Core.Option
use Prim.Native.String.{String}
use em.Base.Attempt.{done}
use em.Arweave.Cache.Files.{Serde, in_dir, find_contract, find_interactions, find_state}
use em.Arweave.Cache.Files.Latest.{Write, write_all, find-write_all}
use em.Arweave.Cache.{CacheExt, IsCache, StateResult}
use em.Arweave.Cache.Lru.{LruCache, IsUnbounded, ArweaveLruCache, new, lru_cache, lru_cache-IsCache}
use em.Arweave.Cache.Lru.Latest.{Call, call_all, find-call_all, files-find_all}
use em.Arweave.Codecs.{Codecs}
use em.Arweave.Contract.{LoadedContract, ContractType, TransactionData}
use em.Arweave.Gateway.{Gateway, ok, err, get_next_interaction_page, get_default_gql_variables}
use em.Arweave.Gql.{GqlEdgeInterface, GqlTransactionsResultInterface}
use em.Arweave.Interactions.{stream_interactions}
use em.Arweave.Interactions.Stream.{end, more, stream_interactions-Pages}
use em.Arweave.Load.{load_contract, load_fresh, init_state_of, simulated_state, cached_or}
use em.Arweave.Load.Cached.{here, load, load_contract-again}

abbrev pub Table : Type 0 → Type 0
Table A = List (String × A)

-- An association list is an unbounded cache.
abbrev pub list_lru : (A : Type 0) → LruCache A (Table A)
list_lru A = record { unbounded = []; get_mut = λ k l. (lookup k l, l); put = insert }

pub list_lru-IsUnbounded : (A : Type 0) → IsUnbounded (list_lru A)
unfolding lookup
list_lru-IsUnbounded A = record {
  get_mut-unbounded = λ k. refl;
  get_mut-put = λ k j a l. lookup-insert k j a l;
  get_mut-get_mut = λ k j l. refl;
}

abbrev pub Caches : Type 0
Caches =
    ArweaveLruCache (Table LoadedContract) (Table (List GqlEdgeInterface))
      (Table (StateResult String (Table String)))

abbrev pub caches : CacheExt String (Table String) Caches
caches =
    lru_cache (list_lru LoadedContract) (list_lru (List GqlEdgeInterface))
      (list_lru (StateResult String (Table String)))

pub caches-IsCache : IsCache caches
caches-IsCache =
    lru_cache-IsCache (list_lru LoadedContract) (list_lru (List GqlEdgeInterface))
      (list_lru (StateResult String (Table String))) (list_lru-IsUnbounded LoadedContract)
      (list_lru-IsUnbounded (List GqlEdgeInterface))
      (list_lru-IsUnbounded (StateResult String (Table String)))

abbrev pub empty : Caches
empty = record { contracts = []; interactions = []; states = [] }

-- Texts are encoded as one byte, whatever they are.
abbrev pub codecs : Codecs
codecs = record {
  encode_url = λ s. s;
  decode = λ s. some (7 ∷ []);
  decode_url = λ s. some (7 ∷ []);
  from_utf8 = λ bs. some "application/javascript";
  to_lowercase = λ s. s;
  hex_sha256 = λ bs. "00";
}

abbrev pub contract_tx : TransactionData
contract_tx = record {
  format = 2;
  id = "contract";
  last_tx = "";
  owner = "";
  tags =
      record { name = "Contract-Src"; value = "" }
      ∷ record { name = "Content-Type"; value = "" }
      ∷ [];
  target = "";
  quantity = "";
  content = "";
  reward = "";
  signature = "";
  data_size = "";
  data_root = "";
}

abbrev pub interaction : String → String → GqlEdgeInterface
interaction id cursor = record {
  cursor = cursor;
  node = record {
    id = id;
    anchor = none;
    signature = none;
    recipient = none;
    owner = record { address = "caller"; key = none };
    fee = none;
    quantity = none;
    meta = none;
    tags = record { name = "Input"; value = "input" } ∷ [];
    block = record { id = "block"; timestamp = 10; height = 5; previous = none };
    parent = none;
    bundled_in = none;
  };
}

abbrev pub page : List GqlEdgeInterface → GqlTransactionsResultInterface
page edges = record { page_info = record { has_next_page = false }; edges = edges }

-- One page of two interactions.
abbrev pub answer : Option String → GqlTransactionsResultInterface
answer none = page (interaction "one" "a" ∷ interaction "two" "b" ∷ [])
answer (some cursor) = page []

abbrev pub gateway : Gateway
gateway = record {
  transactions = λ sort variables. ok (answer variables.after);
  height = ok 100;
  transaction = λ id. ok (record contract_tx { id = id });
  transaction_data = λ id. ok (1 ∷ 2 ∷ []);
  bundled_contract = λ id. err;
  transaction_block = λ id. err;
}

stream_interactions-Pages_example :
    stream_interactions gateway 2 none (get_default_gql_variables "contract" 100)
    ≡ ok (page (interaction "one" "a" ∷ interaction "two" "b" ∷ []) ∷ [])
unfolding get_default_gql_variables get_next_interaction_page
stream_interactions-Pages_example =
    stream_interactions-Pages gateway (get_default_gql_variables "contract" 100) none
      (page (interaction "one" "a" ∷ interaction "two" "b" ∷ []) ∷ [])
      (more (answer none) (interaction "one" "a") (interaction "two" "b" ∷ []) refl refl
        (end (page []) refl refl))
      2 (omega arith)

abbrev pub loaded : LoadedContract
loaded = record {
  id = "contract";
  contract_src_tx_id = "application/javascript";
  contract_src = 1 ∷ 2 ∷ [];
  contract_type = ContractType.javascript;
  init_state = "application/javascript";
  min_fee = none;
  contract_transaction = contract_tx;
}

abbrev held : Caches
held = record empty { contracts = ("contract", loaded) ∷ [] }

-- The contract is loaded, then loaded again with another source, then simulated with a state.
load_contract-again_example :
    load_contract codecs gateway caches "contract"
      (some "other")
      none
      (some "given")
      true
      true
      false
      held
    ≡ ok (record loaded { init_state = "given" }, held)
unfolding load_contract load_fresh init_state_of cached_or simulated_state lru_cache lookup insert
    loaded Option.bind
load_contract-again_example =
    load_contract-again codecs gateway caches caches-IsCache "contract" none (some "other") none
      none none (some "given") true empty held held loaded refl
      (load "contract" (some "other") none none true false false loaded here refl)

abbrev port_text : ℤ → String
port_text _ = "443"

get_host-info_host_example :
    get_host port_text (new_no_cache (pos 443) "arweave.net" "https") ≡ "https://arweave.net:443"
unfolding info_host
get_host-info_host_example = get_host-info_host port_text (pos 443) "arweave.net" "https" (inr refl)
