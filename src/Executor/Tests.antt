-- ===== src/Executor/Tests.antt =====
-- Runs of crates/executor: values are texts, and a call of a contract makes its input the state.
use em.Executor.Simulated.{
  number_or_zero, create_simulated_transaction, create_simulated_transaction_lem,
}
use em.Base.{ℕ, true, false, if◌then◌else◌, none, some, List, [], ◌∷◌, ◌≡◌, refl}
use em.Base.Map.{string_eq, lookup, insert, lookup-insert}
use mathlib.Core.Option
use Prim.Native.String.{String}
use em.Evm.Primitives.Numbers.{numbers}
use em.Arweave.Cache.{CacheExt, StateResult}
use em.Arweave.Cache.Lru.{LruCache, lru_cache}
use em.Arweave.Contract.{
  LoadedContract, ContractType, get_tag, find_tag, get_contract_type, get_contract_type_raw,
  decode_base_64,
}
use em.Arweave.Gateway.{ok, err, get_default_gql_variables, get_next_interaction_page}
use em.Arweave.Gql.{GqlEdgeInterface}
use em.Arweave.SortKey.{digits, digits_text, digit_text, padded_height, get_sort_key}
use em.Arweave.Interactions.{
  get_interactions, fetch_interactions, collect_all, stream_interactions, append_pages,
  filter_direct, is_direct, get_max_edges,
}
use em.Arweave.Load.{load_contract, load_fresh, init_state_of, state_of_data}
use em.Arweave.Tests.{
  Table, Caches, list_lru, list_lru-IsUnbounded, caches, caches-IsCache, empty, codecs, contract_tx,
  interaction, gateway,
}
use em.Executor.Context.{
  generate_interaction_context, get_input_from_interaction, find_value, winston_of,
}
use em.Executor.Contracts.{
  Shared, shared_cache, execute_contract, execute_fresh, hold, answer_or, find_start, start_of,
  slice_from,
}
use em.Executor.Contracts.Answers.{execute_contract-again}
use em.Executor.Raw.{World, ExecuteResult, raw_execute_contract, execute_js, store_state}
use em.Executor.Raw.Loops.{js_interactions, js_outcome, call_input}
use em.Executor.Raw.Validity.{Entered, raw_execute_contract-Entered}
use em.Executor.Runtimes.{WasmResult, CallResult, IsIndexMap}
use em.Executor.Sort.{Ordering, sort_interactions, keyed, sort_by, insert_by}
use em.Executor.Sort.Order.{IsOrder, SortedFrom, sort_interactions-SortedFrom}

-- A world over any cache.
abbrev pub world_over :
    {C : Type 0} → CacheExt String (Table String) C → World String (Table String) C String ℕ
world_over cx = record {
  json = record {
    bool = λ b. if b then "true" else "false";
    string = λ s. s;
    object = λ fields. "object";
    as_bool = λ v. none;
    from_str = λ s. some s;
    from_slice = λ bs. some "slice";
    to_vec = λ v. [];
    to_string = λ v. v;
  };
  table = record { empty = []; insert = insert; get = lookup };
  table_value = λ t. "table";
  js = record {
    new = λ source state. some state;
    call = λ input context rt s. (CallResult.updated, input, s);
    get_contract_state = λ rt. some rt;
  };
  wasm = record {
    new = λ bytes. some 0;
    call = λ state input context rt. (WasmResult.state state, state, rt);
  };
  texts = record {
    as_bytes = λ s. [];
    from_utf8 = λ bs. some "";
    from_utf8_lossy = λ bs. "";
    hex_decode = λ bs. some bs;
    hex_encode = λ bs. "";
    from_str_radix = λ s. some 0;
  };
  codecs = codecs;
  gateway = gateway;
  caches = cx;
  fuel = 10;
}

abbrev pub world : World String (Table String) Caches String ℕ
world = world_over caches

abbrev pub Memory : Type 0
Memory = Shared Caches (Table (ExecuteResult String (Table String)))

abbrev pub shared_world : World String (Table String) Memory String ℕ
shared_world = world_over (shared_cache caches)

abbrev contract : LoadedContract
contract = record {
  id = "contract";
  contract_src_tx_id = "source";
  contract_src = [];
  contract_type = ContractType.javascript;
  init_state = "start";
  min_fee = none;
  contract_transaction = contract_tx;
}

abbrev pub stored : String → StateResult String (Table String)
stored v = record { state = v; validity = [] }

-- A run that stores the state of another contract while it is called.
abbrev pub reading : World String (Table String) Caches String ℕ
reading = record world {
  js = record {
    new = λ source state. some state;
    call = λ input context rt s.
        (CallResult.updated, input, caches.cache_states "other" (stored "read") s);
    get_contract_state = λ rt. some rt;
  };
}

abbrev pub before : Caches
before = record empty { states = ("third", stored "third") ∷ [] }

abbrev after : Caches
after = record empty {
  states =
      ("third", stored "third")
      ∷ ("other", stored "read")
      ∷ ("contract", record { state = "object"; validity = ("one", "true") ∷ [] })
      ∷ [];
}

pub third-other :
    (s : Caches)
    → (caches.find_state "third" (caches.cache_states "other" (stored "read") s)).0
      ≡ (caches.find_state "third" s).0
third-other s = caches-IsCache.find_state-cache_states "other" "third" (stored "read") s

-- Every text is equal to every other.
same : String → String → Ordering
same a b = Ordering.equal

same-IsOrder : IsOrder same
unfolding same
same-IsOrder = record {
  reflexive = λ a. refl;
  total = λ a b h. refl;
  transitive = λ a b c h k. refl;
}

sort_interactions-SortedFrom_example :
    (sorted : List GqlEdgeInterface) × (sort_interactions codecs same
        (interaction "one" "a" ∷ interaction "two" "b" ∷ [])
      ≡ some sorted)
    × SortedFrom codecs same same-IsOrder
        (("0000005,00", interaction "one" "a") ∷ ("0000005,00", interaction "two" "b") ∷ [])
        sorted
unfolding keyed get_sort_key padded_height digits digits_text digit_text Option.bind
sort_interactions-SortedFrom_example =
    sort_interactions-SortedFrom codecs same same-IsOrder
      (interaction "one" "a" ∷ interaction "two" "b" ∷ [])
      (("0000005,00", interaction "one" "a") ∷ ("0000005,00", interaction "two" "b") ∷ []) refl

results :
    LruCache (ExecuteResult String (Table String)) (Table (ExecuteResult String (Table String)))
results = list_lru (ExecuteResult String (Table String))

outcome : ExecuteResult String (Table String)
outcome = ExecuteResult.v8 "object" (("one", "true") ∷ ("two", "true") ∷ [])

-- Two interactions are fetched, sorted and run; then a call with a height is answered from memory.
execute_contract-again_example :
    execute_contract shared_world results same 5 "contract"
      (some 3)
      true
      true
      none
      none
      (record { results = ("contract", outcome) ∷ []; cached = empty })
    ≡ ok (outcome, record { results = ("contract", outcome) ∷ []; cached = empty })
unfolding execute_contract execute_fresh hold answer_or results outcome same lru_cache
    get_interactions fetch_interactions collect_all stream_interactions append_pages filter_direct
    is_direct get_max_edges get_default_gql_variables get_next_interaction_page load_contract
    load_fresh init_state_of state_of_data get_tag find_tag get_contract_type get_contract_type_raw
    decode_base_64 sort_interactions keyed sort_by insert_by get_sort_key padded_height digits
    digits_text digit_text find_start start_of slice_from raw_execute_contract execute_js
    store_state js_interactions js_outcome call_input generate_interaction_context
    get_input_from_interaction find_value winston_of lookup insert Option.bind
execute_contract-again_example =
    execute_contract-again shared_world results same 5
      (list_lru-IsUnbounded (ExecuteResult String (Table String))) "contract" none (some 3) false
      true false true none none none none (record { results = []; cached = empty })
      (record { results = ("contract", outcome) ∷ []; cached = empty }) outcome refl

table-IsIndexMap : IsIndexMap world.table
unfolding lookup
table-IsIndexMap = record { get-empty = λ i. refl; get-insert = λ i j v m. lookup-insert i j v m }

raw_execute_contract-Entered_example :
    Entered world.table
      (interaction "one" "a" ∷ [])
      (("zero", "true") ∷ [])
      (("zero", "true") ∷ ("one", "true") ∷ [])
unfolding raw_execute_contract execute_js store_state js_interactions js_outcome call_input
    generate_interaction_context get_input_from_interaction find_value winston_of lookup insert
    lru_cache Option.bind
raw_execute_contract-Entered_example =
    raw_execute_contract-Entered world table-IsIndexMap "contract" contract
      (interaction "one" "a" ∷ []) (("zero", "true") ∷ []) none false (λ t v. err) empty empty
      (ExecuteResult.v8 "object" (("zero", "true") ∷ ("one", "true") ∷ [])) refl

create_simulated_transaction_lem_example :
    (get_input_from_interaction
        (create_simulated_transaction
          (λ t. some 7)
          "id"
          "owner"
          "1"
          "2"
          none
          (record { name = "Input"; value = "old" } ∷ [])
          (some "7")
          none
          none
          "new").node
      ≡ "old")
    × (generate_interaction_context
          (create_simulated_transaction
            (λ t. some 7)
            "id"
            "owner"
            "1"
            "2"
            none
            (record { name = "Input"; value = "old" } ∷ [])
            (some "7")
            none
            none
            "new").node
        ≡ some (record {
          transaction = record {
            id = "id";
            owner = "owner";
            tags =
                record { name = "Input"; value = "old" }
                ∷ record { name = "Input"; value = "new" }
                ∷ [];
            target = "null";
            quantity = "1";
            reward = "2";
          };
          block = record { height = 7; indep_hash = ""; timestamp = 7 };
        }))
unfolding number_or_zero find_value
create_simulated_transaction_lem_example =
    create_simulated_transaction_lem (λ t. some 7) "id" "owner" "1" "2" none
      (record { name = "Input"; value = "old" } ∷ []) (some "7") none none "new"
