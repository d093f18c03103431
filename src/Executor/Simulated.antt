-- ===== src/Executor/Simulated.antt =====
-- crates/executor/utils.rs, `create_simulated_transaction`, and crates/executor/test_util.rs: interactions
-- that are made up.
use em.Base.{ℕ, Bool-cases, inl, inr, Option, none, some, List, [], ◌∷◌, ◌++◌, true, ◌≡◌, refl}
use mathlib.Core.Option
use Prim.Native.String.{String}
use text.Mathlib.Text.{◌==◌}
use em.Arweave.Gql.{GqlEdgeInterface, GqlTagInterface, GqlAmountInterface}
use em.Arweave.Contract.{LoadedContract, ContractType}
use em.Executor.Context.{
  find_value, get_input_from_interaction, winston_of, generate_interaction_context,
}

abbrev winston : String → Option GqlAmountInterface
winston amount = some (record { winston = some amount; ar = none })

-- `parse::<usize>` is the argument `parse`.
unfoldable pub number_or_zero : (String → Option ℕ) → Option String → ℕ
number_or_zero parse text = Option.get_or (parse (Option.get_or text "0")) 0

unfoldable pub create_simulated_transaction :
    (String → Option ℕ)
    → String
    → String
    → String
    → String
    → Option String
    → List GqlTagInterface
    → Option String
    → Option String
    → Option String
    → String
    → GqlEdgeInterface
unfolding number_or_zero
create_simulated_transaction parse id owner quantity reward target tags block_height block_hash
      block_timestamp input =
    record {
      cursor = "";
      node = record {
        id = id;
        anchor = none;
        signature = none;
        recipient = target;
        owner = record { address = owner; key = none };
        fee = winston reward;
        quantity = winston quantity;
        meta = none;
        tags = tags ++ (record { name = "Input"; value = input } ∷ []);
        block = record {
          id = Option.get_or block_hash "";
          timestamp = number_or_zero parse block_timestamp;
          height = number_or_zero parse block_height;
          previous = none;
        };
        parent = none;
        bundled_in = none;
      };
    }

abbrev extra : Option GqlTagInterface → List GqlTagInterface
extra none = []
extra (some tag) = tag ∷ []

-- The input is the text of a JSON value.
unfoldable pub generate_fake_interaction :
    String
    → String
    → Option String
    → Option ℕ
    → Option String
    → Option String
    → Option GqlTagInterface
    → Option GqlAmountInterface
    → Option GqlAmountInterface
    → Option ℕ
    → GqlEdgeInterface
generate_fake_interaction input id block_id block_height owner_address recipient extra_tag quantity
      fee block_timestamp =
    record {
      cursor = "";
      node = record {
        id = id;
        anchor = none;
        signature = none;
        recipient = recipient;
        owner = record { address = Option.get_or owner_address ""; key = none };
        fee = fee;
        quantity = quantity;
        meta = none;
        tags = record { name = "Input"; value = input } ∷ extra extra_tag;
        block = record {
          id = Option.get_or block_id "";
          timestamp = Option.get_or block_timestamp 0;
          height = Option.get_or block_height 0;
          previous = none;
        };
        parent = none;
        bundled_in = none;
      };
    }

unfoldable pub generate_fake_loaded_contract_data : List ℕ → ContractType → String → LoadedContract
generate_fake_loaded_contract_data contract_source contract_type init_state = record {
  id = "test";
  contract_src_tx_id = "";
  contract_src = contract_source;
  contract_type = contract_type;
  init_state = init_state;
  min_fee = none;
  contract_transaction = record {
    format = 0;
    id = "";
    last_tx = "";
    owner = "";
    tags = [];
    target = "";
    quantity = "";
    content = "";
    reward = "";
    signature = "";
    data_size = "";
    data_root = "";
  };
}

-- What follows the tags is read if they have no tag of the name.
find_value-append :
    (name : String) (tags : List GqlTagInterface) (input : String) (d : String)
    → (name == name) ≡ true
    → Option.get_or (find_value name (tags ++ (record { name = name; value = input } ∷ []))) d
      ≡ Option.get_or (find_value name tags) input
unfolding find_value
find_value-append name [] input d h = rw h refl
find_value-append name (t ∷ ts) input d h = elim (Bool-cases (t.name == name)) [
  | inl same ↦ rw same refl
  | inr other ↦ rw other (find_value-append name ts input d h)
]

-- A simulated transaction makes a context with the given fields, and its input is the value of
-- the first tag named Input that was given, or else the input given.
pub create_simulated_transaction_lem :
    (parse : String → Option ℕ) (id owner quantity reward : String) (target : Option String)
    (tags : List GqlTagInterface) (height hash timestamp : Option String) (input : String)
    → (get_input_from_interaction
          (create_simulated_transaction parse id owner quantity reward target tags height hash
            timestamp input).node
        ≡ Option.get_or (find_value "Input" tags) input)
      × (generate_interaction_context
            (create_simulated_transaction parse id owner quantity reward target tags height hash
              timestamp input).node
          ≡ some (record {
            transaction = record {
              id = id;
              owner = owner;
              tags = tags ++ (record { name = "Input"; value = input } ∷ []);
              target = Option.get_or target "null";
              quantity = quantity;
              reward = reward;
            };
            block = record {
              height = number_or_zero parse height;
              indep_hash = Option.get_or hash "";
              timestamp = number_or_zero parse timestamp;
            };
          }))
unfolding create_simulated_transaction get_input_from_interaction generate_interaction_context
    winston_of Option.bind
create_simulated_transaction_lem parse id owner quantity reward target tags height hash timestamp
      input =
    (find_value-append "Input" tags input "" refl, refl)
