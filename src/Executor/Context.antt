-- ===== src/Executor/Context.antt =====
-- crates/executor/executor.rs, `generate_interaction_context`, and crates/executor/lib.rs,
-- `get_input_from_interaction` and `has_multiple_interactions`.
use em.Base.{ℕ, suc, Bool, Option, none, some, List, [], ◌∷◌, ltb, if◌then◌else◌}
use mathlib.Core.Option
use Prim.Native.String.{String}
use text.Mathlib.Text.{◌==◌}
use em.Arweave.Gql.{GqlNodeInterface, GqlTagInterface, GqlAmountInterface}
use em.Executor.Runtimes.{InteractionContext}

-- An amount's winston; an amount without one panics.
unfoldable pub winston_of : Option GqlAmountInterface → Option String
winston_of amount = (Option.get_or amount (record { winston = some ""; ar = some "" })).winston

-- `none` is the panic of an `unwrap`.
unfoldable pub generate_interaction_context : GqlNodeInterface → Option InteractionContext
unfolding winston_of
generate_interaction_context tx = Option.bind (winston_of tx.quantity) λ quantity.
    Option.map
      (λ reward. record {
        transaction = record {
          id = tx.id;
          owner = tx.owner.address;
          tags = tx.tags;
          target = Option.get_or tx.recipient "null";
          quantity = quantity;
          reward = reward;
        };
        block = record {
          height = tx.block.height;
          indep_hash = tx.block.id;
          timestamp = tx.block.timestamp;
        };
      })
      (winston_of tx.fee)

-- The value of the first tag of a name.
unfoldable pub find_value : String → List GqlTagInterface → Option String
find_value name [] = none
find_value name (t ∷ ts) = if t.name == name then some t.value else find_value name ts

unfoldable pub get_input_from_interaction : GqlNodeInterface → String
unfolding find_value
get_input_from_interaction tx = Option.get_or (find_value "Input" tx.tags) ""

-- The number of tags of a name.
unfoldable pub count_tags : String → List GqlTagInterface → ℕ
count_tags name [] = 0
count_tags name (t ∷ ts) = if t.name == name then suc (count_tags name ts) else count_tags name ts

unfoldable pub has_multiple_interactions : GqlNodeInterface → Bool
unfolding count_tags
has_multiple_interactions tx = ltb 1 (count_tags "Contract" tx.tags)
