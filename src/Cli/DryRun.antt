-- ===== src/Cli/DryRun.antt =====
-- crates/cli/dry_run.rs: a contract run on the interactions of a file. The file as read, and the source
-- that it names, are arguments.
use em.Base.{ℕ, Bool, true, Option, none, some, List, [], ◌∷◌, map, if◌then◌else◌, ◌≡◌, refl}
use mathlib.Core.Option
use Prim.Native.String.{String}
use em.Evm.Primitives.{Primitives}
use em.Arweave.Gql.{GqlEdgeInterface, GqlTagInterface, GqlAmountInterface}
use em.Arweave.Contract.{ContractType}
use em.Arweave.Gateway.{Fetched, ok, panicked, ◌>>=◌}
use em.Executor.Context.{
  find_value, get_input_from_interaction, winston_of, generate_interaction_context,
}
use em.Executor.Raw.{World, ExecuteResult, v8, evm, raw_execute_contract}
use em.Executor.Simulated.{generate_fake_interaction, generate_fake_loaded_contract_data}

pub record RawInteractions (V : Type 0) : Type 0 where
  pub id : String
  pub caller : String
  pub input : V
  pub block_id : Option String
  pub block_height : Option ℕ
  pub block_timestamp : Option ℕ
  pub quantity : Option String
  pub reward : Option String
  pub tags : Option GqlTagInterface
  pub recipient : Option String

pub record DryRunFile (V : Type 0) : Type 0 where
  pub contract_type : ContractType
  pub contract_source : String
  pub initial_state : V
  pub interactions : List (RawInteractions V)

abbrev amount_or_zero : Option String → Option GqlAmountInterface
amount_or_zero amount = some (record { winston = some (Option.get_or amount "0"); ar = none })

module _ {V T C J W : Type 0} ⦃p : Primitives⦄ (w : World V T C J W) where
  unfoldable pub dry_interaction : RawInteractions V → GqlEdgeInterface
  unfolding generate_fake_interaction
  dry_interaction d =
      generate_fake_interaction (w.json.to_string d.input) d.id d.block_id d.block_height
        (some d.caller) d.recipient none (amount_or_zero d.quantity) (amount_or_zero d.reward)
        d.block_timestamp

  unfoldable pub dry_run_result : DryRunFile V → List ℕ → C → Fetched (ExecuteResult V T × C)
  unfolding dry_interaction raw_execute_contract generate_fake_loaded_contract_data
  dry_run_result dry source s =
      raw_execute_contract w ""
        (generate_fake_loaded_contract_data source dry.contract_type
          (w.json.to_string dry.initial_state))
        (map dry_interaction dry.interactions) w.table.empty none true true (λ t v. panicked) s

  -- What is printed: only a result of JSON.
  unfoldable pub printed : Bool → ExecuteResult V T → Fetched V
  printed show_validity (v8 value validity_table) = ok (
      if show_validity
      then w.json.object (("state", value) ∷ ("validity", w.table_value validity_table) ∷ [])
      else value)
  printed show_validity (evm store result validity_table) = panicked

  unfoldable pub dry_run : DryRunFile V → List ℕ → Bool → C → Fetched V
  unfolding dry_run_result printed
  dry_run dry source show_validity s = do
    (execution, s') ← dry_run_result dry source s
    printed show_validity execution

  -- An interaction of a dry run's file makes a context with its fields, its amounts zero where
  -- they are missing, and no tag but the input, which is the text of its input.
  pub dry_interaction_lem :
      (d : RawInteractions V)
      → (get_input_from_interaction (dry_interaction d).node ≡ w.json.to_string d.input)
        × (generate_interaction_context (dry_interaction d).node
            ≡ some (record {
              transaction = record {
                id = d.id;
                owner = d.caller;
                tags = record { name = "Input"; value = w.json.to_string d.input } ∷ [];
                target = Option.get_or d.recipient "null";
                quantity = Option.get_or d.quantity "0";
                reward = Option.get_or d.reward "0";
              };
              block = record {
                height = Option.get_or d.block_height 0;
                indep_hash = Option.get_or d.block_id "";
                timestamp = Option.get_or d.block_timestamp 0;
              };
            }))
  unfolding dry_interaction generate_fake_interaction get_input_from_interaction find_value
      generate_interaction_context winston_of Option.bind
  dry_interaction_lem d = (refl, refl)
