-- ===== src/Cli/Tests.antt =====
-- crates/cli: the theorems at small runs.
use em.Base.{none, some, [], ◌∷◌, length, take, drop, refl, arith, ◌≡◌}
use mathlib.Core.Option
use Prim.Native.String.{String}
use em.Evm.Primitives.Numbers.{numbers}
use em.Arweave.Contract.{ContractType}
use em.Arweave.Tests.{Caches, empty}
use em.Executor.Context.{generate_interaction_context, get_input_from_interaction}
use em.Executor.Tests.{world, stored}
use em.Cli.DryRun.{RawInteractions, DryRunFile, dry_interaction, dry_interaction_lem}
use em.Cli.Node.{frame, u8_array_to_usize, read_result, frame_lem, length-read_result}

abbrev step : RawInteractions String
step = record {
  id = "one";
  caller = "caller";
  input = "input";
  block_id = none;
  block_height = some 3;
  block_timestamp = none;
  quantity = none;
  reward = none;
  tags = some (record { name = "App-Name"; value = "SmartWeaveAction" });
  recipient = none;
}

dry_interaction_lem_example :
    (get_input_from_interaction (dry_interaction world step).node ≡ "input")
    × (generate_interaction_context (dry_interaction world step).node
        ≡ some (record {
          transaction = record {
            id = "one";
            owner = "caller";
            tags = record { name = "Input"; value = "input" } ∷ [];
            target = "null";
            quantity = "0";
            reward = "0";
          };
          block = record { height = 3; indep_hash = ""; timestamp = 0 };
        }))
dry_interaction_lem_example = dry_interaction_lem world step

abbrev dry : DryRunFile String
dry = record {
  contract_type = ContractType.javascript;
  contract_source = "contract.js";
  initial_state = "start";
  interactions = step ∷ [];
}

abbrev after : Caches
after = record empty { states = ("third", stored "third") ∷ ("other", stored "read") ∷ [] }

frame_lem_example :
    (u8_array_to_usize (take 4 (frame (7 ∷ 8 ∷ []))) ≡ 2)
    × (take 2 (drop 4 (frame (7 ∷ 8 ∷ []))) ≡ 7 ∷ 8 ∷ [])
    × (length (frame (7 ∷ 8 ∷ [])) ≡ 7)
frame_lem_example = frame_lem (7 ∷ 8 ∷ []) (omega arith)

length-read_result_example : length (read_result ((1 ∷ []) ∷ [])) ≡ 1024
length-read_result_example = length-read_result ((1 ∷ []) ∷ []) refl
