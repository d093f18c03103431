-- ===== src/Executor/Runtimes.antt =====
-- What crates/executor takes from others: JSON values and the table of validity (serde_json and
-- indexmap), and the runtimes of crates/js and crates/wasm, which are V8 underneath.
use em.Base.{◌≡◌, Bool, Option, none, some, List, if◌then◌else◌, ℕ}
use Prim.Native.String.{String}
use text.Mathlib.Text.{◌==◌}
use em.Arweave.Gql.{GqlTagInterface}

-- The values `V` of serde_json.
pub record Json (V : Type 0) : Type 0 where
  pub bool : Bool → V
  pub string : String → V
  -- `json!({ … })` and `Value::as_bool`
  pub object : List (String × V) → V
  pub as_bool : V → Option Bool
  pub from_str : String → Option V
  pub from_slice : List ℕ → Option V
  pub to_vec : V → List ℕ
  pub to_string : V → String

pub record IsJson {V : Type 0} (j : Json V) : Type 0 where
  pub as_bool-bool : (b : Bool) → j.as_bool (j.bool b) ≡ some b
  pub as_bool-string : (s : String) → j.as_bool (j.string s) ≡ none

-- The tables `T` of indexmap, from names to values.
pub record IndexMap (V T : Type 0) : Type 0 where
  pub empty : T
  pub insert : String → V → T → T
  pub get : String → T → Option V

pub record IsIndexMap {V T : Type 0} (t : IndexMap V T) : Type 0 where
  pub get-empty : (i : String) → t.get i t.empty ≡ none
  pub get-insert :
      (i j : String) (v : V) (m : T)
      → t.get j (t.insert i v m) ≡ (if i == j then some v else t.get j m)

-- crates/smartweave/lib.rs: `InteractionTx`, `InteractionBlock` and `InteractionContext`.
pub record InteractionTx : Type 0 where
  pub id : String
  pub owner : String
  pub tags : List GqlTagInterface
  pub target : String
  pub quantity : String
  pub reward : String

pub record InteractionBlock : Type 0 where
  pub height : ℕ
  pub indep_hash : String
  pub timestamp : ℕ

pub record InteractionContext : Type 0 where
  pub transaction : InteractionTx
  pub block : InteractionBlock

-- What `Runtime::call` of crates/js gives: nothing, a wish to evolve, a result, or an error.
pub data CallResult : Type 0 where
  updated result : CallResult
  evolve : String → CallResult
  error : String → CallResult

-- A JavaScript runtime is a state `R`: the source and the contract's state make one, a call changes
-- it. `none` is an error, which the executor unwraps. A call may read the states of other contracts
-- by `op_smartweave_read_state`, which `new` is given: that runs them with the cache `C` of
-- crates/arweave, so the call has the cache and gives what is then in it.
pub record JsRuntime (V C R : Type 0) : Type 0 where
  pub new : String → V → Option R
  pub call : V → InteractionContext → R → C → CallResult × R × C
  pub get_contract_state : R → Option V

-- A WebAssembly runtime: a call takes the state and the input, and gives the new state or an error.
-- It has the state's buffer as `&mut [u8]`, and gives what the buffer then holds.
pub data WasmResult : Type 0 where
  state : List ℕ → WasmResult
  error : String → WasmResult

pub record WasmRuntime (R : Type 0) : Type 0 where
  pub new : List ℕ → Option R
  pub call : List ℕ → List ℕ → InteractionContext → R → WasmResult × List ℕ × R

-- Conversions of texts: of the standard library, of hex, and `U256::from_str_radix(s, 10)`.
pub record Texts : Type 0 where
  pub as_bytes : String → List ℕ
  pub from_utf8 : List ℕ → Option String
  pub from_utf8_lossy : List ℕ → String
  pub hex_decode : List ℕ → Option (List ℕ)
  pub hex_encode : List ℕ → String
  pub from_str_radix : String → Option ℕ
