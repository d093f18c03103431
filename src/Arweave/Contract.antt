-- ===== src/Arweave/Contract.antt =====
-- crates/arweave/arweave.rs and miscellaneous.rs: transactions and their tags, contracts and their
-- types.
use em.Base.{ℕ, Option, none, some, List, [], ◌∷◌, if◌then◌else◌}
use mathlib.Core.Option
use Prim.Native.String.{String}
use text.Mathlib.Text.{◌==◌}
use em.Arweave.Codecs.{Codecs}

pub record Tag : Type 0 where
  pub name : String
  pub value : String

pub record TransactionData : Type 0 where
  pub format : ℕ
  pub id : String
  pub last_tx : String
  pub owner : String
  pub tags : List Tag
  pub target : String
  pub quantity : String
  pub content : String
  pub reward : String
  pub signature : String
  pub data_size : String
  pub data_root : String

pub record BundledContract : Type 0 where
  pub contract_src : List ℕ
  pub content_type : Option String
  pub init_state : Option String
  pub contract_owner : Option String

pub data ContractType : Type 0 where
  javascript wasm evm : ContractType

pub record LoadedContract : Type 0 where
  pub id : String
  pub contract_src_tx_id : String
  pub contract_src : List ℕ
  pub contract_type : ContractType
  pub init_state : String
  pub min_fee : Option String
  pub contract_transaction : TransactionData

abbrev pub or_else {ℓ} : {A : Type ℓ} → Option A → Option A → Option A
or_else none b = b
or_else (some a) b = some a

-- The first tag of a name.
unfoldable pub find_tag : String → List Tag → Option Tag
find_tag name [] = none
find_tag name (t ∷ ts) = if t.name == name then some t else find_tag name ts

module _ (c : Codecs) where
  -- `TransactionData::get_tag`: the name is encoded, the value decoded. `none` is an error, of a
  -- missing tag as of a value that is no text.
  unfoldable pub get_tag : TransactionData → String → Option String
  unfolding find_tag
  get_tag tx tag =
      Option.bind (find_tag (c.encode_url tag) tx.tags)
        λ t. Option.bind (c.decode t.value) c.from_utf8

  unfoldable pub get_contract_type_raw : String → ContractType
  get_contract_type_raw contract_type =
      let ty = c.to_lowercase contract_type in
      if ty == "application/javascript"
      then ContractType.javascript
      else if ty == "application/wasm"
      then ContractType.wasm
      else if ty == "application/octet-stream"
      then ContractType.evm
      else ContractType.javascript

  unfoldable pub get_contract_type :
      Option String → TransactionData → TransactionData → Option ContractType
  unfolding get_tag get_contract_type_raw
  get_contract_type maybe_content_type contract_transaction source_transaction =
      Option.map get_contract_type_raw (
        or_else maybe_content_type (
          or_else (get_tag source_transaction "Content-Type")
            (get_tag contract_transaction "Content-Type")))

  -- `decode_base_64` of crates/arweave/utils.rs: an error reads as the empty text.
  unfoldable pub decode_base_64 : String → String
  decode_base_64 text = Option.get_or (c.from_utf8 (Option.get_or (c.decode text) [])) ""
