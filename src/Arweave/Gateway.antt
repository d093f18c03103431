-- ===== src/Arweave/Gateway.antt =====
-- crates/arweave/arweave.rs: the queries of the client. What the gateway answers is a parameter; an
-- answer that is no JSON of its type is an error, and no answer at all panics in most places.
pub mod Yields
use em.Base.{ℕ, Bool, true, false, Option, none, some, List, [], ◌∷◌, if◌then◌else◌}
use mathlib.Core.Option
use Prim.Native.String.{String}
use text.Mathlib.Text.{◌==◌}
use em.Arweave.Gql.{GqlTransactionsResultInterface, GqlEdgeInterface}
use em.Arweave.Contract.{TransactionData, BundledContract}

pub record TagFilter : Type 0 where
  pub name : String
  pub values : List String

pub record InteractionVariables : Type 0 where
  pub tags : List TagFilter
  pub block_filter : ℕ
  pub first : ℕ
  pub after : Option String

-- A result, an error, a panic, or too little fuel.
pub data Fetched {ℓ} (A : Type ℓ) : Type ℓ where
  ok : A → Fetched A
  err panicked timeout : Fetched A

infixl 5 ◌>>=◌
abbrev pub ◌>>=◌ {ℓ κ} : {A : Type ℓ} {B : Type κ} → Fetched A → (A → Fetched B) → Fetched B
ok a >>= f = f a
err >>= f = err
panicked >>= f = panicked
timeout >>= f = timeout

-- `Result::unwrap`
abbrev pub unwrap {ℓ} : {A : Type ℓ} → Fetched A → Fetched A
unwrap err = panicked
unwrap r = r

-- `order` of a query: the replacement of HEIGHT_ASC by HEIGHT_DESC.
pub data Sort : Type 0 where
  height_asc height_desc : Sort

-- What `get_transaction_block` gives: `BlockInfo` of crates/arweave/arweave.rs.
pub record TransactionBlock : Type 0 where
  pub timestamp : ℕ
  pub diff : String
  pub indep_hash : String
  pub height : ℕ

pub record Gateway : Type 0 where
  pub transactions : Sort → InteractionVariables → Fetched GqlTransactionsResultInterface
  pub height : Fetched ℕ
  pub transaction : String → Fetched TransactionData
  pub transaction_data : String → Fetched (List ℕ)
  pub bundled_contract : String → Fetched BundledContract
  pub transaction_block : String → Fetched TransactionBlock

pub data ArweaveProtocol : Type 0 where
  http https : ArweaveProtocol

-- The protocol that `Arweave::new` reads from a text.
unfoldable pub protocol_of : String → ArweaveProtocol
protocol_of protocol = if protocol == "http" then ArweaveProtocol.http else ArweaveProtocol.https

abbrev pub max_request : ℕ
max_request = 100

-- `get_default_gql_variables`
unfoldable pub get_default_gql_variables : String → ℕ → InteractionVariables
get_default_gql_variables contract_id height = record {
  tags =
      record { name = "App-Name"; values = "SmartWeaveAction" ∷ [] }
      ∷ record { name = "Contract"; values = contract_id ∷ [] }
      ∷ [];
  block_filter = height;
  first = max_request;
  after = none;
}

-- `get_next_interaction_page`
unfoldable pub get_next_interaction_page :
    Gateway → InteractionVariables → Bool → Option ℕ → Fetched GqlTransactionsResultInterface
get_next_interaction_page g variables from_last_page max_results =
    if from_last_page
    then g.transactions height_desc (record variables { first = Option.get_or max_results 100 })
    else g.transactions height_asc variables

-- `has_more`
unfoldable pub has_more : Gateway → InteractionVariables → String → Fetched Bool
unfolding get_next_interaction_page
has_more g variables cursor = do
  page ←
      get_next_interaction_page g (record variables { after = some cursor; first = 1 }) false none
  ok (elim page.edges [ [] ↦ false | e ∷ es ↦ true ])
