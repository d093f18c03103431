-- ===== src/Arweave/Gql.antt =====
-- crates/arweave/gql_result.rs: what the gateway answers to a GraphQL query.
use em.Base.{ℕ, Bool, Option, List}
use Prim.Native.String.{String}

pub record GqlPageInfoInterface : Type 0 where
  pub has_next_page : Bool

pub record GqlOwnerInterface : Type 0 where
  pub address : String
  pub key : Option String

pub record GqlAmountInterface : Type 0 where
  pub winston : Option String
  pub ar : Option String

pub record GqlMetaDataInterface : Type 0 where
  pub size : Option ℕ
  pub ty : Option String

pub record GqlTagInterface : Type 0 where
  pub name : String
  pub value : String

pub record GqlBlockInterface : Type 0 where
  pub id : String
  pub timestamp : ℕ
  pub height : ℕ
  pub previous : Option String

pub record GqlNodeParent : Type 0 where
  pub id : Option String

pub record GqlBundled : Type 0 where
  pub id : Option String

pub record GqlNodeInterface : Type 0 where
  pub id : String
  pub anchor : Option String
  pub signature : Option String
  pub recipient : Option String
  pub owner : GqlOwnerInterface
  pub fee : Option GqlAmountInterface
  pub quantity : Option GqlAmountInterface
  pub meta : Option GqlMetaDataInterface
  pub tags : List GqlTagInterface
  pub block : GqlBlockInterface
  pub parent : Option GqlNodeParent
  pub bundled_in : Option GqlBundled

pub record GqlEdgeInterface : Type 0 where
  pub cursor : String
  pub node : GqlNodeInterface

pub record GqlTransactionsResultInterface : Type 0 where
  pub page_info : GqlPageInfoInterface
  pub edges : List GqlEdgeInterface
