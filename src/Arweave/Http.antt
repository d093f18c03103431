-- ===== src/Arweave/Http.antt =====
-- crates/arweave/arweave.rs: the requests behind the queries, and crates/smartweave/lib.rs: the host and
-- the addresses of its operations. What the network answers and the reading of JSON are parameters.
use em.Base.{
  ℕ, Bool, false, Option, none, some, List, ◌==◌, if◌then◌else◌, ◌≡◌, ◌⊎◌, inl, inr, refl,
}
use em.Base.Int.{ℤ, pos, negsuc}
use Prim.Native.String.{String, ◌++◌}
use em.Arweave.Gql.{GqlTransactionsResultInterface}
use em.Arweave.Contract.{TransactionData, BundledContract}
use em.Arweave.Gateway.{
  Gateway, Fetched, ok, err, unwrap, ◌>>=◌, Sort, InteractionVariables, TransactionBlock,
  ArweaveProtocol, protocol_of,
}

pub record Arweave : Type 0 where
  pub port : ℤ
  pub host : String
  pub protocol : ArweaveProtocol

-- `Arweave::new_no_cache`; `Arweave::new` puts the cache besides.
unfoldable pub new_no_cache : ℤ → String → String → Arweave
new_no_cache port host protocol = record {
  port = port;
  host = host;
  protocol = protocol_of protocol;
}

abbrev is_80 : ℤ → Bool
is_80 (pos n) = n == 80
is_80 (negsuc n) = false

abbrev protocol_text : ArweaveProtocol → String
protocol_text ArweaveProtocol.http = "http"
protocol_text ArweaveProtocol.https = "https"

-- The decimal text of a port is `to_string`.
module _ (to_string : ℤ → String) where
  unfoldable pub get_host : Arweave → String
  get_host a =
      if is_80 a.port
      then protocol_text a.protocol ++ ("://" ++ a.host)
      else protocol_text a.protocol ++ ("://" ++ (a.host ++ (":" ++ to_string a.port)))

-- `ArweaveInfo` of crates/smartweave, and its `get_host`.
pub record ArweaveInfo : Type 0 where
  pub port : ℤ
  pub host : String
  pub protocol : String

module _ (to_string : ℤ → String) where
  unfoldable pub info_host : ArweaveInfo → String
  info_host i =
      if is_80 i.port
      then i.protocol ++ ("://" ++ i.host)
      else i.protocol ++ ("://" ++ (i.host ++ (":" ++ to_string i.port)))

  -- The addresses of the operations on wallets and transactions.
  unfoldable pub wallet_balance_address : ArweaveInfo → String → String
  unfolding info_host
  wallet_balance_address i address = info_host i ++ ("/wallet/" ++ (address ++ "/balance"))

  unfoldable pub wallet_last_tx_address : ArweaveInfo → String → String
  unfolding info_host
  wallet_last_tx_address i address = info_host i ++ ("/wallet/" ++ (address ++ "/last_tx"))

  unfoldable pub tx_data_address : ArweaveInfo → String → String
  unfolding info_host
  tx_data_address i tx_id = info_host i ++ ("/" ++ tx_id)

  unfoldable pub tx_address : ArweaveInfo → String → String
  unfolding info_host
  tx_address i tx_id = info_host i ++ ("/tx/" ++ tx_id)

-- The bodies that are answered, and what is read of them. `none` of a request is that it was not sent.
pub record Network : Type 0 where
  pub request : String → Option (List ℕ)
  pub post : String → Sort → InteractionVariables → Option (List ℕ)
  pub transaction : List ℕ → Option TransactionData
  pub bundled_contract : List ℕ → Option BundledContract
  pub block_indep_hash : List ℕ → Option String
  pub block : List ℕ → Option TransactionBlock
  pub height : List ℕ → Option ℕ
  pub transactions : List ℕ → Option GqlTransactionsResultInterface

abbrev or_err {ℓ} : {A : Type ℓ} → Option A → Fetched A
or_err none = err
or_err (some a) = ok a

module _ (to_string : ℤ → String) (n : Network) (a : Arweave) where
  abbrev at_host : String → String
  at_host path = get_host to_string a ++ path

  unfoldable pub get_transaction : String → Fetched TransactionData
  unfolding get_host
  get_transaction id = do
    body ← unwrap (or_err (n.request (at_host ("/tx/" ++ id))))
    or_err (n.transaction body)

  unfoldable pub get_bundled_contract : String → Fetched BundledContract
  unfolding get_host
  get_bundled_contract id = do
    body ← unwrap (or_err (n.request (at_host ("/" ++ id))))
    or_err (n.bundled_contract body)

  unfoldable pub get_transaction_data : String → Fetched (List ℕ)
  unfolding get_host
  get_transaction_data id = unwrap (or_err (n.request (at_host ("/" ++ id))))

  -- The status gives the hash of the block.
  unfoldable pub get_transaction_block : String → Fetched TransactionBlock
  unfolding get_host
  get_transaction_block id = do
    body ← or_err (n.request (at_host ("/tx/" ++ (id ++ "/status"))))
    block_hash ← or_err (n.block_indep_hash body)
    body' ← or_err (n.request (at_host ("/block/hash/" ++ block_hash)))
    or_err (n.block body')

  unfoldable pub get_network_info : Fetched ℕ
  unfolding get_host
  get_network_info = do
    body ← unwrap (or_err (n.request (at_host "/info")))
    unwrap (or_err (n.height body))

  unfoldable pub post_query : Sort → InteractionVariables → Fetched GqlTransactionsResultInterface
  unfolding get_host
  post_query sort variables = do
    body ← unwrap (or_err (n.post (at_host "/graphql") sort variables))
    or_err (n.transactions body)

  -- The gateway that the rest of the client works over.
  unfoldable pub gateway : Gateway
  unfolding get_transaction get_bundled_contract get_transaction_data get_transaction_block
      get_network_info post_query
  gateway = record {
    transactions = post_query;
    height = get_network_info;
    transaction = get_transaction;
    transaction_data = get_transaction_data;
    bundled_contract = get_bundled_contract;
    transaction_block = get_transaction_block;
  }

module _ (to_string : ℤ → String) where
  -- For the protocols http and https the client's host is that of the operations of
  -- crates/smartweave.
  pub get_host-info_host :
      (port : ℤ) (host protocol : String)
      → (protocol ≡ "http") ⊎ (protocol ≡ "https")
      → get_host to_string (new_no_cache port host protocol)
        ≡ info_host to_string (record { port = port; host = host; protocol = protocol })
  unfolding get_host info_host new_no_cache protocol_of
  get_host-info_host port host protocol (inl e) = rw e refl
  get_host-info_host port host protocol (inr e) = rw e refl
