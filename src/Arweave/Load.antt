-- ===== src/Arweave/Load.antt =====
-- crates/arweave/arweave.rs: `load_contract`.
pub mod Cached
use em.Base.{ℕ, Bool, true, false, Option, none, some, List, [], ◌∷◌, if◌then◌else◌}
use mathlib.Core.Option
use Prim.Native.String.{String}
use text.Mathlib.Text.{◌==◌}
use em.Arweave.Codecs.{Codecs}
use em.Arweave.Contract.{
  TransactionData, BundledContract, LoadedContract, get_tag, get_contract_type_raw,
  get_contract_type, decode_base_64, or_else,
}
use em.Arweave.Gateway.{Gateway, Fetched, ok, err, panicked, timeout, unwrap, ◌>>=◌}
use em.Arweave.Cache.{CacheExt}

abbrev pub ok_or {ℓ} : {A : Type ℓ} → Option A → Fetched A
ok_or none = err
ok_or (some a) = ok a

module _ (c : Codecs) (g : Gateway) where
  -- The contract of a bundle; a bundle that is not there panics.
  unfoldable pub load_bundled : String → Fetched LoadedContract
  unfolding get_contract_type_raw
  load_bundled contract_id = do
    found ← unwrap (g.bundled_contract contract_id)
    ok (record {
      id = contract_id;
      contract_src_tx_id = contract_id;
      contract_src = found.contract_src;
      contract_type = get_contract_type_raw c (Option.get_or found.content_type "");
      init_state = Option.get_or found.init_state "";
      min_fee = none;
      contract_transaction = record {
        format = 2;
        id = contract_id;
        last_tx = "";
        owner = Option.get_or found.contract_owner "";
        tags = [];
        target = "";
        quantity = "";
        content = "";
        reward = "";
        signature = "";
        data_size = "";
        data_root = "";
      };
    })

  -- The state in the data of the contract's transaction, or at the gateway where that is empty.
  unfoldable pub state_of_data : TransactionData → Fetched String
  unfolding decode_base_64
  state_of_data tx = do
    let state = decode_base_64 c tx.content
    if state == ""
        then (do bytes ← g.transaction_data tx.id; unwrap (ok_or (c.from_utf8 bytes)))
        else ok state

  -- The initial state: the one given, a tag, the transaction that a tag names, or the data.
  unfoldable pub init_state_of : Option String → TransactionData → Fetched String
  unfolding get_tag state_of_data decode_base_64
  init_state_of (some manual_init_state) tx = ok manual_init_state
  init_state_of none tx = elim (get_tag c tx "Init-State") [
    | some init_state_tag ↦ ok init_state_tag
    | none ↦ elim (get_tag c tx "Init-State-TX") [
      | some init_state_tag_txid ↦ do
        init_state_tx ← g.transaction init_state_tag_txid
        ok (decode_base_64 c init_state_tx.content)
      | none ↦ state_of_data tx
    ]
  ]

  -- A contract from the gateway.
  unfoldable pub load_fresh :
      String → Option String → Option String → Option String → Fetched LoadedContract
  unfolding init_state_of get_contract_type
  load_fresh contract_id contract_src_tx_id contract_type contract_init_state = do
    contract_transaction ← g.transaction contract_id
    contract_src ←
        ok_or (or_else contract_src_tx_id (get_tag c contract_transaction "Contract-Src"))
    let min_fee = get_tag c contract_transaction "Min-Fee"
    contract_src_tx ← g.transaction contract_src
    contract_src_data ← g.transaction_data contract_src_tx.id
    state ← init_state_of contract_init_state contract_transaction
    ty ← ok_or (get_contract_type c contract_type contract_transaction contract_src_tx)
    ok (record {
      id = contract_id;
      contract_src_tx_id = contract_src;
      contract_src = contract_src_data;
      contract_type = ty;
      init_state = state;
      min_fee = min_fee;
      contract_transaction = contract_transaction;
    })

  module _ {V T C : Type 0} (cx : CacheExt V T C) where
    -- The cached contract, with the given state if it is simulated.
    unfoldable pub simulated_state : LoadedContract → Bool → Option String → LoadedContract
    simulated_state l simulated none = l
    simulated_state l simulated (some init_state) =
        if simulated then record l { init_state = init_state } else l

    -- With `cache`: the cached contract, or one from the gateway, which is cached.
    unfoldable pub cached_or :
        Option LoadedContract
        → Bool
        → Option String
        → C
        → Fetched LoadedContract
        → Fetched (LoadedContract × C)
    unfolding simulated_state
    cached_or (some l) simulated init_state s fresh = ok (simulated_state l simulated init_state, s)
    cached_or none simulated init_state s fresh = do l ← fresh; ok (l, cx.cache_contract l s)

    -- `load_contract`: the contract and the cache behind it.
    unfoldable pub load_contract :
        String
        → Option String
        → Option String
        → Option String
        → Bool
        → Bool
        → Bool
        → C
        → Fetched (LoadedContract × C)
    unfolding load_bundled load_fresh cached_or
    load_contract contract_id src ty init_state cache simulated in_bundle s =
        if in_bundle
        then (do l ← load_bundled contract_id; ok (l, s))
        else if cache
        then (let (found, s') = cx.find_contract contract_id s in
            cached_or found simulated init_state s' (load_fresh contract_id src ty init_state))
        else (do l ← load_fresh contract_id src ty init_state; ok (l, s))
