-- ===== src/Arweave/Interactions.antt =====
-- crates/arweave/arweave.rs: `get_interactions` and the stream of pages that it reads.
pub mod Stream
use em.Base.{
  ℕ, zero, suc, ◌+◌, ◌-◌, Bool, true, false, ◌&&◌, ◌||◌, Option, none, some, List, [], ◌∷◌, ◌++◌,
  length, get_elem?, ◌==◌, if◌then◌else◌, is_none,
}
use mathlib.Core.Option
use Prim.Native.String.{String}
use em.Arweave.Gql.{GqlEdgeInterface, GqlTransactionsResultInterface, GqlNodeParent, GqlBundled}
use em.Arweave.Gateway.{
  Gateway, InteractionVariables, Fetched, ok, err, panicked, timeout, unwrap, ◌>>=◌, max_request,
  get_default_gql_variables, get_next_interaction_page, has_more,
}
use em.Arweave.Cache.{CacheExt}

-- `get_max_edges`
unfoldable pub get_max_edges : List GqlEdgeInterface → ℕ
get_max_edges edges =
    let len = length edges in
    if len == max_request then max_request - 1 else if len == 0 then len else len - 1

-- `stream_interactions`: the pages from the cursor on, up to the first that is empty. On fuel, one
-- unit for a request.
unfoldable pub stream_interactions :
    Gateway
    → ℕ
    → Option String
    → InteractionVariables
    → Fetched (List GqlTransactionsResultInterface)
stream_interactions g zero cursor variables = timeout
stream_interactions g (suc fuel) cursor variables = do
  tx ← unwrap (get_next_interaction_page g (record variables { after = cursor }) false none)
  elim tx.edges [
    | [] ↦ ok []
    | e ∷ es ↦ elim (get_elem? tx.edges (get_max_edges tx.edges)) [
      | none ↦ ok []
      | some edge ↦ do
        rest ← stream_interactions g fuel (some edge.cursor) variables
        ok (tx ∷ rest)
    ]
  ]

-- `for result in results { infos.append(&mut result.edges) }`
unfoldable pub append_pages :
    List GqlEdgeInterface → List GqlTransactionsResultInterface → List GqlEdgeInterface
append_pages infos [] = infos
append_pages infos (r ∷ rs) = append_pages (infos ++ r.edges) rs

-- The test of the filter: no parent with an id, or no bundle with one.
unfoldable pub is_direct : GqlEdgeInterface → Bool
is_direct p =
    is_none p.node.parent
    || (is_none (Option.get_or p.node.parent (record { id = none })).id
        || (is_none p.node.bundled_in
            || is_none (Option.get_or p.node.bundled_in (record { id = none })).id))

unfoldable pub filter_direct : List GqlEdgeInterface → List GqlEdgeInterface
unfolding is_direct
filter_direct [] = []
filter_direct (e ∷ es) = if is_direct e then e ∷ filter_direct es else filter_direct es

abbrev pub last_edge : GqlEdgeInterface → List GqlEdgeInterface → GqlEdgeInterface
last_edge e [] = e
last_edge e (f ∷ fs) = last_edge f fs

-- What the two ways to collect interactions give: the interactions, whether there are new ones, and
-- the index of the first new one.
pub record Collected : Type 0 where
  pub final_result : List GqlEdgeInterface
  pub new_transactions : Bool
  pub new_interactions_index : ℕ

-- With cached interactions `e ∷ es`: what follows the last of them.
unfoldable pub collect_more :
    Gateway
    → ℕ
    → InteractionVariables
    → GqlEdgeInterface
    → List GqlEdgeInterface
    → Fetched Collected
unfolding stream_interactions append_pages
collect_more g fuel variables e es = do
  let cached = e ∷ es
  let cursor = (last_edge e es).cursor
  more ← has_more g variables cursor
  if more
      then (do
        pages ← stream_interactions g fuel (some cursor) variables
        ok (record {
          final_result = append_pages cached pages;
          new_transactions = true;
          new_interactions_index = length cached;
        }))
      else ok
          (record { final_result = cached; new_transactions = false; new_interactions_index = 0 })

-- Without: the first page and what follows it.
unfoldable pub collect_all : Gateway → ℕ → InteractionVariables → Fetched Collected
unfolding stream_interactions append_pages
collect_all g fuel variables = do
  transactions ← get_next_interaction_page g variables false none
  let cursor =
      Option.map (λ (edge : GqlEdgeInterface). edge.cursor)
        (get_elem? transactions.edges (get_max_edges transactions.edges))
  pages ← stream_interactions g fuel cursor variables
  ok (record {
    final_result = append_pages transactions.edges pages;
    new_transactions = true;
    new_interactions_index = 0;
  })

module _ {V T C : Type 0} (c : CacheExt V T C) (g : Gateway) (fuel : ℕ) where
  -- What `get_interactions` does after the lookup: collect, filter and cache.
  unfoldable pub fetch_interactions :
      String
      → ℕ
      → Bool
      → Option (List GqlEdgeInterface)
      → C
      → Fetched ((List GqlEdgeInterface × ℕ × Bool) × C)
  unfolding filter_direct
  fetch_interactions contract_id height_result cache interactions s = do
    let variables = get_default_gql_variables contract_id height_result
    let collected : Fetched Collected = elim interactions [
      | none ↦ collect_all g fuel variables
      | some cached ↦ elim cached [ [] ↦ panicked | e ∷ es ↦ collect_more g fuel variables e es ]
    ]
    r ← collected
    let filtered = if r.new_transactions then filter_direct r.final_result else r.final_result
    let s' = if r.new_transactions && cache then c.cache_interactions contract_id filtered s else s
    ok ((filtered, r.new_interactions_index, cache && r.new_transactions), s')

  -- `get_interactions`: the interactions, the index of the first new one, and whether there are new
  -- ones. A cached list that is not empty is all that a given height is answered with.
  unfoldable pub get_interactions :
      String → Option ℕ → Bool → C → Fetched ((List GqlEdgeInterface × ℕ × Bool) × C)
  unfolding fetch_interactions
  get_interactions contract_id height cache s = do
    height_result ← (elim height [ some size ↦ ok size | none ↦ unwrap g.height ])
    let looked = c.find_interactions contract_id s
    if cache
        then (elim looked.0 [
          | none ↦ fetch_interactions contract_id height_result cache none looked.1
          | some cached ↦ elim cached [
            | [] ↦ fetch_interactions contract_id height_result cache none looked.1
            | e ∷ es ↦ elim height [
              | some size ↦ ok ((e ∷ es, 0, false), looked.1)
              | none ↦ fetch_interactions contract_id height_result cache (some (e ∷ es)) looked.1
            ]
          ]
        ])
        else fetch_interactions contract_id height_result cache none s
