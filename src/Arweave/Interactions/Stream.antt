-- ===== src/Arweave/Interactions/Stream.antt =====
-- crates/arweave/arweave.rs, `stream_interactions`: the pages that it gives, for a gateway that answers
-- each request.
use em.Base.{
  ℕ, zero, suc, ◌≤◌, false, Option, none, some, List, [], ◌∷◌, length, get_elem?, ◌≡◌, refl, ap,
  ◌∙◌, arith,
}
use Prim.Native.String.{String}
use em.Arweave.Gql.{GqlEdgeInterface, GqlTransactionsResultInterface}
use em.Arweave.Gateway.{Gateway, InteractionVariables, ok, get_next_interaction_page}
use em.Arweave.Interactions.{get_max_edges, last_edge, stream_interactions}

get_elem?-last :
    (e : GqlEdgeInterface) (es : List GqlEdgeInterface)
    → get_elem? (e ∷ es) (length es) ≡ some (last_edge e es)
get_elem?-last e [] = refl
get_elem?-last e (f ∷ fs) = get_elem?-last f fs

get_max_edges-length :
    (e : GqlEdgeInterface) (es : List GqlEdgeInterface) → get_max_edges (e ∷ es) ≡ length es
unfolding get_max_edges
get_max_edges-length e es = ground arith

-- The edge whose cursor the loop goes on with is the last of the page.
get_elem?-get_max_edges :
    (e : GqlEdgeInterface) (es : List GqlEdgeInterface)
    → get_elem? (e ∷ es) (get_max_edges (e ∷ es)) ≡ some (last_edge e es)
get_elem?-get_max_edges e es = rw (get_max_edges-length e es) (get_elem?-last e es)

module _ (g : Gateway) (variables : InteractionVariables) where
  -- What the gateway answers behind a cursor: an empty page after the last, and before it a page and
  -- what it answers behind the last cursor of that.
  pub data Pages : Option String → List GqlTransactionsResultInterface → Type 0 where
    end :
        {cursor : Option String} (page : GqlTransactionsResultInterface)
        → get_next_interaction_page g (record variables { after = cursor }) false none ≡ ok page
        → page.edges ≡ []
        → Pages cursor []
    more :
        {cursor : Option String} {pages : List GqlTransactionsResultInterface}
        (page : GqlTransactionsResultInterface) (e : GqlEdgeInterface) (es : List GqlEdgeInterface)
        → get_next_interaction_page g (record variables { after = cursor }) false none ≡ ok page
        → page.edges ≡ e ∷ es
        → Pages (some (last_edge e es).cursor) pages
        → Pages cursor (page ∷ pages)

  -- Of a gateway that answers with these pages behind a cursor, all of them are given in their order,
  -- on fuel for one request more than there are pages.
  pub stream_interactions-Pages :
      (cursor : Option String) (pages : List GqlTransactionsResultInterface)
      → Pages cursor pages
      → (fuel : ℕ) → suc (length pages) ≤ fuel
      → stream_interactions g fuel cursor variables ≡ ok pages
  unfolding stream_interactions
  stream_interactions-Pages cursor pages h zero k = absurd (omega arith)
  stream_interactions-Pages cursor [] (end page h e) (suc fuel) k = rw (h, e) refl
  stream_interactions-Pages cursor (page ∷ pages) (more page' e es h e' rest) (suc fuel) k =
      rw
        (
          h,
          e',
          ap (λ xs. get_elem? xs (get_max_edges xs)) e' ∙ get_elem?-get_max_edges e es,
          stream_interactions-Pages (some (last_edge e es).cursor) pages rest fuel (omega arith),
        )
        (ap (λ xs. ok (record page { edges = xs } ∷ pages)) e')
