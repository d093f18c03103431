-- ===== src/Executor/Sort.antt =====
-- crates/executor/lib.rs, `sort_interactions`. The comparison is `strcoll` of the C library, a
-- parameter; `sort_by` of the standard library is stable.
pub mod Order
use em.Base.{Bool, true, false, Option, none, some, List, [], ◌∷◌, if◌then◌else◌, map}
use mathlib.Core.Option
use Prim.Native.String.{String}
use em.Arweave.Codecs.{Codecs}
use em.Arweave.Gql.{GqlEdgeInterface}
use em.Arweave.SortKey.{get_sort_key}

pub data Ordering : Type 0 where
  less equal greater : Ordering

abbrev pub is_le : Ordering → Bool
is_le less = true
is_le equal = true
is_le greater = false

-- A stable sort by keys: an item goes in front of the first that its key is not greater than.
module _ {ℓ κ} {K : Type ℓ} {A : Type κ} (compare : K → K → Ordering) where
  unfoldable pub insert_by : K × A → List (K × A) → List (K × A)
  insert_by x [] = x ∷ []
  insert_by x (y ∷ ys) = if is_le (compare x.0 y.0) then x ∷ y ∷ ys else y ∷ insert_by x ys

  unfoldable pub sort_by : List (K × A) → List (K × A)
  unfolding insert_by
  sort_by [] = []
  sort_by (x ∷ xs) = insert_by x (sort_by xs)

-- The items with their keys; `none` if a key panics.
unfoldable pub keyed : Codecs → List GqlEdgeInterface → Option (List (String × GqlEdgeInterface))
keyed c [] = some []
keyed c (e ∷ es) =
    Option.bind (get_sort_key c e.node.block.height e.node.block.id e.node.id)
      λ key. Option.map (λ rest. (key, e) ∷ rest) (keyed c es)

-- Fewer than two interactions are not compared, and no key is made of them. Of more, each is.
unfoldable pub sort_interactions :
    Codecs → (String → String → Ordering) → List GqlEdgeInterface → Option (List GqlEdgeInterface)
unfolding keyed sort_by
sort_interactions c strcoll [] = some []
sort_interactions c strcoll (e ∷ []) = some (e ∷ [])
sort_interactions c strcoll (e ∷ f ∷ es) =
    Option.map (λ items. map (λ item. item.1) (sort_by strcoll items)) (keyed c (e ∷ f ∷ es))
