-- ===== src/Executor/Sort/Order.antt =====
-- crates/executor/lib.rs, `sort_interactions`: what the sort promises, where `strcoll` is an order.
use em.Base.{
  Bool, true, false, ◌&&◌, Option, none, some, List, [], ◌∷◌, map, if◌then◌else◌, All, ◌≡◌, refl,
  ap, ◌∙◌, if-elim, and_left, and_right,
}
use mathlib.Core.List.{Perm}
use mathlib.Core.List.Perm
use mathlib.Core.Option
use Prim.Native.String.{String}
use em.Arweave.Codecs.{Codecs}
use em.Arweave.Gql.{GqlEdgeInterface}
use em.Arweave.SortKey.{get_sort_key}
use em.Executor.Sort.{Ordering, is_le, insert_by, sort_by, keyed, sort_interactions}

-- What the C library says of `strcoll`: an order, total, in which every text is equal to itself.
pub record IsOrder {ℓ} {K : Type ℓ} (compare : K → K → Ordering) : Type ℓ where
  pub reflexive : (a : K) → is_le (compare a a) ≡ true
  pub total : (a b : K) → is_le (compare a b) ≡ false → is_le (compare b a) ≡ true
  pub transitive :
      (a b c : K)
      → is_le (compare a b) ≡ true
      → is_le (compare b c) ≡ true
      → is_le (compare a c) ≡ true

module _ {ℓ κ} {K : Type ℓ} {A : Type κ} (compare : K → K → Ordering) where
  -- No key is greater than one behind it.
  abbrev pub IsSorted : List (K × A) → Type 0
  IsSorted [] = Unit
  IsSorted (x ∷ xs) = All (λ (y : K × A). is_le (compare x.0 y.0) ≡ true) xs × IsSorted xs

  insert_by-All :
      (P : K × A → Type 0) (x : K × A) (ys : List (K × A))
      → P x
      → All P ys
      → All P (insert_by compare x ys)
  unfolding insert_by
  insert_by-All P x [] h k = (h, tt)
  insert_by-All P x (y ∷ ys) h k =
      if-elim (All P) (is_le (compare x.0 y.0)) (x ∷ y ∷ ys) (y ∷ insert_by compare x ys)
        (λ e. (h, k)) (λ e. (k.0, insert_by-All P x ys h k.1))

  insert_by-Perm : (x : K × A) (ys : List (K × A)) → Perm (insert_by compare x ys) (x ∷ ys)
  unfolding insert_by
  insert_by-Perm x [] = Perm.refl (x ∷ [])
  insert_by-Perm x (y ∷ ys) =
      if-elim (λ zs. Perm zs (x ∷ y ∷ ys)) (is_le (compare x.0 y.0)) (x ∷ y ∷ ys)
        (y ∷ insert_by compare x ys) (λ e. Perm.refl (x ∷ y ∷ ys))
        (λ e. Perm.trans (Perm.cons y (insert_by-Perm x ys)) (Perm.swap x y ys))

  pub sort_by-Perm : (xs : List (K × A)) → Perm (sort_by compare xs) xs
  unfolding sort_by
  sort_by-Perm [] = Perm.refl []
  sort_by-Perm (x ∷ xs) =
      Perm.trans (insert_by-Perm x (sort_by compare xs)) (Perm.cons x (sort_by-Perm xs))

module _ {ℓ κ} {K : Type ℓ} {A : Type κ} (compare : K → K → Ordering) (o : IsOrder compare) where
  All-le :
      (a b : K) (ys : List (K × A))
      → is_le (compare a b) ≡ true
      → All (λ (y : K × A). is_le (compare b y.0) ≡ true) ys
      → All (λ (y : K × A). is_le (compare a y.0) ≡ true) ys
  All-le a b [] h k = tt
  All-le a b (y ∷ ys) h k = (o.transitive a b y.0 h k.0, All-le a b ys h k.1)

  insert_by-IsSorted :
      (x : K × A) (ys : List (K × A))
      → IsSorted compare ys
      → IsSorted compare (insert_by compare x ys)
  unfolding insert_by
  insert_by-IsSorted x [] h = (tt, tt)
  insert_by-IsSorted x (y ∷ ys) h =
      if-elim (IsSorted compare) (is_le (compare x.0 y.0)) (x ∷ y ∷ ys) (y ∷ insert_by compare x ys)
        (λ e. ((e, All-le x.0 y.0 ys e h.0), h))
        (λ e. (
          insert_by-All compare (λ z. is_le (compare y.0 z.0) ≡ true) x ys (o.total x.0 y.0 e) h.0,
          insert_by-IsSorted x ys h.1,
        ))

  pub sort_by-IsSorted : (xs : List (K × A)) → IsSorted compare (sort_by compare xs)
  unfolding sort_by
  sort_by-IsSorted [] = tt
  sort_by-IsSorted (x ∷ xs) = insert_by-IsSorted x (sort_by compare xs) (sort_by-IsSorted xs)

-- The items whose key is tied with a key.
abbrev pub tied {ℓ} : {K : Type ℓ} → (K → K → Ordering) → K → K → Bool
tied compare a b = is_le (compare a b) && is_le (compare b a)

module _ {ℓ κ} {K : Type ℓ} (compare : K → K → Ordering) where
  abbrev pub ties : {A : Type κ} → K → List (K × A) → List (K × A)
  ties k [] = []
  ties k (x ∷ xs) = if tied compare x.0 k then x ∷ ties k xs else ties k xs

not_both : (b : Bool) → b ≡ true → ¬ (b ≡ false)
not_both b h k = cc

swap_if {ℓ} :
    {A : Type ℓ} (b c : Bool) (x y : A) (zs : List A)
    → (b ≡ true → ¬ (c ≡ true))
    → (if c then y ∷ (if b then x ∷ zs else zs) else (if b then x ∷ zs else zs))
      ≡ (if b then x ∷ (if c then y ∷ zs else zs) else (if c then y ∷ zs else zs))
swap_if true true x y zs h = absurd (h refl refl)
swap_if true false x y zs h = refl
swap_if false c x y zs h = refl

tied-le {ℓ} :
    {K : Type ℓ} (compare : K → K → Ordering)
    → IsOrder compare
    → (a b k : K) → tied compare a k ≡ true
    → tied compare b k ≡ true
    → is_le (compare a b) ≡ true
tied-le compare o a b k h h' =
    o.transitive a k b (and_left (is_le (compare a k)) (is_le (compare k a)) h)
      (and_right (is_le (compare b k)) (is_le (compare k b)) h')

module _ {ℓ κ} {K : Type ℓ} {A : Type κ} (compare : K → K → Ordering) (o : IsOrder compare) where
  ties-insert_by :
      (k : K) (x : K × A) (ys : List (K × A))
      → ties compare k (insert_by compare x ys) ≡ ties compare k (x ∷ ys)
  unfolding insert_by
  ties-insert_by k x [] = refl
  ties-insert_by k x (y ∷ ys) =
      if-elim (λ zs. ties compare k zs ≡ ties compare k (x ∷ y ∷ ys)) (is_le (compare x.0 y.0))
        (x ∷ y ∷ ys) (y ∷ insert_by compare x ys) (λ e. refl)
        λ e.
          ap (λ zs. if tied compare y.0 k then y ∷ zs else zs) (ties-insert_by k x ys)
          ∙ swap_if (tied compare x.0 k) (tied compare y.0 k) x y (ties compare k ys)
              λ h h'. not_both (is_le (compare x.0 y.0)) (tied-le compare o x.0 y.0 k h h') e

  pub ties-sort_by :
      (k : K) (xs : List (K × A)) → ties compare k (sort_by compare xs) ≡ ties compare k xs
  unfolding sort_by
  ties-sort_by k [] = refl
  ties-sort_by k (x ∷ xs) =
      ties-insert_by k x (sort_by compare xs)
      ∙ ap (λ zs. if tied compare x.0 k then x ∷ zs else zs) (ties-sort_by k xs)

not_some {ℓ κ} : {A : Type ℓ} {B : Type κ} {a : A} → none ≡ some a → B
not_some h = cc

module _ (c : Codecs) (strcoll : String → String → Ordering) (o : IsOrder strcoll) where
  -- What a sorted list of interactions is: the interactions of items with their keys that are
  -- sorted, are those of the items in the order they came, and keep the order of ties.
  abbrev pub SortedFrom : List (String × GqlEdgeInterface) → List GqlEdgeInterface → Type 0
  SortedFrom items sorted =
      (found : List (String × GqlEdgeInterface)) × (sorted ≡ map (λ item. item.1) found)
      × IsSorted strcoll found
      × Perm found items
      × ((k : String) → ties strcoll k found ≡ ties strcoll k items)

  keyed-map :
      (es : List GqlEdgeInterface) (items : List (String × GqlEdgeInterface))
      → keyed c es ≡ some items
      → es ≡ map (λ item. item.1) items
  unfolding keyed Option.bind
  keyed-map [] items h = ap (map (λ item. item.1)) (Option.some_inj.0 h)
  keyed-map (e ∷ es) items h =
      go (get_sort_key c e.node.block.height e.node.block.id e.node.id) (keyed c es) h
        (keyed-map es)
    where
      go :
          (key : Option String) (rest : Option (List (String × GqlEdgeInterface)))
          → Option.bind key (λ k. Option.map (λ r. (k, e) ∷ r) rest) ≡ some items
          → ((r : List (String × GqlEdgeInterface)) → rest ≡ some r → es ≡ map (λ item. item.1) r)
          → e ∷ es ≡ map (λ item. item.1) items
      go none rest h k = not_some h
      go (some key) none h k = not_some h
      go (some key) (some r) h k =
          ap (◌∷◌ e) (k r refl) ∙ ap (map (λ item. item.1)) (Option.some_inj.0 h)

  one-SortedFrom :
      (e : GqlEdgeInterface) (items : List (String × GqlEdgeInterface))
      → e ∷ [] ≡ map (λ item. item.1) items
      → SortedFrom items (e ∷ [])
  one-SortedFrom e [] h = cc
  one-SortedFrom e (x ∷ []) h = (x ∷ [], h, (tt, tt), Perm.refl (x ∷ []), λ k. refl)
  one-SortedFrom e (x ∷ y ∷ ys) h = cc

  none-SortedFrom :
      (items : List (String × GqlEdgeInterface))
      → [] ≡ map (λ item. item.1) items
      → SortedFrom items []
  none-SortedFrom [] h = ([], refl, tt, Perm.refl [], λ k. refl)
  none-SortedFrom (x ∷ xs) h = cc

  -- Interactions whose ids all have keys are sorted: the result is a permutation of them in the order
  -- of their keys, and those whose keys tie keep the order they came in. `strcoll` is an order.
  pub sort_interactions-SortedFrom :
      (es : List GqlEdgeInterface) (items : List (String × GqlEdgeInterface))
      → keyed c es ≡ some items
      → (sorted : List GqlEdgeInterface) × (sort_interactions c strcoll es ≡ some sorted)
        × SortedFrom items sorted
  unfolding sort_interactions
  sort_interactions-SortedFrom [] items h = ([], refl, none-SortedFrom items (keyed-map [] items h))
  sort_interactions-SortedFrom (e ∷ []) items h =
      (e ∷ [], refl, one-SortedFrom e items (keyed-map (e ∷ []) items h))
  sort_interactions-SortedFrom (e ∷ f ∷ es) items h = (
    map (λ item. item.1) (sort_by strcoll items),
    ap (Option.map (λ items'. map (λ item. item.1) (sort_by strcoll items'))) h,
    (
      sort_by strcoll items,
      refl,
      sort_by-IsSorted strcoll o items,
      sort_by-Perm strcoll items,
      λ k. ties-sort_by strcoll o k items,
    ),
  )
