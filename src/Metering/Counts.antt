-- ===== src/Metering/Counts.antt =====
-- crates/metering/lib.rs, `inject`: the count of the imported functions.
use em.Base.{
  ℕ, zero, suc, ◌+◌, Bool, true, false, Option, none, some, List, [], ◌∷◌, ◌++◌, if◌then◌else◌, ◌≡◌,
  refl, ap, ◌∙◌, arith, length, get_elem?,
}
use em.Base.Outcome.{Yields, Yields-bind, Yields-then}
use em.Metering.Types.{ImportSectionEntryType, EntityType, map_type, map_entity}
use em.Metering.Sections.{Import}
use em.Metering.Inject.{count_function, map_imports}

-- The imports that are functions: these have the first indices of functions.
abbrev is_function : EntityType → Bool
is_function (EntityType.function _) = true
is_function _ = false

abbrev keep_function : Import EntityType → List (Import EntityType) → List (Import EntityType)
keep_function i is = if is_function i.ty then i ∷ is else is

abbrev pub imported_functions : List (Import EntityType) → List (Import EntityType)
imported_functions [] = []
imported_functions (i ∷ is) = keep_function i (imported_functions is)

-- A count that starts at -1 and goes from there to 1.
abbrev pub counted : Option ℕ → ℕ → Option ℕ
counted start zero = start
counted none (suc n) = some (suc n)
counted (some start) (suc n) = some (start + suc n)

-- The count of the imported functions, from any start.
abbrev pub Counted : Option ℕ → List (Import EntityType) × Option ℕ → Type 0
Counted start (imports, func_idx) = func_idx ≡ counted start (length (imported_functions imports))

-- What one import adds to the count.
abbrev Counts : ImportSectionEntryType → Option ℕ → EntityType → Type 0
Counts t start e = count_function t start ≡ (if is_function e then counted start 1 else start)

map_entity-Counts :
    (t : ImportSectionEntryType) (start : Option ℕ) → Yields (Counts t start) (map_entity t)
unfolding count_function map_entity
map_entity-Counts (ImportSectionEntryType.function idx) none = refl
map_entity-Counts (ImportSectionEntryType.function idx) (some n) = refl
map_entity-Counts (ImportSectionEntryType.table t minimum maximum) start =
    Yields-bind _ (map_type t) _ λ v e. refl
map_entity-Counts (ImportSectionEntryType.global mutable t) start =
    Yields-bind _ (map_type t) _ λ v e. refl
map_entity-Counts _ start = refl

counted-suc : (start : Option ℕ) (n : ℕ) → counted (counted start 1) n ≡ counted start (suc n)
counted-suc none zero = refl
counted-suc none (suc n) = ap some (omega arith)
counted-suc (some s) zero = refl
counted-suc (some s) (suc n) = ap some (omega arith)

counted-keep_function :
    (i : Import EntityType) (is : List (Import EntityType)) (start : Option ℕ)
    → counted (if is_function i.ty then counted start 1 else start) (length (imported_functions is))
      ≡ counted start (length (imported_functions (i ∷ is)))
counted-keep_function i is start = go (is_function i.ty)
  where
    go :
        (b : Bool)
        → counted (if b then counted start 1 else start) (length (imported_functions is))
          ≡ counted start
              (length (if b then (i ∷ imported_functions is) else imported_functions is))
    go true = counted-suc start (length (imported_functions is))
    go false = refl

pub map_imports-Counted :
    (reader : List (Option (Import ImportSectionEntryType))) (start : Option ℕ)
    → Yields (Counted start) (map_imports reader start)
unfolding map_imports
map_imports-Counted [] start = refl
map_imports-Counted (none ∷ is) start = tt
map_imports-Counted (some i ∷ is) start =
    Yields-then (Counted start) (Counts i.ty start) (map_entity i.ty) _
      (map_entity-Counts i.ty start)
      λ e c.
        Yields-then (Counted start) (Counted (count_function i.ty start))
          (map_imports is (count_function i.ty start)) _
          (map_imports-Counted is (count_function i.ty start))
          λ (rest, idx) h.
            h
            ∙ ap (λ o. counted o (length (imported_functions rest))) c
            ∙ counted-keep_function
                (record { module_name = i.module_name; field = i.field; ty = e }) rest start

module _ {ℓ} {A : Type ℓ} where
  pub get_elem?-length : (xs : List A) (a : A) → get_elem? (xs ++ (a ∷ [])) (length xs) ≡ some a
  get_elem?-length [] a = refl
  get_elem?-length (x ∷ xs) a = get_elem?-length xs a

pub imported_functions-last :
    (is : List (Import EntityType)) (i : Import EntityType)
    → is_function i.ty ≡ true
    → imported_functions (is ++ (i ∷ [])) ≡ imported_functions is ++ (i ∷ [])
imported_functions-last [] i h = rw h refl
imported_functions-last (j ∷ is) i h =
    ap (keep_function j) (imported_functions-last is i h) ∙ keep_function-append (is_function j.ty)
  where
    keep_function-append :
        (b : Bool)
        → (if b
            then (j ∷ (imported_functions is ++ (i ∷ [])))
            else (imported_functions is ++ (i ∷ [])))
          ≡ (if b then (j ∷ imported_functions is) else imported_functions is) ++ (i ∷ [])
    keep_function-append true = refl
    keep_function-append false = refl
