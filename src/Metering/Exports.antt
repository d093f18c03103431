-- ===== src/Metering/Exports.antt =====
-- crates/metering/lib.rs, `inject`: what the export section makes of the functions that it exports.
use em.Base.{
  ℕ, suc, ◌<◌, Bool, true, ◌&&◌, ltb, ltb→lt, and_left, and_right, Option, none, some, List, [],
  ◌∷◌, ◌++◌, length, get_elem?, ◌≡◌, refl, ap, ◌∙◌,
}
use Prim.Native.String.{String}
use em.Base.Outcome.{ok, Yields, Yields-then, Yields-ok}
use em.Metering.Types.{u32_mod}
use em.Metering.Sections.{ExternalKind, Export}
use em.Metering.Code.{map_export, map_exports}
use em.Metering.Indices.{get_elem?-shift_index}

module _ {ℓ} {A : Type ℓ} where
  -- The functions that are exported, each with its name, where `functions` are those of the module: as
  -- the input has them, and as the output has them.
  abbrev pub offer :
      List A → String → ExternalKind → ℕ → List (String × Option A) → List (String × Option A)
  offer functions field ExternalKind.function idx rest = (field, get_elem? functions idx) ∷ rest
  offer functions field _ idx rest = rest

  abbrev pub offered : List A → List (Option (String × ExternalKind × ℕ)) → List (String × Option A)
  offered functions [] = []
  offered functions (none ∷ es) = offered functions es
  offered functions (some (field, kind, idx) ∷ es) =
      offer functions field kind idx (offered functions es)

  abbrev pub provide :
      List A → String → Export → List (String × Option A) → List (String × Option A)
  provide functions field (Export.function idx) rest = (field, get_elem? functions idx) ∷ rest
  provide functions field _ rest = rest

  abbrev pub provided : List A → List (String × Export) → List (String × Option A)
  provided functions [] = []
  provided functions ((field, e) ∷ es) = provide functions field e (provided functions es)

abbrev pub indices_fit : List (Option (String × ExternalKind × ℕ)) → Bool
indices_fit [] = true
indices_fit (none ∷ es) = indices_fit es
indices_fit (some (field, kind, idx) ∷ es) = ltb (suc idx) u32_mod && indices_fit es

module _ {ℓ} {A : Type ℓ} (imported : List A) (gas : A) (defined : List A) where
  abbrev before : List A
  before = imported ++ defined

  abbrev after : List A
  after = imported ++ (gas ∷ defined)

  abbrev Same : List (Option (String × ExternalKind × ℕ)) → List (String × Export) → Type ℓ
  Same es out = provided after out ≡ offered before es

  abbrev SameOne : String → ExternalKind → ℕ → Export → Type ℓ
  SameOne field kind idx e =
      (rest : List (String × Option A))
      → provide after field e rest ≡ offer before field kind idx rest

  map_export-SameOne :
      (field : String) (kind : ExternalKind) (idx : ℕ)
      → suc idx < u32_mod
      → Yields (SameOne field kind idx) (map_export (length imported) kind idx)
  unfolding map_export
  map_export-SameOne field ExternalKind.function idx h =
      λ rest. ap (λ f. (field, f) ∷ rest) (get_elem?-shift_index imported gas defined idx h)
  map_export-SameOne field ExternalKind.type_kind idx h = tt
  map_export-SameOne field _ idx h = λ rest. refl

  map_exports-Same :
      (es : List (Option (String × ExternalKind × ℕ)))
      → indices_fit es ≡ true
      → Yields (Same es) (map_exports (length imported) es)
  unfolding map_exports
  map_exports-Same [] h = refl
  map_exports-Same (none ∷ es) h = tt
  map_exports-Same (some (field, kind, idx) ∷ es) h =
      Yields-then (Same (some (field, kind, idx) ∷ es)) (SameOne field kind idx)
        (map_export (length imported) kind idx) _
        (map_export-SameOne field kind idx
          (ltb→lt (suc idx) u32_mod (and_left (ltb (suc idx) u32_mod) (indices_fit es) h)))
        λ e one.
          Yields-then (Same (some (field, kind, idx) ∷ es)) (Same es)
            (map_exports (length imported) es) _
            (map_exports-Same es (and_right (ltb (suc idx) u32_mod) (indices_fit es) h))
            λ rest same. one (provided after rest) ∙ ap (offer before field kind idx) same

  -- Where consumeGas comes between the imported and the defined functions, and the indices are
  -- below the last of 32 bits, the mapped exports export the same functions under the same
  -- names in the same order.
  pub provided-map_exports :
      (es : List (Option (String × ExternalKind × ℕ))) (out : List (String × Export))
      → indices_fit es ≡ true
      → map_exports (length imported) es ≡ ok out
      → provided (imported ++ (gas ∷ defined)) out ≡ offered (imported ++ defined) es
  provided-map_exports es out h e =
      Yields-ok (Same es) (map_exports (length imported) es) (map_exports-Same es h) e
