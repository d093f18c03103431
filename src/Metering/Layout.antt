-- ===== src/Metering/Layout.antt =====
-- crates/metering/lib.rs, `inject`: where the type and the import of `consumeGas` go.
use em.Base.{
  ℕ, zero, suc, Bool, true, false, ◌&&◌, and_left, and_right, Option, none, some, List, [], ◌∷◌,
  ◌++◌, ◌≡◌, refl, sym, ap, ◌∙◌, length, get_elem?,
}
use mathlib.Core.List.{append-nil, append_assoc}
use em.Base.Int.{ℤ}
use em.Base.Outcome.{ok, Yields-ok}
use em.Metering.Types.{ParserType, ValType, ImportSectionEntryType, EntityType}
use em.Metering.Operators.{Instruction}
use em.Metering.Sections.{Import, TypeDef, Payload, Section}
use em.Metering.Inject.{
  Injector, initial, gas_type, gas_import, map_imports, map_types, read_payload, read_payloads,
  add_types, add_imports, write_payloads, inject,
}
use em.Metering.Counts.{
  counted, Counted, map_imports-Counted, imported_functions, imported_functions-last,
  get_elem?-length,
}

-- The payloads that wait for the imports.
abbrev waits : Payload → Bool
waits Payload.version = false
waits Payload.end = false
waits (Payload.type_section _) = false
waits (Payload.import_section _) = false
waits _ = true

abbrev pub all_wait : List Payload → Bool
all_wait [] = true
all_wait (p ∷ ps) = waits p && all_wait ps

abbrev pending : Injector → List Payload → Injector
pending s ps = record s { pending_payloads = s.pending_payloads ++ ps }

-- A module: its sections, and the end.
abbrev pub ended : List Payload → List (Option Payload)
ended [] = some Payload.end ∷ []
ended (p ∷ ps) = some p ∷ ended ps

read_payloads-waits :
    (p : Payload) (ps : List (Option Payload)) (s : Injector)
    → waits p ≡ true
    → read_payloads (some p ∷ ps) s ≡ read_payloads ps (pending s (p ∷ []))
unfolding read_payloads read_payload
read_payloads-waits Payload.version ps s h = cc
read_payloads-waits Payload.end ps s h = cc
read_payloads-waits (Payload.type_section _) ps s h = cc
read_payloads-waits (Payload.import_section _) ps s h = cc
read_payloads-waits _ ps s h = refl

read_payloads-all_wait :
    (ps : List Payload) (s : Injector)
    → all_wait ps ≡ true
    → read_payloads (ended ps) s ≡ ok (pending s ps)
unfolding read_payloads
read_payloads-all_wait [] s h =
    ap (λ q. ok (record s { pending_payloads = q })) (sym (append-nil s.pending_payloads))
read_payloads-all_wait (p ∷ ps) s h =
    read_payloads-waits p (ended ps) s (and_left (waits p) (all_wait ps) h)
    ∙ read_payloads-all_wait ps (pending s (p ∷ [])) (and_right (waits p) (all_wait ps) h)
    ∙ ap (λ q. ok (record s { pending_payloads = q })) (append_assoc s.pending_payloads (p ∷ []) ps)

-- A module with a type section, an import section and what waits for them.
abbrev pub module_of :
    List (Option (TypeDef ParserType ImportSectionEntryType))
    → List (Option (Import ImportSectionEntryType))
    → List Payload
    → List (Option Payload)
module_of ts is rest =
    ended (Payload.version ∷ Payload.type_section ts ∷ Payload.import_section is ∷ rest)

-- The import that comes last has the index that is the count of the functions before it.
consume_gas_lem :
    (index : Option ℕ) (imports : List (Import EntityType)) (n : ℕ)
    → some n ≡ counted none (length (imported_functions imports))
    → get_elem? (imported_functions (imports ++ (gas_import index ∷ []))) n
      ≡ some (gas_import index)
unfolding gas_import
consume_gas_lem index imports n h =
    ap (λ fs. get_elem? fs n) (imported_functions-last imports (gas_import index) refl)
    ∙ ap (λ k. get_elem? (imported_functions imports ++ (gas_import index ∷ [])) k)
        (go (length (imported_functions imports)) h)
    ∙ get_elem?-length (imported_functions imports) (gas_import index)
  where
    go : (l : ℕ) → some n ≡ counted none l → n ≡ l
    go zero e = cc
    go (suc l) e = cc

module _ (cost_fn : Instruction → ℤ)
    (ts : List (Option (TypeDef ParserType ImportSectionEntryType)))
    (is : List (Option (Import ImportSectionEntryType))) (rest : List Payload)
    (types : List (TypeDef ValType EntityType)) (imports : List (Import EntityType))
    (written : List Section) (w : all_wait rest ≡ true) (et : map_types ts ≡ ok types) where
  abbrev gas : Import EntityType
  gas = gas_import (some (length types))

  -- What the first loop leaves.
  read_module :
      (f : Option ℕ)
      → map_imports is none ≡ ok (imports, f)
      → read_payloads (module_of ts is rest) initial
        ≡ ok (record {
          sections =
              Section.types (types ++ (gas_type ∷ []))
              ∷ Section.imports (imports ++ (gas ∷ []))
              ∷ [];
          consume_gas_index = some (length types);
          func_idx = f;
          pending_payloads = rest;
        })
  unfolding read_payloads read_payload
  read_module f ei = rw (et, ei) (read_payloads-all_wait rest _ w)

  -- A module with a type section, then an import section with n >= 1 functions, then sections
  -- other than these two that can be written for n, is given the type of consumeGas as the last
  -- type and the import of consumeGas as the function n, with the index of that type.
  pub inject_lem :
      (n : ℕ)
      → map_imports is none ≡ ok (imports, some n)
      → write_payloads cost_fn n rest ≡ ok written
      → (inject cost_fn (module_of ts is rest)
          ≡ ok (
              Section.types (types ++ (gas_type ∷ []))
              ∷ Section.imports (imports ++ (gas ∷ []))
              ∷ written))
        × (get_elem? (imported_functions (imports ++ (gas ∷ []))) n ≡ some gas)
        × (get_elem? (types ++ (gas_type ∷ [])) (length types) ≡ some gas_type)
  unfolding inject add_types add_imports
  inject_lem n ei ew = (
    rw (read_module (some n) ei, ew) refl,
    consume_gas_lem (some (length types)) imports n
        (Yields-ok (Counted none) _ (map_imports-Counted is none) ei),
    get_elem?-length types gas_type,
  )

  -- A module with a type section, an import section without functions, and further sections
  -- that can be written for 0, is given two import sections.
  pub inject-without_function :
      map_imports is none ≡ ok (imports, none)
      → write_payloads cost_fn 0 rest ≡ ok written
      → inject cost_fn (module_of ts is rest)
        ≡ ok (
            Section.types (types ++ (gas_type ∷ []))
            ∷ Section.imports (imports ++ (gas ∷ []))
            ∷ Section.imports (gas ∷ [])
            ∷ written)
  unfolding inject add_types add_imports
  inject-without_function ei ew = rw (read_module none ei, ew) refl
