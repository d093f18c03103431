-- ===== src/Metering/Tests.antt =====
-- crates/metering/lib.rs: a small module through `inject`, and the theorems at concrete modules.
use em.Base.{
  ℕ, suc, Option, none, some, List, [], ◌∷◌, ◌<◌, ◌≡◌, ◌≢◌, refl, false, arith, get_elem?,
}
use em.Base.Int.{ℤ, pos}
use Prim.Native.String.{String}
use em.Base.Outcome.{ok}
use em.Metering.Types.{ParserType, ImportSectionEntryType, EntityType, map_entity, u32_mod}
use em.Metering.Operators.{Operator, Instruction}
use em.Metering.Operators.Mapping.{shift_index, map_operator}
use em.Metering.Sections.{Import, TypeDef, ExternalKind, Export, Payload, Section}
use em.Metering.Code.{map_all, meter, map_export, map_exports}
use em.Metering.Inject.{
  gas_type, gas_import, count_function, map_imports, map_type_def, map_types, write_payload,
  write_payloads, inject,
}
use em.Metering.Indices.{map_operator-resolve, resolve, callee}
use em.Metering.Charges.{meter_lem, stripped, charged}
use em.Metering.Counts.{imported_functions}
use em.Metering.Layout.{inject_lem, inject-without_function, module_of}
use em.Metering.Exports.{provided-map_exports, provided, offered}
use em.Metering.Errors.{inject-incomplete}

abbrev one : Instruction → ℤ
one i = pos 1

-- A type `[] → []`, an import of a function, an export of it and of one that is defined, the start.
abbrev types : List (Option (TypeDef ParserType ImportSectionEntryType))
types = some (TypeDef.func [] []) ∷ []

abbrev log : Import ImportSectionEntryType
log = record { module_name = "env"; field = some "log"; ty = ImportSectionEntryType.function 0 }

abbrev exports : List (Option (String × ExternalKind × ℕ))
exports = some ("log", ExternalKind.function, 0) ∷ some ("handle", ExternalKind.function, 1) ∷ []

abbrev rest : List Payload
rest = Payload.export_section exports ∷ Payload.start_section 1 ∷ []

abbrev written : List Section
written =
    Section.exports (("log", Export.function 0) ∷ ("handle", Export.function 2) ∷ [])
    ∷ Section.start 2
    ∷ []

abbrev log_out : Import EntityType
log_out = record { module_name = "env"; field = some "log"; ty = EntityType.function 0 }

write_rest : write_payloads one 1 rest ≡ ok written
unfolding write_payloads write_payload map_exports map_export shift_index
write_rest = refl

map_types_example : map_types types ≡ ok (TypeDef.func [] [] ∷ [])
unfolding map_types map_type_def map_all
map_types_example = refl

map_imports_example : map_imports (some log ∷ []) none ≡ ok (log_out ∷ [], some 1)
unfolding map_imports map_entity count_function
map_imports_example = refl

inject_lem_example :
    (inject one (module_of types (some log ∷ []) rest)
      ≡ ok (
          Section.types (TypeDef.func [] [] ∷ gas_type ∷ [])
          ∷ Section.imports (log_out ∷ gas_import (some 1) ∷ [])
          ∷ written))
    × (get_elem? (imported_functions (log_out ∷ gas_import (some 1) ∷ [])) 1
        ≡ some (gas_import (some 1)))
    × (get_elem? (TypeDef.func [] [] ∷ gas_type ∷ []) 1 ≡ some gas_type)
inject_lem_example =
    inject_lem one types (some log ∷ []) rest (TypeDef.func [] [] ∷ []) (log_out ∷ []) written refl
      map_types_example 1 map_imports_example write_rest

-- A module that imports a memory and no function.
abbrev memory : Import ImportSectionEntryType
memory = record {
  module_name = "env";
  field = some "memory";
  ty = ImportSectionEntryType.memory false false 1 none;
}

abbrev memory_out : Import EntityType
memory_out = record {
  module_name = "env";
  field = some "memory";
  ty = EntityType.memory false 1 none;
}

map_imports_memory : map_imports (some memory ∷ []) none ≡ ok (memory_out ∷ [], none)
unfolding map_imports map_entity count_function
map_imports_memory = refl

no_sections : write_payloads one 0 [] ≡ ok []
unfolding write_payloads
no_sections = refl

inject-without_function_example :
    inject one (module_of types (some memory ∷ []) [])
    ≡ ok (
        Section.types (TypeDef.func [] [] ∷ gas_type ∷ [])
        ∷ Section.imports (memory_out ∷ gas_import (some 1) ∷ [])
        ∷ Section.imports (gas_import (some 1) ∷ [])
        ∷ [])
inject-without_function_example =
    inject-without_function one types (some memory ∷ []) [] (TypeDef.func [] [] ∷ [])
      (memory_out ∷ []) [] refl map_types_example map_imports_memory no_sections

inject-incomplete_example :
    inject one (some Payload.version ∷ some (Payload.start_section 0) ∷ []) ≢ ok written
inject-incomplete_example =
    inject-incomplete one (some Payload.version ∷ some (Payload.start_section 0) ∷ []) written refl

map_exports_example :
    map_exports 1 exports ≡ ok (("log", Export.function 0) ∷ ("handle", Export.function 2) ∷ [])
unfolding map_exports map_export shift_index
map_exports_example = refl

abbrev imported : List String
imported = "log" ∷ []

abbrev defined : List String
defined = "handle" ∷ []

abbrev functions_out : List String
functions_out = "log" ∷ "consumeGas" ∷ "handle" ∷ []

abbrev functions_in : List String
functions_in = "log" ∷ "handle" ∷ []

provided-map_exports_example :
    provided functions_out (("log", Export.function 0) ∷ ("handle", Export.function 2) ∷ [])
    ≡ offered functions_in exports
provided-map_exports_example =
    provided-map_exports imported "consumeGas" defined exports
      (("log", Export.function 0) ∷ ("handle", Export.function 2) ∷ []) refl map_exports_example

map_call : map_operator (some 1) (Operator.call 1) ≡ ok (Instruction.call 2)
unfolding map_operator shift_index
map_call = refl

map_operator-resolve_example : resolve functions_out (some 2) ≡ resolve functions_in (some 1)
map_operator-resolve_example =
    map_operator-resolve imported "consumeGas" defined (Operator.call 1) (Instruction.call 2) fits
      map_call
  where
    fits : (n : ℕ) → callee (Operator.call 1) ≡ some n → suc n < u32_mod
    fits n e = ground arith

map_body :
    map_all (map_operator (some 1)) (Operator.call 1 ∷ Operator.end ∷ [])
    ≡ ok (Instruction.call 2 ∷ Instruction.end ∷ [])
unfolding map_all map_operator shift_index
map_body = refl

meter_lem_example :
    (is : List Instruction) × (meter one 1 (Operator.call 1 ∷ Operator.end ∷ []) ≡ ok is)
    × (stripped 1 is ≡ Instruction.call 2 ∷ Instruction.end ∷ [])
    × (charged 1 is ≡ 2)
meter_lem_example =
    meter_lem 1 one (Operator.call 1 ∷ Operator.end ∷ [])
      (Instruction.call 2 ∷ Instruction.end ∷ []) refl map_body
