-- ===== src/Metering/Inject.antt =====
-- crates/metering/lib.rs, `Metering::inject`: the loop over the payloads, and the loop over those that
-- wait for the imports.
use em.Base.{ℕ, ◌+◌, ◌-◌, Option, none, some, List, [], ◌∷◌, ◌++◌, length}
use em.Base.Int.{ℤ}
use Prim.Native.String.{String}
use em.Base.Outcome.{Outcome, ok, err, panicked, ◌>>=◌}
use em.Metering.Types.{
  ParserType, ValType, ImportSectionEntryType, EntityType, map_type, map_entity, u32_mod,
}
use em.Metering.Operators.{Instruction}
use em.Metering.Operators.Mapping.{shift_index}
use em.Metering.Sections.{Import, TypeDef, Payload, Section, SectionId}
use em.Metering.Code.{try, map_all, meter_bodies, map_exports, map_elements}

-- The variables of `inject`; `none` is -1.
pub record Injector : Type 0 where
  pub sections : List Section
  pub consume_gas_index : Option ℕ
  pub func_idx : Option ℕ
  pub pending_payloads : List Payload

abbrev pub initial : Injector
initial = record { sections = []; consume_gas_index = none; func_idx = none; pending_payloads = [] }

-- The type of `consumeGas`, and its import with the index of that type, which is cast to `u32`.
abbrev pub gas_type : TypeDef ValType EntityType
gas_type = TypeDef.func (ValType.i32 ∷ []) []

abbrev pub as_u32 : Option ℕ → ℕ
as_u32 none = u32_mod - 1
as_u32 (some n) = n

unfoldable pub gas_import : Option ℕ → Import EntityType
gas_import consume_gas_index = record {
  module_name = "3em";
  field = some "consumeGas";
  ty = EntityType.function (as_u32 consume_gas_index);
}

-- The count of the imported functions: from -1 it goes to 1.
unfoldable pub count_function : ImportSectionEntryType → Option ℕ → Option ℕ
count_function (ImportSectionEntryType.function _) none = some 1
count_function (ImportSectionEntryType.function _) (some n) = some (n + 1)
count_function _ func_idx = func_idx

unfoldable pub map_imports :
    List (Option (Import ImportSectionEntryType))
    → Option ℕ
    → Outcome (List (Import EntityType) × Option ℕ)
unfolding count_function
map_imports [] func_idx = ok ([], func_idx)
map_imports (import ∷ imports) func_idx = do
  i ← try import
  ty ← map_entity i.ty
  (rest, func_idx') ← map_imports imports (count_function i.ty func_idx)
  ok (record { module_name = i.module_name; field = i.field; ty = ty } ∷ rest, func_idx')

-- The exports of a type of instances or modules, and the imports of one of modules.
unfoldable pub map_type_export : String × ImportSectionEntryType → Outcome (String × EntityType)
map_type_export (name, t) = do ty ← map_entity t; ok (name, ty)

unfoldable pub map_type_import : Import ImportSectionEntryType → Outcome (Import EntityType)
map_type_import i = do
  ty ← map_entity i.ty
  ok (record { module_name = i.module_name; field = i.field; ty = ty })

unfoldable pub map_type_def :
    TypeDef ParserType ImportSectionEntryType → Outcome (TypeDef ValType EntityType)
unfolding map_type_export map_type_import
map_type_def (TypeDef.func params returns) = do
  params' ← map_all map_type params
  returns' ← map_all map_type returns
  ok (TypeDef.func params' returns')
map_type_def (TypeDef.instance_ty exports) = do
  exports' ← map_all map_type_export exports
  ok (TypeDef.instance_ty exports')
map_type_def (TypeDef.module_ty imports exports) = do
  imports' ← map_all map_type_import imports
  exports' ← map_all map_type_export exports
  ok (TypeDef.module_ty imports' exports')

unfoldable pub map_types :
    List (Option (TypeDef ParserType ImportSectionEntryType))
    → Outcome (List (TypeDef ValType EntityType))
unfolding map_type_def
map_types [] = ok []
map_types (ty ∷ tys) = do t ← try ty; t' ← map_type_def t; rest ← map_types tys; ok (t' ∷ rest)

-- A body of the first loop, for a payload that is not the end. `types.len() - 1` is the number of the
-- types before that of `consumeGas`.
unfoldable pub read_payload : Payload → Injector → Outcome Injector
unfolding map_imports map_types gas_import
read_payload (Payload.import_section reader) s = do
  (imports, func_idx) ← map_imports reader s.func_idx
  ok (record s {
    sections =
        s.sections ++ (Section.imports (imports ++ (gas_import s.consume_gas_index ∷ [])) ∷ []);
    func_idx = func_idx;
  })
read_payload (Payload.type_section reader) s = do
  types ← map_types reader
  ok (record s {
    sections = s.sections ++ (Section.types (types ++ (gas_type ∷ [])) ∷ []);
    consume_gas_index = some (length types);
  })
read_payload Payload.version s = ok s
read_payload payload s = ok (record s { pending_payloads = s.pending_payloads ++ (payload ∷ []) })

-- The first loop, over the payloads that the parser gives. The end of the input without the payload of
-- the end is an error of the parser, as is a payload that does not parse.
unfoldable pub read_payloads : List (Option Payload) → Injector → Outcome Injector
unfolding read_payload
read_payloads [] s = err
read_payloads (none ∷ payloads) s = err
read_payloads (some Payload.end ∷ payloads) s = ok s
read_payloads (some payload ∷ payloads) s = do
  s' ← read_payload payload s
  read_payloads payloads s'

-- The sections that are made where there are none: the index of the type, and that of the function.
unfoldable pub add_types : Injector → Injector
add_types s = elim s.consume_gas_index [
  | some n ↦ s
  | none ↦ record s {
    sections = s.sections ++ (Section.types (gas_type ∷ []) ∷ []);
    consume_gas_index = some 0;
  }
]

unfoldable pub add_imports : Injector → List Section × ℕ
unfolding gas_import
add_imports s = elim s.func_idx [
  | some n ↦ (s.sections, n)
  | none ↦ (s.sections ++ (Section.imports (gas_import s.consume_gas_index ∷ []) ∷ []), 0)
]

module _ (cost_fn : Instruction → ℤ) (func_idx : ℕ) where
  -- A body of the second loop: the section written, if any.
  unfoldable pub write_payload : Payload → Outcome (List Section)
  write_payload (Payload.start_section func) =
      ok (Section.start (shift_index (some func_idx) func) ∷ [])
  write_payload (Payload.code_section_start reader) = do
    bodies ← try reader
    functions ← meter_bodies cost_fn func_idx bodies
    ok (Section.code functions ∷ [])
  write_payload (Payload.data_count_section bytes) =
      ok (Section.raw SectionId.data_count bytes ∷ [])
  write_payload (Payload.function_section bytes) = ok (Section.raw SectionId.function bytes ∷ [])
  write_payload (Payload.table_section bytes) = ok (Section.raw SectionId.table bytes ∷ [])
  write_payload (Payload.memory_section bytes) = ok (Section.raw SectionId.memory bytes ∷ [])
  write_payload (Payload.global_section bytes) = ok (Section.raw SectionId.global bytes ∷ [])
  write_payload (Payload.export_section reader) = do
    exports ← map_exports func_idx reader
    ok (Section.exports exports ∷ [])
  write_payload (Payload.element_section reader) = do
    elements ← map_elements func_idx reader
    ok (Section.elements elements ∷ [])
  write_payload (Payload.data_section bytes) = ok (Section.raw SectionId.data_id bytes ∷ [])
  write_payload (Payload.custom_section bytes) = ok (Section.raw SectionId.custom bytes ∷ [])
  write_payload (Payload.alias_section bytes) = ok (Section.raw SectionId.alias bytes ∷ [])
  write_payload (Payload.unknown_section id bytes) =
      ok (Section.raw (SectionId.unknown id) bytes ∷ [])
  write_payload (Payload.instance_section bytes) = ok (Section.raw SectionId.instance_id bytes ∷ [])
  write_payload (Payload.tag_section bytes) = ok (Section.raw SectionId.tag bytes ∷ [])
  write_payload Payload.code_section_entry = ok []
  write_payload (Payload.module_section_start bytes) =
      ok (Section.raw SectionId.module_id bytes ∷ [])
  write_payload (Payload.module_section_entry bytes) =
      ok (Section.raw SectionId.module_id bytes ∷ [])
  write_payload _ = panicked

  unfoldable pub write_payloads : List Payload → Outcome (List Section)
  unfolding write_payload
  write_payloads [] = ok []
  write_payloads (payload ∷ payloads) = do
    written ← write_payload payload
    rest ← write_payloads payloads
    ok (written ++ rest)

-- `Metering::inject`, from the payloads on.
unfoldable pub inject : (Instruction → ℤ) → List (Option Payload) → Outcome (List Section)
unfolding read_payloads add_types add_imports write_payloads
inject cost_fn payloads = do
  s ← read_payloads payloads initial
  let (sections, func_idx) = add_imports (add_types s)
  written ← write_payloads cost_fn func_idx s.pending_payloads
  ok (sections ++ written)
