-- ===== src/Metering/Sections.antt =====
-- crates/metering/lib.rs, `inject`: what wasmparser reads of a module and what wasm_encoder writes.
-- An item that does not parse is `none`.
use em.Base.{ℕ, Option, List}
use Prim.Native.String.{String}
use em.Metering.Types.{ParserType, ValType, ImportSectionEntryType, EntityType}
use em.Metering.Operators.{Operator, Instruction}

pub record Import (T : Type 0) : Type 0 where
  pub module_name : String
  pub field : Option String
  pub ty : T

-- A type of a module: of functions, with parameters and results; of instances, with exports; of
-- modules, with imports and exports.
pub data TypeDef (V T : Type 0) : Type 0 where
  func : List V → List V → TypeDef V T
  instance_ty : List (String × T) → TypeDef V T
  module_ty : List (Import T) → List (String × T) → TypeDef V T

pub data ExternalKind : Type 0 where
  function table memory tag global type_kind module_kind instance_kind : ExternalKind

pub data Export : Type 0 where
  function table memory tag global module_kind instance_kind : ℕ → Export

-- The locals are `none` if they have no reader.
pub record Body : Type 0 where
  pub locals : Option (List (Option (ℕ × ParserType)))
  pub operators : Option (List (Option Operator))

pub record Function : Type 0 where
  pub locals : List (ℕ × ValType)
  pub instructions : List Instruction

pub data ElementItem : Type 0 where
  func : ℕ → ElementItem
  expr : ElementItem

-- The initial expression of an active one is its first operator.
pub data ElementKind : Type 0 where
  passive declared : ElementKind
  active : ℕ → Option Operator → ElementKind

pub record Element : Type 0 where
  pub ty : ParserType
  pub items : Option (List (Option ElementItem))
  pub kind : ElementKind

pub data ElementMode : Type 0 where
  passive declared : ElementMode
  active : ℕ → Instruction → ElementMode

pub record ElementSegment : Type 0 where
  pub mode : ElementMode
  pub element_type : ValType
  pub functions : List ℕ

-- A payload that is copied has its bytes.
pub data Payload : Type 0 where
  version end code_section_entry unmapped : Payload
  type_section : List (Option (TypeDef ParserType ImportSectionEntryType)) → Payload
  import_section : List (Option (Import ImportSectionEntryType)) → Payload
  start_section : ℕ → Payload
  code_section_start : Option (List (Option Body)) → Payload
  export_section : List (Option (String × ExternalKind × ℕ)) → Payload
  element_section : List (Option Element) → Payload
  data_count_section function_section table_section memory_section : List ℕ → Payload
  global_section data_section custom_section alias_section : List ℕ → Payload
  instance_section tag_section module_section_start module_section_entry : List ℕ → Payload
  unknown_section : ℕ → List ℕ → Payload

pub data SectionId : Type 0 where
  data_count function table memory global data_id custom alias instance_id tag module_id : SectionId
  unknown : ℕ → SectionId

pub data Section : Type 0 where
  types : List (TypeDef ValType EntityType) → Section
  imports : List (Import EntityType) → Section
  start : ℕ → Section
  code : List Function → Section
  exports : List (String × Export) → Section
  elements : List ElementSegment → Section
  raw : SectionId → List ℕ → Section
