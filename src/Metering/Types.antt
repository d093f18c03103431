-- ===== src/Metering/Types.antt =====
-- crates/metering/lib.rs: the types of wasmparser and of wasm_encoder, and `map_type`,
-- `map_block_type`, `map_memarg` and the mapping of the types of imports and exports.
use em.Base.{ℕ, ◌^◌, Bool, Option}
use em.Base.Outcome.{Outcome, ok, panicked, ◌>>=◌}

abbrev pub u32_mod : ℕ
u32_mod = 2 ^ 32

-- `wasmparser::Type`
pub data ParserType : Type 0 where
  i32 i64 f32 f64 v128 extern_ref func_ref empty_block_type func exn_ref : ParserType

-- `wasm_encoder::ValType`
pub data ValType : Type 0 where
  i32 i64 f32 f64 v128 extern_ref func_ref : ValType

unfoldable pub map_type : ParserType → Outcome ValType
map_type ParserType.i32 = ok ValType.i32
map_type ParserType.i64 = ok ValType.i64
map_type ParserType.f32 = ok ValType.f32
map_type ParserType.f64 = ok ValType.f64
map_type ParserType.v128 = ok ValType.v128
map_type ParserType.extern_ref = ok ValType.extern_ref
map_type ParserType.func_ref = ok ValType.func_ref
map_type ParserType.empty_block_type = panicked
map_type ParserType.func = panicked
map_type ParserType.exn_ref = panicked

pub data TypeOrFuncType : Type 0 where
  ty : ParserType → TypeOrFuncType
  func_type : ℕ → TypeOrFuncType

pub data BlockType : Type 0 where
  empty : BlockType
  result : ValType → BlockType
  function_type : ℕ → BlockType

abbrev result_type : ParserType → Outcome BlockType
result_type t = do v ← map_type t; ok (BlockType.result v)

unfoldable pub map_block_type : TypeOrFuncType → Outcome BlockType
unfolding map_type
map_block_type (TypeOrFuncType.ty ParserType.empty_block_type) = ok BlockType.empty
map_block_type (TypeOrFuncType.ty ParserType.func) = panicked
map_block_type (TypeOrFuncType.ty t) = result_type t
map_block_type (TypeOrFuncType.func_type idx) = ok (BlockType.function_type idx)

pub record MemoryImmediate : Type 0 where
  pub offset : ℕ
  pub align : ℕ
  pub memory : ℕ

pub record MemArg : Type 0 where
  pub offset : ℕ
  pub align : ℕ
  pub memory_index : ℕ

unfoldable pub map_memarg : MemoryImmediate → MemArg
map_memarg memarg = record {
  offset = memarg.offset;
  align = memarg.align;
  memory_index = memarg.memory;
}

-- `wasmparser::ImportSectionEntryType`
pub data ImportSectionEntryType : Type 0 where
  function tag module_ty instance_ty : ℕ → ImportSectionEntryType
  table : ParserType → ℕ → Option ℕ → ImportSectionEntryType
  memory : Bool → Bool → ℕ → Option ℕ → ImportSectionEntryType
  global : Bool → ParserType → ImportSectionEntryType

-- `wasm_encoder::EntityType`; a memory of it does not say whether it is shared.
pub data EntityType : Type 0 where
  function tag module_ty instance_ty : ℕ → EntityType
  table : ValType → ℕ → Option ℕ → EntityType
  memory : Bool → ℕ → Option ℕ → EntityType
  global : Bool → ValType → EntityType

-- The `match` on the type of an import or an export, which the source has four times.
unfoldable pub map_entity : ImportSectionEntryType → Outcome EntityType
unfolding map_type
map_entity (ImportSectionEntryType.function idx) = ok (EntityType.function idx)
map_entity (ImportSectionEntryType.table element_type minimum maximum) = do
  t ← map_type element_type
  ok (EntityType.table t minimum maximum)
map_entity (ImportSectionEntryType.memory memory64 shared minimum maximum) =
    ok (EntityType.memory memory64 minimum maximum)
map_entity (ImportSectionEntryType.tag func_type_idx) = ok (EntityType.tag func_type_idx)
map_entity (ImportSectionEntryType.global mutable content_type) = do
  t ← map_type content_type
  ok (EntityType.global mutable t)
map_entity (ImportSectionEntryType.module_ty idx) = ok (EntityType.module_ty idx)
map_entity (ImportSectionEntryType.instance_ty idx) = ok (EntityType.instance_ty idx)
