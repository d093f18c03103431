-- ===== src/Metering/Operators.antt =====
-- crates/metering/lib.rs: the operators that wasmparser reads and the instructions that wasm_encoder
-- writes, as far as `map_operator` names them. A float constant is its bits; `if_block` and `else_block`
-- are `If` and `Else`.
pub mod Mapping
use em.Base.{ℕ, Option, List}
use em.Base.Int.{ℤ}
use em.Metering.Types.{ParserType, ValType, TypeOrFuncType, BlockType, MemoryImmediate, MemArg}

-- `none` is a table whose targets do not parse; `unmapped` stands for the operators of the proposals
-- that `map_operator` has no arm for.
pub data Operator : Type 0 where
  block loop if_block try : TypeOrFuncType → Operator
  catch throw rethrow br br_if delegate local_get local_set local_tee global_get global_set
        memory_size memory_grow ref_func data_drop memory_fill elem_drop table_fill table_get
        table_set table_grow table_size f32_const f64_const call :
      ℕ → Operator
  call_indirect memory_init memory_copy table_init table_copy : ℕ → ℕ → Operator
  i32_load i64_load f32_load f64_load i32_load8_s i32_load8_u i32_load16_s i32_load16_u i64_load8_s
        i64_load8_u i64_load16_s i64_load16_u i64_load32_s i64_load32_u i32_store i64_store
        f32_store f64_store i32_store8 i32_store16 i64_store8 i64_store16 i64_store32 v128_load :
      MemoryImmediate → Operator
  typed_select ref_null : ParserType → Operator
  br_table : Option (List ℕ) → ℕ → Operator
  i32_const i64_const : ℤ → Operator
  unreachable nop else_block end return catch_all drop select ref_is_null i32_eqz i32_eq i32_ne
        i32_lt_s i32_lt_u i32_gt_s i32_gt_u i32_le_s i32_le_u i32_ge_s i32_ge_u i64_eqz i64_eq
        i64_ne i64_lt_s i64_lt_u i64_gt_s i64_gt_u i64_le_s i64_le_u i64_ge_s i64_ge_u f32_eq f32_ne
        f32_lt f32_gt f32_le f32_ge f64_eq f64_ne f64_lt f64_gt f64_le f64_ge i32_clz i32_ctz
        i32_popcnt i32_add i32_sub i32_mul i32_div_s i32_div_u i32_rem_s i32_rem_u i32_and i32_or
        i32_xor i32_shl i32_shr_s i32_shr_u i32_rotl i32_rotr i64_clz i64_ctz i64_popcnt i64_add
        i64_sub i64_mul i64_div_s i64_div_u i64_rem_s i64_rem_u i64_and i64_or i64_xor i64_shl
        i64_shr_s i64_shr_u i64_rotl i64_rotr f32_abs f32_neg f32_ceil f32_floor f32_trunc
        f32_nearest f32_sqrt f32_add f32_sub f32_mul f32_div f32_min f32_max f32_copysign f64_abs
        f64_neg f64_ceil f64_floor f64_trunc f64_nearest f64_sqrt f64_add f64_sub f64_mul f64_div
        f64_min f64_max f64_copysign i32_wrap_i64 i32_trunc_f32_s i32_trunc_f32_u i32_trunc_f64_s
        i32_trunc_f64_u i64_extend_i32_s i64_extend_i32_u i64_trunc_f32_s i64_trunc_f32_u
        i64_trunc_f64_s i64_trunc_f64_u f32_convert_i32_s f32_convert_i32_u f32_convert_i64_s
        f32_convert_i64_u f32_demote_f64 f64_convert_i32_s f64_convert_i32_u f64_convert_i64_s
        f64_convert_i64_u f64_promote_f32 i32_reinterpret_f32 i64_reinterpret_f64
        f32_reinterpret_i32 f64_reinterpret_i64 i32_extend8_s i32_extend16_s i64_extend8_s
        i64_extend16_s i64_extend32_s i32_trunc_sat_f32_s i32_trunc_sat_f32_u i32_trunc_sat_f64_s
        i32_trunc_sat_f64_u i64_trunc_sat_f32_s i64_trunc_sat_f32_u i64_trunc_sat_f64_s
        i64_trunc_sat_f64_u :
      Operator
  unmapped : Operator

pub data Instruction : Type 0 where
  block loop if_block try : BlockType → Instruction
  catch throw rethrow br br_if delegate local_get local_set local_tee global_get global_set
        memory_size memory_grow ref_func data_drop memory_fill elem_drop table_fill table_get
        table_set table_grow table_size f32_const f64_const call :
      ℕ → Instruction
  call_indirect memory_init memory_copy table_init table_copy : ℕ → ℕ → Instruction
  i32_load i64_load f32_load f64_load i32_load8_s i32_load8_u i32_load16_s i32_load16_u i64_load8_s
        i64_load8_u i64_load16_s i64_load16_u i64_load32_s i64_load32_u i32_store i64_store
        f32_store f64_store i32_store8 i32_store16 i64_store8 i64_store16 i64_store32 v128_load :
      MemArg → Instruction
  typed_select ref_null : ValType → Instruction
  br_table : List ℕ → ℕ → Instruction
  i32_const i64_const : ℤ → Instruction
  unreachable nop else_block end return catch_all drop select ref_is_null i32_eqz i32_eq i32_neq
        i32_lt_s i32_lt_u i32_gt_s i32_gt_u i32_le_s i32_le_u i32_ge_s i32_ge_u i64_eqz i64_eq
        i64_neq i64_lt_s i64_lt_u i64_gt_s i64_gt_u i64_le_s i64_le_u i64_ge_s i64_ge_u f32_eq
        f32_neq f32_lt f32_gt f32_le f32_ge f64_eq f64_neq f64_lt f64_gt f64_le f64_ge i32_clz
        i32_ctz i32_popcnt i32_add i32_sub i32_mul i32_div_s i32_div_u i32_rem_s i32_rem_u i32_and
        i32_or i32_xor i32_shl i32_shr_s i32_shr_u i32_rotl i32_rotr i64_clz i64_ctz i64_popcnt
        i64_add i64_sub i64_mul i64_div_s i64_div_u i64_rem_s i64_rem_u i64_and i64_or i64_xor
        i64_shl i64_shr_s i64_shr_u i64_rotl i64_rotr f32_abs f32_neg f32_ceil f32_floor f32_trunc
        f32_nearest f32_sqrt f32_add f32_sub f32_mul f32_div f32_min f32_max f32_copysign f64_abs
        f64_neg f64_ceil f64_floor f64_trunc f64_nearest f64_sqrt f64_add f64_sub f64_mul f64_div
        f64_min f64_max f64_copysign i32_wrap_i64 i32_trunc_f32_s i32_trunc_f32_u i32_trunc_f64_s
        i32_trunc_f64_u i64_extend_i32_s i64_extend_i32_u i64_trunc_f32_s i64_trunc_f32_u
        i64_trunc_f64_s i64_trunc_f64_u f32_convert_i32_s f32_convert_i32_u f32_convert_i64_s
        f32_convert_i64_u f32_demote_f64 f64_convert_i32_s f64_convert_i32_u f64_convert_i64_s
        f64_convert_i64_u f64_promote_f32 i32_reinterpret_f32 i64_reinterpret_f64
        f32_reinterpret_i32 f64_reinterpret_i64 i32_extend8_s i32_extend16_s i64_extend8_s
        i64_extend16_s i64_extend32_s i32_trunc_sat_f32_s i32_trunc_sat_f32_u i32_trunc_sat_f64_s
        i32_trunc_sat_f64_u i64_trunc_sat_f32_s i64_trunc_sat_f32_u i64_trunc_sat_f64_s
        i64_trunc_sat_f64_u :
      Instruction
