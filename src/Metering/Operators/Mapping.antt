-- ===== src/Metering/Operators/Mapping.antt =====
-- crates/metering/lib.rs, `map_operator`.
use em.Base.{ℕ, ◌+◌, ◌%◌, Option, none, some, leb, if◌then◌else◌}
use em.Base.Outcome.{Outcome, ok, err, panicked, ◌>>=◌}
use em.Metering.Types.{map_type, map_block_type, map_memarg, u32_mod}
use em.Metering.Operators.{Operator, Instruction}

-- The index of a function behind the import of `consumeGas`, which is put at `gas_idx`; `none` is a
-- negative index.
unfoldable pub shift_index : Option ℕ → ℕ → ℕ
shift_index none index = index
shift_index (some gas_idx) index = if leb gas_idx index then (index + 1) % u32_mod else index

-- An operator that has no arm panics.
unfoldable pub map_operator : Option ℕ → Operator → Outcome Instruction
unfolding shift_index
map_operator gas_idx Operator.unreachable = ok Instruction.unreachable
map_operator gas_idx Operator.nop = ok Instruction.nop
map_operator gas_idx (Operator.block t) = do b ← map_block_type t; ok (Instruction.block b)
map_operator gas_idx (Operator.loop t) = do b ← map_block_type t; ok (Instruction.loop b)
map_operator gas_idx (Operator.if_block t) = do b ← map_block_type t; ok (Instruction.if_block b)
map_operator gas_idx Operator.else_block = ok Instruction.else_block
map_operator gas_idx (Operator.try t) = do b ← map_block_type t; ok (Instruction.try b)
map_operator gas_idx (Operator.catch n) = ok (Instruction.catch n)
map_operator gas_idx (Operator.throw n) = ok (Instruction.throw n)
map_operator gas_idx (Operator.rethrow n) = ok (Instruction.rethrow n)
map_operator gas_idx Operator.end = ok Instruction.end
map_operator gas_idx (Operator.br n) = ok (Instruction.br n)
map_operator gas_idx (Operator.br_if n) = ok (Instruction.br_if n)
map_operator gas_idx (Operator.br_table none default) = err
map_operator gas_idx (Operator.br_table (some targets) default) =
    ok (Instruction.br_table targets default)
map_operator gas_idx Operator.return = ok Instruction.return
map_operator gas_idx (Operator.call index) = ok (Instruction.call (shift_index gas_idx index))
map_operator gas_idx (Operator.call_indirect t table) = ok (Instruction.call_indirect t table)
map_operator gas_idx (Operator.delegate n) = ok (Instruction.delegate n)
map_operator gas_idx Operator.catch_all = ok Instruction.catch_all
map_operator gas_idx Operator.drop = ok Instruction.drop
map_operator gas_idx Operator.select = ok Instruction.select
map_operator gas_idx (Operator.typed_select t) = do v ← map_type t; ok (Instruction.typed_select v)
map_operator gas_idx (Operator.local_get n) = ok (Instruction.local_get n)
map_operator gas_idx (Operator.local_set n) = ok (Instruction.local_set n)
map_operator gas_idx (Operator.local_tee n) = ok (Instruction.local_tee n)
map_operator gas_idx (Operator.global_get n) = ok (Instruction.global_get n)
map_operator gas_idx (Operator.global_set n) = ok (Instruction.global_set n)
map_operator gas_idx (Operator.i32_load memarg) = ok (Instruction.i32_load (map_memarg memarg))
map_operator gas_idx (Operator.i64_load memarg) = ok (Instruction.i64_load (map_memarg memarg))
map_operator gas_idx (Operator.f32_load memarg) = ok (Instruction.f32_load (map_memarg memarg))
map_operator gas_idx (Operator.f64_load memarg) = ok (Instruction.f64_load (map_memarg memarg))
map_operator gas_idx (Operator.i32_load8_s memarg) =
    ok (Instruction.i32_load8_s (map_memarg memarg))
map_operator gas_idx (Operator.i32_load8_u memarg) =
    ok (Instruction.i32_load8_u (map_memarg memarg))
map_operator gas_idx (Operator.i32_load16_s memarg) =
    ok (Instruction.i32_load16_s (map_memarg memarg))
map_operator gas_idx (Operator.i32_load16_u memarg) =
    ok (Instruction.i32_load16_u (map_memarg memarg))
map_operator gas_idx (Operator.i64_load8_s memarg) =
    ok (Instruction.i64_load8_s (map_memarg memarg))
map_operator gas_idx (Operator.i64_load8_u memarg) =
    ok (Instruction.i64_load8_u (map_memarg memarg))
map_operator gas_idx (Operator.i64_load16_s memarg) =
    ok (Instruction.i64_load16_s (map_memarg memarg))
map_operator gas_idx (Operator.i64_load16_u memarg) =
    ok (Instruction.i64_load16_u (map_memarg memarg))
map_operator gas_idx (Operator.i64_load32_s memarg) =
    ok (Instruction.i64_load32_s (map_memarg memarg))
map_operator gas_idx (Operator.i64_load32_u memarg) =
    ok (Instruction.i64_load32_u (map_memarg memarg))
map_operator gas_idx (Operator.i32_store memarg) = ok (Instruction.i32_store (map_memarg memarg))
map_operator gas_idx (Operator.i64_store memarg) = ok (Instruction.i64_store (map_memarg memarg))
map_operator gas_idx (Operator.f32_store memarg) = ok (Instruction.f32_store (map_memarg memarg))
map_operator gas_idx (Operator.f64_store memarg) = ok (Instruction.f64_store (map_memarg memarg))
map_operator gas_idx (Operator.i32_store8 memarg) = ok (Instruction.i32_store8 (map_memarg memarg))
map_operator gas_idx (Operator.i32_store16 memarg) =
    ok (Instruction.i32_store16 (map_memarg memarg))
map_operator gas_idx (Operator.i64_store8 memarg) = ok (Instruction.i64_store8 (map_memarg memarg))
map_operator gas_idx (Operator.i64_store16 memarg) =
    ok (Instruction.i64_store16 (map_memarg memarg))
map_operator gas_idx (Operator.i64_store32 memarg) =
    ok (Instruction.i64_store32 (map_memarg memarg))
map_operator gas_idx (Operator.memory_size n) = ok (Instruction.memory_size n)
map_operator gas_idx (Operator.memory_grow n) = ok (Instruction.memory_grow n)
map_operator gas_idx (Operator.i32_const value) = ok (Instruction.i32_const value)
map_operator gas_idx (Operator.i64_const value) = ok (Instruction.i64_const value)
map_operator gas_idx (Operator.f32_const n) = ok (Instruction.f32_const n)
map_operator gas_idx (Operator.f64_const n) = ok (Instruction.f64_const n)
map_operator gas_idx (Operator.ref_null t) = do v ← map_type t; ok (Instruction.ref_null v)
map_operator gas_idx Operator.ref_is_null = ok Instruction.ref_is_null
map_operator gas_idx (Operator.ref_func n) = ok (Instruction.ref_func n)
map_operator gas_idx Operator.i32_eqz = ok Instruction.i32_eqz
map_operator gas_idx Operator.i32_eq = ok Instruction.i32_eq
map_operator gas_idx Operator.i32_ne = ok Instruction.i32_neq
map_operator gas_idx Operator.i32_lt_s = ok Instruction.i32_lt_s
map_operator gas_idx Operator.i32_lt_u = ok Instruction.i32_lt_u
map_operator gas_idx Operator.i32_gt_s = ok Instruction.i32_gt_s
map_operator gas_idx Operator.i32_gt_u = ok Instruction.i32_gt_u
map_operator gas_idx Operator.i32_le_s = ok Instruction.i32_le_s
map_operator gas_idx Operator.i32_le_u = ok Instruction.i32_le_u
map_operator gas_idx Operator.i32_ge_s = ok Instruction.i32_ge_s
map_operator gas_idx Operator.i32_ge_u = ok Instruction.i32_ge_u
map_operator gas_idx Operator.i64_eqz = ok Instruction.i64_eqz
map_operator gas_idx Operator.i64_eq = ok Instruction.i64_eq
map_operator gas_idx Operator.i64_ne = ok Instruction.i64_neq
map_operator gas_idx Operator.i64_lt_s = ok Instruction.i64_lt_s
map_operator gas_idx Operator.i64_lt_u = ok Instruction.i64_lt_u
map_operator gas_idx Operator.i64_gt_s = ok Instruction.i64_gt_s
map_operator gas_idx Operator.i64_gt_u = ok Instruction.i64_gt_u
map_operator gas_idx Operator.i64_le_s = ok Instruction.i64_le_s
map_operator gas_idx Operator.i64_le_u = ok Instruction.i64_le_u
map_operator gas_idx Operator.i64_ge_s = ok Instruction.i64_ge_s
map_operator gas_idx Operator.i64_ge_u = ok Instruction.i64_ge_u
map_operator gas_idx Operator.f32_eq = ok Instruction.f32_eq
map_operator gas_idx Operator.f32_ne = ok Instruction.f32_neq
map_operator gas_idx Operator.f32_lt = ok Instruction.f32_lt
map_operator gas_idx Operator.f32_gt = ok Instruction.f32_gt
map_operator gas_idx Operator.f32_le = ok Instruction.f32_le
map_operator gas_idx Operator.f32_ge = ok Instruction.f32_ge
map_operator gas_idx Operator.f64_eq = ok Instruction.f64_eq
map_operator gas_idx Operator.f64_ne = ok Instruction.f64_neq
map_operator gas_idx Operator.f64_lt = ok Instruction.f64_lt
map_operator gas_idx Operator.f64_gt = ok Instruction.f64_gt
map_operator gas_idx Operator.f64_le = ok Instruction.f64_le
map_operator gas_idx Operator.f64_ge = ok Instruction.f64_ge
map_operator gas_idx Operator.i32_clz = ok Instruction.i32_clz
map_operator gas_idx Operator.i32_ctz = ok Instruction.i32_ctz
map_operator gas_idx Operator.i32_popcnt = ok Instruction.i32_popcnt
map_operator gas_idx Operator.i32_add = ok Instruction.i32_add
map_operator gas_idx Operator.i32_sub = ok Instruction.i32_sub
map_operator gas_idx Operator.i32_mul = ok Instruction.i32_mul
map_operator gas_idx Operator.i32_div_s = ok Instruction.i32_div_s
map_operator gas_idx Operator.i32_div_u = ok Instruction.i32_div_u
map_operator gas_idx Operator.i32_rem_s = ok Instruction.i32_rem_s
map_operator gas_idx Operator.i32_rem_u = ok Instruction.i32_rem_u
map_operator gas_idx Operator.i32_and = ok Instruction.i32_and
map_operator gas_idx Operator.i32_or = ok Instruction.i32_or
map_operator gas_idx Operator.i32_xor = ok Instruction.i32_xor
map_operator gas_idx Operator.i32_shl = ok Instruction.i32_shl
map_operator gas_idx Operator.i32_shr_s = ok Instruction.i32_shr_s
map_operator gas_idx Operator.i32_shr_u = ok Instruction.i32_shr_u
map_operator gas_idx Operator.i32_rotl = ok Instruction.i32_rotl
map_operator gas_idx Operator.i32_rotr = ok Instruction.i32_rotr
map_operator gas_idx Operator.i64_clz = ok Instruction.i64_clz
map_operator gas_idx Operator.i64_ctz = ok Instruction.i64_ctz
map_operator gas_idx Operator.i64_popcnt = ok Instruction.i64_popcnt
map_operator gas_idx Operator.i64_add = ok Instruction.i64_add
map_operator gas_idx Operator.i64_sub = ok Instruction.i64_sub
map_operator gas_idx Operator.i64_mul = ok Instruction.i64_mul
map_operator gas_idx Operator.i64_div_s = ok Instruction.i64_div_s
map_operator gas_idx Operator.i64_div_u = ok Instruction.i64_div_u
map_operator gas_idx Operator.i64_rem_s = ok Instruction.i64_rem_s
map_operator gas_idx Operator.i64_rem_u = ok Instruction.i64_rem_u
map_operator gas_idx Operator.i64_and = ok Instruction.i64_and
map_operator gas_idx Operator.i64_or = ok Instruction.i64_or
map_operator gas_idx Operator.i64_xor = ok Instruction.i64_xor
map_operator gas_idx Operator.i64_shl = ok Instruction.i64_shl
map_operator gas_idx Operator.i64_shr_s = ok Instruction.i64_shr_s
map_operator gas_idx Operator.i64_shr_u = ok Instruction.i64_shr_u
map_operator gas_idx Operator.i64_rotl = ok Instruction.i64_rotl
map_operator gas_idx Operator.i64_rotr = ok Instruction.i64_rotr
map_operator gas_idx Operator.f32_abs = ok Instruction.f32_abs
map_operator gas_idx Operator.f32_neg = ok Instruction.f32_neg
map_operator gas_idx Operator.f32_ceil = ok Instruction.f32_ceil
map_operator gas_idx Operator.f32_floor = ok Instruction.f32_floor
map_operator gas_idx Operator.f32_trunc = ok Instruction.f32_trunc
map_operator gas_idx Operator.f32_nearest = ok Instruction.f32_nearest
map_operator gas_idx Operator.f32_sqrt = ok Instruction.f32_sqrt
map_operator gas_idx Operator.f32_add = ok Instruction.f32_add
map_operator gas_idx Operator.f32_sub = ok Instruction.f32_sub
map_operator gas_idx Operator.f32_mul = ok Instruction.f32_mul
map_operator gas_idx Operator.f32_div = ok Instruction.f32_div
map_operator gas_idx Operator.f32_min = ok Instruction.f32_min
map_operator gas_idx Operator.f32_max = ok Instruction.f32_max
map_operator gas_idx Operator.f32_copysign = ok Instruction.f32_copysign
map_operator gas_idx Operator.f64_abs = ok Instruction.f64_abs
map_operator gas_idx Operator.f64_neg = ok Instruction.f64_neg
map_operator gas_idx Operator.f64_ceil = ok Instruction.f64_ceil
map_operator gas_idx Operator.f64_floor = ok Instruction.f64_floor
map_operator gas_idx Operator.f64_trunc = ok Instruction.f64_trunc
map_operator gas_idx Operator.f64_nearest = ok Instruction.f64_nearest
map_operator gas_idx Operator.f64_sqrt = ok Instruction.f64_sqrt
map_operator gas_idx Operator.f64_add = ok Instruction.f64_add
map_operator gas_idx Operator.f64_sub = ok Instruction.f64_sub
map_operator gas_idx Operator.f64_mul = ok Instruction.f64_mul
map_operator gas_idx Operator.f64_div = ok Instruction.f64_div
map_operator gas_idx Operator.f64_min = ok Instruction.f64_min
map_operator gas_idx Operator.f64_max = ok Instruction.f64_max
map_operator gas_idx Operator.f64_copysign = ok Instruction.f64_copysign
map_operator gas_idx Operator.i32_wrap_i64 = ok Instruction.i32_wrap_i64
map_operator gas_idx Operator.i32_trunc_f32_s = ok Instruction.i32_trunc_f32_s
map_operator gas_idx Operator.i32_trunc_f32_u = ok Instruction.i32_trunc_f32_u
map_operator gas_idx Operator.i32_trunc_f64_s = ok Instruction.i32_trunc_f64_s
map_operator gas_idx Operator.i32_trunc_f64_u = ok Instruction.i32_trunc_f64_u
map_operator gas_idx Operator.i64_extend_i32_s = ok Instruction.i64_extend_i32_s
map_operator gas_idx Operator.i64_extend_i32_u = ok Instruction.i64_extend_i32_u
map_operator gas_idx Operator.i64_trunc_f32_s = ok Instruction.i64_trunc_f32_s
map_operator gas_idx Operator.i64_trunc_f32_u = ok Instruction.i64_trunc_f32_u
map_operator gas_idx Operator.i64_trunc_f64_s = ok Instruction.i64_trunc_f64_s
map_operator gas_idx Operator.i64_trunc_f64_u = ok Instruction.i64_trunc_f64_u
map_operator gas_idx Operator.f32_convert_i32_s = ok Instruction.f32_convert_i32_s
map_operator gas_idx Operator.f32_convert_i32_u = ok Instruction.f32_convert_i32_u
map_operator gas_idx Operator.f32_convert_i64_s = ok Instruction.f32_convert_i64_s
map_operator gas_idx Operator.f32_convert_i64_u = ok Instruction.f32_convert_i64_u
map_operator gas_idx Operator.f32_demote_f64 = ok Instruction.f32_demote_f64
map_operator gas_idx Operator.f64_convert_i32_s = ok Instruction.f64_convert_i32_s
map_operator gas_idx Operator.f64_convert_i32_u = ok Instruction.f64_convert_i32_u
map_operator gas_idx Operator.f64_convert_i64_s = ok Instruction.f64_convert_i64_s
map_operator gas_idx Operator.f64_convert_i64_u = ok Instruction.f64_convert_i64_u
map_operator gas_idx Operator.f64_promote_f32 = ok Instruction.f64_promote_f32
map_operator gas_idx Operator.i32_reinterpret_f32 = ok Instruction.i32_reinterpret_f32
map_operator gas_idx Operator.i64_reinterpret_f64 = ok Instruction.i64_reinterpret_f64
map_operator gas_idx Operator.f32_reinterpret_i32 = ok Instruction.f32_reinterpret_i32
map_operator gas_idx Operator.f64_reinterpret_i64 = ok Instruction.f64_reinterpret_i64
map_operator gas_idx Operator.i32_extend8_s = ok Instruction.i32_extend8_s
map_operator gas_idx Operator.i32_extend16_s = ok Instruction.i32_extend16_s
map_operator gas_idx Operator.i64_extend8_s = ok Instruction.i64_extend8_s
map_operator gas_idx Operator.i64_extend16_s = ok Instruction.i64_extend16_s
map_operator gas_idx Operator.i64_extend32_s = ok Instruction.i64_extend32_s
map_operator gas_idx Operator.i32_trunc_sat_f32_s = ok Instruction.i32_trunc_sat_f32_s
map_operator gas_idx Operator.i32_trunc_sat_f32_u = ok Instruction.i32_trunc_sat_f32_u
map_operator gas_idx Operator.i32_trunc_sat_f64_s = ok Instruction.i32_trunc_sat_f64_s
map_operator gas_idx Operator.i32_trunc_sat_f64_u = ok Instruction.i32_trunc_sat_f64_u
map_operator gas_idx Operator.i64_trunc_sat_f32_s = ok Instruction.i64_trunc_sat_f32_s
map_operator gas_idx Operator.i64_trunc_sat_f32_u = ok Instruction.i64_trunc_sat_f32_u
map_operator gas_idx Operator.i64_trunc_sat_f64_s = ok Instruction.i64_trunc_sat_f64_s
map_operator gas_idx Operator.i64_trunc_sat_f64_u = ok Instruction.i64_trunc_sat_f64_u
map_operator gas_idx (Operator.memory_init mem segment) = ok (Instruction.memory_init mem segment)
map_operator gas_idx (Operator.data_drop n) = ok (Instruction.data_drop n)
map_operator gas_idx (Operator.memory_copy dst src) = ok (Instruction.memory_copy dst src)
map_operator gas_idx (Operator.memory_fill n) = ok (Instruction.memory_fill n)
map_operator gas_idx (Operator.table_init table segment) = ok (Instruction.table_init segment table)
map_operator gas_idx (Operator.elem_drop n) = ok (Instruction.elem_drop n)
map_operator gas_idx (Operator.table_copy dst src) = ok (Instruction.table_copy dst src)
map_operator gas_idx (Operator.table_fill n) = ok (Instruction.table_fill n)
map_operator gas_idx (Operator.table_get n) = ok (Instruction.table_get n)
map_operator gas_idx (Operator.table_set n) = ok (Instruction.table_set n)
map_operator gas_idx (Operator.table_grow n) = ok (Instruction.table_grow n)
map_operator gas_idx (Operator.table_size n) = ok (Instruction.table_size n)
map_operator gas_idx (Operator.v128_load memarg) = ok (Instruction.v128_load (map_memarg memarg))
map_operator gas_idx Operator.unmapped = panicked
