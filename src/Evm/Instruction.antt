-- ===== src/Evm/Instruction.antt =====
-- crates/evm/lib.rs, `repr_u8!` and `enum Instruction`: the instructions with their bytes, and
-- `try_from`, which takes the first variant whose discriminant is the byte.
pub mod Codes
use em.Base.{ℕ, Bool, true, Option, none, some, List, [], ◌∷◌, ◌==◌, if◌then◌else◌}

pub data Instruction : Type 0 where
  stop add mul sub div s_div modulo : Instruction
  s_mod add_mod mul_mod exp sign_extend lt gt : Instruction
  s_lt s_gt eq is_zero and or xor : Instruction
  not byte shl shr sar keccak256 address : Instruction
  balance origin caller call_value call_data_load call_data_size call_data_copy : Instruction
  code_size code_copy gas_price ext_code_size ext_code_copy return_data_size return_data_copy :
      Instruction
  block_hash coinbase timestamp number difficulty gas_limit chain_id : Instruction
  base_fee pop m_load m_store m_store8 s_load s_store : Instruction
  jump jump_i get_pc m_size gas jump_dest push1 : Instruction
  push2 push3 push4 push5 push6 push7 push8 : Instruction
  push9 push10 push11 push12 push13 push14 push15 : Instruction
  push16 push17 push18 push19 push20 push21 push22 : Instruction
  push23 push24 push25 push26 push27 push28 push29 : Instruction
  push30 push31 push32 dup1 dup2 dup3 dup4 : Instruction
  dup5 dup6 dup7 dup8 dup9 dup10 dup11 : Instruction
  dup12 dup13 dup14 dup15 dup16 swap1 swap2 : Instruction
  swap3 swap4 swap5 swap6 swap7 swap8 swap9 : Instruction
  swap10 swap11 swap12 swap13 swap14 swap15 swap16 : Instruction
  log0 log1 log2 log3 log4 create call : Instruction
  call_code return delegate_call create2 revert static_call self_destruct : Instruction

-- `name as u8`
unfoldable pub discriminant : Instruction → ℕ
discriminant stop = 0x00
discriminant add = 0x01
discriminant mul = 0x02
discriminant sub = 0x03
discriminant div = 0x04
discriminant s_div = 0x05
discriminant modulo = 0x06
discriminant s_mod = 0x07
discriminant add_mod = 0x08
discriminant mul_mod = 0x09
discriminant exp = 0x0a
discriminant sign_extend = 0x0b
discriminant lt = 0x10
discriminant gt = 0x11
discriminant s_lt = 0x12
discriminant s_gt = 0x13
discriminant eq = 0x14
discriminant is_zero = 0x15
discriminant and = 0x16
discriminant or = 0x17
discriminant xor = 0x18
discriminant not = 0x19
discriminant byte = 0x1a
discriminant shl = 0x1b
discriminant shr = 0x1c
discriminant sar = 0x1d
discriminant keccak256 = 0x20
discriminant address = 0x30
discriminant balance = 0x31
discriminant origin = 0x32
discriminant caller = 0x33
discriminant call_value = 0x34
discriminant call_data_load = 0x35
discriminant call_data_size = 0x36
discriminant call_data_copy = 0x37
discriminant code_size = 0x38
discriminant code_copy = 0x39
discriminant gas_price = 0x3a
discriminant ext_code_size = 0x3b
discriminant ext_code_copy = 0x3c
discriminant return_data_size = 0x3d
discriminant return_data_copy = 0x3e
discriminant block_hash = 0x40
discriminant coinbase = 0x41
discriminant timestamp = 0x42
discriminant number = 0x43
discriminant difficulty = 0x44
discriminant gas_limit = 0x45
discriminant chain_id = 0x46
discriminant base_fee = 0x48
discriminant pop = 0x50
discriminant m_load = 0x51
discriminant m_store = 0x52
discriminant m_store8 = 0x53
discriminant s_load = 0x54
discriminant s_store = 0x55
discriminant jump = 0x56
discriminant jump_i = 0x57
discriminant get_pc = 0x58
discriminant m_size = 0x59
discriminant gas = 0x5a
discriminant jump_dest = 0x5b
discriminant push1 = 0x60
discriminant push2 = 0x61
discriminant push3 = 0x62
discriminant push4 = 0x63
discriminant push5 = 0x64
discriminant push6 = 0x65
discriminant push7 = 0x66
discriminant push8 = 0x67
discriminant push9 = 0x68
discriminant push10 = 0x69
discriminant push11 = 0x6a
discriminant push12 = 0x6b
discriminant push13 = 0x6c
discriminant push14 = 0x6d
discriminant push15 = 0x6e
discriminant push16 = 0x6f
discriminant push17 = 0x70
discriminant push18 = 0x71
discriminant push19 = 0x72
discriminant push20 = 0x73
discriminant push21 = 0x74
discriminant push22 = 0x75
discriminant push23 = 0x76
discriminant push24 = 0x77
discriminant push25 = 0x78
discriminant push26 = 0x79
discriminant push27 = 0x7a
discriminant push28 = 0x7b
discriminant push29 = 0x7c
discriminant push30 = 0x7d
discriminant push31 = 0x7e
discriminant push32 = 0x7f
discriminant dup1 = 0x80
discriminant dup2 = 0x81
discriminant dup3 = 0x82
discriminant dup4 = 0x83
discriminant dup5 = 0x84
discriminant dup6 = 0x85
discriminant dup7 = 0x86
discriminant dup8 = 0x87
discriminant dup9 = 0x88
discriminant dup10 = 0x89
discriminant dup11 = 0x8a
discriminant dup12 = 0x8b
discriminant dup13 = 0x8c
discriminant dup14 = 0x8d
discriminant dup15 = 0x8e
discriminant dup16 = 0x8f
discriminant swap1 = 0x90
discriminant swap2 = 0x91
discriminant swap3 = 0x92
discriminant swap4 = 0x93
discriminant swap5 = 0x94
discriminant swap6 = 0x95
discriminant swap7 = 0x96
discriminant swap8 = 0x97
discriminant swap9 = 0x98
discriminant swap10 = 0x99
discriminant swap11 = 0x9a
discriminant swap12 = 0x9b
discriminant swap13 = 0x9c
discriminant swap14 = 0x9d
discriminant swap15 = 0x9e
discriminant swap16 = 0x9f
discriminant log0 = 0xa0
discriminant log1 = 0xa1
discriminant log2 = 0xa2
discriminant log3 = 0xa3
discriminant log4 = 0xa4
discriminant create = 0xf0
discriminant call = 0xf1
discriminant call_code = 0xf2
discriminant return = 0xf3
discriminant delegate_call = 0xf4
discriminant create2 = 0xfb
discriminant revert = 0xfd
discriminant static_call = 0xfa
discriminant self_destruct = 0xff

-- The variants, in the order of their declaration.
abbrev pub variants : List Instruction
variants =
    stop ∷ add ∷ mul ∷ sub ∷ div ∷ s_div ∷ modulo ∷ s_mod ∷ add_mod ∷ mul_mod ∷ exp ∷ sign_extend
    ∷ lt ∷ gt ∷ s_lt ∷ s_gt ∷ eq ∷ is_zero ∷ and ∷ or ∷ xor ∷ not ∷ byte ∷ shl ∷ shr ∷ sar
    ∷ keccak256 ∷ address ∷ balance ∷ origin ∷ caller ∷ call_value ∷ call_data_load ∷ call_data_size
    ∷ call_data_copy ∷ code_size ∷ code_copy ∷ gas_price ∷ ext_code_size ∷ ext_code_copy
    ∷ return_data_size ∷ return_data_copy ∷ block_hash ∷ coinbase ∷ timestamp ∷ number ∷ difficulty
    ∷ gas_limit ∷ chain_id ∷ base_fee ∷ pop ∷ m_load ∷ m_store ∷ m_store8 ∷ s_load ∷ s_store ∷ jump
    ∷ jump_i ∷ get_pc ∷ m_size ∷ gas ∷ jump_dest ∷ push1 ∷ push2 ∷ push3 ∷ push4 ∷ push5 ∷ push6
    ∷ push7 ∷ push8 ∷ push9 ∷ push10 ∷ push11 ∷ push12 ∷ push13 ∷ push14 ∷ push15 ∷ push16 ∷ push17
    ∷ push18 ∷ push19 ∷ push20 ∷ push21 ∷ push22 ∷ push23 ∷ push24 ∷ push25 ∷ push26 ∷ push27
    ∷ push28 ∷ push29 ∷ push30 ∷ push31 ∷ push32 ∷ dup1 ∷ dup2 ∷ dup3 ∷ dup4 ∷ dup5 ∷ dup6 ∷ dup7
    ∷ dup8 ∷ dup9 ∷ dup10 ∷ dup11 ∷ dup12 ∷ dup13 ∷ dup14 ∷ dup15 ∷ dup16 ∷ swap1 ∷ swap2 ∷ swap3
    ∷ swap4 ∷ swap5 ∷ swap6 ∷ swap7 ∷ swap8 ∷ swap9 ∷ swap10 ∷ swap11 ∷ swap12 ∷ swap13 ∷ swap14
    ∷ swap15 ∷ swap16 ∷ log0 ∷ log1 ∷ log2 ∷ log3 ∷ log4 ∷ create ∷ call ∷ call_code ∷ return
    ∷ delegate_call ∷ create2 ∷ revert ∷ static_call ∷ self_destruct ∷ []

-- The arms of the macro's `match`: `x if x == $name::$vname as u8 => Ok($name::$vname)`.
unfoldable pub first_with : ℕ → List Instruction → Option Instruction
first_with v [] = none
first_with v (i ∷ is) = if discriminant i == v then some i else first_with v is

unfoldable pub try_from : ℕ → Option Instruction
unfolding first_with discriminant
try_from v = first_with v variants
