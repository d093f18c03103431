-- ===== src/Evm/Ops.antt =====
-- crates/evm/lib.rs, `execute`: one action for each arm of the `match`, or for the arms that share
-- a body. An action for an arm takes what the arm reads of the loop: the code, the block, `pc`.
pub mod Arithmetic
pub mod Compare
pub mod Bits
pub mod Context
pub mod Memory
pub mod Copies
pub mod Control
pub mod Calls
