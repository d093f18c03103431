-- ===== src/Evm.antt =====
-- crates/evm: the EVM interpreter and its account storage.
pub mod Instruction
pub mod Primitives
pub mod Storage
pub mod Machine
pub mod Ops
pub mod Dispatch
pub mod Execute
pub mod Invariant
mod Tests
mod Examples
