-- ===== src/Executor.antt =====
-- crates/executor: what runs the interactions of a contract.
pub mod Runtimes
pub mod Context
pub mod Simulated
pub mod Sort
pub mod Raw
pub mod Contracts
pub mod Tests
