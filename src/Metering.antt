-- ===== src/Metering.antt =====
-- crates/metering: the rewriting of WebAssembly modules, which charges for each instruction.
pub mod Types
pub mod Operators
pub mod Sections
pub mod Code
pub mod Inject
pub mod Indices
pub mod Charges
pub mod Counts
pub mod Layout
pub mod Exports
pub mod Errors
mod Tests
