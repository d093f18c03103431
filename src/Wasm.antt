-- ===== src/Wasm.antt =====
-- crates/wasm/lib.rs: the runtime of WebAssembly contracts, over V8.
pub mod Memory
pub mod Runtime
pub mod Regions
pub mod Cost
pub mod ReadState
mod Tests
