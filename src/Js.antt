-- ===== src/Js.antt =====
-- crates/js/lib.rs: the runtime of JavaScript contracts, over V8.
pub mod Run
pub mod Engine
pub mod Call
pub mod Keeps
pub mod Promises
mod Tests
