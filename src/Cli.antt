-- ===== src/Cli.antt =====
-- crates/cli: the dry run of a contract, and the messages between nodes.
pub mod DryRun
pub mod Node
mod Tests
