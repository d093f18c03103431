-- ===== src/Arweave.antt =====
-- crates/arweave: the records of the gateway, the client, and the caches.
pub mod Gql
pub mod Codecs
pub mod Contract
pub mod SortKey
pub mod Cache
pub mod Gateway
pub mod Interactions
pub mod Http
pub mod Load
pub mod Tests
