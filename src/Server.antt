-- ===== src/Server.antt =====
-- crates/server: the host of the replicated store.
pub mod LogStore
pub mod StorageEngine
mod Tests
