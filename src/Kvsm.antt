-- ===== src/Kvsm.antt =====
-- crates/kvsm: the replicated key-value state machine.
pub mod Backend
pub mod Machine
pub mod Dedup
pub mod Effect
pub mod Snapshots
mod Tests
