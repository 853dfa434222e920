-- ===== src/Raft.antt =====
-- crates/raft: the sans-IO consensus core.
pub mod Types
pub mod Log
pub mod Node
pub mod Replication
pub mod Election
pub mod Follower
pub mod Leader
pub mod Step
pub mod Conflict
pub mod Quiet
pub mod Advance
pub mod Keeps
pub mod Safety
mod Tests
pub mod Quorum
