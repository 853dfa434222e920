-- ===== src/Raft/Keeps.antt =====
-- crates/raft/src/node.rs: the operations and the relations of `Advance`.
pub mod State
pub mod Replication
pub mod Election
pub mod Search
pub mod Follower
pub mod Step
pub mod Total
