-- ===== src/Raft/Quorum.antt =====
-- crates/raft/src/node.rs: what a quorum is good for.
pub mod Overlap
pub mod Reached
pub mod Decisions
