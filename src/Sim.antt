-- ===== src/Sim.antt =====
-- crates/sim: the deterministic simulator.
pub mod Rng
pub mod History
pub mod Wgl
mod Tests
