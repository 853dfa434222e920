-- ===== src/Storage.antt =====
-- crates/storage: the LSM engine.
pub mod MemTable
pub mod Visible
pub mod Merge
pub mod Bloom
pub mod Wal
pub mod Manifest
pub mod Error
pub mod SsTable
pub mod Batch
pub mod Db
pub mod Samples
mod Tests
mod DiskTests
mod DbTests
