-- ===== src/Storage/Db.antt =====
-- crates/storage/src/db.rs: the engine. The directory of a database is its table files by number, the
-- two files of the manifest, and the log, which stands in `wal`; the three serializers are parameters.
use raft_kv_engine_project.Base.{
  ℕ, ◌+◌, ◌-◌, ◌*◌, Option, none, some, List, [], ◌∷◌, ◌==◌, if◌then◌else◌, not,
}
use raft_kv_engine_project.Base.BTreeMap
use raft_kv_engine_project.Base.Bytes.{Bytes}
use raft_kv_engine_project.Storage.Wal
use raft_kv_engine_project.Storage.Wal.{Wal, SyncPolicy, File}
use raft_kv_engine_project.Storage.MemTable.{MemTable}
use raft_kv_engine_project.Storage.Manifest
use raft_kv_engine_project.Storage.Manifest.{Manifest}
use raft_kv_engine_project.Storage.SsTable
use raft_kv_engine_project.Storage.SsTable.Reader.{SsTable}
pub mod Reads
pub mod Flush
pub mod Merging
pub mod Compact
pub mod Writes
pub mod Newest
pub mod Layers
pub mod PointReads
pub mod Flushed
pub mod Written
pub mod Isolation
pub mod Ordered
pub mod Decisions
pub mod Kept
pub mod Outputs
pub mod Merged
pub mod Compacted

pub record Options : Type 0 where
  pub memtable_bytes : ℕ
  pub sync : SyncPolicy
  pub l0_trigger : ℕ
  pub level_base_bytes : ℕ
  pub level_multiplier : ℕ
  pub target_table_bytes : ℕ
  pub block_bytes : ℕ
  pub bits_per_key : ℕ

abbrev pub default : Options
default = record {
  memtable_bytes = 4 * 1048576;
  sync = Wal.always;
  l0_trigger = 4;
  level_base_bytes = 32 * 1048576;
  level_multiplier = 10;
  target_table_bytes = 4 * 1048576;
  block_bytes = 4096;
  bits_per_key = 10;
}

pub record Formats : Type 0 where
  pub wal : Wal.Format
  pub table : SsTable.Format
  pub manifest : Manifest.Format

pub record Dir : Type 0 where
  pub tables : List (ℕ × Bytes)
  pub manifest : Manifest.Dir

-- The registry counts the live snapshots at each sequence number.
pub record Db : Type 0 where
  pub dir : Dir
  pub opts : Options
  pub mem : MemTable
  pub wal : Wal
  pub levels : List (List SsTable)
  pub manifest : Manifest
  pub seq : ℕ
  pub snapshots : List (ℕ × ℕ)

pub record Snapshot : Type 0 where
  pub seq : ℕ

-- `*reg.entry(self.seq).or_insert(0) += 1`.
unfoldable pub snapshot : Db → Snapshot × Db
snapshot db =
    let reg = BTreeMap.or_insert db.seq 0 db.snapshots in
    let count : ℕ = elim (BTreeMap.get reg db.seq) [ none ↦ 1 | some c ↦ c + 1 ] in
    (record { seq = db.seq }, record db { snapshots = BTreeMap.insert db.seq count reg })

-- `Drop for Snapshot`: a count that falls to zero is removed.
unfoldable pub release : Snapshot → Db → Db
release s db = elim (BTreeMap.get db.snapshots s.seq) [
  | none ↦ db
  | some c ↦ record db {
    snapshots =
        if c - 1 == 0
        then BTreeMap.retain_keys (λ k. not (k == s.seq)) db.snapshots
        else BTreeMap.insert s.seq (c - 1) db.snapshots;
  }
]

-- `self.snapshots.lock().unwrap().keys().next().copied().unwrap_or(self.seq)`.
unfoldable pub min_snapshot : Db → ℕ
min_snapshot db = elim (BTreeMap.keys db.snapshots) [ [] ↦ db.seq | k ∷ ks ↦ k ]
