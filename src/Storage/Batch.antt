-- ===== src/Storage/Batch.antt =====
-- The operations of a batch, which crates/storage/src/db.rs writes, and what they leave at a key.
use raft_kv_engine_project.Base.{Option, List, [], ◌∷◌, if◌then◌else◌}
use raft_kv_engine_project.Base.Bytes.{Bytes, bytes_eq}

abbrev pub Op : Type 0
Op = Bytes × Option Bytes

-- A later operation wins over an earlier one.
abbrev pub last_write : List Op → Bytes → Option Bytes → Option Bytes
last_write [] key old = old
last_write ((k, v) ∷ ops) key old = last_write ops key (if bytes_eq k key then v else old)
