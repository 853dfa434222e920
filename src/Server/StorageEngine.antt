-- ===== src/Server/StorageEngine.antt =====
-- crates/storage/src/db.rs as the engine of crates/server/src/logstore.rs. A loop of compactions that does
-- not end within the rounds given counts as a failure.
use raft_kv_engine_project.Base.{ℕ, suc, ◌^◌, ◌≡◌, ap, Option, none, some, List, ◌∷◌, ◌-◌}
use raft_kv_engine_project.Base.Bytes.{Bytes}
use raft_kv_engine_project.Storage.Batch.{Op, last_write}
use raft_kv_engine_project.Storage.Error.{Result, ok, err, panic, ◌>>=◌}
use raft_kv_engine_project.Storage.MemTable.{Entry}
use raft_kv_engine_project.Storage.SsTable.RoundTrip.{IsFaithful}
use raft_kv_engine_project.Storage.Db.{Db, Formats}
use raft_kv_engine_project.Storage.Db.Reads
use raft_kv_engine_project.Storage.Db.Flush.{flush}
use raft_kv_engine_project.Storage.Db.Compact.{due}
use raft_kv_engine_project.Storage.Db.Writes
use raft_kv_engine_project.Storage.Db.Writes.{apply_batch}
use raft_kv_engine_project.Storage.Db.Flushed.{FitsTable}
use raft_kv_engine_project.Storage.Db.Isolation.{Valid, write_batch-Sees}
use raft_kv_engine_project.Server.LogStore.{Engine}

module _ (fmt : Formats) (faithful : IsFaithful fmt.table) (rounds : ℕ) where
  abbrev pub ended : Option (Result Db) → Result Db
  ended none = err panic
  ended (some r) = r

  unfoldable pub write_or_fail : Db → List Op → Result Db
  write_or_fail db ops = ended (Writes.write_batch fmt (suc rounds) db ops)

  -- The database is valid, what it holds after the batch fits a table, and no compaction is due after a
  -- flush of it.
  pub record Accepts (db : Db) (ops : List Op) : Type 0 where
    pub upper : List Entry
    pub layers : List (List Entry)
    pub valid : Valid fmt db (upper ∷ layers)
    pub fits : FitsTable fmt faithful (apply_batch fmt db ops)
    pub calm :
        (flushed : Db) → flush fmt (apply_batch fmt db ops) ≡ ok flushed → due fmt flushed ≡ none

  -- A batch that the database accepts is written without an error, and changes every key as its last
  -- operation on the key says.
  pub get-write_batch :
      (db : Db) (ops : List Op)
      → Accepts db ops
      → (db' : Db) × (write_or_fail db ops ≡ ok db')
        × ((key : Bytes)
            → Reads.get fmt.table db' key
              ≡ (Reads.get fmt.table db key >>= λ old. ok (last_write ops key old)))
  unfolding write_or_fail
  get-write_batch db ops a =
      let (db', writes, sees) =
        write_batch-Sees fmt faithful rounds db a.upper a.layers ops a.valid a.fits a.calm in
      (db', ap ended writes, sees.reads)

  abbrev pub storage_engine : Engine
  storage_engine = record {
    Db = Db;
    get = Reads.get fmt.table;
    scan = λ db start end. Reads.scan fmt.table db start end (2 ^ 64 - 1);
    write_batch = write_or_fail;
    Accepts = Accepts;
    write_batch-Accepts = get-write_batch;
  }
