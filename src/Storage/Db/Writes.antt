-- ===== src/Storage/Db/Writes.antt =====
-- crates/storage/src/db.rs: writes, and opening a directory. A loop of compactions that does not end
-- within the rounds given is `none`; what an error leaves of a database is left out.
use raft_kv_engine_project.Base.{
  ℕ, ◌+◌, max, Option, none, some, List, [], ◌∷◌, leb, if◌then◌else◌, length,
}
use raft_kv_engine_project.Base.BTreeMap
use raft_kv_engine_project.Base.Bytes.{Bytes}
use raft_kv_engine_project.Storage.Batch.{Op}
use raft_kv_engine_project.Storage.Error.{Result, ok, err, io, ◌>>=◌, or_error}
use raft_kv_engine_project.Storage.MemTable
use raft_kv_engine_project.Storage.MemTable.{MemTable}
use raft_kv_engine_project.Storage.Wal
use raft_kv_engine_project.Storage.Wal.{WalBatch, File}
use raft_kv_engine_project.Storage.Manifest
use raft_kv_engine_project.Storage.Manifest.{Manifest, TableMeta}
use raft_kv_engine_project.Storage.SsTable.Reader.{SsTable, open_table}
use raft_kv_engine_project.Storage.Db.{Db, Dir, Formats, Options}
use raft_kv_engine_project.Storage.Db.Flush.{flush, or_one}
use raft_kv_engine_project.Storage.Db.Compact.{maybe_compact}

-- The loop over a batch, whose operations are numbered in turn.
unfoldable pub insert_ops : ℕ → List Op → MemTable → MemTable
insert_ops s [] mem = mem
insert_ops s ((k, v) ∷ ops) mem = insert_ops (s + 1) ops (MemTable.insert mem k s v)

-- The number of the last operation of a batch, or what it was.
unfoldable pub last_seq : ℕ → List Op → ℕ → ℕ
last_seq s [] seq = seq
last_seq s (op ∷ ops) seq = last_seq (s + 1) ops (max seq s)

unfoldable pub load_batches : List WalBatch → MemTable × ℕ → MemTable × ℕ
unfolding insert_ops last_seq
load_batches [] found = found
load_batches (b ∷ bs) (mem, seq) =
    load_batches bs (insert_ops b.first_seq b.ops mem, last_seq b.first_seq b.ops seq)

-- `unwrap_or_default`.
unfoldable pub or_default : Option Manifest → Manifest
or_default none = record { levels = []; next_table_id = 0; last_seq = 0 }
or_default (some m) = m

module _ (fmt : Formats) where
  -- The log and the memtable, before a flush.
  unfoldable pub apply_batch : Db → List Op → Db
  unfolding insert_ops
  apply_batch db ops = record db {
    wal = Wal.append fmt.wal db.wal (record { first_seq = db.seq + 1; ops = ops });
    mem = insert_ops (db.seq + 1) ops db.mem;
    seq = db.seq + length ops;
  }

  unfoldable pub flush_and_compact : ℕ → Db → Option (Result Db)
  flush_and_compact rounds db = elim (flush fmt db) [
    | err e ↦ some (err e)
    | ok flushed ↦ maybe_compact fmt rounds flushed
  ]

  unfoldable pub maybe_flush : ℕ → Db → Option (Result Db)
  unfolding flush_and_compact
  maybe_flush rounds db =
      if leb db.opts.memtable_bytes (MemTable.approx_bytes db.mem)
      then flush_and_compact rounds db
      else some (ok db)

  -- The number returned is that of the database afterwards.
  unfoldable pub write_batch : ℕ → Db → List Op → Option (Result Db)
  unfolding apply_batch maybe_flush
  write_batch rounds db [] = some (ok db)
  write_batch rounds db (op ∷ ops) = maybe_flush rounds (apply_batch db (op ∷ ops))

  unfoldable pub put : ℕ → Db → Bytes → Bytes → Option (Result Db)
  unfolding write_batch
  put rounds db key value = write_batch rounds db ((key, some value) ∷ [])

  unfoldable pub delete : ℕ → Db → Bytes → Option (Result Db)
  unfolding write_batch
  delete rounds db key = write_batch rounds db ((key, none) ∷ [])

  unfoldable pub open_tables : List (ℕ × Bytes) → List TableMeta → Result (List SsTable)
  open_tables files [] = ok []
  open_tables files (meta ∷ metas) = or_error (BTreeMap.get files meta.id) io >>= λ file.
      (open_table fmt.table file meta.id >>= λ t. (open_tables files metas >>= λ ts. ok (t ∷ ts)))

  unfoldable pub open_levels :
      List (ℕ × Bytes) → List (List TableMeta) → Result (List (List SsTable))
  unfolding open_tables
  open_levels files [] = ok []
  open_levels files (metas ∷ levels) =
      open_tables files metas >>= λ ts. (open_levels files levels >>= λ rest. ok (ts ∷ rest))

  -- The database before a flush of what the log held.
  unfoldable pub load : Dir → Option File → Options → Result Db
  unfolding or_default open_levels load_batches
  load dir log opts = Manifest.load fmt.manifest dir.manifest >>= λ found.
      (open_levels dir.tables (or_default found).levels >>= λ levels.
      (let (batches, kept) = Wal.replay fmt.wal log in
        let (mem, seq) = load_batches batches (MemTable.new, (or_default found).last_seq) in
        ok (record {
          dir = dir;
          opts = opts;
          mem = mem;
          wal = Wal.open_log kept opts.sync;
          levels = or_one levels;
          manifest = or_default found;
          seq = seq;
          snapshots = [];
        })))

  unfoldable pub open_db : ℕ → Dir → Option File → Options → Option (Result Db)
  unfolding load maybe_flush
  open_db rounds dir log opts = elim (load dir log opts) [
    | err e ↦ some (err e)
    | ok db ↦ maybe_flush rounds db
  ]
