-- ===== src/Storage/Db/Flush.antt =====
-- crates/storage/src/db.rs: the memtable written out as a table of level 0.
use raft_kv_engine_project.Base.{ℕ, zero, suc, ◌+◌, none, List, [], ◌∷◌, ◌++◌, if◌then◌else◌}
use raft_kv_engine_project.Base.BTreeMap
use raft_kv_engine_project.Storage.Error.{Result, ok, panic, ◌>>=◌, or_error}
use raft_kv_engine_project.Storage.MemTable
use raft_kv_engine_project.Storage.Wal
use raft_kv_engine_project.Storage.Manifest
use raft_kv_engine_project.Storage.Manifest.{Manifest, TableMeta}
use raft_kv_engine_project.Storage.SsTable.Builder.{create, add_all, finish}
use raft_kv_engine_project.Storage.SsTable.Reader.{open_table}
use raft_kv_engine_project.Storage.Db.{Db, Formats}

-- `levels[i].push(x)`, which panics past the levels.
unfoldable pub push_to {ℓ} : {A : Type ℓ} → ℕ → A → List (List A) → Result (List (List A))
push_to i x [] = or_error none panic
push_to zero x (l ∷ ls) = ok ((l ++ x ∷ []) ∷ ls)
push_to (suc i) x (l ∷ ls) = push_to i x ls >>= λ ls'. ok (l ∷ ls')

unfoldable pub or_one {ℓ} : {A : Type ℓ} → List (List A) → List (List A)
or_one [] = [] ∷ []
or_one (l ∷ ls) = l ∷ ls

-- The manifest with a new table of level 0.
unfoldable pub listed : Manifest → ℕ → TableMeta → Result Manifest
unfolding push_to or_one
listed m seq meta = push_to 0 meta (or_one m.levels) >>= λ levels.
    ok (record { levels = levels; next_table_id = m.next_table_id + 1; last_seq = seq })

module _ (fmt : Formats) where
  unfoldable pub flush : Db → Result Db
  unfolding listed push_to
  flush db =
      let id = db.manifest.next_table_id in
      if MemTable.is_empty db.mem
      then ok db
      else (add_all fmt.table (create db.opts.block_bytes db.opts.bits_per_key)
            (MemTable.iter db.mem)
          >>= λ b.
              (finish fmt.table b >>= λ (file, entries, bytes, min_key, max_key).
              (open_table fmt.table file id >>= λ table.
              (listed db.manifest db.seq (record {
                id = id;
                min_key = min_key;
                max_key = max_key;
                entries = entries;
                bytes = bytes;
              })
                >>= λ manifest.
                    (push_to 0 table db.levels >>= λ levels. ok (record db {
                      dir = record {
                        tables = BTreeMap.insert id file db.dir.tables;
                        manifest = Manifest.save fmt.manifest manifest db.dir.manifest;
                      };
                      mem = MemTable.new;
                      wal = Wal.reset db.wal;
                      levels = levels;
                      manifest = manifest;
                    }))))))
