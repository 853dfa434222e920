-- ===== src/Server/Tests.antt =====
-- The log store of crates/server on the storage engine, and the theorems at concrete inputs.
use raft_kv_engine_project.Base.{
  ℕ, ◌^◌, ◌<◌, ◌≡◌, refl, sym, ap, subst, ◌∙◌, Option, none, some, List, [], ◌∷◌, arith, length,
  leb, if◌then◌else◌, inl,
}
use raft_kv_engine_project.Base.Bytes.{bytes_eq, bytes_lt, value_eq}
use raft_kv_engine_project.Raft.Types.{Snapshot, Entry, EntryPayload, Index}
use raft_kv_engine_project.Storage.Error.{Result, ok, err, ◌>>=◌}
use raft_kv_engine_project.Storage.Batch.{Op}
use raft_kv_engine_project.Storage.MemTable
use raft_kv_engine_project.Storage.Wal
use raft_kv_engine_project.Storage.Bloom
use raft_kv_engine_project.Storage.SsTable
use raft_kv_engine_project.Storage.SsTable.Builder
use raft_kv_engine_project.Storage.SsTable.Builder.{TableBuilder}
use raft_kv_engine_project.Storage.SsTable.Reader
use raft_kv_engine_project.Storage.SsTable.Built
use raft_kv_engine_project.Storage.Samples
use raft_kv_engine_project.Storage.Samples.{
  wal_format, table_format, table_format-IsFaithful, manifest_format,
}
use raft_kv_engine_project.Storage.Db
use raft_kv_engine_project.Storage.Db.{Db, Formats}
use raft_kv_engine_project.Storage.Db.Reads
use raft_kv_engine_project.Storage.Db.Flush
use raft_kv_engine_project.Storage.Db.Compact
use raft_kv_engine_project.Storage.Db.Writes
use raft_kv_engine_project.Storage.Db.Isolation.{Valid, apply_batch-Valid}
use raft_kv_engine_project.Server.LogStore
use raft_kv_engine_project.Server.LogStore.{Engine, Codec, LogStore}
use raft_kv_engine_project.Server.LogStore.Contents
use raft_kv_engine_project.Server.LogStore.Contents.{IsBounded, entry_at}
use raft_kv_engine_project.Server.LogStore.Bounds
use raft_kv_engine_project.Server.LogStore.Compaction
use raft_kv_engine_project.Server.StorageEngine
use raft_kv_engine_project.Server.StorageEngine.{storage_engine}

-- Values that fit a byte each, written as they are.
abbrev codec : Codec
codec = record {
  ser_hs = λ hs. hs.term ∷ [];
  de_hs = λ b. elim b [ [] ↦ none | t ∷ rest ↦ some (record { term = t; voted_for = none }) ];
  ser_snap = λ s. s.last_index ∷ s.last_term ∷ s.contents;
  de_snap = λ b. none;
  ser_entry = λ e. e.index ∷ e.term ∷ [];
  de_entry = λ b. elim b [
    | [] ↦ none
    | i ∷ rest ↦ elim rest [
      | [] ↦ none
      | t ∷ more ↦ some (record { term = t; index = i; payload = EntryPayload.noop })
    ]
  ];
}

abbrev formats : Formats
formats = record { wal = wal_format; table = table_format; manifest = manifest_format }

abbrev engine : Engine
engine = storage_engine formats table_format-IsFaithful 0

abbrev empty_db : Db
empty_db = record {
  dir = record { tables = []; manifest = record { current = none; tmp = none } };
  opts = Db.default;
  mem = MemTable.new;
  wal = Wal.open_log none Wal.always;
  levels = [] ∷ [];
  manifest = record { levels = [] ∷ []; next_table_id = 0; last_seq = 0 };
  seq = 0;
  snapshots = [];
}

empty_db-Valid : Valid formats empty_db ([] ∷ [])
empty_db-Valid = record {
  holds = record {
    ordered = tt;
    levels = (refl, tt);
    layered = (λ key snapshot. tt, (λ key snapshot. tt, tt));
  };
  mem_below = tt;
  layers_below = tt;
}

abbrev empty_store : LogStore engine codec
empty_store = record { db = empty_db; first_index = 0; last_index = 0 }

empty_store-IsBounded : IsBounded engine codec empty_store
unfolding Reads.get Reads.get_at Reads.get_levels Reads.best_of Reads.or_deeper MemTable.get
    MemTable.first_version
empty_store-IsBounded = record {
  outside = λ i low hi h. refl;
  inside = λ i low above under. absurd (omega (arith, low, under));
  empty = λ h. refl;
  ordered = omega arith;
  fits = omega arith;
}

abbrev two : List Entry
two =
    record { term = 1; index = 1; payload = EntryPayload.noop }
    ∷ record { term = 1; index = 2; payload = EntryPayload.noop }
    ∷ []

abbrev two_ops : List Op
two_ops =
    (101 ∷ 47 ∷ 0 ∷ 0 ∷ 0 ∷ 0 ∷ 0 ∷ 0 ∷ 0 ∷ 1 ∷ [], some (1 ∷ 1 ∷ []))
    ∷ (101 ∷ 47 ∷ 0 ∷ 0 ∷ 0 ∷ 0 ∷ 0 ∷ 0 ∷ 0 ∷ 2 ∷ [], some (2 ∷ 1 ∷ []))
    ∷ []

two-batch : (LogStore.persist_batch engine codec empty_store none two none).0 ≡ two_ops
unfolding LogStore.persist_batch LogStore.hard_state_ops LogStore.install LogStore.append
    LogStore.entry_key LogStore.to_be_bytes
two-batch = refl

index_bytes : Result TableBuilder → ℕ
index_bytes (err e) = 0
index_bytes (ok x) = length (table_format.serialize (Builder.table_index table_format x))

due_after : Result Db → Option ℕ
due_after (err e) = none
due_after (ok db) = Compact.due formats db

abbrev written : Db
written = Writes.apply_batch formats empty_db two_ops

two_index_bytes :
    index_bytes (Built.build_blocks table_format 4096 10 written.mem.versions) < 2 ^ 32
unfolding index_bytes Writes.apply_batch Writes.insert_ops MemTable.insert MemTable.insert_version
    MemTable.before Built.build_blocks Builder.add_all Builder.add Builder.note_entry
    Builder.note_hash Builder.or_first Builder.flush_block Builder.write_block Builder.table_index
    Builder.or_empty value_eq bytes_eq bytes_lt SsTable.entry_bytes SsTable.value_bytes Bloom.fnv1a
    Bloom.fnv1a_from Bloom.encode Bloom.from_hashes Bloom.add_hashes Bloom.add_hash
    Bloom.empty_filter Bloom.add_probes Bloom.set_bit Bloom.mix Bloom.to_le_bytes Samples.enc_via
    Samples.enc_pair Samples.enc_list Samples.enc_items
two_index_bytes = omega arith

two_calm : due_after (Flush.flush formats written) ≡ none
unfolding due_after Flush.flush Writes.apply_batch Writes.insert_ops MemTable.insert
    MemTable.insert_version MemTable.before bytes_eq bytes_lt Compact.due Compact.over_limit
    Built.build_blocks Builder.add_all Builder.add Builder.note_entry Builder.note_hash
    Builder.or_first Builder.flush_block Builder.write_block Builder.table_index Builder.or_empty
    value_eq SsTable.entry_bytes SsTable.value_bytes Bloom.fnv1a Bloom.fnv1a_from Bloom.encode
    Bloom.from_hashes Bloom.add_hashes Bloom.add_hash Bloom.empty_filter Bloom.add_probes
    Bloom.set_bit Bloom.mix Bloom.to_le_bytes Samples.enc_via Samples.enc_pair Samples.enc_list
    Samples.enc_items MemTable.is_empty MemTable.iter Builder.finish Reader.open_table
    SsTable.read_exact Samples.dec_via Samples.dec_pair Samples.dec_list Samples.dec_number
    Bloom.decode
two_calm = refl

two-Accepts : StorageEngine.Accepts formats table_format-IsFaithful 0 empty_db two_ops
unfolding index_bytes due_after Compact.due Writes.apply_batch Writes.insert_ops MemTable.insert
    MemTable.insert_version MemTable.before bytes_eq bytes_lt SsTable.entry_bytes
    SsTable.value_bytes
two-Accepts = record {
  upper = [];
  layers = [];
  valid = empty_db-Valid;
  fits = record {
    entries = omega arith;
    size = omega arith;
    index_size = λ x built_x. omega (arith, two_index_bytes, ap index_bytes built_x);
  };
  calm = λ flushed f. sym (ap due_after f) ∙ two_calm;
}

two-batch-Accepts :
    engine.Accepts empty_db (LogStore.persist_batch engine codec empty_store none two none).0
two-batch-Accepts =
    subst (StorageEngine.Accepts formats table_format-IsFaithful 0 empty_db) (sym two-batch)
      two-Accepts

persist-entry_at_example :
    (s' : LogStore engine codec) × (LogStore.persist engine codec empty_store none two none ≡ ok s')
    × (s'.first_index
        ≡ (LogStore.persist_batch engine codec empty_store none two none).1.first_index)
    × (s'.last_index ≡ (LogStore.persist_batch engine codec empty_store none two none).1.last_index)
    × ((i : Index)
        → 0 < i
        → i < 2 ^ 64
        → entry_at engine codec s' i ≡ (
            entry_at engine codec empty_store i >>= λ old.
            ok (Contents.replaced engine codec two i old)))
persist-entry_at_example =
    Contents.persist-entry_at engine codec empty_store empty_store-IsBounded none two none 0
      (refl, (refl, tt)) (omega arith) two-batch-Accepts

persist-IsBounded_example :
    (s' : LogStore engine codec) × (LogStore.persist engine codec empty_store none two none ≡ ok s')
    × IsBounded engine codec s'
unfolding LogStore.install
persist-IsBounded_example =
    Bounds.persist-IsBounded engine codec empty_store empty_store-IsBounded none two none 0
      (refl, (refl, tt)) (omega arith) (inl refl) two-batch-Accepts

-- The store after `two`.
abbrev stored : LogStore engine codec
stored = record { db = written; first_index = 1; last_index = 2 }

stored_run : LogStore.persist engine codec empty_store none two none ≡ ok stored
unfolding LogStore.persist LogStore.persist_batch LogStore.hard_state_ops LogStore.install
    LogStore.append LogStore.write LogStore.last_of StorageEngine.write_or_fail Writes.write_batch
    Writes.maybe_flush LogStore.entry_key LogStore.to_be_bytes Writes.apply_batch Writes.insert_ops
    MemTable.insert MemTable.insert_version MemTable.approx_bytes MemTable.value_size
stored_run = refl

stored-IsBounded : IsBounded engine codec stored
unfolding LogStore.install
stored-IsBounded =
    let (s', persists, bounded) =
      Bounds.persist-IsBounded engine codec empty_store empty_store-IsBounded none two none 0
        (refl, (refl, tt)) (omega arith) (inl refl) two-batch-Accepts in
    subst (IsBounded engine codec) (same_store (sym persists ∙ stored_run)) bounded
  where
    same_store :
        {x y : LogStore engine codec}
        → ◌≡◌ {A = Result (LogStore engine codec)} (ok x) (ok y)
        → x ≡ y
    same_store h = cc

abbrev up_to_one : Snapshot
up_to_one = record { last_index = 1; last_term = 1; voters = 1 ∷ []; contents = [] }

abbrev compact_ops : List Op
compact_ops =
    (109 ∷ 47 ∷ 115 ∷ 110 ∷ 97 ∷ 112 ∷ [], some (1 ∷ 1 ∷ []))
    ∷ (101 ∷ 47 ∷ 0 ∷ 0 ∷ 0 ∷ 0 ∷ 0 ∷ 0 ∷ 0 ∷ 1 ∷ [], none)
    ∷ []

compact_batch_run : LogStore.compact_batch engine codec stored up_to_one ≡ compact_ops
unfolding LogStore.compact_batch LogStore.covers LogStore.deletions LogStore.entry_key
    LogStore.to_be_bytes
compact_batch_run = refl

abbrev rewritten : Db
rewritten = Writes.apply_batch formats written compact_ops

compact_index_bytes :
    index_bytes (Built.build_blocks table_format 4096 10 rewritten.mem.versions) < 2 ^ 32
unfolding index_bytes Writes.apply_batch Writes.insert_ops MemTable.insert MemTable.insert_version
    MemTable.before Built.build_blocks Builder.add_all Builder.add Builder.note_entry
    Builder.note_hash Builder.or_first Builder.flush_block Builder.write_block Builder.table_index
    Builder.or_empty value_eq bytes_eq bytes_lt SsTable.entry_bytes SsTable.value_bytes Bloom.fnv1a
    Bloom.fnv1a_from Bloom.encode Bloom.from_hashes Bloom.add_hashes Bloom.add_hash
    Bloom.empty_filter Bloom.add_probes Bloom.set_bit Bloom.mix Bloom.to_le_bytes Samples.enc_via
    Samples.enc_pair Samples.enc_list Samples.enc_items
compact_index_bytes = omega arith

compact_calm : due_after (Flush.flush formats rewritten) ≡ none
unfolding due_after Flush.flush Writes.apply_batch Writes.insert_ops MemTable.insert
    MemTable.insert_version MemTable.before bytes_eq bytes_lt Compact.due Compact.over_limit
    Built.build_blocks Builder.add_all Builder.add Builder.note_entry Builder.note_hash
    Builder.or_first Builder.flush_block Builder.write_block Builder.table_index Builder.or_empty
    value_eq SsTable.entry_bytes SsTable.value_bytes Bloom.fnv1a Bloom.fnv1a_from Bloom.encode
    Bloom.from_hashes Bloom.add_hashes Bloom.add_hash Bloom.empty_filter Bloom.add_probes
    Bloom.set_bit Bloom.mix Bloom.to_le_bytes Samples.enc_via Samples.enc_pair Samples.enc_list
    Samples.enc_items MemTable.is_empty MemTable.iter Builder.finish Reader.open_table
    SsTable.read_exact Samples.dec_via Samples.dec_pair Samples.dec_list Samples.dec_number
    Bloom.decode
compact_calm = refl

compact-Accepts : StorageEngine.Accepts formats table_format-IsFaithful 0 written compact_ops
unfolding index_bytes due_after Compact.due Writes.apply_batch Writes.insert_ops MemTable.insert
    MemTable.insert_version MemTable.before bytes_eq bytes_lt SsTable.entry_bytes
    SsTable.value_bytes
compact-Accepts = record {
  upper = [];
  layers = [];
  valid = apply_batch-Valid formats empty_db ([] ∷ []) empty_db-Valid two_ops;
  fits = record {
    entries = omega arith;
    size = omega arith;
    index_size = λ x built_x. omega (arith, compact_index_bytes, ap index_bytes built_x);
  };
  calm = λ flushed f. sym (ap due_after f) ∙ compact_calm;
}

compact_to-entry_at_example :
    (s' : LogStore engine codec) × (LogStore.compact_to engine codec stored up_to_one ≡ ok s')
    × ((i : Index)
        → 0 < i
        → i < 2 ^ 64
        → entry_at engine codec s' i
          ≡ (entry_at engine codec stored i >>= λ old. ok (if leb i 1 then none else old)))
compact_to-entry_at_example =
    Compaction.compact_to-entry_at engine codec stored stored-IsBounded up_to_one (
      subst (StorageEngine.Accepts formats table_format-IsFaithful 0 written)
        (sym compact_batch_run) compact-Accepts)
