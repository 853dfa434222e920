-- ===== src/Storage/DbTests.antt =====
-- Runs of crates/storage/src/db.rs on concrete inputs, and the theorems at them.
use raft_kv_engine_project.Base.{
  ◌==◌, ◌≤◌, All, if◌then◌else◌, ℕ, ◌+◌, ◌^◌, true, ◌<◌, ◌≡◌, refl, sym, ap, ◌∙◌, Option, none,
  some, List, [], ◌∷◌, ◌++◌, arith, length,
}
use raft_kv_engine_project.Base.Bytes.{Bytes, bytes_eq, bytes_lt, value_eq}
use raft_kv_engine_project.Storage.Batch.{Op}
use raft_kv_engine_project.Storage.Error.{Result, ok, err}
use raft_kv_engine_project.Storage.MemTable
use raft_kv_engine_project.Storage.MemTable.{Entry, newest}
use raft_kv_engine_project.Storage.Wal
use raft_kv_engine_project.Storage.Bloom
use raft_kv_engine_project.Storage.SsTable
use raft_kv_engine_project.Storage.SsTable.Builder
use raft_kv_engine_project.Storage.SsTable.Builder.{TableBuilder}
use raft_kv_engine_project.Storage.SsTable.Reader
use raft_kv_engine_project.Storage.SsTable.Built
use raft_kv_engine_project.Storage.SsTable.Layout.{all_entries}
use raft_kv_engine_project.Storage.SsTable.RoundTrip
use raft_kv_engine_project.Storage.Samples
use raft_kv_engine_project.Storage.Samples.{
  wal_format, table_format, table_format-IsFaithful, manifest_format,
}
use raft_kv_engine_project.Storage.DiskTests.{
  a, b, versions, versions-IsOrdered, versions-Fits, built, built_blocks, index_fits,
}
use raft_kv_engine_project.Storage.Db
use raft_kv_engine_project.Storage.Db.{Db, Formats}
use raft_kv_engine_project.Storage.Db.Reads
use raft_kv_engine_project.Storage.Db.Flush
use raft_kv_engine_project.Storage.Db.Compact
use raft_kv_engine_project.Storage.Db.Writes
use raft_kv_engine_project.Storage.Db.Merging
use raft_kv_engine_project.Storage.Db.Merging.{Output}
use raft_kv_engine_project.Storage.Db.Ordered.{IsMerged}
use raft_kv_engine_project.Storage.Db.Kept.{kept, Agree, kept-Agree}
use raft_kv_engine_project.Storage.Db.Outputs.{AreOutputs}
use raft_kv_engine_project.Storage.Db.Merged.{merged-IsMerged}
use raft_kv_engine_project.Storage.Db.Compacted.{compaction-Agree}
use raft_kv_engine_project.Storage.Merge
use raft_kv_engine_project.Storage.Visible
use mathlib.Core.List.{Perm}
use raft_kv_engine_project.Storage.Db.Newest.{Over, value_of}
use raft_kv_engine_project.Storage.Db.Layers.{TableHolds, Holds}
use raft_kv_engine_project.Storage.Db.PointReads.{get_at-Holds}
use raft_kv_engine_project.Storage.Db.Flushed.{FitsTable, flush-Holds}
use raft_kv_engine_project.Storage.Db.Isolation.{Valid, Sees, apply_batch-Valid, write_batch-Sees}

abbrev formats : Formats
formats = record { wal = wal_format; table = table_format; manifest = manifest_format }

-- A database with `versions` in a table of level 0, whose memtable is full with any entry.
abbrev on_disk : Db
on_disk = record {
  dir = record { tables = []; manifest = record { current = none; tmp = none } };
  opts = record Db.default { memtable_bytes = 1; block_bytes = 32 };
  mem = MemTable.new;
  wal = Wal.open_log none Wal.always;
  levels = (RoundTrip.table_of table_format table_format-IsFaithful built 7 ∷ []) ∷ [];
  manifest = record { levels = [] ∷ []; next_table_id = 8; last_seq = 5 };
  seq = 5;
  snapshots = [];
}

Over-none : (o : Option Entry) → Over o none
Over-none none = tt
Over-none (some x) = tt

table_holds :
    TableHolds table_format
      (RoundTrip.table_of table_format table_format-IsFaithful built 7)
      versions
unfolding SsTable.entry_bytes SsTable.value_bytes
table_holds =
    let (blocks, _, table, same) =
      RoundTrip.built-IsTable table_format table_format-IsFaithful 32 10 7 versions built
        built_blocks versions-IsOrdered versions-Fits (omega arith) (omega arith) index_fits in
    record { blocks = blocks; table = table; same = same }

on_disk-Valid : Valid formats on_disk (versions ∷ [])
on_disk-Valid = record {
  holds = record {
    ordered = tt;
    levels = ((versions, [], table_holds, refl, refl), tt);
    layered = (λ key snapshot. tt, (λ key snapshot. Over-none (newest key snapshot versions), tt));
  };
  mem_below = tt;
  layers_below = omega arith;
}

abbrev ops : List Op
ops = (a, some (54 ∷ [])) ∷ (b, none) ∷ []

abbrev written : Db
written = Writes.apply_batch formats on_disk ops

get_at-Holds_example :
    Reads.get_at table_format written a 6
    ≡ ok (value_of (newest a 6 (written.mem.versions ++ all_entries (versions ∷ []))))
get_at-Holds_example =
    get_at-Holds table_format a 6 written (versions ∷ [])
      (apply_batch-Valid formats on_disk (versions ∷ []) on_disk-Valid ops).holds

index_bytes : Result TableBuilder → ℕ
index_bytes (err e) = 0
index_bytes (ok x) = length (table_format.serialize (Builder.table_index table_format x))

index_bytes_bound :
    index_bytes (Built.build_blocks table_format 32 10 written.mem.versions) < 2 ^ 32
unfolding index_bytes Writes.apply_batch Writes.insert_ops MemTable.insert MemTable.insert_version
    MemTable.before Built.build_blocks Builder.add_all Builder.add Builder.note_entry
    Builder.note_hash Builder.or_first Builder.flush_block Builder.write_block Builder.table_index
    Builder.or_empty value_eq bytes_eq bytes_lt SsTable.entry_bytes SsTable.value_bytes Bloom.fnv1a
    Bloom.fnv1a_from Bloom.encode Bloom.from_hashes Bloom.add_hashes Bloom.add_hash
    Bloom.empty_filter Bloom.add_probes Bloom.set_bit Bloom.mix Bloom.to_le_bytes Samples.enc_via
    Samples.enc_pair Samples.enc_list Samples.enc_items
index_bytes_bound = omega arith

written-FitsTable : FitsTable formats table_format-IsFaithful written
unfolding index_bytes Writes.apply_batch Writes.insert_ops MemTable.insert MemTable.insert_version
    MemTable.before bytes_eq bytes_lt SsTable.entry_bytes SsTable.value_bytes
written-FitsTable = record {
  entries = omega arith;
  size = omega arith;
  index_size = λ x built_x. omega (arith, index_bytes_bound, ap index_bytes built_x);
}

due_after : Result Db → Option ℕ
due_after (err e) = none
due_after (ok db) = Compact.due formats db

flush_calm : due_after (Flush.flush formats written) ≡ none
unfolding due_after Flush.flush Writes.apply_batch Writes.insert_ops MemTable.insert
    MemTable.insert_version MemTable.before bytes_eq bytes_lt Compact.due Compact.over_limit
    Built.build_blocks Builder.add_all Builder.add Builder.note_entry Builder.note_hash
    Builder.or_first Builder.flush_block Builder.write_block Builder.table_index Builder.or_empty
    value_eq SsTable.entry_bytes SsTable.value_bytes Bloom.fnv1a Bloom.fnv1a_from Bloom.encode
    Bloom.from_hashes Bloom.add_hashes Bloom.add_hash Bloom.empty_filter Bloom.add_probes
    Bloom.set_bit Bloom.mix Bloom.to_le_bytes Samples.enc_via Samples.enc_pair Samples.enc_list
    Samples.enc_items MemTable.is_empty MemTable.iter Builder.finish Reader.open_table
    SsTable.read_exact Samples.dec_via Samples.dec_pair Samples.dec_list Samples.dec_number
    Bloom.decode
flush_calm = refl

flush-Holds_example :
    (flushed : Db) × (Flush.flush formats written ≡ ok flushed)
    × Holds table_format flushed ((versions ++ written.mem.versions) ∷ [])
    × (flushed.mem.versions ≡ [])
    × (flushed.seq ≡ written.seq)
    × ((key : Bytes) (snapshot : ℕ)
        → Reads.get_at table_format flushed key snapshot
          ≡ Reads.get_at table_format written key snapshot)
flush-Holds_example =
    flush-Holds formats table_format-IsFaithful written versions []
      (apply_batch-Valid formats on_disk (versions ∷ []) on_disk-Valid ops).holds written-FitsTable

write_batch-Sees_example :
    (after_it : Db) × (Writes.write_batch formats 1 on_disk ops ≡ some (ok after_it))
    × Sees formats on_disk ops after_it
unfolding Compact.due due_after
write_batch-Sees_example =
    write_batch-Sees formats table_format-IsFaithful 0 on_disk versions [] ops on_disk-Valid
      written-FitsTable (λ flushed f. sym (ap due_after f) ∙ flush_calm)

versions-IsMerged : IsMerged versions
unfolding bytes_lt
versions-IsMerged = ground arith

-- At snapshot 3 and above, a compaction to the bottom drops the first value of `a`.
kept-Agree_example :
    Agree 3 true a 4 (newest a 4 (kept 3 true Merging.start versions)) (newest a 4 versions)
kept-Agree_example = kept-Agree 3 true a 4 versions (omega arith) versions-IsMerged

kept_run :
    kept 3 true Merging.start versions
    ≡ record { key = a; seq = 5; value = none }
      ∷ record { key = a; seq = 3; value = some (51 ∷ []) }
      ∷ record { key = b; seq = 4; value = some (52 ∷ []) }
      ∷ []
unfolding kept Merging.decide Merging.enter_key Merging.new_key Merging.was_written
    Merging.is_tombstone value_eq bytes_eq
kept_run = refl

abbrev content : Bytes → ℕ → Option Bytes
content key seq = if seq == 5 then none else some ((48 + seq) ∷ [])

-- The versions in two tables.
abbrev sources : List (List Entry)
sources =
    (record { key = a; seq = 5; value = none }
      ∷ record { key = b; seq = 4; value = some (52 ∷ []) }
      ∷ [])
    ∷ (record { key = a; seq = 3; value = some (51 ∷ []) }
        ∷ record { key = a; seq = 1; value = some (49 ∷ []) }
        ∷ [])
    ∷ []

sources-IsMerged : All IsMerged sources
unfolding bytes_lt
sources-IsMerged = ground arith

merged-IsMerged_example :
    IsMerged (Reads.merged 4 (Merge.new sources))
    × Perm (Reads.merged 4 (Merge.new sources)) (all_entries sources)
merged-IsMerged_example = merged-IsMerged sources sources-IsMerged

merged_run : Reads.merged 4 (Merge.new sources) ≡ versions
unfolding Reads.merged Merge.next Merge.best_from Merge.takes Merge.next_of MemTable.before bytes_lt
    bytes_eq
merged_run = refl

compaction-Agree_example :
    (out : Output) × (groups : List (List Entry)) × (Merging.merge_loop formats Db.default 3 true
        Merging.start
        (record { builder = none; out_bytes = 0; next_id = 8; outputs = [] })
        (Reads.merged 4 (Merge.new sources))
      ≡ ok out)
    × AreOutputs formats table_format-IsFaithful Db.default 8 out.outputs groups
    × ((key : Bytes) (snapshot : ℕ)
        → 3 ≤ snapshot
        → Agree 3 true key snapshot
            (newest key snapshot (all_entries groups))
            (newest key snapshot (all_entries sources)))
compaction-Agree_example =
    compaction-Agree formats table_format-IsFaithful Db.default 3 true content 8 sources
      sources-IsMerged (ground arith)

-- A scan with a limit of 0 returns a pair.
scan_run :
    Reads.scan table_format
      (record on_disk {
        mem = record {
          versions = record { key = a; seq = 1; value = some (49 ∷ []) } ∷ [];
          bytes = 26;
        };
        levels = [] ∷ [];
      })
      []
      none
      0
    ≡ ok ((a, 49 ∷ []) ∷ [])
unfolding Reads.scan Reads.scan_at Reads.sources_of Reads.all_tables Reads.merged Reads.select
    Reads.reaches Merge.next Merge.best_from Merge.takes Merge.next_of MemTable.before MemTable.iter
    bytes_lt bytes_eq Visible.collect Visible.is_current
scan_run = refl
