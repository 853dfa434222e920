-- ===== src/Storage/DiskTests.antt =====
-- Runs of the files of crates/storage on concrete inputs, and the theorems at them.
use raft_kv_engine_project.Base.{
  ◌+◌, ◌≤◌, ℕ, ◌^◌, ◌<◌, ◌≡◌, ◌⊎◌, inl, inr, refl, none, some, List, [], ◌∷◌, ◌++◌, arith, length,
  take, All,
}
use raft_kv_engine_project.Base.Bytes.{Bytes, bytes_eq, bytes_lt, value_eq}
use raft_kv_engine_project.Storage.MemTable.{Entry, IsOrdered}
use raft_kv_engine_project.Storage.Bloom
use raft_kv_engine_project.Storage.Error.{ok, err, corruption, ◌>>=◌}
use raft_kv_engine_project.Storage.Samples
use raft_kv_engine_project.Storage.Samples.{
  wal_format, wal_format-IsFaithful, table_format, table_format-IsFaithful, manifest_format,
  manifest_format-IsFaithful,
}
use raft_kv_engine_project.Storage.Wal
use raft_kv_engine_project.Storage.Wal.{WalBatch, always, never}
use raft_kv_engine_project.Storage.Wal.Recovery
use raft_kv_engine_project.Storage.Manifest
use raft_kv_engine_project.Storage.Manifest.{Dir}
use raft_kv_engine_project.Storage.Manifest.Crash
use raft_kv_engine_project.Storage.SsTable
use raft_kv_engine_project.Storage.SsTable.Builder
use raft_kv_engine_project.Storage.SsTable.Builder.{TableBuilder}
use raft_kv_engine_project.Storage.SsTable.Reader
use raft_kv_engine_project.Storage.SsTable.Coding
use raft_kv_engine_project.Storage.SsTable.Torn
use raft_kv_engine_project.Storage.SsTable.Built
use raft_kv_engine_project.Storage.SsTable.Scanning
use raft_kv_engine_project.Storage.SsTable.Iteration
use raft_kv_engine_project.Storage.SsTable.RoundTrip

abbrev pub a : Bytes
a = 97 ∷ []

abbrev pub b : Bytes
b = 98 ∷ []

abbrev b4 : Entry
b4 = record { key = b; seq = 4; value = some (52 ∷ []) }

-- A tombstone and two values of `a`, and a value of `b`.
abbrev pub versions : List Entry
versions =
    record { key = a; seq = 5; value = none }
    ∷ record { key = a; seq = 3; value = some (51 ∷ []) }
    ∷ record { key = a; seq = 1; value = some (49 ∷ []) }
    ∷ b4
    ∷ []

pub versions-IsOrdered : IsOrdered versions
unfolding bytes_lt bytes_eq
versions-IsOrdered = ground arith

abbrev batches : List WalBatch
batches =
    record { first_seq = 1; ops = (a, some (49 ∷ [])) ∷ [] }
    ∷ record { first_seq = 2; ops = (a, none) ∷ (b, some (52 ∷ [])) ∷ [] }
    ∷ []

batches-Fits : Recovery.Fits wal_format batches
unfolding Samples.enc_via Samples.enc_pair Samples.enc_list Samples.enc_option
batches-Fits = omega arith

-- Of a log of two batches, 30 bytes survive.
replay-crashed_example :
    (k : ℕ) × (synced : ℕ) × (Wal.replay wal_format
        (some (Recovery.crashed wal_format wal_format-IsFaithful never 30 batches))
      ≡ (
        take k batches,
        some (record { contents = Recovery.frames wal_format (take k batches); synced = synced }),
      ))
    × (length (Recovery.frames wal_format (take k batches))
        ≤ length (Recovery.crashed wal_format wal_format-IsFaithful never 30 batches).contents)
    × (k < length batches
        → length (Recovery.crashed wal_format wal_format-IsFaithful never 30 batches).contents
          < length (Recovery.frames wal_format (take (k + 1) batches)))
    × (Wal.replay wal_format
          (Wal.replay wal_format
            (some (Recovery.crashed wal_format wal_format-IsFaithful never 30 batches))).1
        ≡ Wal.replay wal_format
            (some (Recovery.crashed wal_format wal_format-IsFaithful never 30 batches)))
replay-crashed_example =
    Recovery.replay-crashed wal_format wal_format-IsFaithful never 30 batches batches-Fits

replay_durable_example :
    (Wal.replay wal_format
      (some (Recovery.crashed wal_format wal_format-IsFaithful always 0 batches))).0
    ≡ batches
replay_durable_example =
    Recovery.replay_durable wal_format wal_format-IsFaithful 0 batches batches-Fits

pub versions-Fits : All Coding.Fits versions
versions-Fits = omega arith

decode_block_torn_example :
    SsTable.decode_block (Coding.block_bytes versions ++ take 12 (SsTable.entry_bytes b4))
    ≡ err corruption
unfolding SsTable.entry_bytes
decode_block_torn_example =
    Torn.decode_block_torn versions b4 12 versions-Fits (omega arith) (omega arith) (omega arith)

build_blocks-Holds_example :
    (x : TableBuilder) × (blocks : List (List Entry)) × (Built.build_blocks table_format 32 10
        versions
      ≡ ok x)
    × Built.Holds table_format x versions blocks []
build_blocks-Holds_example = Built.build_blocks-Holds table_format 32 10 versions

-- The builder at the end, with blocks of 32 bytes or a little more.
unfoldable pub built : TableBuilder
unfolding Built.build_blocks
built = elim (Built.build_blocks table_format 32 10 versions) [
  | ok x ↦ x
  | err e ↦ Builder.create 0 0
]

pub built_blocks : Built.build_blocks table_format 32 10 versions ≡ ok built
unfolding built Built.build_blocks Builder.add_all Builder.add Builder.note_entry Builder.note_hash
    Builder.or_first Builder.flush_block Builder.write_block Builder.table_index Builder.or_empty
    value_eq bytes_eq SsTable.entry_bytes SsTable.value_bytes Bloom.fnv1a Bloom.fnv1a_from
built_blocks = refl

pub index_fits : length (table_format.serialize (Builder.table_index table_format built)) < 2 ^ 32
unfolding built Built.build_blocks Builder.add_all Builder.add Builder.note_entry Builder.note_hash
    Builder.or_first Builder.flush_block Builder.write_block Builder.table_index Builder.or_empty
    value_eq bytes_eq SsTable.entry_bytes SsTable.value_bytes Bloom.fnv1a Bloom.fnv1a_from
    Bloom.encode Bloom.from_hashes Bloom.add_hashes Bloom.add_hash Bloom.empty_filter
    Bloom.add_probes Bloom.set_bit Bloom.mix Bloom.to_le_bytes Samples.enc_via Samples.enc_pair
    Samples.enc_list Samples.enc_items
index_fits = omega arith

get-build_blocks_example :
    (Reader.open_table table_format (RoundTrip.file_of table_format table_format-IsFaithful built) 7
      >>= λ t. Reader.get table_format t a 4)
    ≡ ok (Scanning.lookup a 4 versions)
unfolding SsTable.entry_bytes SsTable.value_bytes
get-build_blocks_example =
    RoundTrip.get-build_blocks table_format table_format-IsFaithful 32 10 7 versions built a 4
      built_blocks versions-IsOrdered versions-Fits (omega arith) (omega arith) index_fits

collect-build_blocks_example :
    (Reader.open_table table_format (RoundTrip.file_of table_format table_format-IsFaithful built) 7
      >>= λ t. Iteration.collect table_format 5 (Iteration.iter t))
    ≡ ok versions
unfolding SsTable.entry_bytes SsTable.value_bytes
collect-build_blocks_example =
    RoundTrip.collect-build_blocks table_format table_format-IsFaithful 32 10 7 5 versions built
      built_blocks versions-IsOrdered versions-Fits (omega arith) (omega arith) index_fits
      (omega arith)

abbrev old_manifest : Manifest.Manifest
old_manifest = record { levels = []; next_table_id = 1; last_seq = 0 }

abbrev new_manifest : Manifest.Manifest
new_manifest = record {
  levels = (record { id = 1; min_key = a; max_key = b; entries = 4; bytes = 90 } ∷ []) ∷ [];
  next_table_id = 2;
  last_seq = 5;
}

abbrev no_files : Dir
no_files = record { current = none; tmp = none }

abbrev saved : Dir
saved = record { current = some (Manifest.file_bytes manifest_format old_manifest); tmp = none }

saved-read : Manifest.read_file manifest_format saved.current ≡ ok (some old_manifest)
unfolding Manifest.read_file Manifest.file_bytes Samples.enc_via Samples.enc_pair Samples.enc_list
    Samples.enc_items Samples.dec_via Samples.dec_pair Samples.dec_list Samples.dec_items
    Samples.dec_number
saved-read = refl

load-save_example :
    Manifest.load manifest_format (Manifest.save manifest_format new_manifest saved)
    ≡ ok (some new_manifest)
load-save_example = Crash.load-save manifest_format manifest_format-IsFaithful new_manifest saved

-- The manifest in place is removed, the temporary file not renamed.
abbrev between : Manifest.Dir
between = record { current = none; tmp = some (Manifest.file_bytes manifest_format new_manifest) }

load-Crashed_example :
    (Manifest.load manifest_format between ≡ ok (some old_manifest))
    ⊎ (Manifest.load manifest_format between ≡ ok (some new_manifest))
unfolding Manifest.save_calls Manifest.perform
load-Crashed_example =
    Crash.load-Crashed manifest_format manifest_format-IsFaithful old_manifest new_manifest saved
      between saved-read (inr (inr (inr (inl refl))))

load-interrupted_twice_example :
    Manifest.Crashed manifest_format new_manifest saved between
    × (Manifest.load manifest_format between ≡ ok (some new_manifest))
    × Manifest.Crashed manifest_format old_manifest between (record {
      current = none;
      tmp = some (take 3 (Manifest.file_bytes manifest_format old_manifest));
    })
    × (Manifest.load manifest_format (record {
      current = none;
      tmp = some (take 3 (Manifest.file_bytes manifest_format old_manifest));
    })
        ≡ ok none)
load-interrupted_twice_example =
    Crash.load-interrupted_twice manifest_format manifest_format-IsFaithful new_manifest
      old_manifest saved 3 (omega arith)
