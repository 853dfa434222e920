-- ===== src/Storage/SsTable/Builder.antt =====
-- crates/storage/src/sstable.rs: the builder of a table, whose file is the bytes written so far.
use raft_kv_engine_project.Base.{
  ℕ, ◌+◌, ◌%◌, ◌^◌, max, Option, none, some, List, [], ◌∷◌, ◌++◌, leb, if◌then◌else◌, length,
}
use raft_kv_engine_project.Base.Bytes.{Bytes, value_eq}
use raft_kv_engine_project.Base.LittleEndian.{to_le_bytes}
use raft_kv_engine_project.Storage.Error.{Result, ok, panic, ◌>>=◌, or_error}
use raft_kv_engine_project.Storage.MemTable.{Entry}
use raft_kv_engine_project.Storage.Bloom
use raft_kv_engine_project.Storage.Bloom.{fnv1a, from_hashes}
use raft_kv_engine_project.Storage.SsTable.{BlockMeta, TableIndex, Format, magic, entry_bytes}

pub record TableBuilder : Type 0 where
  pub file : Bytes
  pub block : Bytes
  pub block_first_key : Option Bytes
  pub blocks : List BlockMeta
  pub offset : ℕ
  pub key_hashes : List ℕ
  pub last_user_key : Option Bytes
  pub entry_count : ℕ
  pub min_key : Option Bytes
  pub max_key : Option Bytes
  pub max_seq : ℕ
  pub block_bytes : ℕ
  pub bits_per_key : ℕ

abbrev pub create : ℕ → ℕ → TableBuilder
create block_bytes bits_per_key = record {
  file = [];
  block = [];
  block_first_key = none;
  blocks = [];
  offset = 0;
  key_hashes = [];
  last_user_key = none;
  entry_count = 0;
  min_key = none;
  max_key = none;
  max_seq = 0;
  block_bytes = block_bytes;
  bits_per_key = bits_per_key;
}

-- The key, if there is none yet.
unfoldable pub or_first : Option Bytes → Bytes → Option Bytes
or_first none key = some key
or_first (some k) key = some k

-- One Bloom hash per distinct user key.
unfoldable pub note_hash : TableBuilder → Bytes → TableBuilder
note_hash b key =
    let seen = value_eq b.last_user_key (some key) in
    record b {
      key_hashes = if seen then b.key_hashes else b.key_hashes ++ fnv1a key ∷ [];
      last_user_key = if seen then b.last_user_key else some key;
    }

-- The fields that `add` keeps of its entries.
unfoldable pub note_entry : TableBuilder → Bytes → ℕ → TableBuilder
unfolding or_first note_hash
note_entry b key seq =
    let b1 = note_hash (record b { block_first_key = or_first b.block_first_key key }) key in
    record b1 {
      min_key = or_first b1.min_key key;
      max_key = some key;
      max_seq = max b1.max_seq seq;
      entry_count = b1.entry_count + 1;
    }

-- `Vec::unwrap_or_default`.
unfoldable pub or_empty : Option Bytes → Bytes
or_empty none = []
or_empty (some k) = k

module _ (fmt : Format) where
  -- The write of a block with its first key.
  unfoldable pub write_block : TableBuilder → Bytes → TableBuilder
  write_block b first_key = record b {
    file = b.file ++ b.block;
    blocks =
        b.blocks
        ++ record {
          first_key = first_key;
          offset = b.offset;
          len = length b.block % 2 ^ 32;
          crc = fmt.crc32 b.block;
        }
          ∷ [];
    offset = b.offset + length b.block;
    block = [];
    block_first_key = none;
  }

  unfoldable pub flush_block : TableBuilder → Result TableBuilder
  unfolding write_block
  flush_block b =
      if leb (length b.block) 0
      then ok b
      else (or_error b.block_first_key panic >>= λ first_key. ok (write_block b first_key))

  unfoldable pub add : TableBuilder → Bytes → ℕ → Option Bytes → Result TableBuilder
  unfolding note_entry
  add b key seq value =
      let b1 = note_entry b key seq in
      let b2 = record b1 {
        block = b1.block ++ entry_bytes (record { key = key; seq = seq; value = value });
      } in
      if leb b2.block_bytes (length b2.block) then flush_block b2 else ok b2

  -- The callers' loop over entries.
  unfoldable pub add_all : TableBuilder → List Entry → Result TableBuilder
  add_all b [] = ok b
  add_all b (e ∷ es) = add b e.key e.seq e.value >>= λ b1. add_all b1 es

  unfoldable pub table_index : TableBuilder → TableIndex
  unfolding or_empty
  table_index b = record {
    blocks = b.blocks;
    bloom = Bloom.encode (from_hashes fmt.scaled b.key_hashes b.bits_per_key);
    entry_count = b.entry_count;
    min_key = or_empty b.min_key;
    max_key = or_empty b.max_key;
    max_seq = b.max_seq;
  }

  unfoldable pub footer : ℕ → Bytes → Bytes
  footer index_off payload =
      to_le_bytes 8 index_off
      ++ (to_le_bytes 4 (length payload)
          ++ (to_le_bytes 4 (fmt.crc32 payload) ++ to_le_bytes 8 magic))

  -- The file, and (entry_count, file_bytes, min_key, max_key).
  unfoldable pub finish : TableBuilder → Result (Bytes × ℕ × ℕ × Bytes × Bytes)
  unfolding table_index footer
  finish b0 = flush_block b0 >>= λ b.
      (let index = table_index b in
        let payload = fmt.serialize index in
        ok (
          b.file ++ (payload ++ footer b.offset payload),
          b.entry_count,
          b.offset + length payload + 24,
          index.min_key,
          index.max_key,
        ))
