-- ===== src/Storage/SsTable/Reader.antt =====
-- crates/storage/src/sstable.rs: the reader of a table and its iterator. The path of a table stands
-- for the bytes of its file, which are never changed.
use raft_kv_engine_project.Base.{
  ℕ, zero, suc, ◌+◌, ◌-◌, Bool, true, not, ◌||◌, Option, none, some, List, [], ◌∷◌, leb, ◌==◌,
  if◌then◌else◌, length, take, drop, get_elem?,
}
use raft_kv_engine_project.Base.Bytes.{Bytes, bytes_eq, bytes_lt}
use raft_kv_engine_project.Base.LittleEndian.{from_le_bytes}
use raft_kv_engine_project.Storage.Error.{
  Result, ok, corruption, panic, ◌>>=◌, ◌>>◌, ensure, or_error,
}
use raft_kv_engine_project.Storage.MemTable.{Entry}
use raft_kv_engine_project.Storage.Bloom
use raft_kv_engine_project.Storage.Bloom.{BloomFilter, may_contain}
use raft_kv_engine_project.Storage.SsTable.{
  BlockMeta, TableIndex, Format, magic, decode_block, read_exact,
}

pub record SsTable : Type 0 where
  pub id : ℕ
  pub file : Bytes
  pub index : TableIndex
  pub bloom : BloomFilter

-- `slice::partition_point` on a slice whose elements that pass the test come first.
unfoldable pub partition_point {ℓ} : {A : Type ℓ} → (A → Bool) → List A → ℕ
partition_point p [] = 0
partition_point p (x ∷ xs) = let rest = partition_point p xs in if p x then suc rest else 0

-- What the scan of one block comes to: a hit, the end of the search, or the next block.
pub data Scan : Type 0 where
  hit : ℕ → Option Bytes → Scan
  past : Scan
  onward : Scan

unfoldable pub scan_block : Bytes → ℕ → List Entry → Scan
scan_block key snapshot [] = onward
scan_block key snapshot (e ∷ es) =
    let rest = scan_block key snapshot es in
    if bytes_lt e.key key
    then rest
    else if bytes_eq e.key key
    then (if leb e.seq snapshot then hit e.seq e.value else rest)
    else past

-- `idx >= self.index.blocks.len() || self.index.blocks[idx].first_key > key`.
unfoldable pub ends_at : List BlockMeta → ℕ → Bytes → Bool
ends_at blocks idx key = elim (get_elem? blocks idx) [
  | none ↦ true
  | some m ↦ bytes_lt key m.first_key
]

-- What follows the scan of a block.
unfoldable pub proceed :
    Scan → Result (Option (ℕ × Option Bytes)) → Result (Option (ℕ × Option Bytes))
proceed (hit seq value) later = ok (some (seq, value))
proceed past later = ok none
proceed onward later = later

module _ (fmt : Format) where
  unfoldable pub open_table : Bytes → ℕ → Result SsTable
  open_table file id =
      let footer = drop (length file - 24) file in
      ensure (leb 24 (length file)) corruption
      >> (ensure (from_le_bytes (take 8 (drop 16 footer)) == magic) corruption
          >> (read_exact file (from_le_bytes (take 8 footer))
                (from_le_bytes (take 4 (drop 8 footer)))
              >>= λ payload.
                  (ensure (fmt.crc32 payload == from_le_bytes (take 4 (drop 12 footer))) corruption
                    >> (or_error (fmt.deserialize payload) corruption >>= λ index.
                        (or_error (Bloom.decode index.bloom) corruption >>= λ bloom.
                        ok (record { id = id; file = file; index = index; bloom = bloom }))))))

  unfoldable pub read_block : SsTable → ℕ → Result (List Entry)
  read_block t i = or_error (get_elem? t.index.blocks i) panic >>= λ meta.
      (read_exact t.file meta.offset meta.len >>= λ buf.
      (ensure (fmt.crc32 buf == meta.crc) corruption >> decode_block buf))

  -- The loop of `get`, with a bound on the blocks left.
  unfoldable pub get_from : ℕ → SsTable → Bytes → ℕ → ℕ → Result (Option (ℕ × Option Bytes))
  get_from zero t key snapshot idx = ok none
  get_from (suc fuel) t key snapshot idx =
      let later = get_from fuel t key snapshot (idx + 1) in
      read_block t idx >>= λ entries.
      (proceed (scan_block key snapshot entries)
        (if ends_at t.index.blocks (idx + 1) key then ok none else later))

  unfoldable pub get : SsTable → Bytes → ℕ → Result (Option (ℕ × Option Bytes))
  unfolding get_from
  get t key snapshot =
      let idx = partition_point (λ m. bytes_lt m.first_key key) t.index.blocks - 1 in
      if bytes_lt key t.index.min_key || bytes_lt t.index.max_key key
      then ok none
      else if not (may_contain t.bloom key)
      then ok none
      else get_from (suc (length t.index.blocks)) t key snapshot idx
