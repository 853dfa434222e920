-- ===== src/Storage/SsTable.antt =====
-- crates/storage/src/sstable.rs: sorted tables. The data of a table, and the coding of a block. A file
-- is its bytes; the checksum and the serializer of the index are parameters.
use raft_kv_engine_project.Base.{
  ℕ, zero, suc, ◌+◌, ◌^◌, ◌<◌, ◌≡◌, Bool, true, false, not, Option, none, some, List, [], ◌∷◌, ◌++◌,
  arith, ltb, ◌==◌, if◌then◌else◌, length, take, drop, get_or_else,
}
use raft_kv_engine_project.Base.Bytes.{Bytes}
use raft_kv_engine_project.Base.LittleEndian.{to_le_bytes, from_le_bytes}
use raft_kv_engine_project.Storage.Error.{Result, ok, err, corruption, io, ◌>>=◌, ◌>>◌, ensure}
use raft_kv_engine_project.Storage.MemTable.{Entry}
pub mod Builder
pub mod Reader
pub mod Coding
pub mod Torn
pub mod Layout
pub mod Scanning
pub mod Built
pub mod Lookup
pub mod Iteration
pub mod RoundTrip

abbrev pub magic : ℕ
magic = 0x7266744b56535354

pub record BlockMeta : Type 0 where
  pub first_key : Bytes
  pub offset : ℕ
  pub len : ℕ
  pub crc : ℕ

pub record TableIndex : Type 0 where
  pub blocks : List BlockMeta
  pub bloom : Bytes
  pub entry_count : ℕ
  pub min_key : Bytes
  pub max_key : Bytes
  pub max_seq : ℕ

-- `crc32fast::hash`, `bincode` on an index, and the product by 0.69 of the Bloom filter.
pub record Format : Type 0 where
  pub crc32 : Bytes → ℕ
  pub serialize : TableIndex → Bytes
  pub deserialize : Bytes → Option TableIndex
  pub scaled : ℕ → ℕ

-- The kind, the length and the bytes of a value, as `add` writes them.
unfoldable pub value_bytes : Option Bytes → Bytes
value_bytes none = 0 ∷ to_le_bytes 4 0
value_bytes (some v) = 1 ∷ (to_le_bytes 4 (length v) ++ v)

unfoldable pub entry_bytes : Entry → Bytes
unfolding value_bytes
entry_bytes e =
    to_le_bytes 4 (length e.key) ++ (e.key ++ (to_le_bytes 8 e.seq ++ value_bytes e.value))

-- The closure `need`, at the rest of the buffer from `off` on.
unfoldable pub need : ℕ → Bytes → Result (Unit {0})
need n rest = ensure (not (ltb (length rest) n)) corruption

-- The last part of the loop's body: the value of an entry.
unfoldable pub decode_value : Bytes → ℕ → ℕ → Bytes → Result (Entry × Bytes)
decode_value key seq kind rest =
    need 4 rest
    >> (let vlen = from_le_bytes (take 4 rest) in
        let after = drop 4 rest in
        if kind == 1
        then (need vlen after
            >> ok
                (record { key = key; seq = seq; value = some (take vlen after) }, drop vlen after))
        else ok (record { key = key; seq = seq; value = none }, after))

-- The body of the loop of `decode_block`: one entry, and the rest of the buffer.
unfoldable pub decode_entry : Bytes → Result (Entry × Bytes)
decode_entry buf =
    need 4 buf
    >> (let klen = from_le_bytes (take 4 buf) in
        let rest = drop 4 buf in
        need (klen + 9) rest
        >> (let after = drop klen rest in
            decode_value (take klen rest) (from_le_bytes (take 8 after)) (get_or_else after 8 0)
              (drop 9 after)))

-- The loop; each entry takes a byte at least.
unfoldable pub decode_from : ℕ → Bytes → Result (List Entry)
decode_from fuel [] = ok []
decode_from zero (b ∷ buf) = ok []
decode_from (suc fuel) (b ∷ buf) =
    decode_entry (b ∷ buf) >>= λ one. (decode_from fuel one.1 >>= λ es. ok (one.0 ∷ es))

unfoldable pub decode_block : Bytes → Result (List Entry)
unfolding decode_from
decode_block buf = decode_from (length buf) buf

-- `Read::read_exact` after a seek.
unfoldable pub read_exact : Bytes → ℕ → ℕ → Result Bytes
read_exact file off n =
    let rest = drop off file in ensure (not (ltb (length rest) n)) io >> ok (take n rest)
