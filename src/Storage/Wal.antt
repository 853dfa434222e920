-- ===== src/Storage/Wal.antt =====
-- crates/storage/src/wal.rs: the write-ahead log. A file is its bytes and how many of them are known
-- to have reached the disk; writes go to its end, where the handle stands. The checksum and the
-- serializer of batches are parameters, errors of the operating system are left out.
use raft_kv_engine_project.Base.{
  ℕ, zero, suc, ◌+◌, ◌%◌, ◌^◌, ◌<◌, max, ◌≡◌, Bool, true, false, Option, none, some, List, [], ◌∷◌,
  ◌++◌, arith, ltb, ◌==◌, if◌then◌else◌, length, take, drop, ◌>>=◌,
}
use raft_kv_engine_project.Base.Bytes.{Bytes}
use raft_kv_engine_project.Base.LittleEndian.{to_le_bytes, from_le_bytes}
pub mod Frames
pub mod Recovery

pub data SyncPolicy : Type 0 where
  always never : SyncPolicy

-- The operations of a batch, as (key, value); a value of `none` is a tombstone.
pub record WalBatch : Type 0 where
  pub first_seq : ℕ
  pub ops : List (Bytes × Option Bytes)

pub record File : Type 0 where
  pub contents : Bytes
  pub synced : ℕ

pub record Wal : Type 0 where
  pub file : File
  pub policy : SyncPolicy

-- `crc32fast::hash`, and `bincode` on a batch.
pub record Format : Type 0 where
  pub crc32 : Bytes → ℕ
  pub serialize : WalBatch → Bytes
  pub deserialize : Bytes → Option WalBatch

-- A checksum has 32 bits, and what was serialized is read back.
pub record IsFaithful (fmt : Format) : Type 0 where
  pub crc_bound : (bytes : Bytes) → fmt.crc32 bytes < 2 ^ 32
  pub read_back : (b : WalBatch) → fmt.deserialize (fmt.serialize b) ≡ some b

-- The file is created if it is not there.
unfoldable pub open_file : Option File → File
open_file none = record { contents = []; synced = 0 }
open_file (some f) = f

unfoldable pub open_log : Option File → SyncPolicy → Wal
unfolding open_file
open_log f policy = record { file = open_file f; policy = policy }

unfoldable pub synced_file : File → File
synced_file f = record f { synced = length f.contents }

unfoldable pub sync : Wal → Wal
unfolding synced_file
sync w = record w { file = synced_file w.file }

-- `if self.policy == SyncPolicy::Always { self.file.sync_data() }`.
unfoldable pub sync_by : SyncPolicy → File → File
unfolding synced_file
sync_by always f = synced_file f
sync_by never f = f

unfoldable pub reset : Wal → Wal
reset w = record w { file = record { contents = []; synced = 0 } }

module _ (fmt : Format) where
  unfoldable pub frame : WalBatch → Bytes
  frame b =
      let payload = fmt.serialize b in
      to_le_bytes 4 (length payload) ++ (to_le_bytes 4 (fmt.crc32 payload) ++ payload)

  unfoldable pub append : Wal → WalBatch → Wal
  unfolding sync_by
  append w b = record w {
    file = sync_by w.policy (record w.file { contents = w.file.contents ++ frame b });
  }

  -- The body of the loop of `replay`, at the data from `off` on: the batch of the next frame with the
  -- length of its payload, or `none` where the loop ends.
  unfoldable pub read_frame : Bytes → Option (WalBatch × ℕ)
  read_frame rest =
      let len = from_le_bytes (take 4 rest) in
      let crc = from_le_bytes (take 4 (drop 4 rest)) in
      let payload = take len (drop 8 rest) in
      if ltb (length rest) 8
      then none
      else if ltb (length rest) (8 + len)
      then none
      else if fmt.crc32 payload == crc
      then (fmt.deserialize payload >>= λ b. some (b, len))
      else none

  -- The loop: the batches, and `off` at its end. Each round takes a frame of eight bytes at least.
  unfoldable pub replay_from : ℕ → ℕ → Bytes → List WalBatch × ℕ
  replay_from zero off rest = ([], off)
  replay_from (suc fuel) off rest = elim (read_frame rest) [
    | none ↦ ([], off)
    | some (b, len) ↦
        let later = replay_from fuel (off + 8 + len) (drop (8 + len) rest) in (b ∷ later.0, later.1)
  ]

  -- The torn tail is cut off, and the cut is synced.
  unfoldable pub cut_at : ℕ → File → File
  cut_at off f =
      if ltb off (length f.contents)
      then record { contents = take off f.contents; synced = off }
      else f

  unfoldable pub replay : Option File → List WalBatch × Option File
  unfolding replay_from cut_at
  replay none = ([], none)
  replay (some f) =
      let found = replay_from (length f.contents) 0 f.contents in (found.0, some (cut_at found.1 f))

  -- Batches appended in turn.
  unfoldable pub append_all : Wal → List WalBatch → Wal
  unfolding append
  append_all w [] = w
  append_all w (b ∷ bs) = append_all (append w b) bs

-- A crash keeps what was synced, and any number of the bytes after it.
unfoldable pub crash : ℕ → File → File
crash kept f = record f { contents = take (max f.synced kept) f.contents }
