-- ===== src/Storage/Manifest.antt =====
-- crates/storage/src/manifest.rs: the catalog of the tables. A directory is the bytes of the two files
-- that a manifest lives in; the checksum and the serializer are parameters, errors of the operating
-- system are left out.
use raft_kv_engine_project.Base.{
  ℕ, ◌+◌, ◌-◌, ◌^◌, ◌<◌, ◌≡◌, Option, none, some, List, [], ◌∷◌, ◌++◌, ◌⊎◌, ltb, ◌==◌,
  if◌then◌else◌, length, take, drop,
}
use raft_kv_engine_project.Base.Bytes.{Bytes}
use raft_kv_engine_project.Base.LittleEndian.{to_le_bytes, from_le_bytes}
use raft_kv_engine_project.Storage.Error.{Result, ok, corruption, ◌>>=◌, or_error}
pub mod Crash

pub record TableMeta : Type 0 where
  pub id : ℕ
  pub min_key : Bytes
  pub max_key : Bytes
  pub entries : ℕ
  pub bytes : ℕ

pub record Manifest : Type 0 where
  pub levels : List (List TableMeta)
  pub next_table_id : ℕ
  pub last_seq : ℕ

-- The files `MANIFEST` and `MANIFEST.tmp`, where they exist.
pub record Dir : Type 0 where
  pub current : Option Bytes
  pub tmp : Option Bytes

-- `crc32fast::hash`, and `bincode` on a manifest.
pub record Format : Type 0 where
  pub crc32 : Bytes → ℕ
  pub serialize : Manifest → Bytes
  pub deserialize : Bytes → Option Manifest

-- A checksum has 32 bits, and what was serialized is read back.
pub record IsFaithful (fmt : Format) : Type 0 where
  pub crc_bound : (bytes : Bytes) → fmt.crc32 bytes < 2 ^ 32
  pub read_back : (m : Manifest) → fmt.deserialize (fmt.serialize m) ≡ some m

-- The calls that change a directory: `fs::File::create` on the temporary file, `write_all` on it,
-- `fs::remove_file` on the manifest if it exists, and `fs::rename`.
pub data Call : Type 0 where
  create_tmp : Call
  write_tmp : Bytes → Call
  remove_current : Call
  rename_tmp : Call

unfoldable pub perform : Call → Dir → Dir
perform create_tmp d = record d { tmp = some [] }
perform (write_tmp bytes) d = record d {
  tmp = elim d.tmp [ none ↦ none | some written ↦ some (written ++ bytes) ];
}
perform remove_current d = record d { current = none }
perform rename_tmp d = record { current = d.tmp; tmp = none }

unfoldable pub perform_all : List Call → Dir → Dir
unfolding perform
perform_all [] d = d
perform_all (c ∷ cs) d = perform_all cs (perform c d)

-- A crash in the middle of a call: a write leaves a part of its bytes, and every other call is done or
-- not begun.
abbrev pub Interrupted : Call → Dir → Dir → Type 0
Interrupted (write_tmp bytes) d after = (n : ℕ) × (after ≡ perform (write_tmp (take n bytes)) d)
Interrupted c d after = after ≡ d

-- A crash in the middle of one of these calls, those before it done, or after the last of them.
abbrev pub CrashedIn : List Call → Dir → Dir → Type 0
CrashedIn [] d after = after ≡ d
CrashedIn (c ∷ cs) d after = Interrupted c d after ⊎ CrashedIn cs (perform c d) after

module _ (fmt : Format) where
  -- A round of the loop of `load`: a manifest, or `none` where the loop goes on.
  unfoldable pub read_file : Option Bytes → Result (Option Manifest)
  read_file none = ok none
  read_file (some bytes) =
      let payload = take (length bytes - 4) bytes in
      let crc = from_le_bytes (drop (length bytes - 4) bytes) in
      if ltb (length bytes) 4
      then ok none
      else if fmt.crc32 payload == crc
      then (or_error (fmt.deserialize payload) corruption >>= λ m. ok (some m))
      else ok none

  -- What the loop does after a round: a manifest ends it.
  unfoldable pub or_next : Option Manifest → Result (Option Manifest) → Result (Option Manifest)
  or_next (some m) next = ok (some m)
  or_next none next = next

  unfoldable pub load : Dir → Result (Option Manifest)
  unfolding or_next
  load d = read_file d.current >>= λ found. or_next found (read_file d.tmp)

  unfoldable pub file_bytes : Manifest → Bytes
  file_bytes m = let payload = fmt.serialize m in payload ++ to_le_bytes 4 (fmt.crc32 payload)

  -- The calls of `save`, in their order.
  unfoldable pub save_calls : Manifest → List Call
  unfolding file_bytes
  save_calls m = create_tmp ∷ write_tmp (file_bytes m) ∷ remove_current ∷ rename_tmp ∷ []

  unfoldable pub save : Manifest → Dir → Dir
  unfolding save_calls perform_all
  save m d = perform_all (save_calls m) d

  -- The directories that a crash inside `save` leaves.
  abbrev pub Crashed : Manifest → Dir → Dir → Type 0
  Crashed m d after = CrashedIn (save_calls m) d after
