-- ===== src/Server/LogStore.antt =====
-- crates/server/src/logstore.rs: what a node keeps of the consensus core. The engine is an interface
-- that Server/StorageEngine fills with `Db`, the serializer (bincode) a parameter; what an error leaves of
-- a store is left out.
use raft_kv_engine_project.Base.{
  ℕ, zero, suc, ◌+◌, ◌-◌, ◌/◌, ◌%◌, ◌≡◌, min, Bool, true, false, not, ◌&&◌, ◌||◌, Option, none,
  some, List, [], ◌∷◌, ◌++◌, map, ltb, leb, ◌==◌, if◌then◌else◌,
}
use raft_kv_engine_project.Base.Bytes.{Bytes, bytes_eq}
use raft_kv_engine_project.Raft.Types.{Entry, HardState, Snapshot, Index, Persisted}
use raft_kv_engine_project.Storage.Batch.{Op, last_write}
use raft_kv_engine_project.Storage.Error.{Result, ok, corruption, ◌>>=◌, or_error}
pub mod Writes
pub mod Contents
pub mod Bounds
pub mod Compaction

-- The operations of `Db` that the store calls. A batch that the engine accepts is written without an
-- error, and changes every key as its last operation on the key says.
pub record Engine : Type 1 where
  pub Db : Type 0
  pub get : Db → Bytes → Result (Option Bytes)
  pub scan : Db → Bytes → Option Bytes → Result (List (Bytes × Bytes))
  pub write_batch : Db → List Op → Result Db
  pub Accepts : Db → List Op → Type 0
  pub write_batch-Accepts :
      (db : Db) (ops : List Op)
      → Accepts db ops
      → (db' : Db) × (write_batch db ops ≡ ok db')
        × ((key : Bytes) → get db' key ≡ (get db key >>= λ old. ok (last_write ops key old)))

pub record Codec : Type 0 where
  pub ser_hs : HardState → Bytes
  pub de_hs : Bytes → Option HardState
  pub ser_snap : Snapshot → Bytes
  pub de_snap : Bytes → Option Snapshot
  pub ser_entry : Entry → Bytes
  pub de_entry : Bytes → Option Entry

abbrev pub key_hs : Bytes
key_hs = 109 ∷ 47 ∷ 104 ∷ 115 ∷ []

abbrev pub key_snap : Bytes
key_snap = 109 ∷ 47 ∷ 115 ∷ 110 ∷ 97 ∷ 112 ∷ []

abbrev pub entry_prefix : Bytes
entry_prefix = 101 ∷ 47 ∷ []

abbrev pub entry_end : Bytes
entry_end = 101 ∷ 48 ∷ []

-- `to_be_bytes`, at a width in bytes.
unfoldable pub to_be_bytes : ℕ → ℕ → Bytes
to_be_bytes zero n = []
to_be_bytes (suc width) n = to_be_bytes width (n / 256) ++ n % 256 ∷ []

unfoldable pub entry_key : Index → Bytes
unfolding to_be_bytes
entry_key index = entry_prefix ++ to_be_bytes 8 index

-- The deletions of so many entries from an index on.
unfoldable pub deletions : ℕ → Index → List Op
unfolding entry_key
deletions zero i = []
deletions (suc n) i = (entry_key i, none) ∷ deletions n (i + 1)

-- `first..=last`.
abbrev pub delete_range : Index → Index → List Op
delete_range first last = deletions (last + 1 - first) first

unfoldable pub last_of : Entry → List Entry → Index
last_of e [] = e.index
last_of e (x ∷ xs) = last_of x xs

module _ (engine : Engine) (codec : Codec) where
  pub record LogStore : Type 0 where
    pub db : engine.Db
    pub first_index : Index
    pub last_index : Index

  unfoldable pub decode_entries : List (Bytes × Bytes) → Result (List Entry)
  decode_entries [] = ok []
  decode_entries ((k, v) ∷ found) =
      or_error (codec.de_entry v) corruption >>= λ e. (decode_entries found >>= λ es. ok (e ∷ es))

  unfoldable pub load_hard_state : Option Bytes → Result HardState
  load_hard_state none = ok (record { term = 0; voted_for = none })
  load_hard_state (some b) = or_error (codec.de_hs b) corruption

  unfoldable pub load_snapshot : Option Bytes → Result (Option Snapshot)
  load_snapshot none = ok none
  load_snapshot (some b) = or_error (codec.de_snap b) corruption >>= λ s. ok (some s)

  -- `entries.first()` and `entries.last()`, with 0 where there is none.
  unfoldable pub bounds : List Entry → Index × Index
  unfolding last_of
  bounds [] = (0, 0)
  bounds (e ∷ es) = (e.index, last_of e es)

  unfoldable pub open_store : engine.Db → Result (LogStore × Persisted)
  unfolding decode_entries load_hard_state load_snapshot bounds
  open_store db = (engine.get db key_hs >>= load_hard_state) >>= λ hs.
      ((engine.get db key_snap >>= load_snapshot) >>= λ snap.
      ((engine.scan db entry_prefix (some entry_end) >>= decode_entries) >>= λ es. ok (
        record { db = db; first_index = (bounds es).0; last_index = (bounds es).1 },
        record { hard_state = hs; entries = es; snapshot = snap },
      )))

  unfoldable pub hard_state_ops : Option HardState → List Op
  hard_state_ops none = []
  hard_state_ops (some hs) = (key_hs, some (codec.ser_hs hs)) ∷ []

  -- A snapshot that a leader installed replaces the entries.
  unfoldable pub install : LogStore → Option Snapshot → List Op × LogStore
  unfolding deletions
  install s none = ([], s)
  install s (some snap) = (
    (key_snap, some (codec.ser_snap snap))
        ∷ (if s.last_index == 0 then [] else delete_range s.first_index s.last_index),
    record s { first_index = 0; last_index = 0 },
  )

  abbrev pub puts : List Entry → List Op
  puts [] = []
  puts (e ∷ es) = (entry_key e.index, some (codec.ser_entry e)) ∷ puts es

  -- Entries replace those from the index of the first of them on.
  unfoldable pub append : LogStore → List Entry → List Op × LogStore
  unfolding deletions last_of
  append s [] = ([], s)
  append s (e ∷ es) = (
    (if not (s.last_index == 0) && leb e.index s.last_index
          then delete_range e.index s.last_index
          else [])
        ++ puts (e ∷ es),
    record s {
      first_index =
          if s.first_index == 0 || ltb e.index s.first_index then e.index else s.first_index;
      last_index = last_of e es;
    },
  )

  -- `if !ops.is_empty() { self.db.write_batch(ops)?; }`.
  unfoldable pub write : engine.Db → List Op → Result engine.Db
  write db [] = ok db
  write db (op ∷ ops) = engine.write_batch db (op ∷ ops)

  -- The batch of `persist`, and the bounds after it.
  unfoldable pub persist_batch :
      LogStore → Option HardState → List Entry → Option Snapshot → List Op × LogStore
  unfolding hard_state_ops install append
  persist_batch s hs es snapshot =
      let (snap_ops, installed) = install s snapshot in
      let (entry_ops, appended) = append installed es in
      (hard_state_ops hs ++ (snap_ops ++ entry_ops), appended)

  unfoldable pub persist :
      LogStore → Option HardState → List Entry → Option Snapshot → Result LogStore
  unfolding persist_batch write
  persist s hs es snapshot =
      let (ops, s') = persist_batch s hs es snapshot in
      write s.db ops >>= λ db. ok (record s' { db = db })

  unfoldable pub covers : LogStore → Snapshot → Bool
  covers s snap = not (s.last_index == 0) && leb s.first_index snap.last_index

  unfoldable pub compact_batch : LogStore → Snapshot → List Op
  unfolding deletions covers
  compact_batch s snap =
      (key_snap, some (codec.ser_snap snap))
      ∷ (if covers s snap
          then delete_range s.first_index (min snap.last_index s.last_index)
          else [])

  unfoldable pub compact_to : LogStore → Snapshot → Result LogStore
  unfolding compact_batch covers
  compact_to s snap =
      let whole = leb s.last_index snap.last_index in
      engine.write_batch s.db (compact_batch s snap) >>= λ db. ok (record {
        db = db;
        first_index =
            if covers s snap then (if whole then 0 else snap.last_index + 1) else s.first_index;
        last_index = if covers s snap then (if whole then 0 else s.last_index) else s.last_index;
      })
