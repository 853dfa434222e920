-- ===== src/Kvsm/Machine.antt =====
-- crates/kvsm/src/lib.rs: commands, sessions and the state machine, over any backend. The session
-- table is an ordered map: `snapshot` sorts it by session, and nothing else depends on its order.
use raft_kv_engine_project.Base.{
  ℕ, Bool, true, false, Option, none, some, List, [], ◌∷◌, ltb, ◌==◌, if◌then◌else◌, ◌>>=◌,
}
use raft_kv_engine_project.Base.BTreeMap
use raft_kv_engine_project.Base.Bytes.{Bytes, value_eq}
use raft_kv_engine_project.Kvsm.Backend.{Backend}

pub data Op : Type 0 where
  -- key, value
  put : Bytes → Bytes → Op
  delete : Bytes → Op
  -- key, expect, new
  cas : Bytes → Option Bytes → Option Bytes → Op
  get : Bytes → Op

pub record Command : Type 0 where
  pub session_id : ℕ
  pub seq : ℕ
  pub op : Op

pub data OpResult : Type 0 where
  ok : OpResult
  value : Option Bytes → OpResult
  -- success, actual
  cas : Bool → Option Bytes → OpResult
  stale : OpResult

pub record SessionState : Type 0 where
  pub last_seq : ℕ
  pub last_result : OpResult

pub record SnapshotPayload : Type 0 where
  pub kvs : List (Bytes × Bytes)
  pub sessions : List (ℕ × SessionState)

pub record StateMachine (b : Backend) : Type 0 where
  pub backend : b.State
  pub sessions : List (ℕ × SessionState)

-- bincode on the snapshot payload, with the bytes that it writes.
pub record Codec : Type 1 where
  pub Wire : Type 0
  pub serialize : SnapshotPayload → Wire
  pub deserialize : Wire → Option SnapshotPayload

module _ (b : Backend) where
  unfoldable pub new : b.State → StateMachine b
  new backend = record { backend = backend; sessions = [] }

  unfoldable pub execute : b.State → Op → b.State × OpResult
  execute s (put key v) = (b.set s key (some v), ok)
  execute s (delete key) = (b.set s key none, ok)
  execute s (cas key expect new) =
      let actual = b.get s key in
      if value_eq actual expect
      then (b.set s key new, OpResult.cas true actual)
      else (s, OpResult.cas false actual)
  execute s (get key) = (s, value (b.get s key))

  -- The end of `apply`: the operation runs, and a session remembers its result.
  unfoldable pub apply_fresh : StateMachine b → Command → StateMachine b × OpResult
  apply_fresh m c =
      let (s, result) = execute m.backend c.op in
      let entry : SessionState = record { last_seq = c.seq; last_result = result } in
      (
        record {
          backend = s;
          sessions =
              if c.session_id == 0
              then m.sessions
              else BTreeMap.insert c.session_id entry m.sessions;
        },
        result,
      )

  -- What a session's last command decides.
  unfoldable pub apply_known :
      StateMachine b → Command → Option SessionState → StateMachine b × OpResult
  apply_known m c none = apply_fresh m c
  apply_known m c (some s) =
      if c.seq == s.last_seq
      then (m, s.last_result)
      else if ltb c.seq s.last_seq
      then (m, stale)
      else apply_fresh m c

  unfoldable pub apply : StateMachine b → Command → StateMachine b × OpResult
  unfolding apply_known
  apply m c =
      if c.session_id == 0
      then apply_fresh m c
      else apply_known m c (BTreeMap.get m.sessions c.session_id)

  unfoldable pub read : StateMachine b → Bytes → Option Bytes
  read m key = b.get m.backend key

  unfoldable pub read_range : StateMachine b → Bytes → Option Bytes → ℕ → List (Bytes × Bytes)
  read_range m start end limit = b.scan m.backend start end limit

  unfoldable pub snapshot : (codec : Codec) → StateMachine b → codec.Wire
  snapshot codec m = codec.serialize (record { kvs = b.dump m.backend; sessions = m.sessions })

  -- `none` is the panic of `expect`.
  unfoldable pub restore : (codec : Codec) → StateMachine b → codec.Wire → Option (StateMachine b)
  restore codec m bytes = codec.deserialize bytes >>= λ payload. some (record {
    backend = b.clear_and_load m.backend payload.kvs;
    sessions = BTreeMap.collect [] payload.sessions;
  })

  -- The commands of a log in turn: the last state, and every result.
  unfoldable pub apply_all : StateMachine b → List Command → StateMachine b × List OpResult
  apply_all m [] = (m, [])
  apply_all m (c ∷ cs) = let (m1, r) = apply m c in let (m2, rs) = apply_all m1 cs in (m2, r ∷ rs)
