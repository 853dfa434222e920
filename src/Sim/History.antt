-- ===== src/Sim/History.antt =====
-- crates/sim/src/history.rs: the operations of the clients of a run, with the times of their
-- invocations and responses.
use raft_kv_engine_project.Base.{ℕ, Bool, Option, ◌++◌, ◌-◌, length, take, replicate}
use raft_kv_engine_project.Base.Bytes.{Bytes}
use raft_kv_engine_project.Base.LittleEndian.{to_le_bytes, from_le_bytes}

pub data HOp : Type 0 where
  read : ℕ → HOp
  write : ℕ → ℕ → HOp
  cas : ℕ → Option ℕ → ℕ → HOp

unfoldable pub key : HOp → ℕ
key (read k) = k
key (write k val) = k
key (cas k expect new) = k

pub data HRes : Type 0 where
  read_ok : Option ℕ → HRes
  write_ok : HRes
  cas_ok : Bool → HRes

pub record HRecord : Type 0 where
  pub client : ℕ
  pub invoke : ℕ
  pub ret : Option ℕ
  pub op : HOp
  pub result : Option HRes

unfoldable pub encode_val : ℕ → Bytes
encode_val v = to_le_bytes 8 v

-- Eight bytes, of which those that are missing are zero.
unfoldable pub decode_val : Bytes → ℕ
decode_val bytes = from_le_bytes (take 8 bytes ++ replicate (8 - length (take 8 bytes)) 0)
