-- ===== src/Sim/Tests.antt =====
-- The random generator and the linearizability checker of crates/sim on concrete inputs.
use raft_kv_engine_project.Base.{ℕ, ◌≡◌, refl, true, none, some, List, [], ◌∷◌, arith}
use raft_kv_engine_project.Sim.History
use raft_kv_engine_project.Sim.History.{HRecord, HOp, HRes}
use raft_kv_engine_project.Sim.Wgl
use raft_kv_engine_project.Sim.Wgl.{POp, PKind, accepted, rejected}
use raft_kv_engine_project.Sim.Wgl.Order.{Linearization}
use raft_kv_engine_project.Sim.Wgl.Keys
use raft_kv_engine_project.Sim.Rng
use raft_kv_engine_project.Sim.Rng.Ranges
use raft_kv_engine_project.Sim.Rng.Ranges.{InBounds}

range-InBounds_example : InBounds 10 20 (Rng.range (Rng.new 7) 10 20)
range-InBounds_example =
    Ranges.range-InBounds (Rng.new 7) 10 20 (omega arith) (omega arith) (omega arith)

abbrev read : ℕ → ℕ → ℕ → POp
read start end v = record { invoke = start; ret = some end; kind = PKind.read (some v); client = 0 }

abbrev write : ℕ → ℕ → ℕ → POp
write start end v = record { invoke = start; ret = some end; kind = PKind.write v; client = 0 }

-- A read next to a write that has not returned, which sees the new value.
abbrev concurrent : List POp
concurrent =
    record { invoke = 2; ret = none; kind = PKind.write 20; client = 0 }
    ∷ write 0 1 10
    ∷ read 3 5 20
    ∷ []

concurrent-accepted : Wgl.check_key concurrent ≡ accepted
unfolding Wgl.check_key
concurrent-accepted = refl

-- The effect of the second write has vanished.
stale_read : Wgl.check_key (write 1 2 10 ∷ write 3 4 20 ∷ read 5 6 10 ∷ []) ≡ rejected
unfolding Wgl.check_key
stale_read = refl

abbrev swap : HRecord
swap = record {
  client = 1;
  invoke = 3;
  ret = some 4;
  op = HOp.cas 5 (some 10) 20;
  result = some (HRes.cas_ok true);
}

abbrev history : List HRecord
history =
    record {
      client = 0;
      invoke = 1;
      ret = some 2;
      op = HOp.write 5 10;
      result = some HRes.write_ok;
    }
    ∷ swap
    ∷ record {
      client = 0;
      invoke = 1;
      ret = some 6;
      op = HOp.read 7;
      result = some (HRes.read_ok none);
    }
    ∷ []

history-accepted : Wgl.check_history history ≡ accepted
unfolding Wgl.check_history
history-accepted = refl

check_history-Linearization_example :
    (ops : List POp) × (Wgl.ops_of 5 history ≡ some ops) × Linearization ops
unfolding History.key
check_history-Linearization_example =
    Keys.check_history-Linearization history 1 swap refl history-accepted
