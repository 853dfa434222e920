-- ===== src/Kvsm/Tests.antt =====
-- The state machine of crates/kvsm over the backend in memory, and the theorems at concrete inputs.
use raft_kv_engine_project.Base.{ℕ, ◌≡◌, refl, none, some, List, [], ◌∷◌, arith}
use raft_kv_engine_project.Kvsm.Backend.{mem_backend, mem_laws}
use raft_kv_engine_project.Kvsm.Machine.{
  delete, cas, Command, StateMachine, SnapshotPayload, Codec, apply, apply_all, restore, snapshot,
}
use raft_kv_engine_project.Kvsm.Dedup
use raft_kv_engine_project.Kvsm.Effect
use raft_kv_engine_project.Kvsm.Effect.{view, IsValid, run_command, run_commands}
use raft_kv_engine_project.Kvsm.Snapshots

abbrev key : List ℕ
key = 107 ∷ []

-- Session 1 creates the key by a compare-and-swap.
abbrev create : Command
create = record { session_id = 1; seq = 1; op = cas key none (some (1 ∷ [])) }

-- Session 2 deletes it.
abbrev drop_key : Command
drop_key = record { session_id = 2; seq = 1; op = delete key }

abbrev empty : StateMachine mem_backend
empty = record { backend = record { kvs = [] }; sessions = [] }

empty-IsValid : IsValid mem_backend mem_laws empty
empty-IsValid = record { holds = tt; ascending = tt }

apply-apply_all_example :
    (apply mem_backend
      (apply_all mem_backend (apply mem_backend empty create).0 (drop_key ∷ [])).0
      create).0
    ≡ (apply_all mem_backend (apply mem_backend empty create).0 (drop_key ∷ [])).0
apply-apply_all_example =
    Dedup.apply-apply_all mem_backend empty create (drop_key ∷ []) (omega arith)

apply_retry_example :
    apply mem_backend (apply mem_backend empty create).0 create
    ≡ ((apply mem_backend empty create).0, (apply mem_backend empty create).1)
apply_retry_example = Dedup.apply_retry mem_backend empty create (omega arith)

apply_all-run_commands_example :
    (view mem_backend mem_laws (apply_all mem_backend empty (create ∷ drop_key ∷ [])).0
      ≡ (run_commands (view mem_backend mem_laws empty) (create ∷ drop_key ∷ [])).0)
    × ((apply_all mem_backend empty (create ∷ drop_key ∷ [])).1
        ≡ (run_commands (view mem_backend mem_laws empty) (create ∷ drop_key ∷ [])).1)
apply_all-run_commands_example =
    Effect.apply_all-run_commands mem_backend mem_laws empty (create ∷ drop_key ∷ []) empty-IsValid

-- The payload as it is, for bytes.
abbrev plain : Codec
plain = record { Wire = SnapshotPayload; serialize = λ p. p; deserialize = λ p. some p }

restore-snapshot_example :
    (r : StateMachine mem_backend) × (restore mem_backend plain empty
        (snapshot mem_backend plain empty)
      ≡ some r)
    × ((apply_all mem_backend r (create ∷ create ∷ [])).1
        ≡ (apply_all mem_backend empty (create ∷ create ∷ [])).1)
restore-snapshot_example =
    Snapshots.restore-snapshot mem_backend mem_laws plain (λ p. refl) empty empty
      (create ∷ create ∷ []) empty-IsValid
