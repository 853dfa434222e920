-- ===== src/Kvsm/Snapshots.antt =====
-- crates/kvsm/src/lib.rs: snapshots and the replicas restored from them.
use mathlib.Core.Path.{fun_ext}
use raft_kv_engine_project.Base.{◌≡◌, ◌∙◌, sym, ap, some, List, []}
use raft_kv_engine_project.Base.BTreeMap
use raft_kv_engine_project.Kvsm.Backend.{Backend, BackendLaws}
use raft_kv_engine_project.Kvsm.Machine.{
  Command, StateMachine, SnapshotPayload, Codec, snapshot, restore, apply_all,
}
use raft_kv_engine_project.Kvsm.Effect.{view, IsValid, run_commands, apply_all-run_commands}

module _ (b : Backend) (laws : BackendLaws b) (codec : Codec)
    (decodes : (p : SnapshotPayload) → codec.deserialize (codec.serialize p) ≡ some p) where
  open laws use {load-Holds, get-load}

  restored : StateMachine b → StateMachine b → StateMachine b
  restored m n = record {
    backend = b.clear_and_load n.backend (b.dump m.backend);
    sessions = BTreeMap.collect [] m.sessions;
  }

  restore-eq : (m n : StateMachine b) → restore b codec n (snapshot b codec m) ≡ some (restored m n)
  unfolding restore snapshot restored
  restore-eq m n = rw decodes

  restored-IsValid : (m n : StateMachine b) → IsValid b laws m → IsValid b laws (restored m n)
  unfolding restored
  restored-IsValid m n v = record {
    holds = load-Holds n.backend m.backend v.holds;
    ascending = rw (BTreeMap.collect_ascending m.sessions v.ascending) v.ascending;
  }

  view-restored :
      (m n : StateMachine b) → IsValid b laws m → view b laws (restored m n) ≡ view b laws m
  unfolding restored
  view-restored m n v = λ i. record {
    kv = fun_ext (λ k. get-load n.backend m.backend k v.holds) i;
    session = BTreeMap.get (BTreeMap.collect_ascending m.sessions v.ascending i);
  }

  -- Whatever its state was, a replica that restores the snapshot of a valid machine succeeds, and on
  -- every log that follows it returns the results that the machine itself returns, retries included,
  -- if decoding undoes encoding.
  pub restore-snapshot :
      (m n : StateMachine b) (cs : List Command)
      → IsValid b laws m
      → (r : StateMachine b) × (restore b codec n (snapshot b codec m) ≡ some r)
        × ((apply_all b r cs).1 ≡ (apply_all b m cs).1)
  restore-snapshot m n cs v = (
    restored m n,
    restore-eq m n,
    (apply_all-run_commands b laws (restored m n) cs (restored-IsValid m n v)).1
        ∙ ap (λ w. (run_commands w cs).1) (view-restored m n v)
        ∙ sym (apply_all-run_commands b laws m cs v).1,
  )
