-- ===== src/Raft/Keeps/Replication.antt =====
-- crates/raft/src/node.rs: the leader's operations on its log and on its followers' progress.
use raft_kv_engine_project.Base.{ℕ, ◌+◌, ◌≤◌, ◌<◌, ◌≡◌, refl, inr, Bool, some, List, arith}
use raft_kv_engine_project.Raft.Types.{NodeId, Term, Index, EntryPayload, ConfChange}
use raft_kv_engine_project.Raft.Log
use raft_kv_engine_project.Raft.Log.{RaftLog, last_index}
use raft_kv_engine_project.Raft.Log.Contiguous.{push-IsContiguous, compact-IsContiguous}
use raft_kv_engine_project.Raft.Log.Lookup.{
  last_index-push, get-push, get-compact, last_index-compact,
}
use raft_kv_engine_project.Raft.Node.{RaftNode, Progress}
use raft_kv_engine_project.Raft.Replication.{
  push_entry, append_local, maybe_advance_commit, sync_progress_with_voters, set_progress,
  process_read_acks, send_append,
}
use raft_kv_engine_project.Raft.Leader.{
  propose, propose_conf_change, queue_read, read_index, send_if_behind, handle_append_resp,
  handle_install_snapshot_resp, snapshot_at, compact,
}
use raft_kv_engine_project.Raft.Quiet.{
  Quiet, Quiet-refl, Quiet-trans, sync-Quiet, set_progress-Quiet, broadcast_append-Quiet,
  send_append-Quiet, process_read_acks-Quiet, release_reads-Quiet,
}
use raft_kv_engine_project.Raft.Advance.{IsValid, Sound, Sound-trans, Sound-refl, Quiet-Sound}
use raft_kv_engine_project.Raft.Keeps.State.{maybe_advance_commit-Sound}

push_entry-Sound : (n : RaftNode) (p : EntryPayload) → IsValid n → Sound n (push_entry n p)
unfolding push_entry
push_entry-Sound n p v = record {
  cfg = refl;
  valid = record {
    contiguous = push-IsContiguous n.log _ refl v.contiguous;
    base_le = unfold Log.push in v.base_le;
    commit_le = omega (
      arith,
      last_index-push n.log
          (record { term = n.hs.term; index = last_index n.log + 1; payload = p }),
    );
  };
  votes = record { term_le = omega arith; vote_kept = λ _. inr refl; saved = inr (refl, refl) };
  commits = record {
    commit_le = omega arith;
    base_le = unfold Log.push in omega arith;
    kept = λ j _ u. ground (
      arith,
      get-push n.log (record { term = n.hs.term; index = last_index n.log + 1; payload = p }) j,
    );
  };
}

pub append_local-Sound :
    (n : RaftNode) (p : EntryPayload) → IsValid n → Sound n (append_local n p).0
unfolding append_local
append_local-Sound n p v = Sound-trans (push_entry-Sound n p v) (λ v1.
    Sound-trans (maybe_advance_commit-Sound (push_entry n p) v1)
      (Quiet-Sound (broadcast_append-Quiet _)))

pub propose-Sound : (n : RaftNode) (c : List ℕ) → IsValid n → Sound n (propose n c).0
unfolding propose
propose-Sound n c v = grind (arith, Sound-refl n v, append_local-Sound)

pub propose_conf_change-Sound :
    (n : RaftNode) (c : ConfChange) → IsValid n → Sound n (propose_conf_change n c).0
unfolding propose_conf_change
propose_conf_change-Sound n c v = grind (arith, Sound-refl n v, with_sync)
  where
    with_sync : (p : EntryPayload) → Sound n (sync_progress_with_voters (append_local n p).0)
    with_sync p = Sound-trans (append_local-Sound n p v) (Quiet-Sound (sync-Quiet _))

queue_read-Quiet : (n : RaftNode) (id : ℕ) → Quiet n (queue_read n id)
unfolding queue_read
queue_read-Quiet n id = ground arith

pub read_index-Sound : (n : RaftNode) (id : ℕ) → IsValid n → Sound n (read_index n id).0
unfolding read_index
read_index-Sound n id v =
    Quiet-Sound
      (ground (
        arith,
        Quiet-refl n,
        Quiet-trans (queue_read-Quiet n id)
            (release_reads-Quiet (queue_read n id) (queue_read n id).read_ctx_counter),
        Quiet-trans (queue_read-Quiet n id) (broadcast_append-Quiet (queue_read n id)),
      ))
      v

send_if_behind-Quiet :
    (n : RaftNode) (peer : NodeId) (last : Index) → Quiet n (send_if_behind n peer last)
unfolding send_if_behind
send_if_behind-Quiet n peer last = grind (arith, Quiet-refl n, send_append-Quiet)

pub handle_append_resp-Sound :
    (n : RaftNode) (from : NodeId) (success : Bool) (match_index conflict_index : Index) (ctx : ℕ)
    → IsValid n
    → Sound n (handle_append_resp n from success match_index conflict_index ctx)
unfolding handle_append_resp
handle_append_resp-Sound n from success match_index conflict_index ctx v =
    grind (arith, Sound-refl n v, after_success, after_reject, after_probe)
  where
    after_probe : (p : Progress) → Sound n (set_progress n from p)
    after_probe p = Quiet-Sound (set_progress-Quiet n from p) v

    after_reject : (p : Progress) → Sound n (send_append (set_progress n from p) from)
    after_reject p =
        Quiet-Sound (Quiet-trans (set_progress-Quiet n from p) (send_append-Quiet _ from)) v

    after_success :
        (p : Progress) (last : Index)
        → Sound n (
            send_if_behind
              (process_read_acks (maybe_advance_commit (set_progress n from p)))
              from
              last)
    after_success p last = Sound-trans (after_probe p) (λ v1.
        Sound-trans (maybe_advance_commit-Sound _ v1) (
          Quiet-Sound (Quiet-trans (process_read_acks-Quiet _) (send_if_behind-Quiet _ from last))))

pub handle_install_snapshot_resp-Sound :
    (n : RaftNode) (from : NodeId) (last : Index)
    → IsValid n
    → Sound n (handle_install_snapshot_resp n from last)
unfolding handle_install_snapshot_resp
handle_install_snapshot_resp-Sound n from last v = grind (arith, Sound-refl n v, after)
  where
    after :
        (p : Progress) → Sound n (send_append (maybe_advance_commit (set_progress n from p)) from)
    after p = Sound-trans (Quiet-Sound (set_progress-Quiet n from p) v) (λ v1.
        Sound-trans (maybe_advance_commit-Sound _ v1) (Quiet-Sound (send_append-Quiet _ from)))

-- The node that `compact` leaves.
compacted : RaftNode → Index → Term → List ℕ → RaftNode
compacted n applied t sm_data = record n {
  voters_base = (snapshot_at n applied t sm_data).voters;
  log = Log.compact n.log applied t;
  snapshot = some (snapshot_at n applied t sm_data);
}

module _ (n : RaftNode) (applied : Index) (t : Term) (sm_data : List ℕ) (v : IsValid n)
    (above : n.log.snap_index < applied) (below : applied ≤ n.commit) where
  held : applied ≤ last_index n.log
  held = omega (arith, v.commit_le)

  base-compact : (Log.compact n.log applied t).snap_index ≡ applied
  unfolding Log.compact
  base-compact = ground arith

  compacted-Sound : Sound n (compacted n applied t sm_data)
  unfolding compacted
  compacted-Sound = record {
    cfg = refl;
    valid = record {
      contiguous = compact-IsContiguous n.log applied t held v.contiguous;
      base_le = omega (arith, base-compact);
      commit_le = omega (arith, last_index-compact n.log applied t above held, v.commit_le);
    };
    votes = record { term_le = omega arith; vote_kept = λ _. inr refl; saved = inr (refl, refl) };
    commits = record {
      commit_le = omega arith;
      base_le = omega (arith, base-compact);
      kept = λ j l u. ground (arith, get-compact n.log applied t above held j, base-compact);
    };
  }

pub compact-Sound :
    (n : RaftNode) (applied : Index) (sm_data : List ℕ)
    → IsValid n
    → Sound n (compact n applied sm_data).0
unfolding compact compacted snapshot_at
compact-Sound n applied sm_data v = grind (arith, Sound-refl n v, after)
  where
    after :
        (t : Term)
        → n.log.snap_index < applied
        → applied ≤ n.commit
        → Sound n (compacted n applied t sm_data)
    after t a b = compacted-Sound n applied t sm_data v a b
