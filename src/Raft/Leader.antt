-- ===== src/Raft/Leader.antt =====
-- crates/raft/src/node.rs: proposals, linearizable reads, the replies of followers, compaction.
use raft_kv_engine_project.Base.{
  ℕ, ◌+◌, ◌-◌, min, max, Bool, true, false, ◌&&◌, ◌||◌, Option, none, some, List, [], ◌∷◌, ◌++◌,
  ltb, leb, ◌==◌, if◌then◌else◌, any,
}
use raft_kv_engine_project.Base.BTreeMap
use raft_kv_engine_project.Raft.Types.{
  NodeId, Term, Index, ConfChange, EntryPayload, noop, normal, conf_change, Entry, Snapshot,
  is_leader, not_leader, conf_change_in_flight, not_ready, Result, ok, err,
}
use raft_kv_engine_project.Raft.Log
use raft_kv_engine_project.Raft.Log.{last_index}
use raft_kv_engine_project.Raft.Node.{RaftNode, Progress, voters_at, quorum}
use raft_kv_engine_project.Raft.Replication.{
  has_term, set_progress, sync_progress_with_voters, send_append, broadcast_append,
  maybe_advance_commit, append_local, release_reads, process_read_acks,
}

unfoldable pub propose : RaftNode → List ℕ → RaftNode × Result Index
propose n contents =
    if is_leader n.role
    then (let (n1, idx) = append_local n (normal contents) in (n1, ok idx))
    else (n, err (not_leader n.leader_id))

unfoldable pub is_conf_change : EntryPayload → Bool
is_conf_change (conf_change change) = true
is_conf_change noop = false
is_conf_change (normal c) = false

unfoldable pub conf_in_flight : RaftNode → Bool
conf_in_flight n =
    any (λ (e : Entry). ltb n.commit e.index && is_conf_change e.payload) n.log.entries

unfoldable pub propose_conf_change : RaftNode → ConfChange → RaftNode × Result Index
propose_conf_change n change =
    if is_leader n.role
    then if conf_in_flight n
      then (n, err conf_change_in_flight)
      else (let (n1, idx) = append_local n (conf_change change) in
          (sync_progress_with_voters n1, ok idx))
    else (n, err (not_leader n.leader_id))

-- A read waits in the next round.
unfoldable pub queue_read : RaftNode → ℕ → RaftNode
queue_read n request_id = record n {
  read_ctx_counter = n.read_ctx_counter + 1;
  pending_reads = n.pending_reads ++ (n.read_ctx_counter + 1, request_id, n.commit) ∷ [];
}

unfoldable pub read_index : RaftNode → ℕ → RaftNode × Result (Unit {0})
read_index n request_id =
    if is_leader n.role
    then if has_term n.log n.commit n.hs.term
      then (let n1 = queue_read n request_id in
          (
            if quorum n1 == 1 then release_reads n1 n1.read_ctx_counter else broadcast_append n1,
            ok tt,
          ))
      else (n, err not_ready)
    else (n, err (not_leader n.leader_id))

-- What every AppendEntries reply records of its sender.
unfoldable pub heard : RaftNode → Progress → ℕ → Progress
heard n pr read_ctx = record pr {
  last_resp_tick = n.tick_counter;
  acked_read_ctx = max pr.acked_read_ctx read_ctx;
}

unfoldable pub accepted : Progress → Index → Progress
accepted pr match_index = record pr {
  matched = if ltb pr.matched match_index then match_index else pr.matched;
  next = max pr.next (match_index + 1);
  inflight = pr.inflight - 1;
}

unfoldable pub rejected : Progress → Index → Index → Progress
rejected pr conflict_index last = record pr {
  next = min (max conflict_index 1) (last + 1);
  inflight = 0;
}

-- The pipeline is kept full while the follower is behind `last`.
unfoldable pub send_if_behind : RaftNode → NodeId → Index → RaftNode
send_if_behind n peer last = elim (BTreeMap.get n.prs peer) [
  | none ↦ n
  | some pr ↦ if leb pr.next last then send_append n peer else n
]

unfoldable pub handle_append_resp : RaftNode → NodeId → Bool → Index → Index → ℕ → RaftNode
handle_append_resp n from success match_index conflict_index read_ctx =
    if is_leader n.role
    then elim (BTreeMap.get n.prs from) [
      | none ↦ n
      | some pr ↦
          if success
          then (let n1 = set_progress n from (accepted (heard n pr read_ctx) match_index) in
              send_if_behind (process_read_acks (maybe_advance_commit n1)) from (last_index n.log))
          else if ltb 0 conflict_index
          then send_append
              (set_progress n from
                (rejected (heard n pr read_ctx) conflict_index (last_index n.log)))
              from
          else set_progress n from (heard n pr read_ctx)
    ]
    else n

unfoldable pub installed : RaftNode → Progress → Index → Progress
installed n pr last = record pr {
  pending_snapshot = false;
  last_resp_tick = n.tick_counter;
  matched = if ltb pr.matched last then last else pr.matched;
  next = max pr.next (last + 1);
  inflight = 0;
}

unfoldable pub handle_install_snapshot_resp : RaftNode → NodeId → Index → RaftNode
handle_install_snapshot_resp n from last =
    if is_leader n.role
    then elim (BTreeMap.get n.prs from) [
      | none ↦ n
      | some pr ↦
          send_append (maybe_advance_commit (set_progress n from (installed n pr last))) from
    ]
    else n

-- The snapshot that `compact` hands back, at a held index with the given term.
unfoldable pub snapshot_at : RaftNode → Index → Term → List ℕ → Snapshot
snapshot_at n applied t sm_data = record {
  last_index = applied;
  last_term = t;
  voters = voters_at n applied;
  contents = sm_data;
}

unfoldable pub compact : RaftNode → Index → List ℕ → RaftNode × Option Snapshot
compact n applied sm_data =
    if leb applied n.log.snap_index || ltb n.commit applied
    then (n, none)
    else elim (Log.term n.log applied) [
      | none ↦ (n, none)
      | some t ↦
          let snap = snapshot_at n applied t sm_data in
          (
            record n {
              voters_base = voters_at n applied;
              log = Log.compact n.log applied t;
              snapshot = some snap;
            },
            some snap,
          )
    ]
