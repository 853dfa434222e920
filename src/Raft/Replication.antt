-- ===== src/Raft/Replication.antt =====
-- crates/raft/src/node.rs: what a leader sends, the commit index, and the release of reads.
use raft_kv_engine_project.Base.{
  ℕ, zero, suc, ◌+◌, ◌-◌, Bool, true, false, not, ◌&&◌, none, some, List, [], ◌∷◌, ◌++◌, ltb, leb,
  ◌==◌, if◌then◌else◌, length, retain, any, contains,
}
use raft_kv_engine_project.Base.BTreeMap
use raft_kv_engine_project.Raft.Types.{
  NodeId, Term, Index, remove_node, EntryPayload, conf_change, Entry, append_entries,
  append_entries_resp, install_snapshot, is_leader, noop, normal, add_node,
}
use raft_kv_engine_project.Raft.Log
use raft_kv_engine_project.Raft.Log.{RaftLog, last_index, slice}
use raft_kv_engine_project.Raft.Node.{
  RaftNode, Progress, new_progress, PendingRead, voters, quorum_value, send, become_follower,
}

-- `log.term(idx) == Some(t)`.
unfoldable pub has_term : RaftLog → Index → Term → Bool
has_term log idx t = elim (Log.term log idx) [ none ↦ false | some u ↦ u == t ]

-- `*pr = p` through `prs.get_mut(&peer)`.
unfoldable pub set_progress : RaftNode → NodeId → Progress → RaftNode
set_progress n peer p = record n { prs = BTreeMap.insert peer p n.prs }

-- The insertions of `sync_progress_with_voters` for the listed peers.
unfoldable pub add_progress :
    NodeId → Index → List (NodeId × Progress) → List NodeId → List (NodeId × Progress)
add_progress id next prs [] = prs
add_progress id next prs (peer ∷ peers) =
    add_progress id next
      (if peer == id then prs else BTreeMap.or_insert peer (new_progress next) prs) peers

unfoldable pub sync_progress_with_voters : RaftNode → RaftNode
sync_progress_with_voters n =
    if is_leader n.role
    then record n {
      prs =
          BTreeMap.retain_keys (contains (voters n))
            (add_progress n.cfg.id (last_index n.log + 1) n.prs (voters n));
    }
    else n

-- The part of `send_append` that ships the snapshot.
unfoldable pub send_snapshot : RaftNode → NodeId → Progress → RaftNode
send_snapshot n peer pr = elim n.snapshot [
  | none ↦ set_progress n peer pr
  | some snap ↦
      send
        (set_progress n peer
          (record pr { pending_snapshot = true; snapshot_sent_tick = n.tick_counter }))
        peer n.hs.term (install_snapshot snap)
]

-- The pipeline window is full: there are entries to send, and too many batches in flight.
unfoldable pub window_full : RaftNode → Progress → Bool
window_full n pr =
    ltb 0 (length (slice n.log pr.next n.cfg.max_batch_entries))
    && leb n.cfg.max_inflight pr.inflight

unfoldable pub batch : RaftNode → Progress → List Entry
batch n pr = if window_full n pr then [] else slice n.log pr.next n.cfg.max_batch_entries

-- The part of `send_append` that streams entries, or a bare heartbeat.
unfoldable pub send_entries : RaftNode → NodeId → Progress → Term → RaftNode
send_entries n peer pr prev_term =
    let entries = batch n pr in
    let decayed = if window_full n pr then pr.inflight - 1 else pr.inflight in
    let inflight = if ltb 0 (length entries) then decayed + 1 else decayed in
    send (set_progress n peer (record pr { next = pr.next + length entries; inflight = inflight }))
      peer n.hs.term (append_entries (pr.next - 1) prev_term entries n.commit n.read_ctx_counter)

-- `send_append` once the peer's progress is known and no transfer holds it back.
unfoldable pub send_ready : RaftNode → NodeId → Progress → RaftNode
send_ready n peer pr =
    if leb pr.next n.log.snap_index
    then send_snapshot n peer pr
    else elim (Log.term n.log (pr.next - 1)) [
      | none ↦ set_progress n peer pr
      | some prev_term ↦ send_entries n peer pr prev_term
    ]

unfoldable pub send_append : RaftNode → NodeId → RaftNode
send_append n peer = elim (BTreeMap.get n.prs peer) [
  | none ↦ n
  | some pr ↦
      if pr.pending_snapshot && ltb (n.tick_counter - pr.snapshot_sent_tick) n.cfg.election_tick_min
      then n
      else send_ready n peer (record pr { pending_snapshot = false })
]

unfoldable pub send_each : RaftNode → List NodeId → RaftNode
send_each n [] = n
send_each n (peer ∷ peers) = send_each (send_append n peer) peers

unfoldable pub broadcast_append : RaftNode → RaftNode
broadcast_append n = let n1 = sync_progress_with_voters n in send_each n1 (BTreeMap.keys n1.prs)

-- The entries at the `k` indices from `idx` on, as the loop of `advance_commit_to` finds them.
unfoldable pub entries_from : RaftLog → Index → ℕ → List Entry
entries_from log idx zero = []
entries_from log idx (suc k) =
    let rest = entries_from log (idx + 1) k in
    elim (Log.get log idx) [ none ↦ rest | some e ↦ e ∷ rest ]

unfoldable pub removes : NodeId → EntryPayload → Bool
removes id (conf_change (remove_node other)) = other == id
removes id (conf_change (add_node other)) = false
removes id noop = false
removes id (normal c) = false

-- The commit index moves, and the entries between are handed to the host.
unfoldable pub commit_entries : RaftNode → Index → RaftNode
commit_entries n new_commit = record n {
  commit = new_commit;
  out = record n.out {
    committed = n.out.committed ++ entries_from n.log (n.commit + 1) (new_commit - n.commit);
  };
}

unfoldable pub advance_commit_to : RaftNode → Index → RaftNode
advance_commit_to n new_commit =
    let n1 = commit_entries n new_commit in
    let newly = entries_from n.log (n.commit + 1) (new_commit - n.commit) in
    if is_leader n.role && any (λ (e : Entry). removes n.cfg.id e.payload) newly
    then become_follower n1 n1.hs.term none
    else n1

unfoldable pub maybe_advance_commit : RaftNode → RaftNode
maybe_advance_commit n =
    if is_leader n.role
    then elim (quorum_value n (last_index n.log) (λ p. p.matched)) [
      | none ↦ n
      | some candidate ↦
          if ltb n.commit candidate && has_term n.log candidate n.hs.term
          then advance_commit_to n candidate
          else n
    ]
    else n

-- The log part of `append_local`, before the commit index is looked at.
unfoldable pub push_entry : RaftNode → EntryPayload → RaftNode
push_entry n payload =
    let e : Entry = record { term = n.hs.term; index = last_index n.log + 1; payload = payload } in
    record n { log = Log.push n.log e; out = record n.out { append = n.out.append ++ e ∷ [] } }

unfoldable pub append_local : RaftNode → EntryPayload → RaftNode × Index
append_local n payload =
    (broadcast_append (maybe_advance_commit (push_entry n payload)), last_index n.log + 1)

-- The reads of rounds up to `ctx`, in order, as (request_id, read_index).
unfoldable pub released_reads : ℕ → List PendingRead → List (ℕ × Index)
released_reads ctx [] = []
released_reads ctx ((c, id, idx) ∷ reads) =
    let rest = released_reads ctx reads in if leb c ctx then (id, idx) ∷ rest else rest

unfoldable pub release_reads : RaftNode → ℕ → RaftNode
release_reads n up_to_ctx = record n {
  pending_reads = retain (λ r. not (leb r.0 up_to_ctx)) n.pending_reads;
  out = record n.out {
    read_states = n.out.read_states ++ released_reads up_to_ctx n.pending_reads;
  };
}

unfoldable pub process_read_acks : RaftNode → RaftNode
process_read_acks n = elim n.pending_reads [
  | [] ↦ n
  | _ ∷ _ ↦ elim (quorum_value n n.read_ctx_counter (λ p. p.acked_read_ctx)) [
    | none ↦ n
    | some quorum_ctx ↦ if ltb 0 quorum_ctx then release_reads n quorum_ctx else n
  ]
]

unfoldable pub reply_append : RaftNode → NodeId → Bool → Index → Index → ℕ → RaftNode
reply_append n to success match_index conflict_index read_ctx =
    send n to n.hs.term (append_entries_resp success match_index conflict_index read_ctx)
