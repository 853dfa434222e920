-- ===== src/Raft/Election.antt =====
-- crates/raft/src/node.rs: campaigns, votes and the move to leadership.
use raft_kv_engine_project.Base.{
  ◌+◌, Bool, true, false, not, ◌&&◌, ◌||◌, none, some, List, [], ◌∷◌, ltb, leb, ◌==◌, if◌then◌else◌,
}
use raft_kv_engine_project.Base.BTreeMap
use raft_kv_engine_project.Raft.Types.{
  NodeId, Term, Index, MessageBody, pre_vote, pre_vote_resp, request_vote, request_vote_resp, Role,
  pre_candidate, candidate, leader, noop,
}
use raft_kv_engine_project.Raft.Log.{last_index, last_term}
use raft_kv_engine_project.Raft.Node.{
  RaftNode, voters, quorum, reset_election_timer, same_vote, set_term, set_vote, send,
  log_up_to_date, count_granted, become_follower,
}
use raft_kv_engine_project.Raft.Replication.{add_progress, append_local, broadcast_append}

-- One message to every voter but the node itself, in voter order.
unfoldable pub send_peers : RaftNode → Term → MessageBody → List NodeId → RaftNode
send_peers n t body [] = n
send_peers n t body (peer ∷ peers) =
    send_peers (if peer == n.cfg.id then n else send n peer t body) t body peers

-- The new leader's state, before its first entry.
unfoldable pub leader_state : RaftNode → RaftNode
leader_state n = record n {
  role = leader;
  leader_id = some n.cfg.id;
  heartbeat_elapsed = 0;
  prs = add_progress n.cfg.id (last_index n.log + 1) [] (voters n);
  pending_reads = [];
  read_ctx_counter = 0;
}

unfoldable pub become_leader : RaftNode → RaftNode
become_leader n = broadcast_append (append_local (leader_state n) noop).0

-- The start of `campaign`: a new term, with the node's vote for itself.
unfoldable pub candidate_state : RaftNode → RaftNode
candidate_state n =
    let n1 = set_vote (set_term n (n.hs.term + 1)) (some n.cfg.id) in
    record n1 { role = candidate; leader_id = none; votes = BTreeMap.insert n1.cfg.id true [] }

unfoldable pub campaign : RaftNode → RaftNode
campaign n =
    let n1 = candidate_state n in
    if leb (quorum n1) (count_granted n1)
    then become_leader n1
    else send_peers n1 n1.hs.term (request_vote (last_index n1.log) (last_term n1.log)) (voters n1)

unfoldable pub pre_candidate_state : RaftNode → RaftNode
pre_candidate_state n = record n { role = pre_candidate; votes = BTreeMap.insert n.cfg.id true [] }

unfoldable pub campaign_pre : RaftNode → RaftNode
campaign_pre n =
    let n1 = pre_candidate_state n in
    if leb (quorum n1) (count_granted n1)
    then campaign n1
    else send_peers n1 (n1.hs.term + 1) (pre_vote (last_index n1.log) (last_term n1.log))
        (voters n1)

-- Whether a leader was heard of within the minimum election timeout.
unfoldable pub leader_alive : RaftNode → Bool
leader_alive n = elim n.leader_id [
  | none ↦ false
  | some _ ↦ ltb n.election_elapsed n.cfg.election_tick_min
]

unfoldable pub grants_pre_vote : RaftNode → Term → Index → Term → Bool
grants_pre_vote n t lli llt = ltb n.hs.term t && log_up_to_date n lli llt && not (leader_alive n)

unfoldable pub handle_pre_vote : RaftNode → NodeId → Term → Index → Term → RaftNode
handle_pre_vote n from t lli llt =
    let granted = grants_pre_vote n t lli llt in
    send n from (if granted then t else n.hs.term) (pre_vote_resp granted)

abbrev pub is_pre_candidate : Role → Bool
is_pre_candidate pre_candidate = true
is_pre_candidate _ = false

abbrev pub is_candidate : Role → Bool
is_candidate candidate = true
is_candidate _ = false

unfoldable pub record_vote : RaftNode → NodeId → Bool → RaftNode
record_vote n from granted = record n { votes = BTreeMap.insert from granted n.votes }

unfoldable pub handle_pre_vote_resp : RaftNode → NodeId → Term → Bool → RaftNode
handle_pre_vote_resp n from t granted =
    if not granted
    then if ltb n.hs.term t then become_follower n t none else n
    else if not (is_pre_candidate n.role) || not (t == n.hs.term + 1)
    then n
    else let n1 = record_vote n from true in
      if leb (quorum n1) (count_granted n1) then campaign n1 else n1

-- The node has not voted in this term, or has voted for the one who asks.
unfoldable pub can_vote : RaftNode → NodeId → Bool
can_vote n from = same_vote n.hs.voted_for none || same_vote n.hs.voted_for (some from)

unfoldable pub handle_request_vote : RaftNode → NodeId → Index → Term → RaftNode
handle_request_vote n from lli llt =
    let granted = can_vote n from && log_up_to_date n lli llt in
    let n1 = if granted then reset_election_timer (set_vote n (some from)) else n in
    send n1 from n1.hs.term (request_vote_resp granted)

unfoldable pub handle_request_vote_resp : RaftNode → NodeId → Bool → RaftNode
handle_request_vote_resp n from granted =
    if is_candidate n.role
    then (let n1 = record_vote n from granted in
        if leb (quorum n1) (count_granted n1) then become_leader n1 else n1)
    else n
