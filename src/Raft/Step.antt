-- ===== src/Raft/Step.antt =====
-- crates/raft/src/node.rs: `tick`, `step`, and the calls of a host as events.
use raft_kv_engine_project.Base.{
  ℕ, ◌+◌, false, Option, none, some, List, [], ◌∷◌, ltb, leb, if◌then◌else◌, ◌>>=◌, contains,
}
use raft_kv_engine_project.Raft.Types.{
  NodeId, Index, ConfChange, MessageBody, pre_vote, pre_vote_resp, request_vote, request_vote_resp,
  append_entries, append_entries_resp, install_snapshot, install_snapshot_resp, Message, is_leader,
}
use raft_kv_engine_project.Raft.Node.{
  RaftNode, voters, reset_election_timer, send, become_follower, take_output,
}
use raft_kv_engine_project.Raft.Replication.{broadcast_append, reply_append}
use raft_kv_engine_project.Raft.Election.{
  campaign, campaign_pre, handle_pre_vote, handle_pre_vote_resp, handle_request_vote,
  handle_request_vote_resp,
}
use raft_kv_engine_project.Raft.Follower.{handle_append_entries, handle_install_snapshot}
use raft_kv_engine_project.Raft.Leader.{
  propose, propose_conf_change, read_index, handle_append_resp, handle_install_snapshot_resp,
  compact,
}

-- An election timeout of a node that may be outside the voter set.
unfoldable pub timeout : RaftNode → RaftNode
timeout n0 =
    let n = reset_election_timer n0 in
    if contains (voters n) n.cfg.id
    then if n.cfg.pre_vote then campaign_pre n else campaign n
    else n

unfoldable pub tick_leader : RaftNode → RaftNode
tick_leader n =
    if leb n.cfg.heartbeat_tick (n.heartbeat_elapsed + 1)
    then broadcast_append (record n { heartbeat_elapsed = 0 })
    else record n { heartbeat_elapsed = n.heartbeat_elapsed + 1 }

unfoldable pub tick_other : RaftNode → RaftNode
tick_other n0 =
    let n = record n0 { election_elapsed = n0.election_elapsed + 1 } in
    if leb n.randomized_timeout n.election_elapsed then timeout n else n

unfoldable pub tick : RaftNode → RaftNode
tick n0 =
    let n = record n0 { tick_counter = n0.tick_counter + 1 } in
    if is_leader n.role then tick_leader n else tick_other n

-- The leader that a message of a higher term names.
unfoldable pub named_leader : NodeId → MessageBody → Option NodeId
named_leader from (append_entries prev prev_term entries commit ctx) = some from
named_leader from (install_snapshot snap) = some from
named_leader from _ = none

-- The answer to a sender whose term is over.
unfoldable pub answer_stale : RaftNode → NodeId → MessageBody → RaftNode
answer_stale n from (append_entries prev prev_term entries commit ctx) =
    reply_append n from false 0 0 ctx
answer_stale n from (request_vote lli llt) = send n from n.hs.term (request_vote_resp false)
answer_stale n from _ = n

-- The last `match` of `step`, at a message of the node's own term.
unfoldable pub dispatch : RaftNode → NodeId → MessageBody → Option RaftNode
dispatch n from (request_vote lli llt) = some (handle_request_vote n from lli llt)
dispatch n from (request_vote_resp granted) = some (handle_request_vote_resp n from granted)
dispatch n from (append_entries prev prev_term entries commit ctx) =
    handle_append_entries n from prev prev_term entries commit ctx
dispatch n from (append_entries_resp success match_index conflict_index ctx) =
    some (handle_append_resp n from success match_index conflict_index ctx)
dispatch n from (install_snapshot snap) = some (handle_install_snapshot n from snap)
dispatch n from (install_snapshot_resp last) = some (handle_install_snapshot_resp n from last)
dispatch n from (pre_vote lli llt) = none
dispatch n from (pre_vote_resp granted) = none

-- `step` for every message but the two of a pre-vote.
unfoldable pub step_term : RaftNode → NodeId → ℕ → MessageBody → Option RaftNode
step_term n from t body =
    let n1 = if ltb n.hs.term t then become_follower n t (named_leader from body) else n in
    if ltb t n.hs.term then some (answer_stale n from body) else dispatch n1 from body

unfoldable pub step_body : RaftNode → NodeId → ℕ → MessageBody → Option RaftNode
step_body n from t (pre_vote lli llt) = some (handle_pre_vote n from t lli llt)
step_body n from t (pre_vote_resp granted) = some (handle_pre_vote_resp n from t granted)
step_body n from t body = step_term n from t body

unfoldable pub step : RaftNode → Message → Option RaftNode
step n msg = step_body n msg.from msg.term msg.body

-- What a host does with a node: each event is one call of the interface.
pub data Event : Type 0 where
  clock : Event
  receive : Message → Event
  client_command : List ℕ → Event
  client_conf_change : ConfChange → Event
  client_read : ℕ → Event
  compaction : Index → List ℕ → Event
  drain : Event

unfoldable pub handle : RaftNode → Event → Option RaftNode
handle n clock = some (tick n)
handle n (receive msg) = step n msg
handle n (client_command contents) = some (propose n contents).0
handle n (client_conf_change change) = some (propose_conf_change n change).0
handle n (client_read request_id) = some (read_index n request_id).0
handle n (compaction applied sm_data) = some (compact n applied sm_data).0
handle n drain = some (take_output n).0

-- The events in turn; a panic ends the run.
unfoldable pub run : RaftNode → List Event → Option RaftNode
run n [] = some n
run n (e ∷ es) = handle n e >>= λ n1. run n1 es
