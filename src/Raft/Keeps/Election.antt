-- ===== src/Raft/Keeps/Election.antt =====
-- crates/raft/src/node.rs: the operations of an election.
use raft_kv_engine_project.Base.{
  ◌+◌, ◌≡◌, refl, inr, Bool, true, ◌&&◌, none, some, List, arith, if◌then◌else◌,
}
use raft_kv_engine_project.Raft.Types.{NodeId, Term, Index, noop, MessageBody}
use raft_kv_engine_project.Raft.Node.{RaftNode, set_vote, reset_election_timer, log_up_to_date}
use raft_kv_engine_project.Raft.Election.{
  leader_state, become_leader, candidate_state, campaign, pre_candidate_state, campaign_pre,
  handle_pre_vote, handle_pre_vote_resp, can_vote, handle_request_vote, handle_request_vote_resp,
  record_vote, send_peers,
}
use raft_kv_engine_project.Raft.Quiet.{
  send-Quiet, broadcast_append-Quiet, send_peers-Quiet, record_vote-Quiet,
}
use raft_kv_engine_project.Raft.Advance.{IsValid, Sound, Sound-trans, Sound-refl, Quiet-Sound}
use raft_kv_engine_project.Raft.Keeps.State.{
  SameLog-Sound, new_term-Votes, new_term-SameLog, set_vote-Votes, set_vote-SameLog,
  become_follower-Sound, reset_election_timer-Quiet,
}
use raft_kv_engine_project.Raft.Keeps.Replication.{append_local-Sound}

leader_state-Sound : (n : RaftNode) → IsValid n → Sound n (leader_state n)
unfolding leader_state
leader_state-Sound n v =
    SameLog-Sound v (refl, refl, refl)
      (record { term_le = omega arith; vote_kept = λ _. inr refl; saved = inr (refl, refl) })

pub become_leader-Sound : (n : RaftNode) → IsValid n → Sound n (become_leader n)
unfolding become_leader
become_leader-Sound n v = Sound-trans (leader_state-Sound n v) (λ v1.
    Sound-trans (append_local-Sound (leader_state n) noop v1)
      (Quiet-Sound (broadcast_append-Quiet _)))

candidate_state-Sound : (n : RaftNode) → IsValid n → Sound n (candidate_state n)
unfolding candidate_state
candidate_state-Sound n v =
    let h = new_term-Votes n (n.hs.term + 1) (some n.cfg.id) (omega arith) in
    SameLog-Sound v (new_term-SameLog n (n.hs.term + 1) (some n.cfg.id))
      (record { term_le = h.term_le; vote_kept = h.vote_kept; saved = h.saved })

pub campaign-Sound : (n : RaftNode) → IsValid n → Sound n (campaign n)
unfolding campaign
campaign-Sound n v = grind (arith, won, lost)
  where
    start : Sound n (candidate_state n)
    start = candidate_state-Sound n v

    won : Sound n (become_leader (candidate_state n))
    won = Sound-trans start (become_leader-Sound (candidate_state n))

    lost :
        (t : Term) (body : MessageBody) (peers : List NodeId)
        → Sound n (send_peers (candidate_state n) t body peers)
    lost t body peers = Sound-trans start (Quiet-Sound (send_peers-Quiet peers _ t body))

pre_candidate_state-Sound : (n : RaftNode) → IsValid n → Sound n (pre_candidate_state n)
unfolding pre_candidate_state
pre_candidate_state-Sound n v =
    SameLog-Sound v (refl, refl, refl)
      (record { term_le = omega arith; vote_kept = λ _. inr refl; saved = inr (refl, refl) })

pub campaign_pre-Sound : (n : RaftNode) → IsValid n → Sound n (campaign_pre n)
unfolding campaign_pre
campaign_pre-Sound n v = grind (arith, won, lost)
  where
    start : Sound n (pre_candidate_state n)
    start = pre_candidate_state-Sound n v

    won : Sound n (campaign (pre_candidate_state n))
    won = Sound-trans start (campaign-Sound (pre_candidate_state n))

    lost :
        (t : Term) (body : MessageBody) (peers : List NodeId)
        → Sound n (send_peers (pre_candidate_state n) t body peers)
    lost t body peers = Sound-trans start (Quiet-Sound (send_peers-Quiet peers _ t body))

pub handle_pre_vote-Sound :
    (n : RaftNode) (from : NodeId) (t : Term) (lli : Index) (llt : Term)
    → IsValid n
    → Sound n (handle_pre_vote n from t lli llt)
unfolding handle_pre_vote
handle_pre_vote-Sound n from t lli llt v = Quiet-Sound (send-Quiet n from _ _) v

pub handle_pre_vote_resp-Sound :
    (n : RaftNode) (from : NodeId) (t : Term) (granted : Bool)
    → IsValid n
    → Sound n (handle_pre_vote_resp n from t granted)
unfolding handle_pre_vote_resp
handle_pre_vote_resp-Sound n from t granted v = ground (
  arith,
  Sound-refl n v,
  become_follower-Sound n t none v,
  counted,
  Sound-trans counted (campaign-Sound _),
)
  where
    counted : Sound n (record_vote n from true)
    counted = Quiet-Sound (record_vote-Quiet n from true) v

pub handle_request_vote-Sound :
    (n : RaftNode) (from : NodeId) (lli : Index) (llt : Term)
    → IsValid n
    → Sound n (handle_request_vote n from lli llt)
unfolding handle_request_vote can_vote
handle_request_vote-Sound n from lli llt v =
    Sound-trans decided (Quiet-Sound (send-Quiet _ from _ _))
  where
    granting : can_vote n from ≡ true → Sound n (reset_election_timer (set_vote n (some from)))
    granting h =
        Sound-trans
          (SameLog-Sound v (set_vote-SameLog n (some from)) (set_vote-Votes n (some from) h))
          (Quiet-Sound (reset_election_timer-Quiet _))

    decided : Sound n (
        if can_vote n from && log_up_to_date n lli llt
        then reset_election_timer (set_vote n (some from))
        else n)
    decided = ground (arith, Sound-refl n v, granting)

pub handle_request_vote_resp-Sound :
    (n : RaftNode) (from : NodeId) (granted : Bool)
    → IsValid n
    → Sound n (handle_request_vote_resp n from granted)
unfolding handle_request_vote_resp
handle_request_vote_resp-Sound n from granted v =
    ground (arith, Sound-refl n v, counted, Sound-trans counted (become_leader-Sound _))
  where
    counted : Sound n (record_vote n from granted)
    counted = Quiet-Sound (record_vote-Quiet n from granted) v
