-- ===== src/Raft/Keeps/Step.antt =====
-- crates/raft/src/node.rs: `step`, `tick` and every call of the host.
use raft_kv_engine_project.Base.{◌+◌, ◌≡◌, inl, inr, false, arith, ltb, Bool-cases}
use raft_kv_engine_project.Raft.Types.{
  NodeId, Term, MessageBody, pre_vote, pre_vote_resp, request_vote, request_vote_resp,
  append_entries, append_entries_resp, install_snapshot, install_snapshot_resp, Message,
}
use raft_kv_engine_project.Raft.Log.Contiguous.{Contiguous}
use raft_kv_engine_project.Raft.Node.{RaftNode}
use raft_kv_engine_project.Raft.Replication.{reply_append}
use raft_kv_engine_project.Raft.Step.{
  timeout, tick_leader, tick_other, tick, named_leader, answer_stale, dispatch, step_term,
  step_body, step,
}
use raft_kv_engine_project.Raft.Quiet.{Quiet, Quiet-trans, broadcast_append-Quiet, send-Quiet}
use raft_kv_engine_project.Raft.Advance.{
  IsValid, Sound, SoundIn, SoundIn-trans, Sound-trans, Sound-refl, Quiet-Sound,
}
use raft_kv_engine_project.Raft.Keeps.State.{become_follower-Sound, reset_election_timer-Quiet}
use raft_kv_engine_project.Raft.Keeps.Replication.{
  handle_append_resp-Sound, handle_install_snapshot_resp-Sound,
}
use raft_kv_engine_project.Raft.Keeps.Election.{
  campaign-Sound, campaign_pre-Sound, handle_pre_vote-Sound, handle_pre_vote_resp-Sound,
  handle_request_vote-Sound, handle_request_vote_resp-Sound,
}
use raft_kv_engine_project.Raft.Keeps.Follower.{
  handle_append_entries-Sound, handle_install_snapshot-Sound,
}

-- The entries of an AppendEntries run on from its `prev_log_index`.
abbrev pub BodyIsValid : MessageBody → Type 0
BodyIsValid (append_entries prev prev_term entries commit ctx) = Contiguous prev entries
BodyIsValid (pre_vote lli llt) = Unit
BodyIsValid (pre_vote_resp granted) = Unit
BodyIsValid (request_vote lli llt) = Unit
BodyIsValid (request_vote_resp granted) = Unit
BodyIsValid (append_entries_resp success match_index conflict_index ctx) = Unit
BodyIsValid (install_snapshot snap) = Unit
BodyIsValid (install_snapshot_resp last) = Unit

timeout-Sound : (n : RaftNode) → IsValid n → Sound n (timeout n)
unfolding timeout
timeout-Sound n v =
    Sound-trans (Quiet-Sound (reset_election_timer-Quiet n) v)
      λ v1. ground (arith, Sound-refl _ v1, campaign_pre-Sound _ v1, campaign-Sound _ v1)

tick_leader-Sound : (n : RaftNode) → IsValid n → Sound n (tick_leader n)
unfolding tick_leader
tick_leader-Sound n v =
    Quiet-Sound
      (ground (
        arith,
        Quiet-trans (zeroed n) (broadcast_append-Quiet (record n { heartbeat_elapsed = 0 })),
      ))
      v
  where
    zeroed : (m : RaftNode) → Quiet m (record m { heartbeat_elapsed = 0 })
    zeroed m = ground arith

tick_other-Sound : (n : RaftNode) → IsValid n → Sound n (tick_other n)
unfolding tick_other
tick_other-Sound n v =
    Sound-trans (Quiet-Sound (counted n) v)
      λ v1. ground (arith, Sound-refl _ v1, timeout-Sound _ v1)
  where
    counted : (m : RaftNode) → Quiet m (record m { election_elapsed = m.election_elapsed + 1 })
    counted m = ground arith

pub tick-Sound : (n : RaftNode) → IsValid n → Sound n (tick n)
unfolding tick
tick-Sound n v =
    Sound-trans (Quiet-Sound (counted n) v)
      λ v1. ground (arith, tick_leader-Sound _ v1, tick_other-Sound _ v1)
  where
    counted : (m : RaftNode) → Quiet m (record m { tick_counter = m.tick_counter + 1 })
    counted m = ground arith

answer_stale-Sound :
    (n : RaftNode) (from : NodeId) (body : MessageBody)
    → IsValid n
    → Sound n (answer_stale n from body)
unfolding answer_stale reply_append
answer_stale-Sound n from (append_entries prev prev_term entries commit ctx) v =
    Quiet-Sound (send-Quiet n from _ _) v
answer_stale-Sound n from (request_vote lli llt) v = Quiet-Sound (send-Quiet n from _ _) v
answer_stale-Sound n from body v = Sound-refl n v

dispatch-Sound :
    (n : RaftNode) (from : NodeId) (body : MessageBody)
    → BodyIsValid body
    → IsValid n
    → SoundIn n (dispatch n from body)
unfolding dispatch
dispatch-Sound n from (request_vote lli llt) b v = handle_request_vote-Sound n from lli llt v
dispatch-Sound n from (request_vote_resp granted) b v =
    handle_request_vote_resp-Sound n from granted v
dispatch-Sound n from (append_entries prev prev_term entries commit ctx) b v =
    handle_append_entries-Sound n from prev prev_term entries commit ctx v b
dispatch-Sound n from (append_entries_resp success match_index conflict_index ctx) b v =
    handle_append_resp-Sound n from success match_index conflict_index ctx v
dispatch-Sound n from (install_snapshot snap) b v = handle_install_snapshot-Sound n from snap v
dispatch-Sound n from (install_snapshot_resp last) b v =
    handle_install_snapshot_resp-Sound n from last v
dispatch-Sound n from (pre_vote lli llt) b v = tt
dispatch-Sound n from (pre_vote_resp granted) b v = tt

step_term-Sound :
    (n : RaftNode) (from : NodeId) (t : Term) (body : MessageBody)
    → BodyIsValid body
    → IsValid n
    → SoundIn n (step_term n from t body)
unfolding step_term
step_term-Sound n from t body b v = elim (Bool-cases (ltb n.hs.term t)) [
  | inl higher ↦
      rw (higher, SoundIn, step_term)
        (let low : ltb t n.hs.term ≡ false = ground arith in
          rw (low, SoundIn, step_term)
            (SoundIn-trans _ (become_follower-Sound n t (named_leader from body) v)
              (dispatch-Sound _ from body b)))
  | inr known ↦
      rw (known, SoundIn, step_term)
        (elim (Bool-cases (ltb t n.hs.term)) [
          | inl stale ↦ rw (stale, SoundIn, step_term) (answer_stale-Sound n from body v)
          | inr current ↦ rw (current, SoundIn, step_term) (dispatch-Sound n from body b v)
        ])
]

step_body-Sound :
    (n : RaftNode) (from : NodeId) (t : Term) (body : MessageBody)
    → BodyIsValid body
    → IsValid n
    → SoundIn n (step_body n from t body)
unfolding step_body
step_body-Sound n from t (pre_vote lli llt) b v = handle_pre_vote-Sound n from t lli llt v
step_body-Sound n from t (pre_vote_resp granted) b v = handle_pre_vote_resp-Sound n from t granted v
step_body-Sound n from t body b v = step_term-Sound n from t body b v

pub step-Sound :
    (n : RaftNode) (msg : Message) → BodyIsValid msg.body → IsValid n → SoundIn n (step n msg)
unfolding step
step-Sound n msg b v = step_body-Sound n msg.from msg.term msg.body b v
