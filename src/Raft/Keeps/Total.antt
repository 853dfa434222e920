-- ===== src/Raft/Keeps/Total.antt =====
-- crates/raft/src/node.rs: when `step` does not panic.
use raft_kv_engine_project.Base.{
  ℕ, ◌-◌, ◌≤◌, ◌<◌, ◌≡◌, ◌≢◌, refl, sym, subst₂, Bool, none, List, arith, All-drop, length, drop,
}
use raft_kv_engine_project.Raft.Types.{
  NodeId, Term, Index, Entry, MessageBody, pre_vote, pre_vote_resp, request_vote, request_vote_resp,
  append_entries, append_entries_resp, install_snapshot, install_snapshot_resp, Message,
}
use raft_kv_engine_project.Raft.Log
use raft_kv_engine_project.Raft.Log.{RaftLog}
use raft_kv_engine_project.Raft.Log.Contiguous.{Contiguous, Contiguous-drop}
use raft_kv_engine_project.Raft.Log.Lookup.{term-range}
use raft_kv_engine_project.Raft.Node.{RaftNode, become_follower}
use raft_kv_engine_project.Raft.Follower.{follow, append_at, handle_append_entries}
use raft_kv_engine_project.Raft.Step.{named_leader, dispatch, step_term, step_body, step}
use raft_kv_engine_project.Raft.Keeps.State.{become_follower-SameLog}
use raft_kv_engine_project.Raft.Keeps.Search.{Agrees, find_new-ne-none}
use raft_kv_engine_project.Raft.Keeps.Step.{BodyIsValid}

append_at-ne-none :
    (n : RaftNode) (from : NodeId) (prev : Index) (prev_term : Term) (es : List Entry)
    (leader_commit : Index) (ctx : ℕ)
    → Contiguous prev es
    → Agrees n.commit n.log es
    → append_at n from prev prev_term es leader_commit ctx ≢ none
unfolding append_at
append_at-ne-none n from prev prev_term es leader_commit ctx h a = λ e. ground (
  arith,
  e,
  term-range n.log prev prev_term,
  λ (b : n.log.snap_index ≤ prev) (p : prev ≤ Log.last_index n.log).
      find_new-ne-none n.commit n.log prev es b p h a,
)

pub handle_append_entries-ne-none :
    (n : RaftNode) (from : NodeId) (prev : Index) (prev_term : Term) (es : List Entry)
    (leader_commit : Index) (ctx : ℕ)
    → Contiguous prev es
    → Agrees n.commit n.log es
    → handle_append_entries n from prev prev_term es leader_commit ctx ≢ none
unfolding handle_append_entries follow
handle_append_entries-ne-none n from prev prev_term es leader_commit ctx h a = λ e. ground (
  arith,
  e,
  append_at-ne-none (follow n from) from prev prev_term es leader_commit ctx h a,
  λ (b : prev < n.log.snap_index) (c : n.log.snap_index - prev < length es).
      append_at-ne-none (follow n from) from n.log.snap_index n.log.snap_term
        (drop (n.log.snap_index - prev) es) leader_commit ctx
        (Contiguous-drop prev n.log.snap_index (n.log.snap_index - prev) es (omega arith)
          (omega arith) h)
        (All-drop _ (n.log.snap_index - prev) es a),
)

-- The committed entries that an AppendEntries repeats have the terms that the node holds.
abbrev pub BodyAgrees : RaftNode → MessageBody → Type 0
BodyAgrees n (append_entries prev prev_term entries commit ctx) = Agrees n.commit n.log entries
BodyAgrees n (pre_vote lli llt) = Unit
BodyAgrees n (pre_vote_resp granted) = Unit
BodyAgrees n (request_vote lli llt) = Unit
BodyAgrees n (request_vote_resp granted) = Unit
BodyAgrees n (append_entries_resp success match_index conflict_index ctx) = Unit
BodyAgrees n (install_snapshot snap) = Unit
BodyAgrees n (install_snapshot_resp last) = Unit

dispatch-ne-none :
    (n m : RaftNode) (from : NodeId) (body : MessageBody)
    → m.log ≡ n.log
    → m.commit ≡ n.commit
    → BodyIsValid body
    → BodyAgrees n body
    → ((lli : Index) (llt : Term) → body ≢ pre_vote lli llt)
    → ((granted : Bool) → body ≢ pre_vote_resp granted)
    → dispatch m from body ≢ none
unfolding dispatch
dispatch-ne-none n m from (append_entries prev prev_term entries commit ctx) l k b a p q =
    handle_append_entries-ne-none m from prev prev_term entries commit ctx b
      (subst₂ (λ c g. Agrees c g entries) (sym k) (sym l) a)
dispatch-ne-none n m from (pre_vote lli llt) l k b a p q = absurd (p lli llt refl)
dispatch-ne-none n m from (pre_vote_resp granted) l k b a p q = absurd (q granted refl)
dispatch-ne-none n m from body l k b a p q = λ e. cc

step_term-ne-none :
    (n : RaftNode) (from : NodeId) (t : Term) (body : MessageBody)
    → BodyIsValid body
    → BodyAgrees n body
    → ((lli : Index) (llt : Term) → body ≢ pre_vote lli llt)
    → ((granted : Bool) → body ≢ pre_vote_resp granted)
    → step_term n from t body ≢ none
unfolding step_term
step_term-ne-none n from t body b a p q =
    let s = become_follower-SameLog n t (named_leader from body) in
    λ e. ground (
      arith,
      e,
      dispatch-ne-none n n from body refl refl b a p q,
      dispatch-ne-none n (become_follower n t (named_leader from body)) from body s.1 s.2 b a p q,
    )

step_body-ne-none :
    (n : RaftNode) (from : NodeId) (t : Term) (body : MessageBody)
    → BodyIsValid body
    → BodyAgrees n body
    → step_body n from t body ≢ none
unfolding step_body
step_body-ne-none n from t (pre_vote lli llt) b a = λ e. cc
step_body-ne-none n from t (pre_vote_resp granted) b a = λ e. cc
step_body-ne-none n from t body b a =
    step_term-ne-none n from t body b a (λ lli llt e. cc) (λ granted e. cc)

-- A node does not panic on a message whose entries run on from its previous index and agree in
-- term with what the node holds committed.
pub step-ne-none :
    (n : RaftNode) (msg : Message)
    → BodyIsValid msg.body
    → BodyAgrees n msg.body
    → step n msg ≢ none
unfolding step
step-ne-none n msg b a = step_body-ne-none n msg.from msg.term msg.body b a
