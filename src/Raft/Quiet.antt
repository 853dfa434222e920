-- ===== src/Raft/Quiet.antt =====
-- The operations of crates/raft/src/node.rs that touch neither the log, nor the hard state, nor the
-- commit index, nor what the host has to persist or apply.
use raft_kv_engine_project.Base.{
  ℕ, ◌≡◌, ◌∙◌, Bool, true, false, List, [], ◌∷◌, arith, ◌==◌, if◌then◌else◌,
}
use raft_kv_engine_project.Raft.Types.{NodeId, Term, MessageBody}
use raft_kv_engine_project.Raft.Node.{RaftNode, Progress, send}
use raft_kv_engine_project.Raft.Replication.{
  set_progress, sync_progress_with_voters, send_snapshot, send_entries, send_ready, send_append,
  send_each, broadcast_append, release_reads, process_read_acks,
}
use raft_kv_engine_project.Raft.Election.{send_peers, record_vote}

pub record Quiet (n n' : RaftNode) : Type 0 where
  pub cfg : n'.cfg ≡ n.cfg
  pub log : n'.log ≡ n.log
  pub hs : n'.hs ≡ n.hs
  pub role : n'.role ≡ n.role
  pub commit : n'.commit ≡ n.commit
  pub snapshot : n'.snapshot ≡ n.snapshot
  pub voters_base : n'.voters_base ≡ n.voters_base
  pub committed : n'.out.committed ≡ n.out.committed
  pub hard_state : n'.out.hard_state ≡ n.out.hard_state
  pub append : n'.out.append ≡ n.out.append
  pub installed : n'.out.snapshot ≡ n.out.snapshot

pub Quiet-refl : (n : RaftNode) → Quiet n n
Quiet-refl n = ground arith

pub Quiet-trans : {a b c : RaftNode} → Quiet a b → Quiet b c → Quiet a c
Quiet-trans p q = record {
  cfg = q.cfg ∙ p.cfg;
  log = q.log ∙ p.log;
  hs = q.hs ∙ p.hs;
  role = q.role ∙ p.role;
  commit = q.commit ∙ p.commit;
  snapshot = q.snapshot ∙ p.snapshot;
  voters_base = q.voters_base ∙ p.voters_base;
  committed = q.committed ∙ p.committed;
  hard_state = q.hard_state ∙ p.hard_state;
  append = q.append ∙ p.append;
  installed = q.installed ∙ p.installed;
}

pub Quiet-if :
    {n : RaftNode} (b : Bool) (x y : RaftNode)
    → Quiet n x
    → Quiet n y
    → Quiet n (if b then x else y)
Quiet-if true x y p q = p
Quiet-if false x y p q = q

pub send-Quiet :
    (n : RaftNode) (to : NodeId) (t : Term) (body : MessageBody) → Quiet n (send n to t body)
unfolding send
send-Quiet n to t body = ground arith

pub set_progress-Quiet :
    (n : RaftNode) (peer : NodeId) (p : Progress) → Quiet n (set_progress n peer p)
unfolding set_progress
set_progress-Quiet n peer p = ground arith

pub sync-Quiet : (n : RaftNode) → Quiet n (sync_progress_with_voters n)
unfolding sync_progress_with_voters
sync-Quiet n = ground arith

pub release_reads-Quiet : (n : RaftNode) (ctx : ℕ) → Quiet n (release_reads n ctx)
unfolding release_reads
release_reads-Quiet n ctx = ground arith

pub process_read_acks-Quiet : (n : RaftNode) → Quiet n (process_read_acks n)
unfolding process_read_acks release_reads
process_read_acks-Quiet n = ground arith

send_snapshot-Quiet :
    (n : RaftNode) (peer : NodeId) (pr : Progress) → Quiet n (send_snapshot n peer pr)
unfolding send_snapshot set_progress send
send_snapshot-Quiet n peer pr = ground arith

send_entries-Quiet :
    (n : RaftNode) (peer : NodeId) (pr : Progress) (t : Term) → Quiet n (send_entries n peer pr t)
unfolding send_entries set_progress send
send_entries-Quiet n peer pr t = ground arith

send_ready-Quiet : (n : RaftNode) (peer : NodeId) (pr : Progress) → Quiet n (send_ready n peer pr)
unfolding send_ready
send_ready-Quiet n peer pr = grind (
  arith,
  send_snapshot-Quiet n peer pr,
  send_entries-Quiet n peer pr,
  set_progress-Quiet n peer pr,
)

pub send_append-Quiet : (n : RaftNode) (peer : NodeId) → Quiet n (send_append n peer)
unfolding send_append
send_append-Quiet n peer = grind (arith, send_ready-Quiet, Quiet-refl)

pub send_each-Quiet : (n : RaftNode) (peers : List NodeId) → Quiet n (send_each n peers)
unfolding send_each
send_each-Quiet n [] = Quiet-refl n
send_each-Quiet n (peer ∷ peers) =
    Quiet-trans (send_append-Quiet n peer) (send_each-Quiet (send_append n peer) peers)

pub broadcast_append-Quiet : (n : RaftNode) → Quiet n (broadcast_append n)
unfolding broadcast_append
broadcast_append-Quiet n =
    Quiet-trans (sync-Quiet n) (send_each-Quiet (sync_progress_with_voters n) _)

pub send_peers-Quiet :
    (peers : List NodeId) (n : RaftNode) (t : Term) (body : MessageBody)
    → Quiet n (send_peers n t body peers)
unfolding send_peers
send_peers-Quiet [] n t body = Quiet-refl n
send_peers-Quiet (peer ∷ peers) n t body =
    Quiet-trans
      (Quiet-if (peer == n.cfg.id) n (send n peer t body) (Quiet-refl n) (send-Quiet n peer t body))
      (send_peers-Quiet peers (if peer == n.cfg.id then n else send n peer t body) t body)

pub record_vote-Quiet :
    (n : RaftNode) (from : NodeId) (granted : Bool) → Quiet n (record_vote n from granted)
unfolding record_vote
record_vote-Quiet n from granted = ground arith
