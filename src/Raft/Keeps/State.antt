-- ===== src/Raft/Keeps/State.antt =====
-- crates/raft/src/node.rs: the operations on the hard state and on the commit index.
use raft_kv_engine_project.Base.{
  ◌≤◌, ◌<◌, ◌≡◌, refl, inl, inr, true, ◌||◌, Option, none, some, arith, ltb, Bool-cases,
}
use raft_kv_engine_project.Raft.Types.{NodeId, Term, Index}
use raft_kv_engine_project.Raft.Log.{RaftLog, last_index}
use raft_kv_engine_project.Raft.Log.Lookup.{term-range}
use raft_kv_engine_project.Raft.Node.{
  RaftNode, same_vote, set_term, set_vote, reset_election_timer, become_follower,
}
use raft_kv_engine_project.Raft.Replication.{
  has_term, commit_entries, advance_commit_to, maybe_advance_commit,
}
use raft_kv_engine_project.Raft.Quiet.{Quiet}
use raft_kv_engine_project.Raft.Advance.{
  IsValid, Votes, Sound, Sound-trans, Sound-same_log, Sound-refl,
}

pub same_vote_sound : (v w : Option NodeId) → same_vote v w ≡ true → v ≡ w
unfolding same_vote
same_vote_sound none none h = refl
same_vote_sound (some a) (some b) h = ground arith
same_vote_sound none (some b) h = cc
same_vote_sound (some a) none h = cc

pub reset_election_timer-Quiet : (n : RaftNode) → Quiet n (reset_election_timer n)
unfolding reset_election_timer
reset_election_timer-Quiet n = ground arith

-- A vote taken back or cast: what the hard state becomes.
pub set_vote-hs :
    (n : RaftNode) (v : Option NodeId) → (set_vote n v).hs ≡ record n.hs { voted_for = v }
unfolding set_vote
set_vote-hs n v = ground (arith, same_vote_sound n.hs.voted_for v)

pub set_term-hs : (n : RaftNode) (t : Term) → (set_term n t).hs ≡ record n.hs { term = t }
unfolding set_term
set_term-hs n t = ground arith

-- The term rises.
pub set_term-Votes : (n : RaftNode) (t : Term) → n.hs.term < t → Votes n (set_term n t)
unfolding set_term
set_term-Votes n t h = ground arith

-- A vote is cast where none was, or again for the same node.
pub set_vote-Votes :
    (n : RaftNode) (v : Option NodeId)
    → (same_vote n.hs.voted_for none || same_vote n.hs.voted_for v) ≡ true
    → Votes n (set_vote n v)
unfolding set_vote
set_vote-Votes n v h =
    ground (arith, same_vote_sound n.hs.voted_for v, same_vote_sound n.hs.voted_for none)

-- In a term that is new, the vote is free.
pub new_term-Votes :
    (n : RaftNode) (t : Term) (v : Option NodeId)
    → n.hs.term < t
    → Votes n (set_vote (set_term n t) v)
unfolding set_term set_vote
new_term-Votes n t v h = ground (arith, same_vote_sound n.hs.voted_for v)

-- What the operations on the hard state leave alone.
abbrev pub SameLog : RaftNode → RaftNode → Type 0
SameLog n n' = (n'.cfg ≡ n.cfg) × (n'.log ≡ n.log) × (n'.commit ≡ n.commit)

pub SameLog-Sound : {n n' : RaftNode} → IsValid n → SameLog n n' → Votes n n' → Sound n n'
SameLog-Sound v s h = Sound-same_log v s.0 s.1 s.2 h

pub set_vote-SameLog : (n : RaftNode) (v : Option NodeId) → SameLog n (set_vote n v)
unfolding set_vote
set_vote-SameLog n v = ground arith

pub new_term-SameLog :
    (n : RaftNode) (t : Term) (v : Option NodeId) → SameLog n (set_vote (set_term n t) v)
unfolding set_term set_vote
new_term-SameLog n t v = ground arith

pub become_follower-SameLog :
    (n : RaftNode) (t : Term) (l : Option NodeId) → SameLog n (become_follower n t l)
unfolding become_follower reset_election_timer
become_follower-SameLog n t l = ground (arith, new_term-SameLog n t none)

become_follower-Votes :
    (n : RaftNode) (t : Term) (l : Option NodeId) → Votes n (become_follower n t l)
unfolding become_follower reset_election_timer
become_follower-Votes n t l = elim (Bool-cases (ltb n.hs.term t)) [
  | inl higher ↦
      let v = new_term-Votes n t none (ground arith) in
      rw higher (record { term_le = v.term_le; vote_kept = v.vote_kept; saved = v.saved })
  | inr same ↦
      rw same
        (record { term_le = omega arith; vote_kept = λ _. inr refl; saved = inr (refl, refl) })
]

pub become_follower-Sound :
    (n : RaftNode) (t : Term) (l : Option NodeId) → IsValid n → Sound n (become_follower n t l)
become_follower-Sound n t l v =
    SameLog-Sound v (become_follower-SameLog n t l) (become_follower-Votes n t l)

pub become_follower-term :
    (n : RaftNode) (t : Term) (l : Option NodeId)
    → n.hs.term ≤ t
    → (become_follower n t l).hs.term ≡ t
unfolding become_follower reset_election_timer
become_follower-term n t l h = ground (arith, set_vote-hs (set_term n t) none, set_term-hs n t)

commit_entries-Sound :
    (n : RaftNode) (c : Index)
    → n.commit ≤ c
    → c ≤ last_index n.log
    → IsValid n
    → Sound n (commit_entries n c)
unfolding commit_entries
commit_entries-Sound n c l u v = record {
  cfg = refl;
  valid = record { contiguous = v.contiguous; base_le = omega arith; commit_le = u };
  votes = record { term_le = omega arith; vote_kept = λ _. inr refl; saved = inr (refl, refl) };
  commits = record { commit_le = l; base_le = omega arith; kept = λ j _ _. refl };
}

pub advance_commit_to-Sound :
    (n : RaftNode) (c : Index)
    → n.commit ≤ c
    → c ≤ last_index n.log
    → IsValid n
    → Sound n (advance_commit_to n c)
unfolding advance_commit_to
advance_commit_to-Sound n c l u v =
    let s = commit_entries-Sound n c l u v in
    let t =
      Sound-trans s
        (become_follower-Sound (commit_entries n c) (commit_entries n c).hs.term none) in
    ground (arith, s, t)

pub has_term-range :
    (log : RaftLog) (j : Index) (t : Term) → has_term log j t ≡ true → j ≤ last_index log
unfolding has_term
has_term-range log j t h = ground (arith, term-range log j t)

pub maybe_advance_commit-Sound : (n : RaftNode) → IsValid n → Sound n (maybe_advance_commit n)
unfolding maybe_advance_commit
maybe_advance_commit-Sound n v =
    grind (arith, Sound-refl n v, advance_commit_to-Sound, has_term-range)
