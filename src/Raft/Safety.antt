-- ===== src/Raft/Safety.antt =====
-- crates/raft/src/node.rs: what holds of a node through any sequence of calls of its host.
use raft_kv_engine_project.Base.{
  ◌≤◌, ◌<◌, ◌≡◌, ◌≢◌, refl, subst, ◌⊎◌, inr, Option, none, some, List, [], ◌∷◌, arith, All, ◌>>=◌,
  get_or,
}
use mathlib.Core.Option
use raft_kv_engine_project.Raft.Types.{NodeId, Index, Config, Persisted, Snapshot}
use raft_kv_engine_project.Raft.Log
use raft_kv_engine_project.Raft.Log.Contiguous.{Contiguous}
use raft_kv_engine_project.Raft.Node.{
  RaftNode, initial_node, new, reset_election_timer, take_output,
}
use raft_kv_engine_project.Raft.Step.{
  Event, clock, receive, client_command, client_conf_change, client_read, compaction, drain, handle,
  run, step,
}
use raft_kv_engine_project.Raft.Advance.{IsValid, Commits, Commits-trans, Sound, SoundIn}
use raft_kv_engine_project.Raft.Keeps.Replication.{
  propose-Sound, propose_conf_change-Sound, read_index-Sound, compact-Sound,
}
use raft_kv_engine_project.Raft.Keeps.Step.{BodyIsValid, tick-Sound, step-Sound}

abbrev pub EventIsValid : Event → Type 0
EventIsValid (receive msg) = BodyIsValid msg.body
EventIsValid clock = Unit
EventIsValid (client_command contents) = Unit
EventIsValid (client_conf_change change) = Unit
EventIsValid (client_read request_id) = Unit
EventIsValid (compaction applied sm_data) = Unit
EventIsValid drain = Unit

-- A node's history: valid throughout, with the term, the vote and what is committed kept.
record Evolves (n n' : RaftNode) : Type 0 where
  valid : IsValid n'
  term_le : n.hs.term ≤ n'.hs.term
  vote_kept : n'.hs.term ≡ n.hs.term → (n.hs.voted_for ≡ none) ⊎ (n'.hs.voted_for ≡ n.hs.voted_for)
  commits : Commits n n'

Sound-Evolves : {n n' : RaftNode} → Sound n n' → Evolves n n'
Sound-Evolves s = record {
  valid = s.valid;
  term_le = s.votes.term_le;
  vote_kept = s.votes.vote_kept;
  commits = s.commits;
}

-- Every event but the hand-over of the output is a sound change.
handle-SoundIn :
    (n : RaftNode) (e : Event) → e ≢ drain → EventIsValid e → IsValid n → SoundIn n (handle n e)
unfolding handle
handle-SoundIn n clock d b v = tick-Sound n v
handle-SoundIn n (receive msg) d b v = step-Sound n msg b v
handle-SoundIn n (client_command contents) d b v = propose-Sound n contents v
handle-SoundIn n (client_conf_change change) d b v = propose_conf_change-Sound n change v
handle-SoundIn n (client_read request_id) d b v = read_index-Sound n request_id v
handle-SoundIn n (compaction applied sm_data) d b v = compact-Sound n applied sm_data v
handle-SoundIn n drain d b v = absurd (d refl)

abbrev EvolvesIn : RaftNode → Option RaftNode → Type 0
EvolvesIn n none = Unit
EvolvesIn n (some n') = Evolves n n'

SoundIn-EvolvesIn : (n : RaftNode) (r : Option RaftNode) → SoundIn n r → EvolvesIn n r
SoundIn-EvolvesIn n none s = tt
SoundIn-EvolvesIn n (some n') s = Sound-Evolves s

Evolves-refl : (n : RaftNode) → IsValid n → Evolves n n
Evolves-refl n v = record {
  valid = v;
  term_le = omega arith;
  vote_kept = λ _. inr refl;
  commits = record { commit_le = omega arith; base_le = omega arith; kept = λ j _ _. refl };
}

drain-Evolves : (n : RaftNode) → IsValid n → Evolves n (take_output n).0
unfolding take_output
drain-Evolves n v = record {
  valid = record { contiguous = v.contiguous; base_le = v.base_le; commit_le = v.commit_le };
  term_le = omega arith;
  vote_kept = λ _. inr refl;
  commits = record { commit_le = omega arith; base_le = omega arith; kept = λ j _ _. refl };
}

handle-EvolvesIn :
    (n : RaftNode) (e : Event) → EventIsValid e → IsValid n → EvolvesIn n (handle n e)
unfolding handle
handle-EvolvesIn n drain b v = drain-Evolves n v
handle-EvolvesIn n clock b v = Sound-Evolves (tick-Sound n v)
handle-EvolvesIn n (receive msg) b v = SoundIn-EvolvesIn n (step n msg) (step-Sound n msg b v)
handle-EvolvesIn n (client_command contents) b v = Sound-Evolves (propose-Sound n contents v)
handle-EvolvesIn n (client_conf_change change) b v =
    Sound-Evolves (propose_conf_change-Sound n change v)
handle-EvolvesIn n (client_read request_id) b v = Sound-Evolves (read_index-Sound n request_id v)
handle-EvolvesIn n (compaction applied sm_data) b v =
    Sound-Evolves (compact-Sound n applied sm_data v)

Evolves-trans : {a b c : RaftNode} → Evolves a b → Evolves b c → Evolves a c
Evolves-trans p q = record {
  valid = q.valid;
  term_le = omega (arith, p.term_le, q.term_le);
  vote_kept = λ e. ground (
    arith,
    p.vote_kept (omega (arith, p.term_le, q.term_le)),
    q.vote_kept (omega (arith, p.term_le, q.term_le)),
  );
  commits = Commits-trans p.commits q.commits;
}

EvolvesIn-bind :
    (n : RaftNode) (r : Option RaftNode) (f : RaftNode → Option RaftNode)
    → EvolvesIn n r
    → ((m : RaftNode) → IsValid m → EvolvesIn m (f m))
    → EvolvesIn n (r >>= f)
EvolvesIn-bind n none f h k = tt
EvolvesIn-bind n (some m) f h k = then_last (f m) (k m h.valid)
  where
    then_last : (r : Option RaftNode) → EvolvesIn m r → EvolvesIn n r
    then_last none g = tt
    then_last (some c) g = Evolves-trans h g

run-EvolvesIn :
    (n : RaftNode) (es : List Event) → All EventIsValid es → IsValid n → EvolvesIn n (run n es)
unfolding run
run-EvolvesIn n [] b v = Evolves-refl n v
run-EvolvesIn n (e ∷ es) b v =
    EvolvesIn-bind n (handle n e) (λ m. run m es) (handle-EvolvesIn n e b.0 v)
      (λ m vm. run-EvolvesIn m es b.1 vm)

module _ (n : RaftNode) (es : List Event) (n' : RaftNode) (b : All EventIsValid es) (v : IsValid n)
    (ran : run n es ≡ some n') where
  run-Evolves : Evolves n n'
  run-Evolves = subst (EvolvesIn n) ran (run-EvolvesIn n es b v)

  -- A run from a valid node, over any calls of the host and any messages whose entries run on from
  -- their previous index, ends in a valid node unless it panics: the log is contiguous from its
  -- snapshot base, and the commit index lies between the base and the end of the log.
  pub run-IsValid : IsValid n'
  run-IsValid = run-Evolves.valid

  -- Over a run from a valid node that does not panic, on any calls of the host and any messages
  -- whose entries run on from their previous index, the commit index and the snapshot base do not
  -- fall, and the log still holds, at every index that was committed at the start and is above the
  -- new base, the same entry.
  pub run-committed :
      (n.commit ≤ n'.commit)
      × (n.log.snap_index ≤ n'.log.snap_index)
      × ((j : Index) → n'.log.snap_index < j → j ≤ n.commit → Log.get n'.log j ≡ Log.get n.log j)
  run-committed = let c = run-Evolves.commits in (c.commit_le, c.base_le, c.kept)

  -- Over a run from a valid node that does not panic, on any calls of the host and any messages
  -- whose entries run on from their previous index, the term does not fall, and a node that had
  -- voted for `candidate` and is still in the same term has its vote for `candidate`: it votes once
  -- in a term.
  pub run-voted_for :
      (n.hs.term ≤ n'.hs.term)
      × ((candidate : NodeId)
          → n'.hs.term ≡ n.hs.term
          → n.hs.voted_for ≡ some candidate
          → n'.hs.voted_for ≡ some candidate)
  run-voted_for = (run-Evolves.term_le, λ candidate e h. ground (arith, run-Evolves.vote_kept e))

-- Whatever a valid node does on an event other than the hand-over of its output, either its term
-- and vote are unchanged and so is the hard state to persist, or the hard state to persist is the
-- new one.
pub handle-hard_state :
    (n : RaftNode) (e : Event) (n' : RaftNode)
    → e ≢ drain
    → EventIsValid e
    → IsValid n
    → handle n e ≡ some n'
    → (n'.out.hard_state ≡ some n'.hs) ⊎ ((n'.hs ≡ n.hs) × (n'.out.hard_state ≡ n.out.hard_state))
handle-hard_state n e n' d b v h =
    let s = subst (SoundIn n) h (handle-SoundIn n e d b v) in s.votes.saved

-- A node restarted from a contiguous log above its snapshot, or with no snapshot from index 0, is
-- valid and has its stored hard state.
pub new-IsValid :
    (cfg : Config) (initial_voters : List NodeId) (p : Persisted)
    → Contiguous (get_or (Option.map (λ (s : Snapshot). s.last_index) p.snapshot) 0) p.entries
    → IsValid (new cfg initial_voters p) × ((new cfg initial_voters p).hs ≡ p.hard_state)
unfolding new initial_node Log.new Log.last_index reset_election_timer
new-IsValid cfg initial_voters p c =
    (record { contiguous = c; base_le = omega arith; commit_le = omega arith }, refl)
