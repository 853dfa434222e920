-- ===== src/Raft/Advance.antt =====
-- How a node of crates/raft/src/node.rs may change: the relations that every call keeps, with their
-- rules of composition.
use raft_kv_engine_project.Base.{
  ◌≤◌, ◌<◌, ◌≡◌, refl, sym, ap, ◌∙◌, subst, ◌⊎◌, inr, Bool, true, false, Option, none, some, arith,
  if◌then◌else◌,
}
use raft_kv_engine_project.Raft.Types.{Index, HardState}
use raft_kv_engine_project.Raft.Log
use raft_kv_engine_project.Raft.Log.{RaftLog, last_index}
use raft_kv_engine_project.Raft.Log.Contiguous.{IsContiguous}
use raft_kv_engine_project.Raft.Node.{RaftNode}
use raft_kv_engine_project.Raft.Quiet.{Quiet}

-- The log is contiguous from the snapshot base, and the commit index lies between base and end.
pub record IsValid (n : RaftNode) : Type 0 where
  pub contiguous : IsContiguous n.log
  pub base_le : n.log.snap_index ≤ n.commit
  pub commit_le : n.commit ≤ last_index n.log

-- The term does not fall, a vote is not changed within its term, and a changed hard state is
-- handed to the host to persist.
pub record Votes (n n' : RaftNode) : Type 0 where
  pub term_le : n.hs.term ≤ n'.hs.term
  pub vote_kept :
      n'.hs.term ≡ n.hs.term → (n.hs.voted_for ≡ none) ⊎ (n'.hs.voted_for ≡ n.hs.voted_for)
  pub saved :
      (n'.out.hard_state ≡ some n'.hs) ⊎ ((n'.hs ≡ n.hs) × (n'.out.hard_state ≡ n.out.hard_state))

-- Neither the commit index nor the snapshot base falls, and what was committed and is still held is
-- the entry that was committed.
pub record Commits (n n' : RaftNode) : Type 0 where
  pub commit_le : n.commit ≤ n'.commit
  pub base_le : n.log.snap_index ≤ n'.log.snap_index
  pub kept : (j : Index) → n'.log.snap_index < j → j ≤ n.commit → Log.get n'.log j ≡ Log.get n.log j

pub record Sound (n n' : RaftNode) : Type 0 where
  pub cfg : n'.cfg ≡ n.cfg
  pub valid : IsValid n'
  pub votes : Votes n n'
  pub commits : Commits n n'

pub Votes-refl : (n : RaftNode) → Votes n n
Votes-refl n = record { term_le = omega arith; vote_kept = λ _. inr refl; saved = inr (refl, refl) }

pub Votes-trans : {a b c : RaftNode} → Votes a b → Votes b c → Votes a c
Votes-trans {a} {b} {c} p q = record {
  term_le = omega arith;
  vote_kept = λ e. ground (arith, p.vote_kept (omega arith), q.vote_kept (omega arith));
  saved = ground (arith, p.saved, q.saved);
}

pub Commits-trans : {a b c : RaftNode} → Commits a b → Commits b c → Commits a c
Commits-trans p q = record {
  commit_le = omega arith;
  base_le = omega arith;
  kept = λ j l u. q.kept j l (omega arith) ∙ p.kept j (omega arith) u;
}

pub Sound-trans : {a b c : RaftNode} → Sound a b → (IsValid b → Sound b c) → Sound a c
Sound-trans p f =
    let q = f p.valid in
    record {
      cfg = q.cfg ∙ p.cfg;
      valid = q.valid;
      votes = Votes-trans p.votes q.votes;
      commits = Commits-trans p.commits q.commits;
    }

pub Sound-same_log :
    {n n' : RaftNode}
    → IsValid n
    → n'.cfg ≡ n.cfg
    → n'.log ≡ n.log
    → n'.commit ≡ n.commit
    → Votes n n'
    → Sound n n'
Sound-same_log v c l k h = record {
  cfg = c;
  valid = record {
    contiguous = subst IsContiguous (sym l) v.contiguous;
    base_le = rw (l, k) v.base_le;
    commit_le = rw (l, k) v.commit_le;
  };
  votes = h;
  commits = record {
    commit_le = omega arith;
    base_le = rw l (omega arith);
    kept = λ j _ _. ap (λ g. Log.get g j) l;
  };
}

pub Quiet-Votes : {n n' : RaftNode} → Quiet n n' → Votes n n'
Quiet-Votes q = record {
  term_le = rw q.hs (omega arith);
  vote_kept = λ _. inr (ap (λ (h : HardState). h.voted_for) q.hs);
  saved = inr (q.hs, q.hard_state);
}

pub Quiet-Sound : {n n' : RaftNode} → Quiet n n' → IsValid n → Sound n n'
Quiet-Sound q v = Sound-same_log v q.cfg q.log q.commit (Quiet-Votes q)

pub Sound-refl : (n : RaftNode) → IsValid n → Sound n n
Sound-refl n v = Sound-same_log v refl refl refl (Votes-refl n)

pub Sound-if :
    {n : RaftNode} (b : Bool) {x y : RaftNode}
    → (b ≡ true → Sound n x)
    → (b ≡ false → Sound n y)
    → Sound n (if b then x else y)
Sound-if true p q = p refl
Sound-if false p q = q refl

-- The same of a call that may panic.
abbrev pub SoundIn : RaftNode → Option RaftNode → Type 0
SoundIn n none = Unit
SoundIn n (some n') = Sound n n'

pub SoundIn-trans :
    {a b : RaftNode} (r : Option RaftNode) → Sound a b → (IsValid b → SoundIn b r) → SoundIn a r
SoundIn-trans none p f = tt
SoundIn-trans (some c) p f = Sound-trans p f
