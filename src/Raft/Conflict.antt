-- ===== src/Raft/Conflict.antt =====
-- crates/raft/src/node.rs: the conflict index that a rejected AppendEntries answers with.
use raft_kv_engine_project.Base.{
  ℕ, zero, suc, ◌-◌, ◌≤◌, ◌≡◌, true, false, not, ◌&&◌, arith, ltb, leb, Bool-cases, inl, inr, subst,
  sym,
}
use raft_kv_engine_project.Raft.Types.{Term, Index}
use raft_kv_engine_project.Raft.Log.{RaftLog, first_index}
use raft_kv_engine_project.Raft.Replication.{has_term}
use raft_kv_engine_project.Raft.Follower.{first_of_term}

-- The search for the conflict index, on as many rounds as the index it starts from or more, ends at
-- an index not above that one, where it cannot go on: the index is not above the first of the log,
-- or the one below it has another term. Every index `j` from there up to the start has the term.
pub first_of_term_lem :
    (log : RaftLog) (t : Term) (rounds : ℕ) (conflict j : Index)
    → conflict ≤ rounds
    → (first_of_term log t rounds conflict ≤ conflict)
      × ((ltb (first_index log) (first_of_term log t rounds conflict)
            && has_term log (first_of_term log t rounds conflict - 1) t)
          ≡ false)
      × ((leb (first_of_term log t rounds conflict) j && ltb j conflict && not (has_term log j t))
          ≡ false)
unfolding first_of_term
first_of_term_lem log t zero conflict j h = (omega arith, ground (arith, h), ground arith)
first_of_term_lem log t (suc rounds) conflict j h =
    elim (Bool-cases (ltb (first_index log) conflict && has_term log (conflict - 1) t)) [
      | inr stop ↦ rw stop (omega arith, stop, ground arith)
      | inl more ↦
          let rest = first_of_term_lem log t rounds (conflict - 1) j (ground (arith, h, more)) in
          let here : (j ≡ conflict - 1) → has_term log j t ≡ true =
            λ e. subst (λ i. has_term log i t ≡ true) (sym e) (ground (arith, more)) in
          rw more (omega (arith, rest.0), rest.1, ground (arith, more, here, rest.2))
    ]
