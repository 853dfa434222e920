-- ===== src/Raft/Follower.antt =====
-- crates/raft/src/node.rs: AppendEntries and InstallSnapshot at the receiver. `none` is a panic:
-- the assertion that no committed entry is overwritten, or a truncation into the snapshot.
use raft_kv_engine_project.Base.{
  ℕ, zero, suc, ◌+◌, ◌-◌, min, true, false, ◌&&◌, Option, none, some, List, [], ◌∷◌, ◌++◌, ltb, leb,
  ◌==◌, if◌then◌else◌, length, drop, ◌>>=◌,
}
use raft_kv_engine_project.Raft.Types.{
  NodeId, Term, Index, Entry, Snapshot, follower, install_snapshot_resp,
}
use raft_kv_engine_project.Raft.Log
use raft_kv_engine_project.Raft.Log.{
  RaftLog, first_index, last_index, push, truncate_from, reset_to_snapshot,
}
use raft_kv_engine_project.Raft.Node.{RaftNode, send}
use raft_kv_engine_project.Raft.Replication.{has_term, advance_commit_to, reply_append}

-- The start of both handlers: the sender leads this term.
unfoldable pub follow : RaftNode → NodeId → RaftNode
follow n from = record n { role = follower; leader_id = some from; election_elapsed = 0 }

-- The `while` loop that looks for the first index of a conflicting term; it takes at most as many
-- rounds as the index it starts from.
unfoldable pub first_of_term : RaftLog → Term → ℕ → Index → Index
first_of_term log t zero conflict = conflict
first_of_term log t (suc rounds) conflict =
    let earlier = first_of_term log t rounds (conflict - 1) in
    if ltb (first_index log) conflict && has_term log (conflict - 1) t then earlier else conflict

-- The search for the first new entry: the log, truncated on a conflict, and the entries to append.
unfoldable pub find_new : Index → RaftLog → List Entry → Option (RaftLog × List Entry)
find_new commit log [] = some (log, [])
find_new commit log (e ∷ es) =
    let later = find_new commit log es in
    elim (Log.term log e.index) [
      | none ↦ some (log, e ∷ es)
      | some t ↦
          if t == e.term
          then later
          else if ltb commit e.index
          then (truncate_from log e.index >>= λ cut. some (cut, e ∷ es))
          else none
    ]

unfoldable pub push_all : RaftLog → List Entry → RaftLog
push_all log [] = log
push_all log (e ∷ es) = push_all (push log e) es

-- The end of a successful AppendEntries: the new entries are stored, then the commit index follows
-- the leader's as far as the entries were checked.
unfoldable pub store_entries : RaftNode → RaftLog → List Entry → Index → Index → RaftNode
store_entries n log to_append new_last leader_commit =
    let n1 = record n {
      log = push_all log to_append;
      out = record n.out { append = n.out.append ++ to_append };
    } in
    let commit_target = min leader_commit new_last in
    if ltb n1.commit commit_target then advance_commit_to n1 commit_target else n1

-- The three cases for the term at `prev_idx`.
unfoldable pub append_at :
    RaftNode → NodeId → Index → Term → List Entry → Index → ℕ → Option RaftNode
append_at n from prev_idx prev_term entries leader_commit read_ctx =
    elim (Log.term n.log prev_idx) [
      | none ↦ some (reply_append n from false 0 (last_index n.log + 1) read_ctx)
      | some t ↦
          if t == prev_term
          then (find_new n.commit n.log entries >>= λ found. some (
              reply_append
                (store_entries n found.0 found.1 (prev_idx + length entries) leader_commit) from
                true (prev_idx + length entries) 0 read_ctx))
          else some (reply_append n from false 0 (first_of_term n.log t prev_idx prev_idx) read_ctx)
    ]

unfoldable pub handle_append_entries :
    RaftNode → NodeId → Index → Term → List Entry → Index → ℕ → Option RaftNode
handle_append_entries n0 from prev_log_index prev_log_term entries leader_commit read_ctx =
    let n = follow n0 from in
    if ltb prev_log_index n.log.snap_index
    then (let covered = n.log.snap_index - prev_log_index in
        if leb (length entries) covered
        then some (reply_append n from true n.log.snap_index 0 read_ctx)
        else append_at n from n.log.snap_index n.log.snap_term (drop covered entries) leader_commit
            read_ctx)
    else append_at n from prev_log_index prev_log_term entries leader_commit read_ctx

-- The state is replaced by the snapshot.
unfoldable pub adopt_snapshot : RaftNode → Snapshot → RaftNode
adopt_snapshot n snap = record n {
  log = reset_to_snapshot n.log snap.last_index snap.last_term;
  commit = snap.last_index;
  voters_base = snap.voters;
  snapshot = some snap;
  out = record n.out { snapshot = some snap };
}

unfoldable pub handle_install_snapshot : RaftNode → NodeId → Snapshot → RaftNode
handle_install_snapshot n0 from snap =
    let n = follow n0 from in
    if leb snap.last_index n.commit
    then send n from n.hs.term (install_snapshot_resp n.commit)
    else if has_term n.log snap.last_index snap.last_term
    then (let n1 = advance_commit_to n snap.last_index in
        send n1 from n1.hs.term (install_snapshot_resp snap.last_index))
    else send (adopt_snapshot n snap) from n.hs.term (install_snapshot_resp snap.last_index)
