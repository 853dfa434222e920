-- ===== src/Raft/Keeps/Follower.antt =====
-- crates/raft/src/node.rs: a follower stores entries and adopts snapshots.
use raft_kv_engine_project.Base.{
  ℕ, ◌+◌, ◌-◌, ◌<◌, min, refl, ◌∙◌, inl, inr, true, Option, none, some, List, ◌++◌, arith, ltb, leb,
  ◌==◌, ◌>>=◌, length, Bool-cases, Option-cases,
}
use raft_kv_engine_project.Raft.Types.{NodeId, Term, Index, Entry, Snapshot}
use raft_kv_engine_project.Raft.Log
use raft_kv_engine_project.Raft.Log.{RaftLog, last_index, push, truncate_from}
use raft_kv_engine_project.Raft.Log.Contiguous.{Contiguous, Contiguous-drop}
use raft_kv_engine_project.Raft.Log.Lookup.{term-range}
use raft_kv_engine_project.Raft.Node.{RaftNode}
use raft_kv_engine_project.Raft.Replication.{has_term, reply_append}
use raft_kv_engine_project.Raft.Follower.{
  follow, push_all, store_entries, append_at, handle_append_entries, adopt_snapshot,
  handle_install_snapshot,
}
use raft_kv_engine_project.Raft.Quiet.{send-Quiet}
use raft_kv_engine_project.Raft.Advance.{IsValid, Sound, Sound-trans, Quiet-Sound}
use raft_kv_engine_project.Raft.Keeps.State.{SameLog-Sound, advance_commit_to-Sound, has_term-range}
use raft_kv_engine_project.Raft.Advance.{SoundIn, SoundIn-trans}
use raft_kv_engine_project.Raft.Keeps.Search.{
  Found, FoundIn, find_new-Found, Pushed, push_all-Pushed,
}

follow-Sound : (n : RaftNode) (from : NodeId) → IsValid n → Sound n (follow n from)
unfolding follow
follow-Sound n from v =
    SameLog-Sound v (refl, refl, refl)
      (record { term_le = omega arith; vote_kept = λ _. inr refl; saved = inr (refl, refl) })

-- The new log and the entries to persist are in place.
stored : RaftNode → RaftLog → List Entry → RaftNode
stored n cut rest = record n {
  log = push_all cut rest;
  out = record n.out { append = n.out.append ++ rest };
}

module _ (n : RaftNode) (v : IsValid n) (prev size : ℕ) (cut : RaftLog) (rest : List Entry)
    (f : Found n.commit prev n.log cut size rest) where
  pushed : Pushed cut (push_all cut rest) rest
  pushed = push_all-Pushed cut rest f.contiguous f.fits

  stored-Sound : Sound n (stored n cut rest)
  unfolding stored
  stored-Sound = record {
    cfg = refl;
    valid = record {
      contiguous = pushed.contiguous;
      base_le = omega (arith, pushed.base, f.base, v.base_le);
      commit_le = omega (arith, pushed.end, f.committed);
    };
    votes = record { term_le = omega arith; vote_kept = λ _. inr refl; saved = inr (refl, refl) };
    commits = record {
      commit_le = omega arith;
      base_le = omega (arith, pushed.base, f.base);
      kept = λ j _ u. pushed.kept j (omega (arith, f.committed)) ∙ f.kept j u;
    };
  }

  pub store_entries-Sound :
      (leader_commit : Index) → Sound n (store_entries n cut rest (prev + size) leader_commit)
  unfolding store_entries stored
  store_entries-Sound leader_commit =
      elim (Bool-cases (ltb n.commit (min leader_commit (prev + size)))) [
        | inl further ↦ rw further (
            Sound-trans stored-Sound (
              advance_commit_to-Sound (stored n cut rest) (min leader_commit (prev + size))
                (ground arith) (omega (arith, pushed.end, f.reaches))))
        | inr reached ↦ rw reached stored-Sound
      ]

append_found-Sound :
    (n : RaftNode) (from : NodeId) (prev size : ℕ) (leader_commit : Index) (ctx : ℕ)
    → IsValid n
    → (r : Option (RaftLog × List Entry)) → FoundIn n.commit prev n.log size r
    → SoundIn n (
        r >>= λ found. some (
          reply_append
            (store_entries n found.0 found.1 (prev + size) leader_commit)
            from
            true
            (prev + size)
            0
            ctx))
append_found-Sound n from prev size leader_commit ctx v none f = tt
append_found-Sound n from prev size leader_commit ctx v (some (cut, rest)) f =
    Sound-trans (store_entries-Sound n v prev size cut rest f leader_commit)
      (Quiet-Sound (unfold reply_append in send-Quiet _ from _ _))

append_at-Sound :
    (n : RaftNode) (from : NodeId) (prev : Index) (prev_term : Term) (es : List Entry)
    (leader_commit : Index) (ctx : ℕ)
    → IsValid n
    → Contiguous prev es
    → SoundIn n (append_at n from prev prev_term es leader_commit ctx)
unfolding append_at reply_append
append_at-Sound n from prev prev_term es leader_commit ctx v h =
    elim (Option-cases (Log.term n.log prev)) [
      | inl absent ↦ rw (absent, SoundIn, append_at) (Quiet-Sound (send-Quiet n from _ _) v)
      | inr (t, present) ↦
          rw (present, SoundIn, append_at)
            (elim (Bool-cases (t == prev_term)) [
              | inl same ↦
                  let r = term-range n.log prev t present in
                  rw (same, SoundIn, append_at)
                    (append_found-Sound n from prev (length es) leader_commit ctx v _
                      (find_new-Found n.commit n.log v.contiguous v.commit_le prev es r.0 r.1 h))
              | inr differs ↦
                  rw (differs, SoundIn, append_at) (Quiet-Sound (send-Quiet n from _ _) v)
            ])
    ]

pub handle_append_entries-Sound :
    (n : RaftNode) (from : NodeId) (prev : Index) (prev_term : Term) (es : List Entry)
    (leader_commit : Index) (ctx : ℕ)
    → IsValid n
    → Contiguous prev es
    → SoundIn n (handle_append_entries n from prev prev_term es leader_commit ctx)
unfolding handle_append_entries reply_append follow
handle_append_entries-Sound n from prev prev_term es leader_commit ctx v h =
    SoundIn-trans _ (follow-Sound n from v) λ v1. elim (Bool-cases (ltb prev n.log.snap_index)) [
      | inl below ↦
          rw (below, SoundIn, handle_append_entries)
            (elim (Bool-cases (leb (length es) (n.log.snap_index - prev))) [
              | inl covered ↦
                  rw (covered, SoundIn, handle_append_entries)
                    (Quiet-Sound (send-Quiet _ from _ _) v1)
              | inr beyond ↦
                  rw (beyond, SoundIn, handle_append_entries)
                    (append_at-Sound (follow n from) from n.log.snap_index n.log.snap_term _
                      leader_commit ctx v1
                      (Contiguous-drop prev n.log.snap_index (n.log.snap_index - prev) es
                        (ground arith) (ground arith) h))
            ])
      | inr above ↦
          rw (above, SoundIn, handle_append_entries)
            (append_at-Sound (follow n from) from prev prev_term es leader_commit ctx v1 h)
    ]

adopt_snapshot-Sound :
    (n : RaftNode) (snap : Snapshot)
    → n.commit < snap.last_index
    → IsValid n
    → Sound n (adopt_snapshot n snap)
unfolding adopt_snapshot Log.reset_to_snapshot last_index
adopt_snapshot-Sound n snap h v = record {
  cfg = refl;
  valid = record { contiguous = tt; base_le = omega arith; commit_le = omega arith };
  votes = record { term_le = omega arith; vote_kept = λ _. inr refl; saved = inr (refl, refl) };
  commits = record {
    commit_le = omega arith;
    base_le = omega (arith, v.base_le);
    kept = λ j l u. absurd (omega arith);
  };
}

pub handle_install_snapshot-Sound :
    (n : RaftNode) (from : NodeId) (snap : Snapshot)
    → IsValid n
    → Sound n (handle_install_snapshot n from snap)
unfolding handle_install_snapshot follow
handle_install_snapshot-Sound n from snap v = Sound-trans (follow-Sound n from v) λ v1.
    elim (Bool-cases (leb snap.last_index n.commit)) [
      | inl stale ↦ rw stale (Quiet-Sound (send-Quiet _ from _ _) v1)
      | inr newer ↦ rw newer (elim (Bool-cases (has_term n.log snap.last_index snap.last_term)) [
        | inl prefix ↦ rw prefix (
            Sound-trans
              (advance_commit_to-Sound (follow n from) snap.last_index (ground arith)
                (has_term-range n.log snap.last_index snap.last_term prefix) v1)
              (Quiet-Sound (send-Quiet _ from _ _)))
        | inr other ↦ rw other (
            Sound-trans (adopt_snapshot-Sound (follow n from) snap (ground arith) v1)
              (Quiet-Sound (send-Quiet _ from _ _)))
      ])
    ]
