-- ===== src/Raft/Quorum/Decisions.antt =====
-- crates/raft/src/node.rs: the quorums behind commits, reads and leases.
use raft_kv_engine_project.Base.{
  ℕ, ◌+◌, ◌-◌, ◌/◌, ◌≤◌, ◌<◌, ◌≡◌, ◌≢◌, refl, sym, ap, ◌∙◌, not, false, ◌&&◌, ◌++◌, ◌==◌, All,
  All-map, subst, map, retain, if◌then◌else◌, append-nil, Option-cases, Bool-cases, ◌⊎◌, inl, inr,
  Bool, true, Option, none, some, List, [], ◌∷◌, arith, ltb, leb, length, count,
}
use raft_kv_engine_project.Base.Sort.{quorum-at_least}
use raft_kv_engine_project.Raft.Types.{NodeId, Index, leader, is_leader}
use raft_kv_engine_project.Raft.Log.{last_index}
use raft_kv_engine_project.Raft.Node.{
  RaftNode, Progress, PendingRead, voters, quorum, voter_values, quorum_value, lease_valid,
}
use raft_kv_engine_project.Raft.Replication.{
  has_term, commit_entries, advance_commit_to, maybe_advance_commit, release_reads,
  process_read_acks, released_reads,
}
use raft_kv_engine_project.Base.BTreeMap
use raft_kv_engine_project.Raft.Quorum.Reached.{has_reached, count_same, quorum_value-has_reached}
use raft_kv_engine_project.Raft.Keeps.State.{become_follower-SameLog}

-- The value that a quorum test picks is reached by a quorum of the voters.
pub quorum_value-reached :
    (n : RaftNode) (own : ℕ) (field : Progress → ℕ) (c : ℕ)
    → quorum_value n own field ≡ some c
    → quorum n ≤ count (leb c) (voter_values n own field)
unfolding quorum_value quorum
quorum_value-reached n own field c h =
    ground (arith, quorum-at_least (voter_values n own field) (length (voters n) / 2 + 1) c)

pub commit-advance_commit_to : (n : RaftNode) (c : Index) → (advance_commit_to n c).commit ≡ c
unfolding advance_commit_to commit_entries
commit-advance_commit_to n c =
    ground (arith, (become_follower-SameLog (commit_entries n c) n.hs.term none).2)

module _ (n : RaftNode) where
  picked : Option Index
  picked = quorum_value n (last_index n.log) (λ p. p.matched)

  -- The leader's look at its followers keeps the node, or commits up to the picked index.
  abbrev Advanced : RaftNode → Type 0
  Advanced n' =
      (n' ≡ n)
      ⊎ ((c : Index) × (n.role ≡ leader)
          × (n.commit < c)
          × (has_term n.log c n.hs.term ≡ true)
          × (picked ≡ some c)
          × (n' ≡ advance_commit_to n c))

  is_leader-eq : is_leader n.role ≡ true → n.role ≡ leader
  is_leader-eq h = ground arith

  maybe_advance_commit-cases : Advanced (maybe_advance_commit n)
  unfolding maybe_advance_commit picked
  maybe_advance_commit-cases =
      elim (Option-cases (quorum_value n (last_index n.log) (λ p. p.matched))) [
        | inl none_picked ↦ ground arith
        | inr (c, e) ↦ ground (
          arith,
          λ (a : n.role ≡ leader) (b : n.commit < c) (t : has_term n.log c n.hs.term ≡ true).
              let r : Advanced (advance_commit_to n c) = inr (c, a, b, t, e, refl) in r,
        )
      ]

  -- Whenever the leader's look at its followers moves the commit index, the node leads, the new
  -- index is higher and holds an entry of the current term, and at least a quorum of the voters, the
  -- leader's own log included, are known to hold the log up to it.
  pub maybe_advance_commit-quorum :
      (maybe_advance_commit n).commit ≢ n.commit
      → (n.role ≡ leader)
        × (n.commit < (maybe_advance_commit n).commit)
        × (has_term n.log (maybe_advance_commit n).commit n.hs.term ≡ true)
        × (quorum n
            ≤ count
                (leb (maybe_advance_commit n).commit)
                (voter_values n (last_index n.log) (λ p. p.matched)))
  unfolding picked
  maybe_advance_commit-quorum h = elim maybe_advance_commit-cases [
    | inl same ↦ absurd (h (rw same))
    | inr (c, lead, above, current, e, moved) ↦
        rw (moved, commit-advance_commit_to n c)
          (lead, above, current, quorum_value-reached n (last_index n.log) (λ p. p.matched) c e)
  ]

-- The node itself counts, and a voter whose last answer came fewer than `election_tick_min` ticks ago.
abbrev pub heard_of : RaftNode → NodeId → Bool
heard_of n v = if v == n.cfg.id then true else elim (BTreeMap.get n.prs v) [
  | none ↦ false
  | some p ↦ ltb (n.tick_counter - p.last_resp_tick) n.cfg.election_tick_min
]

-- The lease holds exactly when the node leads and at least a quorum of the voters, itself included, have
-- answered it fewer than `election_tick_min` ticks ago. That number is not 0, and the node has ticked as
-- many times at least.
pub lease_valid-quorum :
    (n : RaftNode)
    → 0 < n.cfg.election_tick_min
    → n.cfg.election_tick_min ≤ n.tick_counter
    → lease_valid n ≡ (is_leader n.role && leb (quorum n) (count (heard_of n) (voters n)))
unfolding lease_valid
lease_valid-quorum n positive late =
    let r = n.tick_counter - n.cfg.election_tick_min + 1 in
    let reached =
      quorum_value-has_reached n n.tick_counter (λ p. p.last_resp_tick) r (omega arith) in
    let heard =
      count_same (has_reached n n.tick_counter (λ p. p.last_resp_tick) r) (heard_of n) (voters n)
        (λ v. same_test (v == n.cfg.id) (BTreeMap.get n.prs v)) in
    by_picked (is_leader n.role) (quorum_value n n.tick_counter (λ p. p.last_resp_tick))
      (reached ∙ ap (λ (k : ℕ). leb (quorum n) k) heard)
  where
    recent :
        (x : ℕ)
        → leb (n.tick_counter - n.cfg.election_tick_min + 1) x
          ≡ ltb (n.tick_counter - x) n.cfg.election_tick_min
    recent x = ground (arith, positive, late)

    same_test :
        (self : Bool) (found : Option Progress)
        → (if self
            then leb (n.tick_counter - n.cfg.election_tick_min + 1) n.tick_counter
            else elim found [
              | none ↦ false
              | some p ↦ leb (n.tick_counter - n.cfg.election_tick_min + 1) p.last_resp_tick
            ])
          ≡ (if self then true else elim found [
            | none ↦ false
            | some p ↦ ltb (n.tick_counter - p.last_resp_tick) n.cfg.election_tick_min
          ])
    same_test true found = ground (arith, positive, late)
    same_test false none = refl
    same_test false (some p) = recent p.last_resp_tick

    by_picked :
        (leads : Bool) (o : Option ℕ) {b : Bool}
        → (elim o [ none ↦ false | some c ↦ leb (n.tick_counter - n.cfg.election_tick_min + 1) c ])
          ≡ b
        → (if leads
            then elim o [ none ↦ false | some t ↦ ltb (n.tick_counter - t) n.cfg.election_tick_min ]
            else false)
          ≡ (leads && b)
    by_picked false o h = refl
    by_picked true none h = h
    by_picked true (some t) h = sym (recent t) ∙ h

-- At least a quorum of the voters, the leader itself included, have acknowledged the round of the read.
abbrev pub is_ready : RaftNode → PendingRead → Bool
is_ready n r =
    leb (quorum n) (count (has_reached n n.read_ctx_counter (λ p. p.acked_read_ctx) r.0) (voters n))

retain_same :
    (p q : PendingRead → Bool) (reads : List PendingRead)
    → All (λ r. p r ≡ q r) reads
    → retain p reads ≡ retain q reads
retain_same p q [] h = refl
retain_same p q (r ∷ reads) h = rw h.0 (ground (arith, retain_same p q reads h.1))

-- `release_reads` hands out the reads of the rounds up to one, and keeps the others.
released_reads_lem :
    (c : ℕ) (reads : List PendingRead)
    → released_reads c reads ≡ map (λ (r : PendingRead). (r.1, r.2)) (retain (λ r. leb r.0 c) reads)
unfolding released_reads
released_reads_lem c [] = refl
released_reads_lem c ((round, id, idx) ∷ reads) = ground (arith, released_reads_lem c reads)

retain_all :
    (p : PendingRead → Bool) (reads : List PendingRead)
    → All (λ r. p r ≡ false) reads
    → (retain (λ r. not (p r)) reads ≡ reads) × (retain p reads ≡ [])
retain_all p [] h = (refl, refl)
retain_all p (r ∷ reads) h =
    let rest = retain_all p reads h.1 in (rw h.0 (ap (λ l. r ∷ l) rest.0), rw h.0 rest.1)

is_nil :
    (reads : List PendingRead)
    → (reads ≡ []) ⊎ ((r : PendingRead) × (rs : List PendingRead) × (reads ≡ r ∷ rs))
is_nil [] = inl refl
is_nil (r ∷ rs) = inr (r, rs, refl)

module _ (n : RaftNode) where
  -- The reads that are ready are handed out, and the others stay.
  Releases : RaftNode → Type 0
  Releases n' =
      (n'.pending_reads ≡ retain (λ r. not (is_ready n r)) n.pending_reads)
      × (n'.out.read_states
          ≡ n.out.read_states
            ++ map (λ (r : PendingRead). (r.1, r.2)) (retain (is_ready n) n.pending_reads))

  Releases-none : All (λ r. is_ready n r ≡ false) n.pending_reads → Releases n
  unfolding Releases
  Releases-none h =
      let kept = retain_all (is_ready n) n.pending_reads h in
      (
        sym kept.0,
        sym (
            ap (λ l. n.out.read_states ++ map (λ (r : PendingRead). (r.1, r.2)) l) kept.1
            ∙ append-nil n.out.read_states),
      )

  Releases-release_reads :
      (c : ℕ)
      → All (λ (r : PendingRead). leb r.0 c ≡ is_ready n r) n.pending_reads
      → Releases (release_reads n c)
  unfolding Releases release_reads
  Releases-release_reads c h = (
    retain_same (λ r. not (leb r.0 c)) (λ r. not (is_ready n r)) n.pending_reads
        (All-map (λ (r : PendingRead). leb r.0 c ≡ is_ready n r)
          (λ r. not (leb r.0 c) ≡ not (is_ready n r)) n.pending_reads (λ r e. ap not e) h),
    ap (λ l. n.out.read_states ++ l)
        (released_reads_lem c n.pending_reads
          ∙ ap (map (λ (r : PendingRead). (r.1, r.2)))
              (retain_same (λ r. leb r.0 c) (is_ready n) n.pending_reads h)),
  )

  -- The picked round decides what is ready.
  picked-is_ready :
      (o : Option ℕ)
      → quorum_value n n.read_ctx_counter (λ p. p.acked_read_ctx) ≡ o
      → All (λ (r : PendingRead). 0 < r.0) n.pending_reads
      → All
          (λ (r : PendingRead). (elim o [ none ↦ false | some c ↦ leb r.0 c ]) ≡ is_ready n r)
          n.pending_reads
  picked-is_ready o e positive =
      All-map (λ (r : PendingRead). 0 < r.0)
        (λ (r : PendingRead). (elim o [ none ↦ false | some c ↦ leb r.0 c ]) ≡ is_ready n r)
        n.pending_reads
        (λ r low.
          ap (λ (x : Option ℕ). elim x as (λ _. Bool) [ none ↦ false | some c ↦ leb r.0 c ]) (sym e)
          ∙ quorum_value-has_reached n n.read_ctx_counter (λ p. p.acked_read_ctx) r.0 low)
        positive

-- The reads that a look at the acknowledgements releases are exactly those whose round at least a quorum
-- of the voters, the leader itself included, have acknowledged: these are handed out in their order, with
-- their numbers and indices, and the others stay. Rounds are counted from 1.
pub process_read_acks-quorum :
    (n : RaftNode)
    → All (λ (r : PendingRead). 0 < r.0) n.pending_reads
    → ((process_read_acks n).pending_reads ≡ retain (λ r. not (is_ready n r)) n.pending_reads)
      × ((process_read_acks n).out.read_states
          ≡ n.out.read_states
            ++ map (λ (r : PendingRead). (r.1, r.2)) (retain (is_ready n) n.pending_reads))
unfolding process_read_acks Releases
process_read_acks-quorum n positive =
    elim (Option-cases (quorum_value n n.read_ctx_counter (λ p. p.acked_read_ctx))) [
      | inl missing ↦
          let same : process_read_acks n ≡ n = ground (arith, missing) in
          rw same (
            Releases-none n (
              All-map (λ (r : PendingRead). false ≡ is_ready n r) (λ r. is_ready n r ≡ false)
                n.pending_reads (λ r e. sym e) (picked-is_ready n none missing positive)))
      | inr (c, found) ↦
          let decided = picked-is_ready n (some c) found positive in
          elim (Bool-cases (ltb 0 c)) [
            | inr nothing ↦
                let same : process_read_acks n ≡ n = ground (arith, found, nothing) in
                rw same (Releases-none n (round_zero c n.pending_reads positive decided nothing))
            | inl some_round ↦ elim (is_nil n.pending_reads) [
              | inl empty ↦
                  let same : process_read_acks n ≡ n = ground (arith, found, empty) in
                  rw same (Releases-none n (subst (All (λ r. is_ready n r ≡ false)) (sym empty) tt))
              | inr (r, rs, more) ↦
                  let same : process_read_acks n ≡ release_reads n c =
                    ground (arith, found, some_round, more) in
                  rw same (Releases-release_reads n c decided)
            ]
          ]
    ]
  where
    round_zero :
        (c : ℕ) (reads : List PendingRead)
        → All (λ (r : PendingRead). 0 < r.0) reads
        → All (λ (r : PendingRead). leb r.0 c ≡ is_ready n r) reads
        → ltb 0 c ≡ false
        → All (λ r. is_ready n r ≡ false) reads
    round_zero c [] p d z = tt
    round_zero c (r ∷ reads) p d z =
        let zero_round : leb r.0 c ≡ false = ground (arith, p.0, z) in
        (sym d.0 ∙ zero_round, round_zero c reads p.1 d.1 z)
