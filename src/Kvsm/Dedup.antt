-- ===== src/Kvsm/Dedup.antt =====
-- crates/kvsm/src/lib.rs: retried commands.
use raft_kv_engine_project.Base.{
  ℕ, ◌≤◌, ◌≡◌, ◌≢◌, some, List, [], ◌∷◌, arith, ltb, ◌==◌, if◌then◌else◌, Option-cases, Bool-cases,
  inl, inr, ◌&&◌, not,
}
use raft_kv_engine_project.Base.BTreeMap
use raft_kv_engine_project.Kvsm.Backend.{Backend}
use raft_kv_engine_project.Kvsm.Machine.{
  Command, SessionState, StateMachine, apply_fresh, apply, apply_all,
}

module _ (b : Backend) where
  -- The session of `c` has come at least as far as `c`.
  abbrev pub Seen : StateMachine b → Command → Type 0
  Seen m c =
      (s : SessionState) × (BTreeMap.get m.sessions c.session_id ≡ some s) × (c.seq ≤ s.last_seq)

  session-apply_fresh :
      (m : StateMachine b) (c : Command) (id : ℕ)
      → BTreeMap.get (apply_fresh b m c).0.sessions id ≡ (
          if c.session_id == 0
          then BTreeMap.get m.sessions id
          else if c.session_id == id
          then some (record { last_seq = c.seq; last_result = (apply_fresh b m c).1 })
          else BTreeMap.get m.sessions id)
  unfolding apply_fresh
  session-apply_fresh m c id = ground (
    arith,
    BTreeMap.get-insert c.session_id id
        (let r : SessionState = record { last_seq = c.seq; last_result = (apply_fresh b m c).1 } in
          r)
        m.sessions,
  )

  apply-Seen : (m : StateMachine b) (c : Command) → c.session_id ≢ 0 → Seen (apply b m c).0 c
  unfolding apply
  apply-Seen m c h = elim (Option-cases (BTreeMap.get m.sessions c.session_id)) [
    | inl unknown ↦ (
      record { last_seq = c.seq; last_result = (apply_fresh b m c).1 },
      ground (arith, unknown, session-apply_fresh m c c.session_id),
      omega arith,
    )
    | inr (s, known) ↦ elim (Bool-cases (ltb s.last_seq c.seq)) [
      | inl newer ↦ (
        record { last_seq = c.seq; last_result = (apply_fresh b m c).1 },
        ground (arith, known, session-apply_fresh m c c.session_id),
        omega arith,
      )
      | inr older ↦ (s, ground (arith, known), ground arith)
    ]
  ]

  apply-keeps-Seen : (m : StateMachine b) (c d : Command) → Seen m c → Seen (apply b m d).0 c
  unfolding apply
  apply-keeps-Seen m c d (s, known, le) =
      elim (Bool-cases
        (d.session_id == c.session_id && not (d.session_id == 0) && ltb s.last_seq d.seq)) [
          | inl moved ↦ (
            record { last_seq = d.seq; last_result = (apply_fresh b m d).1 },
            ground (arith, known, session-apply_fresh m d c.session_id),
            ground arith,
          )
          | inr still ↦ (s, ground (arith, known, session-apply_fresh m d c.session_id), le)
        ]

  apply_all-keeps-Seen :
      (m : StateMachine b) (c : Command) (ds : List Command)
      → Seen m c
      → Seen (apply_all b m ds).0 c
  unfolding apply_all
  apply_all-keeps-Seen m c [] h = h
  apply_all-keeps-Seen m c (d ∷ ds) h =
      apply_all-keeps-Seen (apply b m d).0 c ds (apply-keeps-Seen m c d h)

  apply_repeated :
      (m : StateMachine b) (c : Command) → c.session_id ≢ 0 → Seen m c → (apply b m c).0 ≡ m
  unfolding apply
  apply_repeated m c h (s, known, le) = ground (arith, known)

  -- A command of a session that was applied once changes nothing when it is applied again, whatever
  -- commands came in between.
  pub apply-apply_all :
      (m : StateMachine b) (c : Command) (between : List Command)
      → c.session_id ≢ 0
      → (apply b (apply_all b (apply b m c).0 between).0 c).0
        ≡ (apply_all b (apply b m c).0 between).0
  apply-apply_all m c between h =
      apply_repeated _ c h (apply_all-keeps-Seen (apply b m c).0 c between (apply-Seen m c h))

  -- An immediate retry of a session's command leaves the state that the first attempt left and
  -- returns the result that the first attempt returned, whether that one was fresh, a duplicate or
  -- stale.
  pub apply_retry :
      (m : StateMachine b) (c : Command)
      → c.session_id ≢ 0
      → apply b (apply b m c).0 c ≡ ((apply b m c).0, (apply b m c).1)
  unfolding apply
  apply_retry m c h = elim (Option-cases (BTreeMap.get m.sessions c.session_id)) [
    | inl unknown ↦ ground (arith, unknown, session-apply_fresh m c c.session_id)
    | inr (s, known) ↦ ground (arith, known, session-apply_fresh m c c.session_id)
  ]
